-- ===== src/Order/Http/Placement.antt =====
-- internal/order/port/http/handlers.go: PlaceOrder.
use scalable_e_commerce_plat.Base.{
  ℕ, String, Bool, true, false, not, ◌||◌, ◌&&◌, none, some, List, Result, ok, err, Error, ◌==◌,
  pos, leb_ℤ, new_error, idempotency_conflict, if◌then◌else◌,
}
use scalable_e_commerce_plat.Base.Words.{trim_space}
use scalable_e_commerce_plat.Response.{error_response, json_response}
use scalable_e_commerce_plat.Order.Model.{PlaceOrderReq, PlaceOrderLineReq}
use scalable_e_commerce_plat.Order.Http.{
  IdempotencyRecord, RecordCache, order_place, order_idempotency_duplicate, order_rate_limited,
  inventory_insufficient_stock, OrderHandler, Call, on_redis, on_tables, respond, raise_metric,
  copy_order,
}
use scalable_e_commerce_plat.Order.Http.Reasons.{
  order_placement_error_response, order_placement_metric_reason, handled_idempotency_metric,
}
use scalable_e_commerce_plat.Order.Http.Lines.{
  order_idempotency_redis_key, order_rate_limit_redis_key, order_request_fingerprint,
}

-- The four results of beginIdempotentOrder.
pub record Begun : Type 0 where
  pub cache_key : String
  pub acquired : Bool
  pub handled : Bool
  pub handled_reason : String

pub record Request : Type 0 where
  pub body : Result (List PlaceOrderLineReq)
  pub user_id : String
  pub idempotency_header : String

abbrev handled_by : String → String → Begun
handled_by key reason = record {
  cache_key = key;
  acquired = false;
  handled = true;
  handled_reason = reason;
}

module _ {T R F : Type 0} (h : OrderHandler T R F) where
  abbrev pub fail : ℕ → Error → String → Call T R F → Call T R F
  fail status e message = respond (error_response h.environment status e message)

  unfoldable pub allow_order_placement : String → Call T R F → Bool × Call T R F
  allow_order_placement user_id c = elim h.cache [
    | none ↦ (true, c)
    | some cache ↦
        if leb_ℤ h.rate_limit_limit (pos 0)
        then (true, c)
        else let (r, c1) =
            on_redis
              (cache.increment_with_expiration (order_rate_limit_redis_key user_id)
                h.rate_limit_window)
              c in
          elim r [
            | err e ↦ (true, c1)
            | ok count ↦ if leb_ℤ count h.rate_limit_limit then (true, c1) else (
              false,
              fail 429 (new_error "rate limited") "Too many requests"
                  (raise_metric (order_rate_limited "rate_limited") c1),
            )
          ]
  ]

  -- The record that another request has left under the key.
  unfoldable pub answer_duplicate :
      String → String → String → IdempotencyRecord → Call T R F → Begun × Call T R F
  answer_duplicate user_id fingerprint key found c =
      if not (found.fingerprint == fingerprint)
      then (
        handled_by key "duplicate_fingerprint_mismatch",
        raise_metric (order_idempotency_duplicate "fingerprint_mismatch")
            (fail 409 idempotency_conflict "Idempotency key conflict" c),
      )
      else if not (found.status == "succeeded") || found.order_id == ""
      then (
        handled_by key "duplicate_in_flight",
        raise_metric (order_idempotency_duplicate "in_flight") (
            fail 409 (new_error "duplicate request in progress") "Duplicate request in progress" c),
      )
      else let (r, c1) = on_tables (h.service.get_order_by_id found.order_id user_id) c in
        elim r [
          | err e ↦ (
            handled_by key "duplicate_order_lookup_failed",
            raise_metric (order_idempotency_duplicate "order_lookup_failed")
                (fail 409 e "Duplicate request" c1),
          )
          | ok order ↦ (
            handled_by key "duplicate_replay",
            raise_metric (order_idempotency_duplicate "replay")
                (respond (json_response 200 (copy_order order)) c1),
          )
        ]

  -- The part of beginIdempotentOrder that runs with a cache and a key.
  unfoldable pub begin_with :
      RecordCache R → String → String → String → Call T R F → Begun × Call T R F
  begin_with cache user_id fingerprint key c =
      let (r, c1) =
        on_redis
          (cache.setnx_with_expiration key
            (record { status = "processing"; order_id = ""; fingerprint = fingerprint })
            h.idempotency_ttl)
          c in
      elim r [
        | err e ↦ (handled_by key "idempotency_start_failed", fail 500 e "Something went wrong" c1)
        | ok acquired ↦
            if acquired
            then (
              record { cache_key = key; acquired = true; handled = false; handled_reason = "" },
              c1,
            )
            else let (r2, c2) = on_redis (cache.get key) c1 in
              elim r2 [
                | err e ↦ (
                  handled_by key "duplicate_lookup_failed",
                  raise_metric (order_idempotency_duplicate "lookup_failed")
                      (fail 409 e "Duplicate request" c2),
                )
                | ok found ↦ answer_duplicate user_id fingerprint key found c2
              ]
      ]

  unfoldable pub begin_idempotent_order : String → String → String → Call T R F → Begun × Call T R F
  begin_idempotent_order user_id idempotency_key fingerprint c =
      let unused : Begun = record {
        cache_key = "";
        acquired = false;
        handled = false;
        handled_reason = "";
      } in
      elim h.cache [
        | none ↦ (unused, c)
        | some cache ↦
            if idempotency_key == ""
            then (unused, c)
            else begin_with cache user_id fingerprint
                (order_idempotency_redis_key h.hash user_id idempotency_key) c
      ]

  -- An error of Redis is only logged.
  unfoldable pub complete_idempotent_order : String → String → String → Call T R F → Call T R F
  complete_idempotent_order key order_id fingerprint c = elim h.cache [
    | none ↦ c
    | some cache ↦
        if key == "" || order_id == ""
        then c
        else (on_redis
            (cache.set_with_expiration key
              (record { status = "succeeded"; order_id = order_id; fingerprint = fingerprint })
              h.idempotency_ttl)
            c).1
  ]

  unfoldable pub release_idempotency_on_failure : String → Call T R F → Call T R F
  release_idempotency_on_failure key c = elim h.cache [
    | none ↦ c
    | some cache ↦ if key == "" then c else (on_redis (cache.remove key) c).1
  ]

  -- The end of PlaceOrder, from the call of the service on.
  unfoldable pub finish_placement : String → PlaceOrderReq → Call T R F → Call T R F
  finish_placement key req c =
      let (r, c1) = on_tables (h.service.place_order req) c in
      elim r [
        | err e ↦
            let c2 = release_idempotency_on_failure key c1 in
            let (status, message) = order_placement_error_response e in
            let reason = order_placement_metric_reason e in
            let c3 =
              if reason == "insufficient_stock"
              then raise_metric inventory_insufficient_stock c2
              else c2 in
            fail status e message (raise_metric (order_place "failure" reason) c3)
        | ok order ↦
            let c2 = complete_idempotent_order key order.id req.idempotency_fingerprint c1 in
            let c3 =
              if order.idempotency_replay
              then raise_metric (order_place "duplicate" "durable_replay")
                  (raise_metric (order_idempotency_duplicate "durable_replay") c2)
              else raise_metric (order_place "success" "created") c2 in
            respond (json_response 200 (copy_order order)) c3
      ]

  -- PlaceOrder for a request that the rate limit lets pass.
  unfoldable pub place_allowed : Request → PlaceOrderReq → Call T R F → Call T R F
  place_allowed request req c =
      let (begun, c1) =
        begin_idempotent_order req.user_id (trim_space request.idempotency_header)
          req.idempotency_fingerprint c in
      if begun.handled
      then raise_metric (handled_idempotency_metric begun.handled_reason) c1
      else if not (begun.cache_key == "") && not begun.acquired
      then fail 409 (new_error "duplicate request") "Duplicate request"
          (raise_metric (order_place "failure" "duplicate_request") c1)
      else finish_placement begun.cache_key req c1

  module _ (encode : List PlaceOrderLineReq → String) where
    -- The request that the service is given; without a key both texts are empty.
    unfoldable pub service_request : Request → List PlaceOrderLineReq → PlaceOrderReq
    service_request request lines =
        let key = trim_space request.idempotency_header in
        record {
          user_id = request.user_id;
          idempotency_key_hash = if not (key == "") then h.hash key else "";
          idempotency_fingerprint =
              if not (key == "") then order_request_fingerprint h.hash encode lines else "";
          lines = lines;
        }

    unfoldable pub place_order : Request → Call T R F → Call T R F
    place_order request c = elim request.body [
      | err e ↦
          fail 400 e "Invalid parameters" (raise_metric (order_place "failure" "invalid_request") c)
      | ok lines ↦
          if request.user_id == ""
          then fail 401 (new_error "unauthorized") "Unauthorized"
              (raise_metric (order_place "failure" "unauthorized") c)
          else let (allowed, c1) = allow_order_placement request.user_id c in
            if allowed
            then place_allowed request (service_request request lines) c1
            else raise_metric (order_place "failure" "rate_limited") c1
    ]
