-- ===== src/Order/Http/Once.antt =====
-- internal/order/port/http/handlers.go: PlaceOrder answers a request once, and counts it once.
use scalable_e_commerce_plat.Base.{
  ℕ, suc, ◌+◌, String, ◌≡◌, inl, inr, Bool, true, false, not, ◌||◌, List, [], ◌∷◌, ◌==◌, arith,
  Bool-cases, Result-cases, Option-cases, length,
}
use scalable_e_commerce_plat.Base.Words.{trim_space}
use scalable_e_commerce_plat.Order.Http.Lines.{order_idempotency_redis_key}
use scalable_e_commerce_plat.Order.Http.Slot.{processing}
use scalable_e_commerce_plat.Order.Model.{PlaceOrderReq, PlaceOrderLineReq}
use scalable_e_commerce_plat.Order.Http.{
  IdempotencyRecord, RecordCache, OrderHandler, Call, Metric, order_place,
  order_idempotency_duplicate, order_rate_limited, inventory_insufficient_stock,
}
use scalable_e_commerce_plat.Order.Http.Reasons.{handled_idempotency_metric}
use scalable_e_commerce_plat.Order.Http.Placement.{
  Request, allow_order_placement, answer_duplicate, begin_with, begin_idempotent_order,
  complete_idempotent_order, release_idempotency_on_failure, finish_placement, place_allowed,
  place_order, service_request,
}

-- How often RecordOrderPlace was called.
abbrev pub places : List Metric → ℕ
places [] = 0
places (order_place status reason ∷ ms) = suc (places ms)
places (order_idempotency_duplicate reason ∷ ms) = places ms
places (order_rate_limited reason ∷ ms) = places ms
places (inventory_insufficient_stock ∷ ms) = places ms

module _ {T R F : Type 0} (h : OrderHandler T R F) where
  -- `n` responses and `m` counted placements more.
  abbrev pub Adds : ℕ → ℕ → Call T R F → Call T R F → Type 0
  Adds n m c c' =
      (length c'.responses ≡ n + length c.responses) × (places c'.metrics ≡ m + places c.metrics)

  abbrev answers : Bool → ℕ
  answers true = 0
  answers false = 1

  allow_order_placement-Adds :
      (user_id : String) (c : Call T R F)
      → let (allowed, c1) = allow_order_placement h user_id c in Adds (answers allowed) 0 c c1
  unfolding allow_order_placement
  allow_order_placement-Adds user_id c = ground arith

  answer_duplicate-Adds :
      (user_id fingerprint key : String) (found : IdempotencyRecord) (c : Call T R F)
      → let (begun, c1) = answer_duplicate h user_id fingerprint key found c in
        (begun.handled ≡ true) × Adds 1 0 c c1
  unfolding answer_duplicate
  answer_duplicate-Adds user_id fingerprint key found c = ground arith

  begin_with-Adds :
      (cache : RecordCache R) (user_id fingerprint key : String) (c : Call T R F)
      → let (begun, c1) = begin_with h cache user_id fingerprint key c in
        Adds (answers (not begun.handled)) 0 c c1 × ((begun.handled || begun.acquired) ≡ true)
  unfolding begin_with
  begin_with-Adds cache user_id fingerprint key c =
      let taken = processing fingerprint in
      let (answer, r1) = cache.setnx_with_expiration key taken h.idempotency_ttl c.redis in
      let (got, r2) = cache.get key r1 in
      elim (Result-cases answer) [
        | inr (x, e) ↦ ground (arith, e)
        | inl (acquired, e) ↦ elim (Bool-cases acquired) [
          | inl t ↦ ground (arith, e, t)
          | inr t ↦ elim (Result-cases got) [
            | inr (x, f) ↦ ground (arith, e, t, f)
            | inl (found, f) ↦ ground (
              arith,
              e,
              t,
              f,
              answer_duplicate-Adds user_id fingerprint key found (record c { redis = r2 }),
            )
          ]
        ]
      ]

  complete_idempotent_order-Adds :
      (key order_id fingerprint : String) (c : Call T R F)
      → Adds 0 0 c (complete_idempotent_order h key order_id fingerprint c)
  unfolding complete_idempotent_order
  complete_idempotent_order-Adds key order_id fingerprint c = ground arith

  release_idempotency_on_failure-Adds :
      (key : String) (c : Call T R F) → Adds 0 0 c (release_idempotency_on_failure h key c)
  unfolding release_idempotency_on_failure
  release_idempotency_on_failure-Adds key c = ground arith

  finish_placement-Adds :
      (key : String) (req : PlaceOrderReq) (c : Call T R F)
      → Adds 1 1 c (finish_placement h key req c)
  unfolding finish_placement
  finish_placement-Adds key req c =
      let (answer, s') = h.service.place_order req c.tables in
      let after : Call T R F = record c { tables = s' } in
      elim (Result-cases answer) [
        | inl (order, e) ↦ ground (
          arith,
          e,
          complete_idempotent_order-Adds key order.id req.idempotency_fingerprint after,
        )
        | inr (x, e) ↦ ground (arith, e, release_idempotency_on_failure-Adds key after)
      ]

  handled_places :
      (reason : String) (ms : List Metric)
      → places (handled_idempotency_metric reason ∷ ms) ≡ suc (places ms)
  unfolding handled_idempotency_metric
  handled_places reason ms = ground arith

  place_allowed-Adds :
      (request : Request) (req : PlaceOrderReq) (c : Call T R F)
      → Adds 1 1 c (place_allowed h request req c)
  unfolding place_allowed begin_idempotent_order
  place_allowed-Adds request req c =
      let key = trim_space request.idempotency_header in
      elim (Option-cases h.cache) [
        | inl e ↦ ground (arith, e, finish_placement-Adds "" req c)
        | inr (cache, e) ↦ elim (Bool-cases (key == "")) [
          | inl t ↦ ground (arith, e, t, finish_placement-Adds "" req c)
          | inr t ↦
              let redis_key = order_idempotency_redis_key h.hash req.user_id key in
              let (begun, c1) =
                begin_with h cache req.user_id req.idempotency_fingerprint redis_key c in
              ground (
                arith,
                e,
                t,
                begin_with-Adds cache req.user_id req.idempotency_fingerprint redis_key c,
                handled_places begun.handled_reason c1.metrics,
                finish_placement-Adds begun.cache_key req c1,
              )
        ]
      ]

  -- PlaceOrder of the handler writes exactly one response and records exactly one placement metric,
  -- whatever the request, Redis and the service answer.
  pub place_order-Adds :
      (encode : List PlaceOrderLineReq → String) (request : Request) (c : Call T R F)
      → Adds 1 1 c (place_order h encode request c)
  unfolding place_order
  place_order-Adds encode request c = elim (Result-cases request.body) [
    | inr (x, e) ↦ ground (arith, e)
    | inl (lines, e) ↦
        let (allowed, c1) = allow_order_placement h request.user_id c in
        ground (
          arith,
          e,
          allow_order_placement-Adds request.user_id c,
          place_allowed-Adds request (service_request h encode request lines) c1,
        )
  ]
