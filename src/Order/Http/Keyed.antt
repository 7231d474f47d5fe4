-- ===== src/Order/Http/Keyed.antt =====
-- internal/order/port/http/handlers.go: what PlaceOrder comes to for a request with an idempotency key.
use scalable_e_commerce_plat.Base.{
  ℕ, String, ◌≡◌, ◌⊎◌, inl, inr, Bool, true, false, Option, none, some, ◌∷◌, ok, err, Error, Action,
  ◌==◌, arith, Bool-cases, Result-cases, subst,
}
use scalable_e_commerce_plat.Base.Words.{trim_space}
use scalable_e_commerce_plat.Order.Http.Lines.{
  order_idempotency_redis_key, order_idempotency_redis_key_lem,
}
use scalable_e_commerce_plat.Response.{json_response}
use scalable_e_commerce_plat.Order.Model.{Order, PlaceOrderReq}
use scalable_e_commerce_plat.Order.Http.{
  IdempotencyRecord, RecordCache, OrderHandler, Call, copy_order, Metric, raise_metric,
}
use scalable_e_commerce_plat.Order.Http.Reasons.{
  order_placement_error_response, handled_idempotency_metric,
}
use scalable_e_commerce_plat.Order.Http.Placement.{
  Begun, Request, answer_duplicate, begin_with, begin_idempotent_order, complete_idempotent_order,
  release_idempotency_on_failure, finish_placement, place_allowed,
}
use scalable_e_commerce_plat.Order.Http.Slot.{
  IsRecordCache, processing, succeeded, IsReplied, mismatch, in_flight, replayed, unreadable,
  failing, answer_duplicate-IsReplied,
}

module _ {T R F : Type 0} (at : R → String → Option IdempotencyRecord) (faulty : Bool)
    (h : OrderHandler T R F) (cache : RecordCache R) where
  -- The record is closed, or the last call of Redis, `close`, has reported an error.
  abbrev IsClosed : String → Option IdempotencyRecord → Action R (Unit {0}) → Call T R F → Type 0
  IsClosed key slot close c' =
      (at c'.redis key ≡ slot)
      ⊎ ((r : R) × (e : Error) × (close r ≡ (err e, c'.redis)) × (faulty ≡ true))

  -- Redis has reported this error to SetNX or to Get, the last call of it.
  abbrev IsReported : String → PlaceOrderReq → Error → Call T R F → Type 0
  IsReported key req e c' =
      (r : R) × ((cache.setnx_with_expiration key (processing req.idempotency_fingerprint)
            h.idempotency_ttl r
          ≡ (err e, c'.redis))
        ⊎ (cache.get key r ≡ (err e, c'.redis)))

  abbrev completing : String → Order F → PlaceOrderReq → Action R (Unit {0})
  completing key order req =
      cache.set_with_expiration key (succeeded order.id req.idempotency_fingerprint)
        h.idempotency_ttl

  pub data KeyedEnd (key : String) (req : PlaceOrderReq) (c c' : Call T R F) : Type 0 where
    unavailable :
        (status : ℕ) (e : Error) (message : String)
        → faulty ≡ true
        → IsReported key req e c'
        → c'.tables ≡ c.tables
        → c'.responses ≡ failing at faulty h status e message ∷ c.responses
        → KeyedEnd key req c c'
    repeated :
        (found : IdempotencyRecord)
        → at c.redis key ≡ some found
        → at c'.redis key ≡ some found
        → IsReplied at faulty h req.user_id req.idempotency_fingerprint found c.tables c.responses
            c'
        → KeyedEnd key req c c'
    placed :
        (order : Order F)
        → at c.redis key ≡ none
        → (h.service.place_order req c.tables).0 ≡ ok order
        → c'.tables ≡ (h.service.place_order req c.tables).1
        → c'.responses ≡ json_response 200 (copy_order order) ∷ c.responses
        → (order.id == "") ≡ true
          ⊎ IsClosed key
              (some (succeeded order.id req.idempotency_fingerprint))
              (completing key order req)
              c'
        → KeyedEnd key req c c'
    failed :
        (e : Error)
        → at c.redis key ≡ none
        → (h.service.place_order req c.tables).0 ≡ err e
        → c'.tables ≡ (h.service.place_order req c.tables).1
        → c'.responses
          ≡ (let (status, message) = order_placement_error_response e in
              failing at faulty h status e message)
            ∷ c.responses
        → IsClosed key none (cache.remove key) c'
        → KeyedEnd key req c c'

  -- A counter that is raised changes no answer.
  KeyedEnd-raise_metric :
      (key : String) (req : PlaceOrderReq) (c c' : Call T R F) (m : Metric)
      → KeyedEnd key req c c'
      → KeyedEnd key req c (raise_metric m c')
  KeyedEnd-raise_metric key req c c' m (unavailable status e message f g t r) =
      unavailable status e message f g t r
  KeyedEnd-raise_metric key req c c' m (repeated found a b (mismatch x t r)) =
      repeated found a b (mismatch x t r)
  KeyedEnd-raise_metric key req c c' m (repeated found a b (in_flight x y t r)) =
      repeated found a b (in_flight x y t r)
  KeyedEnd-raise_metric key req c c' m (repeated found a b (replayed order x y t r)) =
      repeated found a b (replayed order x y t r)
  KeyedEnd-raise_metric key req c c' m (repeated found a b (unreadable e x y t r)) =
      repeated found a b (unreadable e x y t r)
  KeyedEnd-raise_metric key req c c' m (placed order a e t r d) = placed order a e t r d
  KeyedEnd-raise_metric key req c c' m (failed e a x t r d) = failed e a x t r d

  module _ (on : h.cache ≡ some cache) (laws : IsRecordCache at faulty cache) where
    complete_idempotent_order_lem :
        (key order_id fingerprint : String) (c : Call T R F)
        → (key == "") ≡ false
        → let c' = complete_idempotent_order h key order_id fingerprint c in
          (c'.tables ≡ c.tables)
          × (c'.responses ≡ c.responses)
          × ((order_id == "") ≡ true
              ⊎ IsClosed key
                  (some (succeeded order_id fingerprint))
                  (cache.set_with_expiration key (succeeded order_id fingerprint) h.idempotency_ttl)
                  c')
    unfolding complete_idempotent_order
    complete_idempotent_order_lem key order_id fingerprint c k =
        elim (Bool-cases (order_id == "")) [
          | inl u ↦ (ground (arith, on, k, u), ground (arith, on, k, u), inl u)
          | inr u ↦ (
            ground (arith, on, k, u),
            ground (arith, on, k, u),
            inr
                (elim (laws.set_lem key (succeeded order_id fingerprint) h.idempotency_ttl
                  c.redis) [
                    | inl (e, held) ↦ inl (ground (arith, on, k, u, held))
                    | inr (x, e, f) ↦ inr (c.redis, x, ground (arith, on, k, u, e), f)
                  ]),
          )
        ]

    release_idempotency_on_failure_lem :
        (key : String) (c : Call T R F)
        → (key == "") ≡ false
        → let c' = release_idempotency_on_failure h key c in
          (c'.tables ≡ c.tables)
          × (c'.responses ≡ c.responses)
          × IsClosed key none (cache.remove key) c'
    unfolding release_idempotency_on_failure
    release_idempotency_on_failure_lem key c k = (
      ground (arith, on, k),
      ground (arith, on, k),
      elim (laws.remove_lem key c.redis) [
        | inl (e, held) ↦ inl (ground (arith, on, k, held))
        | inr (x, e, f) ↦ inr (c.redis, x, ground (arith, on, k, e), f)
      ],
    )

    finish_placement-KeyedEnd :
        (key : String) (req : PlaceOrderReq) (c : Call T R F) (r : R)
        → (key == "") ≡ false
        → at c.redis key ≡ none
        → KeyedEnd key req c (finish_placement h key req (record c { redis = r }))
    unfolding finish_placement
    finish_placement-KeyedEnd key req c r k free =
        let (answer, s') = h.service.place_order req c.tables in
        let after : Call T R F = record c { tables = s'; redis = r } in
        elim (Result-cases answer) [
          | inl (order, e) ↦
              let (u, v, w) =
                complete_idempotent_order_lem key order.id req.idempotency_fingerprint after k in
              placed order free e (ground (arith, e, u)) (ground (arith, e, v))
                (ground (arith, e, w))
          | inr (x, e) ↦
              let (u, v, w) = release_idempotency_on_failure_lem key after k in
              failed x free e (ground (arith, e, u)) (ground (arith, e, v)) (ground (arith, e, w))
        ]

    begin_with-KeyedEnd :
        (key : String) (req : PlaceOrderReq) (c : Call T R F)
        → let (begun, c1) = begin_with h cache req.user_id req.idempotency_fingerprint key c in
          ((begun.handled ≡ true) × KeyedEnd key req c c1)
          ⊎ ((begun.handled ≡ false)
              × (begun.acquired ≡ true)
              × (begun.cache_key ≡ key)
              × (at c.redis key ≡ none)
              × ((r : R) × (c1 ≡ record c { redis = r })))
    unfolding begin_with
    begin_with-KeyedEnd key req c =
        let taken = processing req.idempotency_fingerprint in
        let r1 = (cache.setnx_with_expiration key taken h.idempotency_ttl c.redis).1 in
        elim (laws.setnx_lem key taken h.idempotency_ttl c.redis) [
          | inl (e, free, now) ↦ inr (
            ground (arith, e),
            ground (arith, e),
            ground (arith, e),
            free,
            (r1, ground (arith, e)),
          )
          | inr (inr (x, e, f)) ↦ inl (
            ground (arith, e),
            unavailable 500 x "Something went wrong" f (c.redis, inl (ground (arith, e)))
                (ground (arith, e)) (ground (arith, e)),
          )
          | inr (inl (old, e, was, now)) ↦ elim (laws.get_lem key r1) [
            | inl (found, g, was', now') ↦
                let c2 : Call T R F = record c { redis = (cache.get key r1).1 } in
                let (said, kept, done) =
                  answer_duplicate-IsReplied at faulty h req.user_id req.idempotency_fingerprint key
                    found c2 in
                let same : answer_duplicate h req.user_id req.idempotency_fingerprint key found c2
                    ≡ begin_with h cache req.user_id req.idempotency_fingerprint key c =
                  ground (arith, e, g) in
                inl (
                  subst (λ (x : Begun × Call T R F). (x.0.handled ≡ true) × KeyedEnd key req c x.1)
                    same
                    (
                      done,
                      repeated found (ground (arith, was, was', now)) (ground (arith, kept, now'))
                          said,
                    ))
            | inr (inl (x, g, f)) ↦ inl (
              ground (arith, e, g),
              unavailable 409 x "Duplicate request" f (r1, inr (ground (arith, e, g)))
                  (ground (arith, e, g)) (ground (arith, e, g)),
            )
            | inr (inr (x, g, gone)) ↦ absurd (ground (arith, now, gone))
          ]
        ]

    -- A request with an idempotency key, with a Redis that does what its commands document or
    -- reports an error, comes to one of four ends. Redis reported an error to SetNX or Get, no
    -- table has changed and that error is answered. Or the key is held by a record, which stays,
    -- and the service is asked for an order at most: the answer is a conflict, or the order on
    -- record where the fingerprint is the record's. Or the key was free and the service places the
    -- order: 200 is answered and the record names the order, unless the order has no id or Redis
    -- reported an error to the last call, which writes the record. Or the key was free and the
    -- service refuses: the error is answered by its status, and the key is free again, unless Redis
    -- reported an error to the last call, which removes the record.
    pub place_allowed-KeyedEnd :
        (request : Request) (req : PlaceOrderReq) (c : Call T R F)
        → let key =
            order_idempotency_redis_key h.hash req.user_id
              (trim_space request.idempotency_header) in
          (trim_space request.idempotency_header == "") ≡ false
          → KeyedEnd key req c (place_allowed h request req c)
    unfolding place_allowed begin_idempotent_order
    place_allowed-KeyedEnd request req c k =
        let key =
          order_idempotency_redis_key h.hash req.user_id (trim_space request.idempotency_header) in
        let begun = begin_with h cache req.user_id req.idempotency_fingerprint key c in
        let filled =
          order_idempotency_redis_key_lem h.hash req.user_id
            (trim_space request.idempotency_header) in
        elim (begin_with-KeyedEnd key req c) [
          | inl (done, after) ↦ subst (KeyedEnd key req c) (ground (arith, on, k, done)) (
              KeyedEnd-raise_metric key req c begun.1
                (handled_idempotency_metric begun.0.handled_reason) after)
          | inr (handled, acquired, same, free, (r, e)) ↦
              subst (KeyedEnd key req c) (ground (arith, on, k, handled, acquired, same, e, filled))
                (finish_placement-KeyedEnd key req c r filled free)
        ]
