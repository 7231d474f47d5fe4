-- ===== src/Order/Http/Retry.antt =====
-- internal/order/port/http/handlers.go: a request that is sent again with its idempotency key.
use scalable_e_commerce_plat.Base.{
  String, ◌≡◌, ◌⊎◌, inl, inr, true, false, Option, none, some, ◌∷◌, Result, ok, err, Error, ◌==◌,
  arith, eq_iff, ap, sym, ◌∙◌,
}
use scalable_e_commerce_plat.Base.Words.{trim_space}
use scalable_e_commerce_plat.Response.{Response, json_response}
use scalable_e_commerce_plat.Order.Model.{Order, PlaceOrderReq}
use scalable_e_commerce_plat.Order.Http.{
  IdempotencyRecord, OrderRes, RecordCache, OrderHandler, Call, copy_order,
}
use scalable_e_commerce_plat.Order.Http.Lines.{order_idempotency_redis_key}
use scalable_e_commerce_plat.Order.Http.Placement.{Request, place_allowed}
use scalable_e_commerce_plat.Order.Http.Slot.{
  IsRecordCache, succeeded, mismatch, in_flight, replayed, unreadable, failing,
}
use scalable_e_commerce_plat.Order.Http.Keyed.{
  KeyedEnd, unavailable, repeated, placed, failed, place_allowed-KeyedEnd,
}

module _ {T R F : Type 0} (at : R → String → Option IdempotencyRecord) (h : OrderHandler T R F)
    (cache : RecordCache R) (on : h.cache ≡ some cache) (laws : IsRecordCache at false cache)
    (request : Request) (req : PlaceOrderReq) where
  abbrev pub key : String
  key = order_idempotency_redis_key h.hash req.user_id (trim_space request.idempotency_header)

  -- What a repetition is answered, by the lookup of the order.
  abbrev pub replay : Result (Order F) → Response (OrderRes F)
  replay (ok order) = json_response 200 (copy_order order)
  replay (err e) = failing at false h 409 e "Duplicate request"

  module _ (c : Call T R F) where
    abbrev pub first : Call T R F
    first = place_allowed h request req c

    abbrev pub second : Call T R F
    second = place_allowed h request req first

    abbrev pub lookup : String → Result (Order F) × T
    lookup order_id = h.service.get_order_by_id order_id req.user_id first.tables

    abbrev pub IsReplay : String → Type 0
    IsReplay order_id =
        (second.tables ≡ (lookup order_id).1)
        × (second.responses ≡ replay (lookup order_id).0 ∷ first.responses)

    answered :
        (order_id : String) (r : Result (Order F))
        → lookup order_id ≡ (r, second.tables)
        → second.responses ≡ replay r ∷ first.responses
        → IsReplay order_id
    answered order_id r e said = (
      sym (ap (λ x. x.1) e),
      said ∙ ap (λ (x : Result (Order F) × T). replay x.0 ∷ first.responses) (sym e),
    )

    second_after_success :
        (order_id : String)
        → at first.redis key ≡ some (succeeded order_id req.idempotency_fingerprint)
        → (order_id == "") ≡ false
        → KeyedEnd at false h cache key req first second
        → IsReplay order_id
    second_after_success order_id was filled (unavailable status e message f g t r) = cc f
    second_after_success order_id was filled (repeated found a b said) =
        let same : found ≡ succeeded order_id req.idempotency_fingerprint =
          ground (arith, a, was) in
        let id : found.order_id ≡ order_id = ap (λ x. x.order_id) same in
        let print : (found.fingerprint == req.idempotency_fingerprint) ≡ true =
          (eq_iff _ _).1 (ap (λ x. x.fingerprint) same) in
        let done : (found.status == "succeeded") ≡ true =
          (eq_iff _ _).1 (ap (λ x. x.status) same) in
        let named : (found.order_id == "") ≡ false = ap (λ x. x == "") id ∙ filled in
        elim said [
          | mismatch x t r ↦ absurd (ground (arith, x, print))
          | in_flight x y t r ↦ absurd (ground (arith, y, done, named))
          | replayed o x y t r ↦ answered order_id (ok o) (ap lookup (sym id) ∙ t) r
          | unreadable e x y t r ↦ answered order_id (err e) (ap lookup (sym id) ∙ t) r
        ]
    second_after_success order_id was filled (placed o a e t r d) = absurd (ground (arith, a, was))
    second_after_success order_id was filled (failed e a x t r d) = absurd (ground (arith, a, was))

    second_after_failure :
        at first.redis key ≡ none
        → KeyedEnd at false h cache key req first second
        → second.tables ≡ (h.service.place_order req first.tables).1
    second_after_failure free (unavailable status e message f g t r) = cc f
    second_after_failure free (repeated found a b said) = absurd (ground (arith, a, free))
    second_after_failure free (placed o a e t r d) = t
    second_after_failure free (failed e a x t r d) = t

    -- With a Redis that reports no error, the first request with a free idempotency key reaches the
    -- service. If the service places an order with an id, the same request sent again is answered
    -- by the lookup of that order: 200 with the order, or 409 where the lookup fails. If the
    -- service refuses, the same request sent again reaches the service again.
    pub place_allowed-place_allowed :
        (trim_space request.idempotency_header == "") ≡ false
        → at c.redis key ≡ none
        → (first.tables ≡ (h.service.place_order req c.tables).1)
          × (((order : Order F) × ((h.service.place_order req c.tables).0 ≡ ok order)
                × ((order.id == "") ≡ false → IsReplay order.id))
              ⊎ ((e : Error) × ((h.service.place_order req c.tables).0 ≡ err e)
                  × (second.tables ≡ (h.service.place_order req first.tables).1)))
    place_allowed-place_allowed k free =
        let again = place_allowed-KeyedEnd at false h cache on laws request req first k in
        elim (place_allowed-KeyedEnd at false h cache on laws request req c k) [
          | unavailable status e message f g t r ↦ cc f
          | repeated found a b said ↦ absurd (ground (arith, a, free))
          | placed order a e t r d ↦ (
            t,
            inl (
              order,
              e,
              λ filled. second_after_success order.id (ground (arith, filled, d)) filled again,
            ),
          )
          | failed x a e t r d ↦ (t, inr (x, e, second_after_failure (ground (arith, d)) again))
        ]
