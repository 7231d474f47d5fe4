-- ===== src/Order/Outcome.antt =====
-- What PlaceOrder comes to, whatever its branch: a placement, a replay, or a refusal.
use scalable_e_commerce_plat.Base.{
  ◌≤◌, ◌≡◌, ◌↔◌, All-weaken, refl, true, List, [], ◌∷◌, some, Result, ok, err, Error, arith, inl,
  inr, subst, Result-cases, Bool-cases, engine, other, idempotency_conflict, ◌⊎◌, All,
}
use scalable_e_commerce_plat.Dbs.{Engine}
use scalable_e_commerce_plat.Store.{Tables}
use scalable_e_commerce_plat.Validation.{Validation}
use scalable_e_commerce_plat.Money.{Floats}
use scalable_e_commerce_plat.Inventory.Stock.{IsSound}
use scalable_e_commerce_plat.Order.Model.{Order, PlaceOrderReq, PlaceOrderLineReq}
use scalable_e_commerce_plat.Order.Plan.{validate_order_quantities}
use scalable_e_commerce_plat.Order.Placed.{IsPlaced, place_within-IsPlaced}
use scalable_e_commerce_plat.Order.Replay.{
  keyed_order, loaded, replay_idempotent_order-ok, replay_idempotent_order_reads,
}
use scalable_e_commerce_plat.Order.Service.{
  Env, same_fingerprint, replay_idempotent_order, is_idempotency_duplicate, is_order_not_found,
  place_within, place_new, place_order, has_idempotency, lacks_idempotency,
}

-- The quantities of an order are accepted exactly when each is at least 1 and at most 1000000.
pub validate_order_quantities_iff :
    (lines : List PlaceOrderLineReq)
    → (validate_order_quantities lines ≡ ok tt)
      ↔ All (λ line. (1 ≤ line.quantity) × (line.quantity ≤ 1000000)) lines
unfolding validate_order_quantities
validate_order_quantities_iff [] = (λ e. tt, λ h. refl)
validate_order_quantities_iff (line ∷ lines) =
    let (f, g) = validate_order_quantities_iff lines in
    (
      λ e. ((ground (arith, e), ground (arith, e)), f (ground (arith, e))),
      λ h. ground (arith, h.0, g h.1),
    )

module _ (fl : Floats) where
  -- `order` is the order on record under the key of a request, with the same fingerprint.
  abbrev pub IsReplay : PlaceOrderReq → Tables fl.Float → Order fl.Float → Type 0
  IsReplay req s order =
      (row : Order fl.Float) × (keyed_order s req.user_id req.idempotency_key_hash ≡ some row)
      × (same_fingerprint row.idempotency_fingerprint req.idempotency_fingerprint ≡ true)
      × (order ≡ record (loaded s row) { idempotency_replay = true })

  module _ (v : Validation) (db : Engine) (env : Env fl.Float) where
    -- The tables as a call that writes nothing leaves them.
    abbrev pub IsUntouched : Tables fl.Float → Tables fl.Float → Type 0
    IsUntouched s x = (x ≡ s) ⊎ (x ≡ env.others s)

    pub data Outcome (req : PlaceOrderReq) (s : Tables fl.Float)
        (out : Result (Order fl.Float) × Tables fl.Float) : Type 0 where
      placed :
          (order : Order fl.Float)
          → out.0 ≡ ok order
          → IsPlaced fl v db env req (env.others s) order out.1
          → Outcome req s out
      replayed :
          (order : Order fl.Float) (x : Tables fl.Float)
          → IsUntouched s x
          → out ≡ (ok order, x)
          → IsReplay req x order
          → Outcome req s out
      refused :
          (e : Error) (x : Tables fl.Float) → IsUntouched s x → out ≡ (err e, x) → Outcome req s out

    replay-Outcome :
        (req : PlaceOrderReq) (s x : Tables fl.Float)
        → IsUntouched s x
        → Outcome req s (replay_idempotent_order fl v db env req x)
    replay-Outcome req s x u = elim (Result-cases (replay_idempotent_order fl v db env req x).0) [
      | inl (order, e) ↦
          replayed order x u (λ i. (e i, replay_idempotent_order_reads fl v db env req x i))
            (replay_idempotent_order-ok fl v db env req x order e)
      | inr (n, e) ↦ refused n x u (λ i. (e i, replay_idempotent_order_reads fl v db env req x i))
    ]

    place_new-Outcome :
        (req : PlaceOrderReq) (s : Tables fl.Float)
        → All (λ line. 1 ≤ line.quantity) req.lines
        → IsSound (env.others s).inventories
        → Outcome req s (place_new fl v db env req s)
    unfolding place_new
    place_new-Outcome req s p h =
        let x = env.others s in
        let body = place_within fl v db env req in
        elim (db.transaction_settles (Tables fl.Float) (Order fl.Float) body x) [
          | inr (n, e) ↦ refused (engine (other n)) x (inr refl) (ground (arith, e))
          | inl e ↦ elim (Result-cases (body x).0) [
            | inl (order, f) ↦ placed order (ground (arith, e, f)) (
                subst (IsPlaced fl v db env req x order) (ground (arith, e, f))
                  (place_within-IsPlaced fl v db env req x order p h f))
            | inr (c, f) ↦ elim (Bool-cases (is_idempotency_duplicate c)) [
              | inl t ↦
                  subst (Outcome req s) (ground (arith, e, f, t))
                    (replay-Outcome req s x (inr refl))
              | inr t ↦ refused c x (inr refl) (ground (arith, e, f, t))
            ]
          ]
        ]

    -- Where the inventory rows are sound when its transaction starts, PlaceOrder comes to one of
    -- three ends. It places the order, on the tables as other sessions have left them when its
    -- transaction starts: every product's recorded stock falls by exactly what the request asks of
    -- it and stays within bounds, the total is the exact sum of prices times quantities and fits
    -- int64, and exactly the order row, its numbered lines and one pending order.created event are
    -- appended. Or it answers the order on record under the request's key and fingerprint, with the
    -- replay flag, and writes nothing. Or it reports an error and writes nothing.
    pub place_order-Outcome :
        (req : PlaceOrderReq) (s : Tables fl.Float)
        → IsSound (env.others s).inventories
        → Outcome req s (place_order fl v db env req s)
    unfolding place_order
    place_order-Outcome req s h = elim (Result-cases (validate_order_quantities req.lines)) [
      | inr (c, a) ↦ refused c s (inl refl) (ground (arith, a))
      | inl (u, a) ↦ elim (Result-cases (v.place_order req)) [
        | inr (c, b) ↦ refused c s (inl refl) (ground (arith, a, b))
        | inl (u', b) ↦
            let new =
              place_new-Outcome req s
                (All-weaken _ _ req.lines (λ line q. q.0)
                  ((validate_order_quantities_iff req.lines).0 a))
                h in
            elim (Bool-cases (has_idempotency fl v db env req)) [
              | inr t ↦ subst (Outcome req s) (ground (arith, a, b, t)) new
              | inl t ↦ elim (Bool-cases (lacks_idempotency fl v db env req)) [
                | inl l ↦ refused idempotency_conflict s (inl refl) (ground (arith, a, b, t, l))
                | inr l ↦
                    let same = replay_idempotent_order_reads fl v db env req s in
                    elim (Result-cases (replay_idempotent_order fl v db env req s).0) [
                      | inl (order, f) ↦
                          replayed order s (inl refl) (ground (arith, a, b, t, l, f, same))
                            (replay_idempotent_order-ok fl v db env req s order f)
                      | inr (c, f) ↦ elim (Bool-cases (is_order_not_found c)) [
                        | inl g ↦ subst (Outcome req s) (ground (arith, a, b, t, l, f, g, same)) new
                        | inr g ↦ refused c s (inl refl) (ground (arith, a, b, t, l, f, g, same))
                      ]
                    ]
              ]
            ]
      ]
    ]
