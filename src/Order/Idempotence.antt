-- ===== src/Order/Idempotence.antt =====
-- A request to place an order that is sent twice with its idempotency key.
use scalable_e_commerce_plat.Base.{
  ℕ, ◌≡◌, refl, Bool, true, false, ◌&&◌, List, [], ◌∷◌, ◌++◌, none, some, ok, err, ◌==◌, eq_iff,
  arith, inl, inr, sym, subst, ap, ◌∙◌, Result-cases, pos, engine, other, ◌⊎◌,
}
use scalable_e_commerce_plat.Dbs.{Engine}
use scalable_e_commerce_plat.Dbs.Rows.{first_where}
use scalable_e_commerce_plat.Store.{Tables}
use scalable_e_commerce_plat.Validation.{Validation}
use scalable_e_commerce_plat.Money.{Floats}
use scalable_e_commerce_plat.Inventory.Stock.{IsSound}
use scalable_e_commerce_plat.Order.Model.{Order, PlaceOrderReq, before_create}
use scalable_e_commerce_plat.Order.Plan.{validate_order_quantities}
use scalable_e_commerce_plat.Order.Repository.{has_key}
use scalable_e_commerce_plat.Order.Placed.{IsPlaced}
use scalable_e_commerce_plat.Order.Requested.{price_of_request}
use scalable_e_commerce_plat.Order.Replay.{keyed_order, loaded, replay_answer, place_order_replays}
use scalable_e_commerce_plat.Order.Outcome.{placed, replayed, refused, place_order-Outcome}
use scalable_e_commerce_plat.Order.Service.{Env, new_order, place_order}

first_where-append :
    {R : Type 0} (p : R → Bool) (rows : List R) (row : R)
    → first_where p rows ≡ none
    → p row ≡ true
    → first_where p (rows ++ (row ∷ [])) ≡ some row
first_where-append p [] row e t = ground (arith, t)
first_where-append p (r ∷ rows) row e t = ground (arith, e, first_where-append p rows row, t)

module _ (fl : Floats) (v : Validation) (db : Engine) (env : Env fl.Float) where
  -- The second answer is the order of the first, marked as a replay.
  pub record IsSame (order order' : Order fl.Float) : Type 0 where
    pub id : order'.id ≡ order.id
    pub owner : order'.user_id ≡ order.user_id
    pub total : order'.total_price ≡ order.total_price
    pub replay : order'.idempotency_replay ≡ true

  abbrev placed_row : PlaceOrderReq → Tables fl.Float → Order fl.Float
  placed_row req x =
      before_create env.order_id env.order_code
        (new_order fl v db env req (pos (price_of_request fl x req.lines)))

  -- The replay of that order answers it.
  IsPlaced-replay_answer :
      (req : PlaceOrderReq) (x s' : Tables fl.Float)
      → (req.idempotency_key_hash == "") ≡ false
      → replay_answer s' (placed_row req x) req.idempotency_fingerprint
        ≡ ok (record (loaded s' (placed_row req x)) { idempotency_replay = true })
  unfolding new_order before_create
  IsPlaced-replay_answer req x s' k =
      ground (arith, k, eq_iff req.idempotency_fingerprint req.idempotency_fingerprint)

  IsPlaced-IsSame :
      (req : PlaceOrderReq) (x s' s'' : Tables fl.Float) (order : Order fl.Float)
      → IsPlaced fl v db env req x order s'
      → IsSame order (record (loaded s'' (placed_row req x)) { idempotency_replay = true })
  unfolding new_order before_create
  IsPlaced-IsSame req x s' s'' order p = record {
    id = sym p.fresh;
    owner = sym p.owned;
    total = sym p.exact;
    replay = refl;
  }

  -- A call that succeeds was valid.
  place_order-valid :
      (req : PlaceOrderReq) (s : Tables fl.Float) (order : Order fl.Float)
      → (place_order fl v db env req s).0 ≡ ok order
      → (validate_order_quantities req.lines ≡ ok tt) × (v.place_order req ≡ ok tt)
  unfolding place_order
  place_order-valid req s order e = elim (Result-cases (validate_order_quantities req.lines)) [
    | inr (x, a) ↦ absurd (ground (arith, a, e))
    | inl (u, a) ↦ elim (Result-cases (v.place_order req)) [
      | inr (x, b) ↦ absurd (ground (arith, a, b, e))
      | inl (u', b) ↦ (a, b)
    ]
  ]

  -- The order that was placed is on record under its key.
  IsPlaced-keyed_order :
      (req : PlaceOrderReq) (x s' : Tables fl.Float) (order : Order fl.Float)
      → (req.idempotency_key_hash == "") ≡ false
      → keyed_order x req.user_id req.idempotency_key_hash ≡ none
      → IsPlaced fl v db env req x order s'
      → keyed_order s' req.user_id req.idempotency_key_hash ≡ some (placed_row req x)
  unfolding new_order before_create
  IsPlaced-keyed_order req x s' order k z p =
      let holds = λ (o : Order fl.Float).
        o.user_id == req.user_id && has_key o.idempotency_key (some req.idempotency_key_hash) in
      ap (first_where holds) p.order_row
      ∙ first_where-append holds x.orders (placed_row req x) z (
          ground (
            arith,
            k,
            eq_iff req.user_id req.user_id,
            eq_iff req.idempotency_key_hash req.idempotency_key_hash,
          ))

  -- A request with a key and a fingerprint, none of the user's orders being stored under the key
  -- and the inventory rows being sound, that places an order is answered, when it is sent again, by
  -- the same order with the replay flag: the id, the user and the total are those of the first
  -- answer, and the second call changes no table. Or the engine reports a fault, and the second
  -- call changes no table either.
  pub place_order-place_order :
      (env' : Env fl.Float) (req : PlaceOrderReq) (s : Tables fl.Float) (order : Order fl.Float)
      → IsSound (env.others s).inventories
      → (req.idempotency_key_hash == "") ≡ false
      → (req.idempotency_fingerprint == "") ≡ false
      → keyed_order (env.others s) req.user_id req.idempotency_key_hash ≡ none
      → (place_order fl v db env req s).0 ≡ ok order
      → order.idempotency_replay ≡ false
      → let s' = (place_order fl v db env req s).1 in
        ((order' : Order fl.Float) × (place_order fl v db env' req s' ≡ (ok order', s'))
          × IsSame order order')
        ⊎ ((n : ℕ) × (place_order fl v db env' req s' ≡ (err (engine (other n)), s')))
  place_order-place_order env' req s order h k f z e first =
      let x = env.others s in
      let s' = (place_order fl v db env req s).1 in
      let (a, b) = place_order-valid req s order e in
      elim (place_order-Outcome fl v db env req s h) [
        | refused n y u g ↦ absurd (ground (arith, e, g))
        | replayed o y u g r ↦ absurd (ground (arith, e, g, first, r.3))
        | placed o g p ↦
            let same : o ≡ order = ground (arith, e, g) in
            elim (place_order_replays fl v db env' req s' (placed_row req x) a b k f
              (IsPlaced-keyed_order req x s' o k z p)) [
                | inr q ↦ inr q
                | inl q ↦ inl (
                  record (loaded s' (placed_row req x)) { idempotency_replay = true },
                  q ∙ (λ i. (IsPlaced-replay_answer req x s' k i, s')),
                  subst
                      (λ y.
                        IsSame y
                          (record (loaded s' (placed_row req x)) { idempotency_replay = true }))
                      same (IsPlaced-IsSame req x s' s' o p),
                )
              ]
      ]
