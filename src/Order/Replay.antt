-- ===== src/Order/Replay.antt =====
-- The idempotency key of PlaceOrder: what a request finds that repeats an earlier one.
use scalable_e_commerce_plat.Base.{
  ℕ, String, ◌≡◌, true, false, ◌&&◌, Option, none, some, map, Result, ok, err, ◌==◌, arith, inl,
  inr, Option-cases, engine, other, idempotency_conflict, ◌⊎◌, if◌then◌else◌,
}
use scalable_e_commerce_plat.Dbs.{Engine}
use scalable_e_commerce_plat.Dbs.Rows.{first_where, find_rows}
use scalable_e_commerce_plat.Store.{Tables}
use scalable_e_commerce_plat.Validation.{Validation}
use scalable_e_commerce_plat.Money.{Floats}
use scalable_e_commerce_plat.Order.Model.{Product, Order, OrderLine, PlaceOrderReq}
use scalable_e_commerce_plat.Order.Plan.{validate_order_quantities}
use scalable_e_commerce_plat.Order.Repository as Orders
use scalable_e_commerce_plat.Order.Repository.{has_key, attach}
use scalable_e_commerce_plat.Order.Service.{
  Env, same_fingerprint, replay_idempotent_order, place_order,
}

module _ {F : Type 0} where
  -- The order of a user that is stored under a key.
  abbrev pub keyed_order : Tables F → String → String → Option (Order F)
  keyed_order s user_id key_hash =
      first_where
        (λ (o : Order F). o.user_id == user_id && has_key o.idempotency_key (some key_hash))
        s.orders

  -- An order with its lines and their products.
  abbrev pub loaded : Tables F → Order F → Order F
  loaded s order = record order {
    lines =
        map (attach (find_rows (λ (p : Product F). true) (λ _. 0) none s.products)) (
          find_rows (λ (line : OrderLine F). line.order_id == order.id) (λ _. 0) none
            s.order_lines);
  }

  -- What a lookup of the key answers to a request with a fingerprint.
  abbrev pub replay_answer : Tables F → Order F → String → Result (Order F)
  replay_answer s row fingerprint =
      if same_fingerprint row.idempotency_fingerprint fingerprint
      then ok (record (loaded s row) { idempotency_replay = true })
      else err idempotency_conflict

  module _ (db : Engine) where
    -- A loaded order, or a fault of the engine.
    pub preload_lem :
        (row : Order F) (s : Tables F)
        → (Orders.preload db row s ≡ (ok (loaded s row), s))
          ⊎ ((n : ℕ) × (Orders.preload db row s ≡ (err (engine (other n)), s)))
    unfolding Orders.preload
    preload_lem row s =
        let lines =
          db.find_replies (OrderLine F) (λ line. line.order_id == row.id) (λ _. 0) none
            s.order_lines in
        let products = db.find_replies (Product F) (λ _. true) (λ _. 0) none s.products in
        ground (arith, lines, products)

module _ (fl : Floats) (v : Validation) (db : Engine) (env : Env fl.Float) where
  -- A replay of a key that is on record, where the engine does not fail.
  pub replay_idempotent_order_found :
      (req : PlaceOrderReq) (s : Tables fl.Float) (row : Order fl.Float)
      → keyed_order s req.user_id req.idempotency_key_hash ≡ some row
      → (replay_idempotent_order fl v db env req s
          ≡ (replay_answer s row req.idempotency_fingerprint, s))
        ⊎ ((n : ℕ) × (replay_idempotent_order fl v db env req s ≡ (err (engine (other n)), s)))
  unfolding replay_idempotent_order Orders.get_order_by_idempotency_key
  replay_idempotent_order_found req s row e =
      let found =
        db.first_replies (Order fl.Float)
          (λ o.
            o.user_id == req.user_id && has_key o.idempotency_key (some req.idempotency_key_hash))
          s.orders in
      let lines = preload_lem db row s in ground (arith, e, found, lines)

  replay_idempotent_order_missing :
      (req : PlaceOrderReq) (s : Tables fl.Float) (order : Order fl.Float)
      → keyed_order s req.user_id req.idempotency_key_hash ≡ none
      → (replay_idempotent_order fl v db env req s).0 ≡ ok order
      → ⊥
  unfolding replay_idempotent_order Orders.get_order_by_idempotency_key
  replay_idempotent_order_missing req s order z e =
      let found =
        db.first_replies (Order fl.Float)
          (λ o.
            o.user_id == req.user_id && has_key o.idempotency_key (some req.idempotency_key_hash))
          s.orders in
      ground (arith, z, found, e)

  -- A replay that succeeds answers an order on record under the key, and writes nothing.
  pub replay_idempotent_order-ok :
      (req : PlaceOrderReq) (s : Tables fl.Float) (order : Order fl.Float)
      → (replay_idempotent_order fl v db env req s).0 ≡ ok order
      → (row : Order fl.Float) × (keyed_order s req.user_id req.idempotency_key_hash ≡ some row)
        × (same_fingerprint row.idempotency_fingerprint req.idempotency_fingerprint ≡ true)
        × (order ≡ record (loaded s row) { idempotency_replay = true })
  replay_idempotent_order-ok req s order e =
      elim (Option-cases (keyed_order s req.user_id req.idempotency_key_hash)) [
        | inl z ↦ absurd (replay_idempotent_order_missing req s order z e)
        | inr (row, z) ↦
            let f = replay_idempotent_order_found req s row z in
            (row, z, ground (arith, e, f), ground (arith, e, f))
      ]

  pub replay_idempotent_order_reads :
      (req : PlaceOrderReq) (s : Tables fl.Float)
      → (replay_idempotent_order fl v db env req s).1 ≡ s
  unfolding replay_idempotent_order Orders.get_order_by_idempotency_key Orders.preload
  replay_idempotent_order_reads req s = ground arith

  -- A request with valid quantities, accepted by the validator, whose key and fingerprint are given
  -- and whose key is on record for the user, places nothing: PlaceOrder answers the order on record
  -- with the replay flag where the fingerprints agree, and an idempotency conflict where they do
  -- not; or the engine reports a fault. The tables are as before.
  pub place_order_replays :
      (req : PlaceOrderReq) (s : Tables fl.Float) (row : Order fl.Float)
      → validate_order_quantities req.lines ≡ ok tt
      → v.place_order req ≡ ok tt
      → (req.idempotency_key_hash == "") ≡ false
      → (req.idempotency_fingerprint == "") ≡ false
      → keyed_order s req.user_id req.idempotency_key_hash ≡ some row
      → (place_order fl v db env req s ≡ (replay_answer s row req.idempotency_fingerprint, s))
        ⊎ ((n : ℕ) × (place_order fl v db env req s ≡ (err (engine (other n)), s)))
  unfolding place_order
  place_order_replays req s row a b c d e =
      ground (arith, a, b, c, d, replay_idempotent_order_found req s row e)
