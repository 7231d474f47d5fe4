-- ===== src/Order/Http/Slot.antt =====
-- internal/order/port/http/handlers.go: the record of an idempotency key, from the request that takes
-- the key to the requests that repeat it. `at` reads the record that Redis holds under a key; a call
-- of Redis does what its command documents, or reports an error, which it does only where `faulty`
-- holds.
use scalable_e_commerce_plat.Base.{
  ℕ, String, ◌≡◌, ◌⊎◌, inl, inr, Bool, true, false, not, ◌||◌, Option, none, some, List, ◌∷◌,
  Result, ok, err, Error, ◌==◌, ℤ, arith, Bool-cases, Result-cases, new_error, idempotency_conflict,
}
use scalable_e_commerce_plat.Response.{Response, error_response, json_response}
use scalable_e_commerce_plat.Order.Model.{Order}
use scalable_e_commerce_plat.Order.Http.{
  IdempotencyRecord, OrderRes, RecordCache, OrderHandler, Call, copy_order,
}
use scalable_e_commerce_plat.Order.Http.Placement.{answer_duplicate}

abbrev pub processing : String → IdempotencyRecord
processing fingerprint = record { status = "processing"; order_id = ""; fingerprint = fingerprint }

abbrev pub succeeded : String → String → IdempotencyRecord
succeeded order_id fingerprint = record {
  status = "succeeded";
  order_id = order_id;
  fingerprint = fingerprint;
}

module _ {R : Type 0} (at : R → String → Option IdempotencyRecord) (faulty : Bool) where
  -- SET with NX, GET, SET and DEL of a key.
  abbrev SetsNew : String → IdempotencyRecord → R → Result Bool × R → Type 0
  SetsNew key x r (answer, r') =
      ((answer ≡ ok true) × (at r key ≡ none) × (at r' key ≡ some x))
      ⊎ ((old : IdempotencyRecord) × (answer ≡ ok false)
          × (at r key ≡ some old)
          × (at r' key ≡ some old))
      ⊎ ((e : Error) × (answer ≡ err e) × (faulty ≡ true))

  abbrev Gets : String → R → Result IdempotencyRecord × R → Type 0
  Gets key r (answer, r') =
      ((x : IdempotencyRecord) × (answer ≡ ok x) × (at r key ≡ some x) × (at r' key ≡ some x))
      ⊎ ((e : Error) × (answer ≡ err e) × (faulty ≡ true))
      ⊎ ((e : Error) × (answer ≡ err e) × (at r key ≡ none))

  abbrev Leaves : String → Option IdempotencyRecord → Result (Unit {0}) × R → Type 0
  Leaves key slot (answer, r') =
      ((answer ≡ ok tt) × (at r' key ≡ slot)) ⊎ ((e : Error) × (answer ≡ err e) × (faulty ≡ true))

  pub record IsRecordCache (cache : RecordCache R) : Type 0 where
    pub setnx_lem :
        (key : String) (x : IdempotencyRecord) (ttl : ℤ) (r : R)
        → SetsNew key x r (cache.setnx_with_expiration key x ttl r)
    pub get_lem : (key : String) (r : R) → Gets key r (cache.get key r)
    pub set_lem :
        (key : String) (x : IdempotencyRecord) (ttl : ℤ) (r : R)
        → Leaves key (some x) (cache.set_with_expiration key x ttl r)
    pub remove_lem : (key : String) (r : R) → Leaves key none (cache.remove key r)

  module _ {T F : Type 0} (h : OrderHandler T R F) where
    abbrev pub failing : ℕ → Error → String → Response (OrderRes F)
    failing status e message = error_response h.environment status e message

    -- What a repeated request is answered, by the record that it finds.
    pub data IsReplied (user_id fingerprint : String) (found : IdempotencyRecord) (s : T)
        (past : List (Response (OrderRes F))) (c' : Call T R F) : Type 0 where
      mismatch :
          (found.fingerprint == fingerprint) ≡ false
          → c'.tables ≡ s
          → c'.responses ≡ failing 409 idempotency_conflict "Idempotency key conflict" ∷ past
          → IsReplied user_id fingerprint found s past c'
      in_flight :
          (found.fingerprint == fingerprint) ≡ true
          → not (found.status == "succeeded") || found.order_id == "" ≡ true
          → c'.tables ≡ s
          → c'.responses
            ≡ failing 409
                (new_error "duplicate request in progress")
                "Duplicate request in progress"
              ∷ past
          → IsReplied user_id fingerprint found s past c'
      replayed :
          (order : Order F)
          → (found.fingerprint == fingerprint) ≡ true
          → (found.status == "succeeded") ≡ true
          → h.service.get_order_by_id found.order_id user_id s ≡ (ok order, c'.tables)
          → c'.responses ≡ json_response 200 (copy_order order) ∷ past
          → IsReplied user_id fingerprint found s past c'
      unreadable :
          (e : Error)
          → (found.fingerprint == fingerprint) ≡ true
          → (found.status == "succeeded") ≡ true
          → h.service.get_order_by_id found.order_id user_id s ≡ (err e, c'.tables)
          → c'.responses ≡ failing 409 e "Duplicate request" ∷ past
          → IsReplied user_id fingerprint found s past c'

    pub answer_duplicate-IsReplied :
        (user_id fingerprint key : String) (found : IdempotencyRecord) (c : Call T R F)
        → let (begun, c') = answer_duplicate h user_id fingerprint key found c in
          IsReplied user_id fingerprint found c.tables c.responses c'
          × (c'.redis ≡ c.redis)
          × (begun.handled ≡ true)
    unfolding answer_duplicate
    answer_duplicate-IsReplied user_id fingerprint key found c =
        elim (Bool-cases (found.fingerprint == fingerprint)) [
          | inr t ↦ (
            mismatch t (ground (arith, t)) (ground (arith, t)),
            ground (arith, t),
            ground (arith, t),
          )
          | inl t ↦ elim (Bool-cases (not (found.status == "succeeded") || found.order_id == "")) [
            | inl u ↦ (
              in_flight t u (ground (arith, t, u)) (ground (arith, t, u)),
              ground (arith, t, u),
              ground (arith, t, u),
            )
            | inr u ↦
                let done : (found.status == "succeeded") ≡ true = ground (arith, u) in
                elim (Result-cases (h.service.get_order_by_id found.order_id user_id c.tables).0) [
                  | inl (order, e) ↦ (
                    replayed order t done (ground (arith, t, u, e)) (ground (arith, t, u, e)),
                    ground (arith, t, u, e),
                    ground (arith, t, u, e),
                  )
                  | inr (x, e) ↦ (
                    unreadable x t done (ground (arith, t, u, e)) (ground (arith, t, u, e)),
                    ground (arith, t, u, e),
                    ground (arith, t, u, e),
                  )
                ]
          ]
        ]
