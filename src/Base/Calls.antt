-- ===== src/Base/Calls.antt =====
-- Results of fallible calls, and calls that read and change a state. `Error` has the sentinel
-- errors of the services and, under `engine`, what the database reports.
use mathlib.Core.Path.{◌≡◌, refl}
use mathlib.Core.Logic.{◌⊎◌, inl, inr}
use mathlib.Core.Bool.{Bool, true, false}
use native.Mathlib.Omega.{arith}
use Prim.Native.Nat.{ℕ}
use Prim.Native.String.{String}

-- What a statement may report: gorm.ErrRecordNotFound, SQLSTATE 23505, 23503 or 23514 with the constraint's name,
-- a value out of the column's range, or anything else (a timeout, a lost connection).
pub data Fault : Type 0 where
  record_not_found out_of_range : Fault
  unique_violation foreign_key_violation check_violation : String → Fault
  other : ℕ → Fault

pub data Error : Type 0 where
  invalid_amount : Error
  permission_denied invalid_order_state invalid_order_quantity invalid_order_amount : Error
  order_not_found idempotency_conflict idempotency_duplicate : Error
  inventory_not_found insufficient_stock quantity_not_positive : Error
  outbox_identity_required outbox_publisher_required outbox_event_required : Error
  outbox_transactor_required : Error
  -- What the validator, the JSON encoder and the remote services return.
  invalid_request encoding_failed remote_failed : ℕ → Error
  engine : Fault → Error
  wrong_password refresh_token_revoked : Error
  -- The stream of events and its consumer.
  cache_required handler_required processed_store_required already_processed : Error
  invalid_payload invalid_created_at : Error
  field_required : String → Error
  -- What Redis, the event handler or another client of the network returns.
  reply_failed : ℕ → Error
  cart_not_found : Error
  -- errors.New(…)
  new_error : String → Error
  -- fmt.Errorf("…: %w", err)
  wrapped : String → Error → Error

pub data Result (A : Type 0) : Type 0 where
  ok : A → Result A
  err : Error → Result A

pub Result-cases :
    {A : Type 0} (r : Result A) → ((a : A) × (r ≡ ok a)) ⊎ ((e : Error) × (r ≡ err e))
Result-cases (ok a) = inl (a, refl)
Result-cases (err e) = inr (e, refl)

-- A call on the state `S`.
abbrev pub Action : Type 0 → Type 0 → Type 0
Action S A = S → Result A × S

module _ {S A : Type 0} where
  abbrev pub pure : A → Action S A
  pure a s = (ok a, s)

  abbrev pub raise : Error → Action S A
  raise e s = (err e, s)

  abbrev pub lift : Result A → Action S A
  lift r s = (r, s)

infixl 5 ◌>>=◌ ◌>>◌
abbrev pub ◌>>=◌ : {S A B : Type 0} → Action S A → (A → Action S B) → Action S B
◌>>=◌ m f s = let (r, s') = m s in elim r [ ok a ↦ f a s' | err e ↦ (err e, s') ]

abbrev pub ◌>>◌ : {S A B : Type 0} → Action S A → Action S B → Action S B
m >> k = m >>= λ _. k

abbrev pub raise_if : {S : Type 0} → Bool → Error → Action S (Unit {0})
raise_if true e s = (err e, s)
raise_if false e s = (ok tt, s)

-- `if err != nil`, with what the handler makes of the error.
abbrev pub catch : {S A : Type 0} → Action S A → (Error → Action S A) → Action S A
catch m handler s = let (r, s') = m s in elim r [ ok a ↦ (ok a, s') | err e ↦ handler e s' ]

-- The innermost error, which errors.Is finds.
abbrev pub cause : Error → Error
cause (wrapped text e) = cause e
cause e = e

-- errors.Is(err, gorm.ErrRecordNotFound)
abbrev pub is_record_not_found : Error → Bool
is_record_not_found (engine record_not_found) = true
is_record_not_found _ = false

-- A chain that succeeds: its first call did, and the rest went on from there.
pub >>=-eq-ok :
    {S A B : Type 0} (m : Action S A) (f : A → Action S B) (s : S) (b : B)
    → ((m >>= f) s).0 ≡ ok b
    → (a : A) × ((m s).0 ≡ ok a) × ((m >>= f) s ≡ f a (m s).1)
>>=-eq-ok m f s b h = elim (Result-cases (m s).0) [
  | inl (a, e) ↦ (a, e, ground (arith, e))
  | inr (x, e) ↦ absurd (ground (arith, e, h))
]
