-- ===== src/Money/Checked.antt =====
-- The checked arithmetic of pkg/money/money.go: no result has wrapped.
use scalable_e_commerce_plat.Base.{
  ℕ, suc, zero, ◌+◌, ◌*◌, ◌/◌, ◌≤◌, ◌<◌, ◌≡◌, refl, Result, ok, err, invalid_amount, ℤ, pos, negsuc,
  wrap64, max_int64, arith, leb, if◌then◌else◌, eq_of_parts, ◌*ℤ◌, ◌+ℤ◌, ◌-ℤ◌,
}
use scalable_e_commerce_plat.Money.{multiply, add}

-- What a checked operation answers for the exact result `n`.
abbrev pub checked : ℕ → Result ℤ
checked n = if leb n max_int64 then ok (pos n) else err invalid_amount

le-div-le : (u q m : ℕ) → u ≤ m / suc q → u * suc q ≤ m
le-div-le u q m h = grind arith

div-lt-lt : (u q m : ℕ) → m / suc q < u → m < u * suc q
div-lt-lt u q m h = grind arith

pos-*ℤ : (u q : ℕ) → pos u *ℤ pos q ≡ pos (u * q)
unfolding ◌*ℤ◌
pos-*ℤ u q = eq_of_parts _ _ (ground arith)

-- Multiply by a quantity of at most math.MaxInt64 answers the exact product of a price that is not
-- negative when int64 holds it, and ErrInvalidAmount when it does not; a negative price is refused.
pub multiply_exact :
    (u q : ℕ)
    → q ≤ max_int64
    → (multiply (pos u) q ≡ checked (u * q)) × (multiply (negsuc u) q ≡ err invalid_amount)
unfolding multiply wrap64
multiply_exact u zero h = (rw (pos-*ℤ u 0) (ground arith), ground arith)
multiply_exact u (suc q) h = (
  rw (pos-*ℤ u (suc q)) (ground (arith, le-div-le u q max_int64, div-lt-lt u q max_int64)),
  ground arith,
)

-- Add of two amounts that are not negative, the right one at most math.MaxInt64, answers the exact
-- sum when int64 holds it, and ErrInvalidAmount when it does not; a negative amount on either side
-- is refused.
pub add_exact :
    (a b : ℕ) (z : ℤ)
    → b ≤ max_int64
    → (add (pos a) (pos b) ≡ checked (a + b))
      × (add (negsuc a) z ≡ err invalid_amount)
      × (add z (negsuc a) ≡ err invalid_amount)
unfolding add wrap64 ◌+ℤ◌ ◌-ℤ◌
add_exact a b z h = (ground arith, ground arith, ground arith)

-- An operation that succeeds had operands that are not negative, and its exact result fits int64.
pub multiply-ok :
    (z : ℤ) (q : ℕ) (w : ℤ)
    → multiply z q ≡ ok w
    → (u : ℕ) × (z ≡ pos u) × (w ≡ pos (u * q)) × (u * q ≤ max_int64)
multiply-ok (negsuc u) q w e = absurd (unfold multiply in ground (arith, e))
multiply-ok (pos u) q w e = (u, refl, ground (arith, e, exact), ground (arith, e, exact))
  where
    in_range : q ≤ max_int64
    in_range = unfold multiply in ground (arith, e)

    exact : multiply (pos u) q ≡ checked (u * q)
    exact = (multiply_exact u q in_range).0

pub add-ok :
    (a b : ℕ) (w : ℤ)
    → b ≤ max_int64
    → add (pos a) (pos b) ≡ ok w
    → (w ≡ pos (a + b)) × (a + b ≤ max_int64)
add-ok a b w h e = (ground (arith, e, exact), ground (arith, e, exact))
  where
    exact : add (pos a) (pos b) ≡ checked (a + b)
    exact = (add_exact a b (pos 0) h).0
