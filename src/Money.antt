-- ===== src/Money.antt =====
-- pkg/money/money.go: amounts in minor units (cents) as int64, prices as float64.
-- float64 is a parameter, with the operations that the file applies to it.
pub mod Checked
use scalable_e_commerce_plat.Base.{
  ℕ, ◌/◌, Bool, ◌||◌, ◌&&◌, not, Result, ok, err, invalid_amount, ℤ, pos, ltb_ℤ, ltb, nat_eq, ◌+ℤ◌,
  ◌-ℤ◌, ◌*ℤ◌, wrap64, max_int64, if◌then◌else◌,
}

-- The type float64 and what the program applies to it.
pub record Floats : Type 1 where
  pub Float : Type 0
  pub zero_float : Float
  pub is_nan : Float → Bool
  pub is_inf : Float → Bool
  -- `a < b` and `a >= b`
  pub lt_float : Float → Float → Bool
  pub ge_float : Float → Float → Bool
  pub mul_float : Float → Float → Float
  pub div_float : Float → Float → Float
  pub sub_float : Float → Float → Float
  -- math.Round and math.Abs
  pub round_float : Float → Float
  pub abs_float : Float → Float
  -- float64(n) and int64(x)
  pub of_int : ℤ → Float
  pub to_int : Float → ℤ
  -- 1e-7
  pub rounding_tolerance : Float

abbrev pub minor_unit_scale : ℤ
minor_unit_scale = pos 100

module _ (fl : Floats) where
  open fl use {
    Float, zero_float, is_nan, is_inf, lt_float, ge_float, mul_float, div_float, sub_float,
    round_float, abs_float, of_int, to_int, rounding_tolerance,
  }

  unfoldable pub to_minor_units : Float → Result ℤ
  to_minor_units amount =
      let scaled = mul_float amount (of_int minor_unit_scale) in
      let rounded = round_float scaled in
      if is_nan amount || is_inf amount || lt_float amount zero_float
      then err invalid_amount
      else if ge_float scaled (of_int (pos max_int64))
      then err invalid_amount
      else if lt_float rounding_tolerance (abs_float (sub_float scaled rounded))
      then err invalid_amount
      else ok (to_int rounded)

  unfoldable pub from_minor_units : ℤ → Float
  from_minor_units amount = div_float (of_int amount) (of_int minor_unit_scale)

-- A quantity that passes the first test is at most math.MaxInt64, so `int64(quantity)` keeps it.
unfoldable pub multiply : ℤ → ℕ → Result ℤ
multiply unit_price quantity =
    if ltb_ℤ unit_price (pos 0) || ltb max_int64 quantity
    then err invalid_amount
    else if not (nat_eq quantity 0) && ltb_ℤ (pos (max_int64 / quantity)) unit_price
    then err invalid_amount
    else ok (wrap64 (unit_price *ℤ pos quantity))

unfoldable pub add : ℤ → ℤ → Result ℤ
add left right =
    if ltb_ℤ left (pos 0) || ltb_ℤ right (pos 0) || ltb_ℤ (wrap64 (pos max_int64 -ℤ right)) left
    then err invalid_amount
    else ok (wrap64 (left +ℤ right))
