-- ===== src/Order/Http/Lines.antt =====
-- internal/order/port/http/handlers.go: the keys in Redis, and the fingerprint of a request's lines.
-- The SHA-256 sum in hexadecimal and the JSON encoding of the lines are parameters.
use Prim.Native.String.{◌++◌}
use text.Mathlib.TextLemmas.{append-eq-nil_iff}
use scalable_e_commerce_plat.Base.{
  String, ◌≡◌, Bool, true, false, Bool-cases, inl, inr, eq_iff, not, List, [], ◌∷◌, ◌==◌, ltb,
  if◌then◌else◌,
}
use scalable_e_commerce_plat.Base.Text.{text_le}
use scalable_e_commerce_plat.Order.Model.{PlaceOrderLineReq}

unfoldable pub order_idempotency_redis_key : (String → String) → String → String → String
order_idempotency_redis_key hash user_id idempotency_key =
    "idempotency:orders:" ++ (user_id ++ (":" ++ hash idempotency_key))

true-ne-false : false ≡ true → ⊥
true-ne-false e = cc e

-- A key is never empty.
pub order_idempotency_redis_key_lem :
    (hash : String → String) (user_id idempotency_key : String)
    → (order_idempotency_redis_key hash user_id idempotency_key == "") ≡ false
unfolding order_idempotency_redis_key
order_idempotency_redis_key_lem hash user_id idempotency_key =
    let key = order_idempotency_redis_key hash user_id idempotency_key in
    elim (Bool-cases (key == "")) [
      | inr e ↦ e
      | inl e ↦
          let blank : "idempotency:orders:" ≡ "" = (append-eq-nil_iff.0 ((eq_iff key "").0 e)).0 in
          absurd (true-ne-false ((eq_iff "idempotency:orders:" "").1 blank))
    ]

unfoldable pub order_rate_limit_redis_key : String → String
order_rate_limit_redis_key user_id = "rate-limit:orders:" ++ user_id

-- The function that sort.Slice is given; `s < t` on texts is that t does not come before.
unfoldable pub less : PlaceOrderLineReq → PlaceOrderLineReq → Bool
less a b =
    if a.product_id == b.product_id
    then ltb a.quantity b.quantity
    else not (text_le b.product_id a.product_id)

-- sort.Slice: two lines of which neither is less are the same line.
unfoldable pub insert_line : PlaceOrderLineReq → List PlaceOrderLineReq → List PlaceOrderLineReq
insert_line x [] = x ∷ []
insert_line x (y ∷ ys) = let rest = insert_line x ys in if less y x then y ∷ rest else x ∷ y ∷ ys

unfoldable pub sort_lines : List PlaceOrderLineReq → List PlaceOrderLineReq
sort_lines [] = []
sort_lines (x ∷ xs) = insert_line x (sort_lines xs)

unfoldable pub order_request_fingerprint :
    (String → String) → (List PlaceOrderLineReq → String) → List PlaceOrderLineReq → String
order_request_fingerprint hash encode lines = hash (encode (sort_lines lines))
