-- ===== src/Order/Http/Fingerprint.antt =====
-- internal/order/port/http/handlers.go: the fingerprint of a request does not depend on the order of
-- its lines.
use mathlib.Core.List.{Perm, Permᴰ}
use mathlib.Core.List.Perm
use mathlib.Core.Logic.{∥∥₁_elim}
use mathlib.Core.HLevel.{hedberg}
use text.Mathlib.TextEquality.{Char-path}
use Prim.Native.Char.{code}
use scalable_e_commerce_plat.Base.{
  ℕ, String, ◌≡◌, inl, inr, refl, ap, ◌∙◌, true, false, List, [], ◌∷◌, ◌==◌, eq_iff, arith,
  Bool-cases,
}
use scalable_e_commerce_plat.Base.Text.{codes, codes_le, text_le, text_le_total, text_le_trans}
use scalable_e_commerce_plat.Order.Model.{PlaceOrderLineReq}
use scalable_e_commerce_plat.Order.Http.Lines.{
  less, insert_line, sort_lines, order_request_fingerprint,
}

codes_le_antisymm : (xs ys : List ℕ) → codes_le xs ys ≡ true → codes_le ys xs ≡ true → xs ≡ ys
codes_le_antisymm [] [] h k = refl
codes_le_antisymm [] (y ∷ ys) h k = ground (arith, k)
codes_le_antisymm (x ∷ xs) [] h k = ground (arith, h)
codes_le_antisymm (x ∷ xs) (y ∷ ys) h k = ground (arith, codes_le_antisymm xs ys, h, k)

codes_injective : (s t : String) → codes s ≡ codes t → s ≡ t
codes_injective String.[] String.[] e = refl
codes_injective String.[] (String.◌∷◌ d t) e = cc e
codes_injective (String.◌∷◌ c s) String.[] e = cc e
codes_injective (String.◌∷◌ c s) (String.◌∷◌ d t) e =
    let same : code c ≡ code d = cc e in
    let rest : codes s ≡ codes t = cc e in
    λ i. String.◌∷◌ (Char-path c d same i) (codes_injective s t rest i)

text_le_antisymm : (s t : String) → text_le s t ≡ true → text_le t s ≡ true → s ≡ t
unfolding text_le
text_le_antisymm s t h k = codes_injective s t (codes_le_antisymm (codes s) (codes t) h k)

-- Two lines of which neither is less are the same.
less_trichotomy : (a b : PlaceOrderLineReq) → less a b ≡ false → less b a ≡ false → a ≡ b
unfolding less
less_trichotomy a b h k = ground (
  arith,
  h,
  k,
  eq_iff a.product_id b.product_id,
  eq_iff b.product_id a.product_id,
  text_le_antisymm a.product_id b.product_id,
)

less_trans : (a b c : PlaceOrderLineReq) → less a b ≡ true → less b c ≡ true → less a c ≡ true
unfolding less
less_trans a b c h k = ground (
  arith,
  h,
  k,
  eq_iff a.product_id b.product_id,
  eq_iff b.product_id c.product_id,
  eq_iff a.product_id c.product_id,
  text_le_antisymm a.product_id b.product_id,
  text_le_trans c.product_id a.product_id b.product_id,
  text_le_trans b.product_id c.product_id a.product_id,
  text_le_total a.product_id b.product_id,
  text_le_total b.product_id c.product_id,
  text_le_total a.product_id c.product_id,
)

less_asymm : (a b : PlaceOrderLineReq) → less a b ≡ true → less b a ≡ false
unfolding less
less_asymm a b h = ground (
  arith,
  h,
  eq_iff a.product_id b.product_id,
  eq_iff b.product_id a.product_id,
  text_le_total a.product_id b.product_id,
)

insert_line_comm :
    (a b : PlaceOrderLineReq) (xs : List PlaceOrderLineReq)
    → insert_line a (insert_line b xs) ≡ insert_line b (insert_line a xs)
unfolding insert_line
insert_line_comm a b [] = ground (arith, less_trichotomy a b, less_asymm a b, less_asymm b a)
insert_line_comm a b (x ∷ xs) = ground (
  arith,
  insert_line_comm a b xs,
  less_trichotomy a b,
  less_asymm a b,
  less_asymm b a,
  less_trans x a b,
  less_trans x b a,
)

sort_lines-Permᴰ : (xs ys : List PlaceOrderLineReq) → Permᴰ xs ys → sort_lines xs ≡ sort_lines ys
unfolding sort_lines
sort_lines-Permᴰ [] [] Permᴰ.nil = refl
sort_lines-Permᴰ _ _ (Permᴰ.cons e d) = λ i. insert_line (e i) (sort_lines-Permᴰ _ _ d i)
sort_lines-Permᴰ _ _ (Permᴰ.swap {a} {b} {l = l} e f) =
    insert_line_comm a b (sort_lines l)
    ∙ (λ i. insert_line (f i) (insert_line (e i) (sort_lines l)))
sort_lines-Permᴰ _ _ (Permᴰ.trans d d') = sort_lines-Permᴰ _ _ d ∙ sort_lines-Permᴰ _ _ d'

text_discrete : (s t : String) → Dec (s ≡ t)
text_discrete s t = elim (Bool-cases (s == t)) [
  | inl e ↦ yes ((eq_iff s t).0 e)
  | inr e ↦ no λ p. ground (arith, e, (eq_iff s t).1 p)
]

insert_line-perm :
    (x : PlaceOrderLineReq) (ys : List PlaceOrderLineReq) → Perm (insert_line x ys) (x ∷ ys)
unfolding insert_line
insert_line-perm x [] = Perm.rfl
insert_line-perm x (y ∷ ys) = elim (Bool-cases (less y x)) [
  | inl e ↦ rw e (Perm.trans (Perm.cons y (insert_line-perm x ys)) (Perm.swap x y ys))
  | inr e ↦ rw e Perm.rfl
]

sort_lines-perm : (xs : List PlaceOrderLineReq) → Perm (sort_lines xs) xs
unfolding sort_lines
sort_lines-perm [] = Perm.rfl
sort_lines-perm (x ∷ xs) =
    Perm.trans (insert_line-perm x (sort_lines xs)) (Perm.cons x (sort_lines-perm xs))

-- Two requests with the same lines in another order have the same fingerprint, and what is hashed
-- encodes exactly the lines of the request.
pub order_request_fingerprint-perm :
    (hash : String → String) (encode : List PlaceOrderLineReq → String)
    (lines lines' : List PlaceOrderLineReq)
    → Perm lines lines'
    → (order_request_fingerprint hash encode lines ≡ order_request_fingerprint hash encode lines')
      × ((canonical : List PlaceOrderLineReq) × (order_request_fingerprint hash encode lines
            ≡ hash (encode canonical))
          × Perm canonical lines)
unfolding order_request_fingerprint
order_request_fingerprint-perm hash encode lines lines' p = (
  ∥∥₁_elim p (hedberg text_discrete _ _)
      λ d. ap (λ xs. hash (encode xs)) (sort_lines-Permᴰ lines lines' d),
  (sort_lines lines, refl, sort_lines-perm lines),
)
