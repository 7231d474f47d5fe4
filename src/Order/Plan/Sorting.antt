-- ===== src/Order/Plan/Sorting.antt =====
-- A plan visits the products in the order of their ids, each once: two orders lock their common
-- rows in one order.
use scalable_e_commerce_plat.Base.{
  ◌≤◌, String, ◌≡◌, refl, true, List, [], ◌∷◌, map, ok, arith, Bool-cases, inl, inr, All, ap,
}
use scalable_e_commerce_plat.Base.Text.{text_le, text_le_total, text_le_trans}
use scalable_e_commerce_plat.Order.Model.{OrderLine}
use scalable_e_commerce_plat.Order.Plan.{
  StockConsumption, Quantities, insert_text, sort_texts, keys, planned_item, stock_consumption_plan,
}
use scalable_e_commerce_plat.Order.Plan.Totals.{
  occurs, stock_consumption_plan-ok, occurs-sort_texts, occurs-AreKeys,
}

-- Every text comes no later than those behind it.
abbrev pub IsSorted : List String → Type 0
IsSorted [] = Unit {0}
IsSorted (s ∷ ts) = All (λ t. text_le s t ≡ true) ts × IsSorted ts

insert_text-All :
    (P : String → Type 0) (s : String) (ts : List String)
    → P s
    → All P ts
    → All P (insert_text s ts)
unfolding insert_text
insert_text-All P s [] h hs = (h, tt)
insert_text-All P s (t ∷ ts) h hs = elim (Bool-cases (text_le s t)) [
  | inl e ↦ rw e (h, hs)
  | inr e ↦ rw e (hs.0, insert_text-All P s ts h hs.1)
]

All-trans :
    (s t : String) (ts : List String)
    → text_le s t ≡ true
    → All (λ u. text_le t u ≡ true) ts
    → All (λ u. text_le s u ≡ true) ts
All-trans s t [] h hs = tt
All-trans s t (u ∷ ts) h hs = (text_le_trans s t u h hs.0, All-trans s t ts h hs.1)

insert_text-IsSorted : (s : String) (ts : List String) → IsSorted ts → IsSorted (insert_text s ts)
unfolding insert_text
insert_text-IsSorted s [] h = (tt, tt)
insert_text-IsSorted s (t ∷ ts) h = elim (Bool-cases (text_le s t)) [
  | inl e ↦ rw e ((e, All-trans s t ts e h.0), h)
  | inr e ↦ rw e (
    insert_text-All (λ u. text_le t u ≡ true) s ts (ground (arith, text_le_total s t)) h.0,
    insert_text-IsSorted s ts h.1,
  )
]

sort_texts-IsSorted : (ts : List String) → IsSorted (sort_texts ts)
unfolding sort_texts
sort_texts-IsSorted [] = tt
sort_texts-IsSorted (s ∷ ts) = insert_text-IsSorted s (sort_texts ts) (sort_texts-IsSorted ts)

abbrev pub product_ids : List StockConsumption → List String
product_ids [] = []
product_ids (item ∷ items) = item.product_id ∷ product_ids items

product_ids-map :
    (m : Quantities) (ids : List String) → product_ids (map (planned_item m) ids) ≡ ids
product_ids-map m [] = refl
product_ids-map m (id ∷ ids) = ap (◌∷◌ id) (product_ids-map m ids)

-- A plan that is made lists the product ids in ascending order, and no id more than once.
pub stock_consumption_plan-IsSorted :
    {F : Type 0} (lines : List (OrderLine F)) (plan : List StockConsumption)
    → stock_consumption_plan lines ≡ ok plan
    → IsSorted (product_ids plan) × ((j : String) → occurs j (product_ids plan) ≤ 1)
stock_consumption_plan-IsSorted lines plan e =
    let (m, f, made, distinct) = stock_consumption_plan-ok lines plan e in
    rw made (
      rw (product_ids-map m (sort_texts (keys m))) (
        sort_texts-IsSorted (keys m),
        λ j. rw (occurs-sort_texts j (keys m)) (occurs-AreKeys j m distinct),
      ))
