-- ===== src/Order/Plan/Items.antt =====
-- Every item of a plan is a quantity that the inventory service accepts.
use scalable_e_commerce_plat.Base.{
  ℕ, ◌≤◌, String, ◌≡◌, List, [], ◌∷◌, map, ok, eq_iff, max_int64, arith, All, subst, sym,
}
use scalable_e_commerce_plat.Order.Model.{OrderLine}
use scalable_e_commerce_plat.Order.Plan.{
  StockConsumption, Quantities, quantity_for, add_quantity, sum_quantities, sort_texts, keys,
  planned_item, stock_consumption_plan,
}
use scalable_e_commerce_plat.Order.Plan.Totals.{
  occurs, occurs-sort_texts, stock_consumption_plan-ok, sum_quantities-cons, sum_quantities-nil,
  sum_quantities_lem,
}
use scalable_e_commerce_plat.Order.Plan.Bounds.{stock_consumption_plan_iff}

abbrev ArePositive : Quantities → Type 0
ArePositive [] = Unit {0}
ArePositive ((id, n) ∷ m) = (1 ≤ n) × ArePositive m

add_quantity-ArePositive :
    (id : String) (n : ℕ) (m : Quantities)
    → 1 ≤ n
    → ArePositive m
    → ArePositive (add_quantity id n m)
unfolding add_quantity
add_quantity-ArePositive id n [] p h = (p, tt)
add_quantity-ArePositive id n ((k, x) ∷ m) p h = ground (arith, add_quantity-ArePositive id n m p)

sum_quantities-ArePositive :
    {F : Type 0} (lines : List (OrderLine F)) (m m' : Quantities)
    → All (λ line. 1 ≤ line.quantity) lines
    → ArePositive m
    → sum_quantities lines m ≡ ok m'
    → ArePositive m'
sum_quantities-ArePositive [] m m' p h e = subst ArePositive (sum_quantities-nil _ m m' e) h
sum_quantities-ArePositive (line ∷ lines) m m' p h e =
    sum_quantities-ArePositive lines (add_quantity line.product_id line.quantity m) m' p.1
      (add_quantity-ArePositive line.product_id line.quantity m p.0 h)
      (sum_quantities-cons line lines m m' e)

quantity_for_pos :
    (id : String) (m : Quantities) → ArePositive m → 1 ≤ occurs id (keys m) → 1 ≤ quantity_for id m
unfolding quantity_for
quantity_for_pos id [] h o = absurd (omega arith)
quantity_for_pos id ((k, x) ∷ m) h o = ground (arith, quantity_for_pos id m h.1)

All-occurs :
    (P : String → Type 0) (ids : List String)
    → ((id : String) → 1 ≤ occurs id ids → P id)
    → All P ids
All-occurs P [] h = tt
All-occurs P (id ∷ ids) h =
    (h id (ground (arith, eq_iff id id)), All-occurs P ids (λ i o. h i (omega arith)))

All-map :
    (P : StockConsumption → Type 0) (m : Quantities) (ids : List String)
    → All (λ id. P (planned_item m id)) ids
    → All P (map (planned_item m) ids)
All-map P m [] h = tt
All-map P m (id ∷ ids) h = (h.0, All-map P m ids h.1)

-- A plan of lines with positive quantities has positive quantities that fit int64.
pub stock_consumption_plan-All :
    {F : Type 0} (lines : List (OrderLine F)) (plan : List StockConsumption)
    → All (λ line. 1 ≤ line.quantity) lines
    → stock_consumption_plan lines ≡ ok plan
    → All (λ item. (1 ≤ item.quantity) × (item.quantity ≤ max_int64)) plan
stock_consumption_plan-All {F} lines plan p e =
    let (m, f, made, distinct) = stock_consumption_plan-ok lines plan e in
    subst (All (λ item. (1 ≤ item.quantity) × (item.quantity ≤ max_int64))) (sym made) (
      All-map _ m (sort_texts (keys m)) (
        All-occurs _ (sort_texts (keys m)) (λ id o. (
          quantity_for_pos id m (sum_quantities-ArePositive lines [] m p tt f)
              (omega (arith, occurs-sort_texts id (keys m))),
          bounded id m f,
        ))))
  where
    bounded :
        (id : String) (m : Quantities)
        → sum_quantities lines [] ≡ ok m
        → quantity_for id m ≤ max_int64
    bounded id m f =
        unfold quantity_for in
        omega (
          arith,
          sum_quantities_lem id lines [] m f,
          (stock_consumption_plan_iff lines).0 (plan, e) id,
        )
