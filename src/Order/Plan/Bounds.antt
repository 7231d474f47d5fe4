-- ===== src/Order/Plan/Bounds.antt =====
-- When a plan is made: exactly when no product's total overflows int64.
use scalable_e_commerce_plat.Base.{
  ◌+◌, ◌≤◌, String, ◌≡◌, refl, List, [], ◌∷◌, map, ok, ◌==◌, eq_iff, max_int64, arith, Bool-cases,
  inl, inr, ap, ◌↔◌,
}
use scalable_e_commerce_plat.Order.Model.{OrderLine}
use scalable_e_commerce_plat.Order.Plan.{
  StockConsumption, Quantities, quantity_for, add_quantity, sum_quantities, sort_texts, keys,
  planned_item, stock_consumption_plan,
}
use scalable_e_commerce_plat.Order.Plan.Totals.{
  ordered, quantity_for-add_quantity, stock_consumption_plan-ok, sum_quantities-cons,
}

module _ {F : Type 0} where
  step_fits :
      (line : OrderLine F) (lines : List (OrderLine F)) (m m' : Quantities)
      → sum_quantities lines (add_quantity line.product_id line.quantity m) ≡ ok m'
      → quantity_for line.product_id m + ordered line.product_id (line ∷ lines) ≤ max_int64
      → sum_quantities (line ∷ lines) m ≡ ok m'
  unfolding sum_quantities
  step_fits line lines m m' e h = ground (arith, e, eq_iff line.product_id line.product_id)

  step_bounded :
      (line : OrderLine F) (lines : List (OrderLine F)) (m m' : Quantities)
      → sum_quantities (line ∷ lines) m ≡ ok m'
      → (j : String) → quantity_for j m ≤ max_int64
      → quantity_for j (add_quantity line.product_id line.quantity m) ≤ max_int64
  unfolding sum_quantities
  step_bounded line lines m m' e j h = elim (Bool-cases (line.product_id == j)) [
    | inl t ↦ ground (
      arith,
      quantity_for-add_quantity j line.product_id line.quantity m,
      ap (λ i. quantity_for i m) ((eq_iff line.product_id j).0 t),
    )
    | inr f ↦ ground (arith, f, quantity_for-add_quantity j line.product_id line.quantity m)
  ]

  sum_quantities_fits :
      (lines : List (OrderLine F)) (m : Quantities)
      → ((j : String) → quantity_for j m + ordered j lines ≤ max_int64)
      → (m' : Quantities) × (sum_quantities lines m ≡ ok m')
  sum_quantities_fits [] m h = (m, unfold sum_quantities in refl)
  sum_quantities_fits (line ∷ lines) m h =
      let (m', e) =
        sum_quantities_fits lines (add_quantity line.product_id line.quantity m)
          (λ j. omega (arith, h j, quantity_for-add_quantity j line.product_id line.quantity m)) in
      (m', step_fits line lines m m' e (h line.product_id))

  sum_quantities_bounded :
      (lines : List (OrderLine F)) (m m' : Quantities)
      → ((j : String) → quantity_for j m ≤ max_int64)
      → sum_quantities lines m ≡ ok m'
      → (j : String) → quantity_for j m + ordered j lines ≤ max_int64
  sum_quantities_bounded [] m m' h e j = omega (arith, h j)
  sum_quantities_bounded (line ∷ lines) m m' h e j = omega (
    arith,
    quantity_for-add_quantity j line.product_id line.quantity m,
    sum_quantities_bounded lines (add_quantity line.product_id line.quantity m) m'
        (λ i. step_bounded line lines m m' e i (h i)) (sum_quantities-cons line lines m m' e) j,
  )

-- A plan is made exactly when the total that the lines order of each product fits int64.
pub stock_consumption_plan_iff :
    {F : Type 0} (lines : List (OrderLine F))
    → ((plan : List StockConsumption) × (stock_consumption_plan lines ≡ ok plan))
      ↔ ((j : String) → ordered j lines ≤ max_int64)
unfolding quantity_for
stock_consumption_plan_iff lines = (
  λ made j.
      let (m, f, _, _) = stock_consumption_plan-ok lines made.0 made.1 in
      omega (arith, sum_quantities_bounded lines [] m (λ i. omega arith) f j),
  λ h.
      let (m, f) = sum_quantities_fits lines [] (λ j. omega (arith, h j)) in
      (
        map (planned_item m) (sort_texts (keys m)),
        unfold stock_consumption_plan in ground (arith, f),
      ),
)
