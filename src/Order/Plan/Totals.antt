-- ===== src/Order/Plan/Totals.antt =====
-- A plan takes of each product exactly what the lines order of it.
use scalable_e_commerce_plat.Base.{
  ℕ, ◌+◌, ◌≤◌, String, ◌≡◌, refl, List, [], ◌∷◌, map, ap, Error, Result-cases, ◌*◌, ok, err, ◌==◌,
  eq_iff, nat_eq, if◌then◌else◌, arith, subst, ◌∙◌, Bool-cases, inl, inr,
}
use scalable_e_commerce_plat.Order.Model.{OrderLine}
use scalable_e_commerce_plat.Order.Plan.{
  StockConsumption, Quantities, quantity_for, add_quantity, sum_quantities, insert_text, sort_texts,
  keys, planned_item, stock_consumption_plan,
}

-- What the lines order of a product.
abbrev pub ordered : {F : Type 0} → String → List (OrderLine F) → ℕ
ordered j [] = 0
ordered j (line ∷ lines) = (if line.product_id == j then line.quantity else 0) + ordered j lines

-- What a plan takes of a product.
abbrev pub planned : String → List StockConsumption → ℕ
planned j [] = 0
planned j (item ∷ items) = (if item.product_id == j then item.quantity else 0) + planned j items

pub quantity_for-add_quantity :
    (j id : String) (n : ℕ) (m : Quantities)
    → quantity_for j (add_quantity id n m) ≡ quantity_for j m + (if id == j then n else 0)
unfolding quantity_for add_quantity
quantity_for-add_quantity j id n [] = ground arith
quantity_for-add_quantity j id n ((k, x) ∷ m) =
    ground (arith, eq_iff k id, eq_iff k j, eq_iff id j, quantity_for-add_quantity j id n m)

pub sum_quantities_lem :
    {F : Type 0} (j : String) (lines : List (OrderLine F)) (m m' : Quantities)
    → sum_quantities lines m ≡ ok m'
    → quantity_for j m' ≡ quantity_for j m + ordered j lines
unfolding sum_quantities
sum_quantities_lem j [] m m' e = ground arith
sum_quantities_lem j (line ∷ lines) m m' e = ground (
  arith,
  quantity_for-add_quantity j line.product_id line.quantity m,
  sum_quantities_lem j lines (add_quantity line.product_id line.quantity m) m',
)

-- How often a text occurs.
abbrev pub occurs : String → List String → ℕ
occurs j [] = 0
occurs j (s ∷ ts) = (if s == j then 1 else 0) + occurs j ts

occurs-insert_text :
    (j s : String) (ts : List String) → occurs j (insert_text s ts) ≡ occurs j (s ∷ ts)
unfolding insert_text
occurs-insert_text j s [] = refl
occurs-insert_text j s (t ∷ ts) = ground (arith, occurs-insert_text j s ts)

pub occurs-sort_texts : (j : String) (ts : List String) → occurs j (sort_texts ts) ≡ occurs j ts
unfolding sort_texts
occurs-sort_texts j [] = refl
occurs-sort_texts j (s ∷ ts) =
    ground (arith, occurs-insert_text j s (sort_texts ts), occurs-sort_texts j ts)

-- No key twice.
abbrev pub AreKeys : Quantities → Type 0
AreKeys [] = Unit {0}
AreKeys ((id, n) ∷ m) = (occurs id (keys m) ≡ 0) × AreKeys m

occurs-add_quantity :
    (j id : String) (n : ℕ) (m : Quantities)
    → occurs j (keys (add_quantity id n m)) ≡ (
        if id == j
        then (if nat_eq (occurs j (keys m)) 0 then 1 else occurs j (keys m))
        else occurs j (keys m))
unfolding add_quantity
occurs-add_quantity j id n [] = ground arith
occurs-add_quantity j id n ((k, x) ∷ m) =
    ground (arith, eq_iff k id, eq_iff k j, eq_iff id j, occurs-add_quantity j id n m)

add_quantity-AreKeys :
    (id : String) (n : ℕ) (m : Quantities) → AreKeys m → AreKeys (add_quantity id n m)
unfolding add_quantity
add_quantity-AreKeys id n [] h = ground arith
add_quantity-AreKeys id n ((k, x) ∷ m) h =
    ground
      (arith, eq_iff k id, eq_iff id k, occurs-add_quantity k id n m, add_quantity-AreKeys id n m)

pub sum_quantities-cons :
    {F : Type 0} (line : OrderLine F) (lines : List (OrderLine F)) (m m' : Quantities)
    → sum_quantities (line ∷ lines) m ≡ ok m'
    → sum_quantities lines (add_quantity line.product_id line.quantity m) ≡ ok m'
unfolding sum_quantities
sum_quantities-cons line lines m m' e = ground arith

pub sum_quantities-nil :
    (F : Type 0) (m m' : Quantities) → sum_quantities {F = F} [] m ≡ ok m' → m ≡ m'
unfolding sum_quantities
sum_quantities-nil F m m' e = ground arith

sum_quantities-AreKeys :
    {F : Type 0} (lines : List (OrderLine F)) (m m' : Quantities)
    → AreKeys m
    → sum_quantities lines m ≡ ok m'
    → AreKeys m'
sum_quantities-AreKeys [] m m' h e = subst AreKeys (sum_quantities-nil _ m m' e) h
sum_quantities-AreKeys (line ∷ lines) m m' h e =
    sum_quantities-AreKeys lines (add_quantity line.product_id line.quantity m) m'
      (add_quantity-AreKeys line.product_id line.quantity m h)
      (sum_quantities-cons line lines m m' e)

-- A list of distinct keys, each planned once, takes each key's quantity.
planned-map :
    (j : String) (m : Quantities) (ids : List String)
    → planned j (map (planned_item m) ids) ≡ occurs j ids * quantity_for j m
planned-map j m [] = ground arith
planned-map j m (id ∷ ids) = elim (Bool-cases (id == j)) [
  | inl t ↦
      rw t
        (rw (planned-map j m ids) (ground (arith, ap (λ i. quantity_for i m) ((eq_iff id j).0 t))))
  | inr f ↦ rw f (rw (planned-map j m ids) (ground arith))
]

quantity_for-absent : (j : String) (m : Quantities) → occurs j (keys m) ≡ 0 → quantity_for j m ≡ 0
unfolding quantity_for
quantity_for-absent j [] h = refl
quantity_for-absent j ((k, x) ∷ m) h = ground (arith, quantity_for-absent j m)

pub occurs-AreKeys : (j : String) (m : Quantities) → AreKeys m → occurs j (keys m) ≤ 1
occurs-AreKeys j [] h = omega arith
occurs-AreKeys j ((k, x) ∷ m) h = elim (Bool-cases (k == j)) [
  | inl t ↦ rw t (omega (arith, subst (λ i. occurs i (keys m) ≡ 0) ((eq_iff k j).0 t) h.0))
  | inr f ↦ rw f (omega (arith, occurs-AreKeys j m h.1))
]

once :
    (j : String) (m : Quantities)
    → AreKeys m
    → occurs j (keys m) * quantity_for j m ≡ quantity_for j m
once j m h = grind (arith, quantity_for-absent j m, occurs-AreKeys j m h)

-- A plan that is made lists the summed quantities in the order of their keys.
pub stock_consumption_plan-ok :
    {F : Type 0} (lines : List (OrderLine F)) (plan : List StockConsumption)
    → stock_consumption_plan lines ≡ ok plan
    → (m : Quantities) × (sum_quantities lines [] ≡ ok m)
      × (plan ≡ map (planned_item m) (sort_texts (keys m)))
      × AreKeys m
stock_consumption_plan-ok lines plan e = elim (Result-cases (sum_quantities lines [])) [
  | inr (x, f) ↦ absurd (refused x f)
  | inl (m, f) ↦ (m, f, made m f, sum_quantities-AreKeys lines [] m tt f)
]
  where
    refused : (x : Error) → sum_quantities lines [] ≡ err x → ⊥
    refused x f = unfold stock_consumption_plan in ground (arith, e, f)

    made :
        (m : Quantities)
        → sum_quantities lines [] ≡ ok m
        → plan ≡ map (planned_item m) (sort_texts (keys m))
    made m f = unfold stock_consumption_plan in ground (arith, e, f)

-- A plan that is made takes of each product exactly the sum of the quantities that the lines order
-- of it.
pub planned-stock_consumption_plan :
    {F : Type 0} (lines : List (OrderLine F)) (plan : List StockConsumption) (j : String)
    → stock_consumption_plan lines ≡ ok plan
    → planned j plan ≡ ordered j lines
unfolding quantity_for
planned-stock_consumption_plan lines plan j e =
    let (m, f, made, distinct) = stock_consumption_plan-ok lines plan e in
    ap (planned j) made
    ∙ planned-map j m (sort_texts (keys m))
    ∙ ap (λ (n : ℕ). n * quantity_for j m) (occurs-sort_texts j (keys m))
    ∙ once j m distinct
    ∙ sum_quantities_lem j lines [] m f
    ∙ (omega arith)
