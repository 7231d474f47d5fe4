-- ===== src/Order/Plan.antt =====
-- `validateOrderQuantities` and `stockConsumptionPlan` of internal/order/service/order.go.
pub mod Totals
pub mod Sorting
pub mod Bounds
pub mod Items
use scalable_e_commerce_plat.Base.{
  ℕ, ◌+◌, ◌-◌, String, Bool, true, false, ◌||◌, List, [], ◌∷◌, map, Result, ok, err,
  invalid_order_quantity, ◌==◌, ltb, nat_eq, max_int64, if◌then◌else◌,
}
use scalable_e_commerce_plat.Base.Text.{text_le}
use scalable_e_commerce_plat.Order.Model.{OrderLine, PlaceOrderLineReq, max_order_line_quantity}

unfoldable pub validate_order_quantities : List PlaceOrderLineReq → Result (Unit {0})
validate_order_quantities [] = ok tt
validate_order_quantities (line ∷ lines) =
    if nat_eq line.quantity 0 || ltb max_order_line_quantity line.quantity
    then err invalid_order_quantity
    else validate_order_quantities lines

pub record StockConsumption : Type 0 where
  pub product_id : String
  pub quantity : ℕ

-- `quantities`, a map[string]int64 whose values are never negative: an absent key reads as 0.
abbrev pub Quantities : Type 0
Quantities = List (String × ℕ)

unfoldable pub quantity_for : String → Quantities → ℕ
quantity_for product_id [] = 0
quantity_for product_id ((id, n) ∷ m) = if id == product_id then n else quantity_for product_id m

-- `quantities[product_id] += quantity`
unfoldable pub add_quantity : String → ℕ → Quantities → Quantities
add_quantity product_id quantity [] = (product_id, quantity) ∷ []
add_quantity product_id quantity ((id, n) ∷ m) =
    if id == product_id
    then (id, n + quantity) ∷ m
    else (id, n) ∷ add_quantity product_id quantity m

-- The first loop, over the lines.
unfoldable pub sum_quantities : {F : Type 0} → List (OrderLine F) → Quantities → Result Quantities
sum_quantities [] m = ok m
sum_quantities (line ∷ lines) m =
    let rest = sum_quantities lines (add_quantity line.product_id line.quantity m) in
    if ltb max_int64 line.quantity
      || ltb (max_int64 - line.quantity) (quantity_for line.product_id m)
    then err invalid_order_quantity
    else rest

-- sort.Strings
unfoldable pub insert_text : String → List String → List String
insert_text s [] = s ∷ []
insert_text s (t ∷ ts) = if text_le s t then s ∷ t ∷ ts else t ∷ insert_text s ts

unfoldable pub sort_texts : List String → List String
sort_texts [] = []
sort_texts (s ∷ ts) = insert_text s (sort_texts ts)

abbrev pub keys : Quantities → List String
keys [] = []
keys ((id, n) ∷ m) = id ∷ keys m

abbrev pub planned_item : Quantities → String → StockConsumption
planned_item m id = record { product_id = id; quantity = quantity_for id m }

-- The quantity of each product that the lines name, in the order of the product ids.
unfoldable pub stock_consumption_plan :
    {F : Type 0} → List (OrderLine F) → Result (List StockConsumption)
stock_consumption_plan lines = elim (sum_quantities lines []) [
  | ok m ↦ ok (map (planned_item m) (sort_texts (keys m)))
  | err e ↦ err e
]
