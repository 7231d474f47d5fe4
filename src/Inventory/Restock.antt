-- ===== src/Inventory/Restock.antt =====
-- `Restock` and `AdjustStock` against the view of the stock.
use scalable_e_commerce_plat.Base.{
  String, Option, none, some, arith, ◌==◌, Result, ok, err, engine, out_of_range, ℤ, pos, ◌+ℤ◌,
  ◌≤ℤ◌, in_int64, if◌then◌else◌, Bool-cases, Option-cases, inl, inr,
}
use scalable_e_commerce_plat.Dbs.{Engine}
use scalable_e_commerce_plat.Store.{Tables}
use scalable_e_commerce_plat.Validation.{Validation}
use scalable_e_commerce_plat.Inventory.Model.{Inventory, before_create}
use scalable_e_commerce_plat.Inventory.Stock.{
  stock, InStock, IsSound, added, adds, append_stock, increase_stock, added_refused, Stocked,
  settled, faulted,
}
use scalable_e_commerce_plat.Inventory.Repository
use scalable_e_commerce_plat.Inventory.Repository.{quantity_fits}
use scalable_e_commerce_plat.Inventory.Service

-- The answer to a request to add `quantity` to this stock.
abbrev pub restock_answer : ℤ → Option ℤ → Result (Unit {0})
restock_answer quantity none = ok tt
restock_answer quantity (some n) =
    if in_int64 (n +ℤ quantity) then ok tt else err (engine out_of_range)

-- A restock by a positive quantity that fits int64, on sound rows, adds it to the stock of the
-- product, or stores it as the stock of a product that has none; a sum that the column cannot hold
-- is refused and changes nothing. No other product and no other table changes, and the rows stay
-- sound. Or the engine reports a fault and nothing has changed.
pub restock_refines :
    {F : Type 0} (v : Validation) (db : Engine) (uuid product_id : String) (quantity : ℤ)
    (s : Tables F)
    → pos 1 ≤ℤ quantity
    → InStock quantity
    → IsSound s.inventories
    → Stocked
        (restock_answer quantity (stock product_id s.inventories))
        (added product_id quantity)
        s
        (Service.restock v db uuid product_id quantity s)
unfolding Service.restock Repository.restock before_create
restock_refines v db uuid product_id quantity s p b h =
    elim (db.upsert_replies Inventory (λ r. r.product_id == product_id) (adds product_id quantity)
      quantity_fits (record { id = uuid; product_id = product_id; quantity = quantity })
      s.inventories) [
        | inr (n, e) ↦ faulted n (ground (arith, e))
        | inl e ↦ elim (Option-cases (stock product_id s.inventories)) [
          | inl z ↦
              let a = append_stock product_id quantity uuid s.inventories b z h in
              settled _ (ground (arith, e, z)) a.0 a.1
          | inr (n, z) ↦ elim (Bool-cases (in_int64 (n +ℤ quantity))) [
            | inl f ↦
                let a = increase_stock product_id quantity s.inventories p n z f h in
                settled _ (ground (arith, e, z, f)) a.0 a.1
            | inr f ↦
                settled s.inventories (ground (arith, e, z, f)) h
                  (added_refused product_id quantity s.inventories n z f)
          ]
        ]
      ]
