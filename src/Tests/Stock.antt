-- ===== src/Tests/Stock.antt =====
-- Runs of the inventory service and of pkg/money.
use scalable_e_commerce_plat.Base.{◌≡◌, refl, err, invalid_amount, pos, negsuc, arith}
use scalable_e_commerce_plat.Dbs.Reference.{reliable}
use scalable_e_commerce_plat.Money.{multiply}
use scalable_e_commerce_plat.Money.Checked.{checked, multiply_exact}
use scalable_e_commerce_plat.Inventory.Stock.{stock, IsSound, Stocked, added}
use scalable_e_commerce_plat.Inventory.Consume.{consume_answer, taken, consume_stock_refines}
use scalable_e_commerce_plat.Inventory.Restock.{restock_answer, restock_refines}
use scalable_e_commerce_plat.Inventory.Adjust.{
  on_hand, adjust_answer, adjusted, adjust_stock_refines,
}
use scalable_e_commerce_plat.Inventory.Setting.{SetOutcome, set_stock-SetOutcome}
use scalable_e_commerce_plat.Inventory.Service
use scalable_e_commerce_plat.Tests.{accepting, shop}

pub shop-IsSound : IsSound shop.inventories
shop-IsSound = record { unique = (refl, (refl, tt)); bounded = (omega arith, (omega arith, tt)) }

consume_stock_refines_example :
    Stocked
      (consume_answer (pos 3) (stock "tea" shop.inventories))
      (taken "tea" (pos 3))
      shop
      (Service.consume_stock accepting reliable "tea" (pos 3) shop)
consume_stock_refines_example =
    consume_stock_refines accepting reliable "tea" (pos 3) shop (omega arith) shop-IsSound

restock_refines_example :
    Stocked
      (restock_answer (pos 3) (stock "tea" shop.inventories))
      (added "tea" (pos 3))
      shop
      (Service.restock accepting reliable "i9" "tea" (pos 3) shop)
restock_refines_example =
    restock_refines accepting reliable "i9" "tea" (pos 3) shop (omega arith) (omega arith)
      shop-IsSound

adjust_stock_refines_example :
    Stocked
      (adjust_answer (negsuc 1) (stock "tea" shop.inventories))
      (adjusted "tea" (negsuc 1))
      shop
      (on_hand (
        Service.adjust_stock accepting reliable "i9" "tea"
          (record { quantity_delta = negsuc 1 })
          shop))
adjust_stock_refines_example =
    adjust_stock_refines accepting reliable "i9" "tea" (record { quantity_delta = negsuc 1 }) shop
      refl (omega arith) shop-IsSound

multiply_exact_example :
    (multiply (pos 250) 3 ≡ checked 750) × (multiply (negsuc 250) 3 ≡ err invalid_amount)
multiply_exact_example = multiply_exact 250 3 (omega arith)

set_stock-SetOutcome_example : SetOutcome "tea" (pos 5) shop (
    Service.set_stock accepting reliable "i9"
      (record { product_id = "tea"; quantity = pos 5 })
      shop)
set_stock-SetOutcome_example =
    set_stock-SetOutcome accepting reliable "i9" (record { product_id = "tea"; quantity = pos 5 })
      shop refl (omega arith) shop-IsSound (refl, (refl, tt)) refl
