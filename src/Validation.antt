-- ===== src/Validation.antt =====
-- What the services ask of the validator of github.com/quangdangfit/gocommon: a verdict on each
-- kind of request.
use scalable_e_commerce_plat.Base.{◌≡◌, Result, ok, pos, ◌≤ℤ◌}
use scalable_e_commerce_plat.Inventory.Model.{SetInventoryReq, AdjustInventoryReq}
use scalable_e_commerce_plat.Order.Model.{PlaceOrderReq}

pub record Validation : Type 0 where
  pub set_inventory : SetInventoryReq → Result (Unit {0})
  pub adjust_inventory : AdjustInventoryReq → Result (Unit {0})
  pub place_order : PlaceOrderReq → Result (Unit {0})

-- The tag `validate:"gte=0"` of SetInventoryReq.Quantity.
pub record ChecksQuantity (v : Validation) : Type 0 where
  pub quantity_nonneg :
      (req : SetInventoryReq) → v.set_inventory req ≡ ok tt → pos 0 ≤ℤ req.quantity
