-- ===== src/Inventory/Model.antt =====
-- internal/inventory/model and internal/inventory/dto. The time stamps, which nothing tests, are
-- left out.
use scalable_e_commerce_plat.Base.{String, Bool, ◌==◌, ℤ, if◌then◌else◌}

pub record Inventory : Type 0 where
  pub id : String
  pub product_id : String
  pub quantity : ℤ

-- `Inventory.BeforeCreate`; `uuid` is what uuid.New returns.
unfoldable pub before_create : String → Inventory → Inventory
before_create uuid m = if m.id == "" then record m { id = uuid } else m

pub record SetInventoryReq : Type 0 where
  pub product_id : String
  pub quantity : ℤ

pub record AdjustInventoryReq : Type 0 where
  pub quantity_delta : ℤ

pub record ListInventoryReq : Type 0 where
  pub product_id : String
  pub page : ℤ
  pub limit : ℤ
  pub order_by : String
  pub order_desc : Bool
