-- ===== src/Inventory/Service.antt =====
-- internal/inventory/service/inventory.go.
use scalable_e_commerce_plat.Base.{
  ℕ, List, String, Bool, true, false, pure, raise, raise_if, lift, catch, is_record_not_found,
  ◌>>=◌, ◌>>◌, Action, inventory_not_found, insufficient_stock, quantity_not_positive, ℤ, pos,
  leb_ℤ, if◌then◌else◌,
}
use scalable_e_commerce_plat.Dbs.{Engine}
use scalable_e_commerce_plat.Paging.{Pagination}
use scalable_e_commerce_plat.Store.{Tables}
use scalable_e_commerce_plat.Validation.{Validation}
use scalable_e_commerce_plat.Inventory.Model.{
  Inventory, ListInventoryReq, SetInventoryReq, AdjustInventoryReq,
}
use scalable_e_commerce_plat.Inventory.Repository

module _ {F : Type 0} (v : Validation) (db : Engine) where
  unfoldable pub list :
      (ℤ → ℤ → ℤ)
      → (String → Inventory → ℕ)
      → ListInventoryReq
      → Action (Tables F) (List Inventory × Pagination)
  list ceil rank req = Repository.list db ceil rank req

  unfoldable pub get_inventory : String → Action (Tables F) Inventory
  get_inventory product_id =
      catch (Repository.get_by_product_id db product_id)
        (λ e. raise (if is_record_not_found e then inventory_not_found else e))

  unfoldable pub get_by_product_id : String → Action (Tables F) Inventory
  get_by_product_id product_id = get_inventory product_id

  unfoldable pub get_or_create : String → String → Action (Tables F) (Inventory × Bool)
  get_or_create uuid product_id =
      catch (do inventory ← Repository.get_by_product_id db product_id; pure (inventory, false))
        (λ e.
          if is_record_not_found e
          then (do
            inv ←
                Repository.create db uuid
                  (record { id = ""; product_id = product_id; quantity = pos 0 })
            pure (inv, true))
          else raise e)

  unfoldable pub set_stock : String → SetInventoryReq → Action (Tables F) Inventory
  set_stock uuid req = do
    lift (v.set_inventory req)
    found ← get_or_create uuid req.product_id
    let inventory : Inventory = record (found.0) { quantity = req.quantity }
    Repository.update db inventory
    pure inventory

  unfoldable pub adjust_stock : String → String → AdjustInventoryReq → Action (Tables F) Inventory
  adjust_stock uuid product_id req = do
    lift (v.adjust_inventory req)
    found ← Repository.adjust_stock db uuid product_id req.quantity_delta
    if found.1 then pure (found.0) else (do get_inventory product_id; raise insufficient_stock)

  unfoldable pub consume_stock : String → ℤ → Action (Tables F) (Unit {0})
  consume_stock product_id quantity = do
    raise_if (leb_ℤ quantity (pos 0)) quantity_not_positive
    consumed ← Repository.consume_stock db product_id quantity
    if consumed then pure tt else (do get_inventory product_id; raise insufficient_stock)

  unfoldable pub restock : String → String → ℤ → Action (Tables F) (Unit {0})
  restock uuid product_id quantity = do
    raise_if (leb_ℤ quantity (pos 0)) quantity_not_positive
    Repository.restock db uuid product_id quantity
