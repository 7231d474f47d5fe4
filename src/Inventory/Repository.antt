-- ===== src/Inventory/Repository.antt =====
-- internal/inventory/repository/inventory.go. `created_at`, `updated_at` are left out. For `List`,
-- `ceil` is the one of Paging, and `rank` orders the rows by the values of a column.
use scalable_e_commerce_plat.Base.{
  ℕ, ◌||◌, pos_part, String, Bool, true, false, ◌&&◌, List, [], ◌∷◌, pure, ◌>>=◌, ◌>>◌, Action,
  ◌==◌, ltb, nat_eq, length, ℤ, pos, ◌+ℤ◌, ◌-ℤ◌, leb_ℤ, ltb_ℤ, in_int64, if◌then◌else◌,
}
use scalable_e_commerce_plat.Database.{OrderByColumn, safe_order_by_column}
use scalable_e_commerce_plat.Dbs.{Engine, statement, query, answering}
use scalable_e_commerce_plat.Paging as Paging
use scalable_e_commerce_plat.Paging.{Pagination}
use scalable_e_commerce_plat.Store.{Tables, write_inventories}
use scalable_e_commerce_plat.Inventory.Model.{Inventory, ListInventoryReq, before_create}

-- The unique index of migrations/.
abbrev pub product_index : String
product_index = "idx_inventory_product"

-- The column is a BIGINT.
abbrev pub quantity_fits : Inventory → Bool
quantity_fits r = in_int64 r.quantity

-- `new(model.Inventory)`
abbrev pub no_inventory : Inventory
no_inventory = record { id = ""; product_id = ""; quantity = pos 0 }

-- The row that RETURNING scans into the model, and whether one row was affected.
abbrev pub returned : List Inventory → Inventory × Bool
returned [] = (no_inventory, false)
returned (r ∷ rows) = (r, nat_eq (length (r ∷ rows)) 1)

-- The index and the primary key that a present row makes an INSERT violate.
abbrev pub violates : Inventory → Inventory → List String
violates row r =
    if r.product_id == row.product_id
    then product_index ∷ []
    else if r.id == row.id
    then "inventories_pkey" ∷ []
    else []

abbrev pub inventory_list_order_columns : List (String × String)
inventory_list_order_columns =
    ("created_at", "created_at")
    ∷ ("product_id", "product_id")
    ∷ ("quantity", "quantity")
    ∷ ("updated_at", "updated_at")
    ∷ []

abbrev pub inventory_list_order : String → Bool → OrderByColumn
inventory_list_order order_by desc =
    safe_order_by_column order_by desc "created_at" inventory_list_order_columns

-- The WHERE condition: an empty product is not asked for.
abbrev pub listed : ListInventoryReq → Inventory → Bool
listed req r = req.product_id == "" || r.product_id == req.product_id

module _ {F : Type 0} (db : Engine) where
  unfoldable pub list :
      (ℤ → ℤ → ℤ)
      → (String → Inventory → ℕ)
      → ListInventoryReq
      → Action (Tables F) (List Inventory × Pagination)
  list ceil rank req = do
    let order = inventory_list_order req.order_by req.order_desc
    total ← query (λ s. s.inventories) (db.count Inventory (listed req))
    let pagination = Paging.new ceil req.page req.limit (pos total)
    items ←
        query (λ s. s.inventories)
          (db.find_page Inventory (listed req) (rank order.column) order.desc
            (pos_part pagination.limit) pagination.skip)
    pure (items, pagination)

  unfoldable pub get_by_product_id : String → Action (Tables F) Inventory
  get_by_product_id product_id =
      query (λ s. s.inventories) (db.first Inventory (λ r. r.product_id == product_id))

  unfoldable pub create : String → Inventory → Action (Tables F) Inventory
  unfolding before_create
  create uuid inventory =
      let row = before_create uuid inventory in
      statement (λ s. s.inventories) write_inventories
        (λ rows. answering row (db.insert Inventory (violates row) row rows))

  unfoldable pub update : Inventory → Action (Tables F) (Unit {0})
  update inventory =
      statement (λ s. s.inventories) write_inventories
        (λ rows. answering tt (db.save Inventory (λ r. r.id == inventory.id) inventory rows))

  unfoldable pub adjust_stock : String → String → ℤ → Action (Tables F) (Inventory × Bool)
  unfolding before_create
  adjust_stock uuid product_id quantity_delta =
      if ltb_ℤ (pos 0) quantity_delta
      then (do
        let inventory =
            before_create uuid
              (record { id = ""; product_id = product_id; quantity = quantity_delta })
        row ←
            statement (λ s. s.inventories) write_inventories
              (db.upsert Inventory (λ r. r.product_id == product_id)
                (λ r. record r { quantity = r.quantity +ℤ quantity_delta }) quantity_fits inventory)
        pure (row, true))
      else (do
        rows ←
            statement (λ s. s.inventories) write_inventories
              (db.update_returning Inventory
                (λ r. r.product_id == product_id && leb_ℤ (pos 0) (r.quantity +ℤ quantity_delta))
                (λ r. record r { quantity = r.quantity +ℤ quantity_delta }) quantity_fits)
        pure (returned rows))

  unfoldable pub consume_stock : String → ℤ → Action (Tables F) Bool
  consume_stock product_id quantity = do
    affected ←
        statement (λ s. s.inventories) write_inventories
          (db.update Inventory (λ r. r.product_id == product_id && leb_ℤ quantity r.quantity)
            (λ r. record r { quantity = r.quantity -ℤ quantity }) quantity_fits)
    pure (ltb 0 affected)

  unfoldable pub restock : String → String → ℤ → Action (Tables F) (Unit {0})
  unfolding before_create
  restock uuid product_id quantity = do
    let inventory =
        before_create uuid (record { id = ""; product_id = product_id; quantity = quantity })
    statement (λ s. s.inventories) write_inventories
        (db.upsert Inventory (λ r. r.product_id == product_id)
          (λ r. record r { quantity = r.quantity +ℤ quantity }) quantity_fits inventory)
    pure tt
