-- ===== src/Inventory/Http.antt =====
-- internal/inventory/port/http/handlers.go. A request comes with its query or its body as gin has
-- bound it, and with the product of its path. The log is left out.
use scalable_e_commerce_plat.Base.{
  ℕ, String, ◌≡◌, ◌⊎◌, inl, inr, none, some, List, map, Result, ok, err, Error, ℤ, arith,
  Option-cases, cause, insufficient_stock, inventory_not_found, engine, other, ◌==◌,
}
use scalable_e_commerce_plat.Dbs.{Engine}
use scalable_e_commerce_plat.Dbs.Keyed.{find_key}
use scalable_e_commerce_plat.Paging.{Pagination}
use scalable_e_commerce_plat.Response.{Response, error_response, json_response}
use scalable_e_commerce_plat.Store.{Tables}
use scalable_e_commerce_plat.Validation.{Validation}
use scalable_e_commerce_plat.Inventory.Model.{
  Inventory, ListInventoryReq, SetInventoryReq, AdjustInventoryReq,
}
use scalable_e_commerce_plat.Inventory.Repository as Repository
use scalable_e_commerce_plat.Inventory.Service as Service

-- dto.Inventory
pub record InventoryRes : Type 0 where
  pub product_id : String
  pub quantity : ℤ

pub record ListInventoryRes : Type 0 where
  pub items : List InventoryRes
  pub pagination : Pagination

-- `utils.Copy(&res, &item)`
abbrev pub copy_inventory : Inventory → InventoryRes
copy_inventory item = record { product_id = item.product_id; quantity = item.quantity }

abbrev get_error : Error → ℕ × String
get_error e = elim (cause e) [
  | inventory_not_found ↦ (404, "Not found")
  | _ ↦ (500, "Something went wrong")
]

-- The text of ErrInsufficientStock, which the service returns as it is.
abbrev adjust_error : Error → ℕ × String
adjust_error e = elim (cause e) [
  | insufficient_stock ↦ (400, "insufficient stock")
  | _ ↦ (500, "Something went wrong")
]

module _ {F : Type 0} (v : Validation) (db : Engine) (environment : String) where
  unfoldable pub list :
      (ℤ → ℤ → ℤ)
      → (String → Inventory → ℕ)
      → Result ListInventoryReq
      → Tables F
      → Response ListInventoryRes × Tables F
  list ceil rank (err e) s = (error_response environment 400 e "Invalid parameters", s)
  list ceil rank (ok req) s =
      let (r, s1) = Service.list v db ceil rank req s in
      elim r [
        | err e ↦ (error_response environment 500 e "Something went wrong", s1)
        | ok (items, pagination) ↦ (
          json_response 200 (record { items = map copy_inventory items; pagination = pagination }),
          s1,
        )
      ]

  unfoldable pub get : String → Tables F → Response InventoryRes × Tables F
  get product_id s =
      let (r, s1) = Service.get_by_product_id v db product_id s in
      elim r [
        | err e ↦
            let (status, message) = get_error e in (error_response environment status e message, s1)
        | ok item ↦ (json_response 200 (copy_inventory item), s1)
      ]

  unfoldable pub set :
      String → String → Result SetInventoryReq → Tables F → Response InventoryRes × Tables F
  set uuid product_id (err e) s = (error_response environment 400 e "Invalid parameters", s)
  set uuid product_id (ok req) s =
      let (r, s1) = Service.set_stock v db uuid (record req { product_id = product_id }) s in
      elim r [
        | err e ↦ (error_response environment 500 e "Something went wrong", s1)
        | ok item ↦ (json_response 200 (copy_inventory item), s1)
      ]

  unfoldable pub adjust :
      String → String → Result AdjustInventoryReq → Tables F → Response InventoryRes × Tables F
  adjust uuid product_id (err e) s = (error_response environment 400 e "Invalid parameters", s)
  adjust uuid product_id (ok req) s =
      let (r, s1) = Service.adjust_stock v db uuid product_id req s in
      elim r [
        | err e ↦
            let (status, message) = adjust_error e in
            (error_response environment status e message, s1)
        | ok item ↦ (json_response 200 (copy_inventory item), s1)
      ]

  -- Get answers 200 with the row of the product that is on record, 404 where there is none, or 500 on
  -- a fault of the engine. The tables are as before.
  pub get_lem :
      (product_id : String) (s : Tables F)
      → let found = find_key (λ (r : Inventory). r.product_id) product_id s.inventories in
        (get product_id s ≡ (
          elim found [
            | none ↦ error_response environment 404 inventory_not_found "Not found"
            | some row ↦ json_response 200 (copy_inventory row)
          ],
          s,
        ))
        ⊎ ((n : ℕ) × (get product_id s
              ≡ (error_response environment 500 (engine (other n)) "Something went wrong", s)))
  unfolding get Service.get_by_product_id Service.get_inventory Repository.get_by_product_id
  get_lem product_id s =
      let found = db.first_replies Inventory (λ r. r.product_id == product_id) s.inventories in
      elim (Option-cases (find_key (λ (r : Inventory). r.product_id) product_id s.inventories)) [
        | inl z ↦ ground (arith, found, z)
        | inr (row, z) ↦ ground (arith, found, z)
      ]
