-- ===== src/Inventory/Listed.antt =====
-- internal/inventory/service/inventory.go: what List answers.
use scalable_e_commerce_plat.Base.{
  ℕ, ◌≤◌, String, ◌≡◌, ◌⊎◌, ok, err, engine, other, eq_iff, ℤ, pos, pos_part, All, length, drop,
  length-take-le, arith, List,
}
use scalable_e_commerce_plat.Dbs.{Engine}
use scalable_e_commerce_plat.Dbs.Rows.{count_where, filter_where, ordered_by, page_rows}
use scalable_e_commerce_plat.Dbs.Pages.{page_rows-All}
use scalable_e_commerce_plat.Paging as Paging
use scalable_e_commerce_plat.Paging.{Pagination, new-limit}
use scalable_e_commerce_plat.Store.{Tables}
use scalable_e_commerce_plat.Validation.{Validation}
use scalable_e_commerce_plat.Inventory.Model.{Inventory, ListInventoryReq}
use scalable_e_commerce_plat.Inventory.Repository as Repository
use scalable_e_commerce_plat.Inventory.Repository.{inventory_list_order, listed}
use scalable_e_commerce_plat.Inventory.Service as Service

module _ {F : Type 0} (ceil : ℤ → ℤ → ℤ) (rank : String → Inventory → ℕ) where
  abbrev pub pagination_of : ListInventoryReq → Tables F → Pagination
  pagination_of req s =
      Paging.new ceil req.page req.limit (pos (count_where (listed req) s.inventories))

  abbrev pub page_of : ListInventoryReq → Tables F → List Inventory
  page_of req s =
      let order = inventory_list_order req.order_by req.order_desc in
      let pagination = pagination_of req s in
      page_rows (listed req) (rank order.column) order.desc (pos_part pagination.limit)
        pagination.skip s.inventories

  -- List answers a page of the rows, each of the product that is asked for if one is, and at most 20
  -- of them; or the engine reports a fault. The tables are as before.
  pub list_lem :
      (v : Validation) (db : Engine) (req : ListInventoryReq) (s : Tables F)
      → ((Service.list v db ceil rank req s ≡ (ok (page_of req s, pagination_of req s), s))
          ⊎ ((n : ℕ) × (Service.list v db ceil rank req s ≡ (err (engine (other n)), s))))
        × All (λ r. (req.product_id ≡ "") ⊎ (r.product_id ≡ req.product_id)) (page_of req s)
        × (length (page_of req s) ≤ 20)
  unfolding Service.list Repository.list
  list_lem v db req s =
      let order = inventory_list_order req.order_by req.order_desc in
      let pagination = pagination_of req s in
      let total = db.count_replies Inventory (listed req) s.inventories in
      let page =
        db.find_page_replies Inventory (listed req) (rank order.column) order.desc
          (pos_part pagination.limit) pagination.skip s.inventories in
      let size = new-limit ceil req.page req.limit (pos (count_where (listed req) s.inventories)) in
      let rows =
        ordered_by order.desc (rank order.column) (filter_where (listed req) s.inventories) in
      (
        ground (arith, total, page),
        page_rows-All (λ r. (req.product_id ≡ "") ⊎ (r.product_id ≡ req.product_id)) (listed req)
            (rank order.column) order.desc (pos_part pagination.limit) pagination.skip s.inventories
            (λ r h.
              ground (arith, h, eq_iff req.product_id "", eq_iff r.product_id req.product_id)),
        ground (
          arith,
          size,
          length-take-le (pos_part pagination.limit) (drop (pos_part pagination.skip) rows),
        ),
      )
