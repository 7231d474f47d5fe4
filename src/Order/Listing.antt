-- ===== src/Order/Listing.antt =====
-- internal/order: `GetMyOrders` of the repository and the service, with dto.ListOrderReq. `ceil` is
-- the one of Paging, and `rank` orders the rows by the values of a column.
use scalable_e_commerce_plat.Base.{
  ℕ, String, Bool, true, ◌&&◌, ◌||◌, List, [], ◌∷◌, map, Action, pure, ◌>>=◌, ◌==◌, ℤ, pos,
  pos_part, none,
}
use scalable_e_commerce_plat.Base.Words.{member}
use scalable_e_commerce_plat.Database.{OrderByColumn, safe_order_by_column}
use scalable_e_commerce_plat.Dbs.{Engine, query}
use scalable_e_commerce_plat.Dbs.Rows.{filter_where}
use scalable_e_commerce_plat.Paging as Paging
use scalable_e_commerce_plat.Paging.{Pagination}
use scalable_e_commerce_plat.Store.{Tables}
use scalable_e_commerce_plat.Order.Model.{
  Product, Order, OrderLine, OrderStatus, unset, new, in_progress, done, cancelled,
}
use scalable_e_commerce_plat.Order.Repository.{attach}

pub record ListOrderReq : Type 0 where
  pub user_id : String
  pub code : String
  pub status : String
  pub page : ℤ
  pub limit : ℤ
  pub order_by : String
  pub order_desc : Bool

abbrev pub status_text : OrderStatus → String
status_text unset = ""
status_text new = "new"
status_text in_progress = "in-progress"
status_text done = "done"
status_text cancelled = "cancelled"

abbrev pub order_list_order_columns : List (String × String)
order_list_order_columns =
    ("code", "code")
    ∷ ("created_at", "created_at")
    ∷ ("status", "status")
    ∷ ("total_price", "total_price")
    ∷ ("updated_at", "updated_at")
    ∷ []

abbrev pub order_list_order : String → Bool → OrderByColumn
order_list_order order_by desc =
    safe_order_by_column order_by desc "created_at" order_list_order_columns

-- The WHERE conditions: an empty code or status is not asked for.
abbrev pub selects : {F : Type 0} → ListOrderReq → Order F → Bool
selects req o =
    o.user_id == req.user_id
    && (req.code == "" || o.code == req.code)
    && (req.status == "" || status_text o.status == req.status)

module _ {F : Type 0} (db : Engine) where
  -- WithPreload("Lines", "Lines.Product"): one query for the lines of all orders, one for products.
  unfoldable pub preload_all : List (Order F) → Action (Tables F) (List (Order F))
  preload_all [] = pure []
  preload_all (order ∷ orders) = do
    let ids = map (λ (o : Order F). o.id) (order ∷ orders)
    lines ←
        query (λ s. s.order_lines)
          (db.find (OrderLine F) (λ line. member line.order_id ids) (λ _. 0) none)
    products ← query (λ s. s.products) (db.find (Product F) (λ _. true) (λ _. 0) none)
    pure (
        map
          (λ (o : Order F). record o {
            lines = map (attach products) (filter_where (λ line. line.order_id == o.id) lines);
          })
          (order ∷ orders))

module _ {F : Type 0} (ceil : ℤ → ℤ → ℤ) (rank : String → Order F → ℕ) (db : Engine) where
  -- OrderRepo.GetMyOrders
  unfoldable pub list_orders : ListOrderReq → Action (Tables F) (List (Order F) × Pagination)
  list_orders req = do
    let order = order_list_order req.order_by req.order_desc
    total ← query (λ s. s.orders) (db.count (Order F) (selects req))
    let pagination = Paging.new ceil req.page req.limit (pos total)
    found ←
        query (λ s. s.orders)
          (db.find_page (Order F) (selects req) (rank order.column) order.desc
            (pos_part pagination.limit) pagination.skip)
    orders ← preload_all db found
    pure (orders, pagination)

  -- OrderService.GetMyOrders
  unfoldable pub get_my_orders : ListOrderReq → Action (Tables F) (List (Order F) × Pagination)
  get_my_orders req = do (orders, pagination) ← list_orders req; pure (orders, pagination)
