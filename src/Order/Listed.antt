-- ===== src/Order/Listed.antt =====
-- internal/order: what GetMyOrders answers.
use scalable_e_commerce_plat.Base.{
  ℕ, ◌≤◌, String, true, ◌≡◌, refl, ap, sym, subst, ◌∙◌, List, [], ◌∷◌, map, ok, err, engine, other,
  none, ◌==◌, eq_iff, ℤ, pos, pos_part, ◌⊎◌, inl, All, All-weaken, length, drop, length-take-le,
  arith,
}
use scalable_e_commerce_plat.Base.Words.{member}
use scalable_e_commerce_plat.Dbs.{Engine}
use scalable_e_commerce_plat.Dbs.Rows.{filter_where, ordered_by, page_rows, count_where, find_rows}
use scalable_e_commerce_plat.Dbs.Pages.{sort_by-const, filter_where-filter_where, page_rows-All}
use scalable_e_commerce_plat.Paging as Paging
use scalable_e_commerce_plat.Paging.{Pagination, new-limit}
use scalable_e_commerce_plat.Store.{Tables}
use scalable_e_commerce_plat.Order.Model.{Product, Order, OrderLine}
use scalable_e_commerce_plat.Order.Repository.{attach}
use scalable_e_commerce_plat.Order.Replay.{loaded}
use scalable_e_commerce_plat.Order.Listing.{
  ListOrderReq, status_text, order_list_order, selects, preload_all, list_orders, get_my_orders,
}

module _ {F : Type 0} where
  module _ (s : Tables F) (ids : List String) where
    -- The lines of a batch are those of each order of it.
    batch_lines :
        (id : String)
        → member id ids ≡ true
        → filter_where
            (λ (line : OrderLine F). line.order_id == id)
            (find_rows
              (λ (line : OrderLine F). member line.order_id ids)
              (λ _. 0)
              none
              s.order_lines)
          ≡ find_rows (λ (line : OrderLine F). line.order_id == id) (λ _. 0) none s.order_lines
    batch_lines id h =
        let same =
          filter_where-filter_where (λ (line : OrderLine F). member line.order_id ids)
            (λ (line : OrderLine F). line.order_id == id) s.order_lines
            (λ line e. subst (λ t. member t ids ≡ true) (sym ((eq_iff line.order_id id).0 e)) h) in
        let outer =
          sort_by-const
            (filter_where (λ (line : OrderLine F). line.order_id == id) s.order_lines) in
        let inner =
          sort_by-const
            (filter_where (λ (line : OrderLine F). member line.order_id ids) s.order_lines) in
        ap (filter_where (λ (line : OrderLine F). line.order_id == id)) inner ∙ same ∙ sym outer

    batch_loaded :
        (orders : List (Order F))
        → All (λ (o : Order F). member o.id ids ≡ true) orders
        → map
            (λ (o : Order F). record o {
              lines = map (attach (find_rows (λ (p : Product F). true) (λ _. 0) none s.products)) (
                  filter_where
                    (λ line. line.order_id == o.id)
                    (find_rows
                      (λ (line : OrderLine F). member line.order_id ids)
                      (λ _. 0)
                      none
                      s.order_lines));
            })
            orders
          ≡ map (loaded s) orders
    batch_loaded [] h = refl
    batch_loaded (o ∷ orders) h = cc (batch_lines o.id h.0, batch_loaded orders h.1)

  member_self :
      (orders : List (Order F))
      → All (λ (o : Order F). member o.id (map (λ (o : Order F). o.id) orders) ≡ true) orders
  member_self [] = tt
  member_self (o ∷ orders) = (
    ground (arith, eq_iff o.id o.id),
    All-weaken (λ (x : Order F). member x.id (map (λ (o : Order F). o.id) orders) ≡ true)
        (λ (x : Order F). member x.id (map (λ (o : Order F). o.id) (o ∷ orders)) ≡ true) orders
        (λ x h. ground (arith, h)) (member_self orders),
  )

-- The order is the user's, and has the code and the status that are asked for.
abbrev pub Asked : {F : Type 0} → ListOrderReq → Order F → Type 0
Asked req o =
    (o.user_id ≡ req.user_id)
    × ((req.code ≡ "") ⊎ (o.code ≡ req.code))
    × ((req.status ≡ "") ⊎ (status_text o.status ≡ req.status))

selects-Asked : {F : Type 0} (req : ListOrderReq) (o : Order F) → selects req o ≡ true → Asked req o
selects-Asked req o h = (
  ground (arith, h, eq_iff o.user_id req.user_id),
  ground (arith, h, eq_iff req.code "", eq_iff o.code req.code),
  ground (arith, h, eq_iff req.status "", eq_iff (status_text o.status) req.status),
)

module _ {F : Type 0} (db : Engine) where
  preload_all_lem :
      (orders : List (Order F)) (s : Tables F)
      → (preload_all db orders s ≡ (ok (map (loaded s) orders), s))
        ⊎ ((n : ℕ) × (preload_all db orders s ≡ (err (engine (other n)), s)))
  unfolding preload_all
  preload_all_lem [] s = inl refl
  preload_all_lem (order ∷ orders) s =
      let ids = map (λ (o : Order F). o.id) (order ∷ orders) in
      let lines =
        db.find_replies (OrderLine F) (λ line. member line.order_id ids) (λ _. 0) none
          s.order_lines in
      let products = db.find_replies (Product F) (λ _. true) (λ _. 0) none s.products in
      let batch = batch_loaded s ids (order ∷ orders) (member_self (order ∷ orders)) in
      ground (arith, lines, products, batch)

module _ {F : Type 0} (ceil : ℤ → ℤ → ℤ) (rank : String → Order F → ℕ) where
  -- The rows of the page, and what GetMyOrders says of it.
  abbrev pub pagination_of : ListOrderReq → Tables F → Pagination
  pagination_of req s =
      Paging.new ceil req.page req.limit (pos (count_where (selects req) s.orders))

  abbrev pub page_of : ListOrderReq → Tables F → List (Order F)
  page_of req s =
      let order = order_list_order req.order_by req.order_desc in
      let pagination = pagination_of req s in
      page_rows (selects req) (rank order.column) order.desc (pos_part pagination.limit)
        pagination.skip s.orders

  module _ (db : Engine) where
    list_orders_lem :
        (req : ListOrderReq) (s : Tables F)
        → (list_orders ceil rank db req s
            ≡ (ok (map (loaded s) (page_of req s), pagination_of req s), s))
          ⊎ ((n : ℕ) × (list_orders ceil rank db req s ≡ (err (engine (other n)), s)))
    unfolding list_orders
    list_orders_lem req s =
        let order = order_list_order req.order_by req.order_desc in
        let pagination = pagination_of req s in
        let total = db.count_replies (Order F) (selects req) s.orders in
        let page =
          db.find_page_replies (Order F) (selects req) (rank order.column) order.desc
            (pos_part pagination.limit) pagination.skip s.orders in
        let all = preload_all_lem db (page_of req s) s in ground (arith, total, page, all)

    pub get_my_orders-Asked :
        (req : ListOrderReq) (s : Tables F)
        → ((get_my_orders ceil rank db req s
              ≡ (ok (map (loaded s) (page_of req s), pagination_of req s), s))
            ⊎ ((n : ℕ) × (get_my_orders ceil rank db req s ≡ (err (engine (other n)), s))))
          × All (Asked req) (page_of req s)
          × (length (page_of req s) ≤ 20)
    unfolding get_my_orders
    get_my_orders-Asked req s =
        let order = order_list_order req.order_by req.order_desc in
        let pagination = pagination_of req s in
        let size = new-limit ceil req.page req.limit (pos (count_where (selects req) s.orders)) in
        let selected =
          ordered_by order.desc (rank order.column) (filter_where (selects req) s.orders) in
        (
          ground (arith, list_orders_lem req s),
          page_rows-All (Asked req) (selects req) (rank order.column) order.desc
              (pos_part pagination.limit) pagination.skip s.orders (selects-Asked req),
          ground (
            arith,
            size,
            length-take-le (pos_part pagination.limit) (drop (pos_part pagination.skip) selected),
          ),
        )
