-- ===== src/Order/Http/Listing.antt =====
-- internal/order/port/http/handlers.go: GetOrders, over the service and its repository. A request
-- comes with its query as gin has bound it, and with the user that the middleware has set.
use scalable_e_commerce_plat.Base.{
  ℕ, ◌≤◌, String, ◌≡◌, false, List, map, Result, ok, err, Action, ◌==◌, ℤ, ◌⊎◌, new_error, All,
  length, arith, engine, other, if◌then◌else◌,
}
use scalable_e_commerce_plat.Dbs.{Engine}
use scalable_e_commerce_plat.Paging.{Pagination}
use scalable_e_commerce_plat.Response.{Response, error_response, json_response}
use scalable_e_commerce_plat.Store.{Tables}
use scalable_e_commerce_plat.Order.Model.{Order}
use scalable_e_commerce_plat.Order.Replay.{loaded}
use scalable_e_commerce_plat.Order.Listing.{ListOrderReq, get_my_orders}
use scalable_e_commerce_plat.Order.Listed.{Asked, page_of, pagination_of, get_my_orders-Asked}
use scalable_e_commerce_plat.Order.Http.{OrderRes, copy_order}

pub record ListOrderRes (F : Type 0) : Type 0 where
  pub orders : List (OrderRes F)
  pub pagination : Pagination

unfoldable pub get_orders :
    {T F : Type 0}
    → String
    → (ListOrderReq → Action T (List (Order F) × Pagination))
    → Result ListOrderReq
    → String
    → T
    → Response (ListOrderRes F) × T
get_orders environment list (err e) user_id s =
    (error_response environment 400 e "Invalid parameters", s)
get_orders environment list (ok req) user_id s =
    if user_id == ""
    then (error_response environment 401 (new_error "unauthorized") "Unauthorized", s)
    else let (r, s1) = list (record req { user_id = user_id }) s in
      elim r [
        | err e ↦ (error_response environment 500 e "Something went wrong", s1)
        | ok (orders, pagination) ↦ (
          json_response 200 (record { orders = map copy_order orders; pagination = pagination }),
          s1,
        )
      ]

module _ {F : Type 0} (ceil : ℤ → ℤ → ℤ) (rank : String → Order F → ℕ) (db : Engine) where
  -- With the order service and its repository behind the handler, a query that is bound, by a user
  -- whose id is not empty, leaves the tables alone and is answered 500 on a fault of the engine, or
  -- 200 with one page, each order with its lines and their products. The page is the slice of the
  -- rows asked for, in the order asked for, that paging.New gives from their exact count; every
  -- order on it is the user's own, whatever user the query names, and has the code and the status
  -- asked for; and it has at most 20 orders.
  pub get_orders-Asked :
      (environment : String) (bound : ListOrderReq) (user_id : String) (s : Tables F)
      → (user_id == "") ≡ false
      → let req : ListOrderReq = record bound { user_id = user_id } in
        ((get_orders environment (get_my_orders ceil rank db) (ok bound) user_id s ≡ (
          json_response 200 (record {
            orders = map copy_order (map (loaded s) (page_of ceil rank req s));
            pagination = pagination_of ceil rank req s;
          }),
          s,
        ))
          ⊎ ((n : ℕ) × (get_orders environment (get_my_orders ceil rank db) (ok bound) user_id s
                ≡ (error_response environment 500 (engine (other n)) "Something went wrong", s))))
        × All (Asked req) (page_of ceil rank req s)
        × (length (page_of ceil rank req s) ≤ 20)
  unfolding get_orders
  get_orders-Asked environment bound user_id s u =
      let req : ListOrderReq = record bound { user_id = user_id } in
      let (answer, asked, size) = get_my_orders-Asked ceil rank db req s in
      (ground (arith, u, answer), asked, size)
