-- ===== src/Tests/Listing.antt =====
-- Runs of GetOrders.
use scalable_e_commerce_plat.Base.{
  ℕ, String, ◌+◌, ◌-◌, ◌/◌, ◌≤◌, ◌≡◌, ◌⊎◌, refl, ok, true, map, [], ◌∷◌, ℤ, pos, pos_part, All,
  length, engine, other,
}
use scalable_e_commerce_plat.Dbs.Reference.{reliable}
use scalable_e_commerce_plat.Response.{error_response, json_response}
use scalable_e_commerce_plat.Store.{Tables}
use scalable_e_commerce_plat.Order.Model.{Order}
use scalable_e_commerce_plat.Order.Replay.{loaded}
use scalable_e_commerce_plat.Order.Listing.{ListOrderReq, get_my_orders}
use scalable_e_commerce_plat.Order.Listed.{Asked, page_of, pagination_of}
use scalable_e_commerce_plat.Order.Http.{copy_order}
use scalable_e_commerce_plat.Order.Http.Listing.{get_orders, get_orders-Asked}
use scalable_e_commerce_plat.Tests.{shop}
use scalable_e_commerce_plat.Tests.Orders.{placed}

abbrev ceil : ℤ → ℤ → ℤ
ceil total limit = pos ((pos_part total + pos_part limit - 1) / pos_part limit)

abbrev rank : String → Order ℕ → ℕ
rank column o = o.total_price

abbrev sold : Tables ℕ
sold = record shop {
  orders = placed ∷ record placed { id = "o2"; user_id = "eve" } ∷ [];
  order_lines = placed.lines;
}

abbrev bound : ListOrderReq
bound = record {
  user_id = "eve";
  code = "";
  status = "new";
  page = pos 1;
  limit = pos 5;
  order_by = "total_price";
  order_desc = true;
}

abbrev asked : ListOrderReq
asked = record bound { user_id = placed.user_id }

get_orders-Asked_example :
    ((get_orders "production" (get_my_orders ceil rank reliable) (ok bound) placed.user_id sold ≡ (
      json_response 200 (record {
        orders = map copy_order (map (loaded sold) (page_of ceil rank asked sold));
        pagination = pagination_of ceil rank asked sold;
      }),
      sold,
    ))
      ⊎ ((n : ℕ) × (get_orders "production"
              (get_my_orders ceil rank reliable)
              (ok bound)
              placed.user_id
              sold
            ≡ (error_response "production" 500 (engine (other n)) "Something went wrong", sold))))
    × All (Asked asked) (page_of ceil rank asked sold)
    × (length (page_of ceil rank asked sold) ≤ 20)
get_orders-Asked_example =
    get_orders-Asked ceil rank reliable "production" bound placed.user_id sold refl
