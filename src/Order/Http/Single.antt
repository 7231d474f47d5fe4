-- ===== src/Order/Http/Single.antt =====
-- internal/order/port/http/handlers.go: GetOrderByID and CancelOrder.
use scalable_e_commerce_plat.Base.{
  ℕ, String, ok, err, Error, ◌==◌, new_error, cause, permission_denied, invalid_order_state,
  if◌then◌else◌,
}
use scalable_e_commerce_plat.Response.{json_response}
use scalable_e_commerce_plat.Order.Http.{OrderHandler, Call, on_tables, respond, copy_order}
use scalable_e_commerce_plat.Order.Http.Placement.{fail}

-- The status and the text of an error of GetOrderByID, and of CancelOrder.
abbrev get_order_error : Error → ℕ × String
get_order_error e = elim (cause e) [
  | permission_denied ↦ (403, "Permission denied")
  | _ ↦ (404, "Not found")
]

abbrev cancel_order_error : Error → ℕ × String
cancel_order_error e = elim (cause e) [
  | permission_denied ↦ (403, "Permission denied")
  | invalid_order_state ↦ (409, "Invalid order state")
  | _ ↦ (500, "Something went wrong")
]

module _ {T R F : Type 0} (h : OrderHandler T R F) where
  unfoldable pub get_order_by_id : String → String → Call T R F → Call T R F
  get_order_by_id user_id order_id c =
      if user_id == ""
      then fail h 401 (new_error "unauthorized") "Unauthorized" c
      else if order_id == ""
      then fail h 400 (new_error "bad request") "Miss Order ID" c
      else let (r, c1) = on_tables (h.service.get_order_by_id order_id user_id) c in
        elim r [
          | err e ↦ let (status, message) = get_order_error e in fail h status e message c1
          | ok order ↦ respond (json_response 200 (copy_order order)) c1
        ]

  unfoldable pub cancel_order : String → String → Call T R F → Call T R F
  cancel_order user_id order_id c =
      if user_id == ""
      then fail h 401 (new_error "unauthorized") "Unauthorized" c
      else if order_id == ""
      then fail h 400 (new_error "bad request") "Miss Order ID" c
      else let (r, c1) = on_tables (h.service.cancel_order order_id user_id) c in
        elim r [
          | err e ↦ let (status, message) = cancel_order_error e in fail h status e message c1
          | ok order ↦ respond (json_response 200 (copy_order order)) c1
        ]
