-- ===== src/Order/Http/Reasons.antt =====
-- internal/order/port/http/handlers.go: what PlaceOrder makes of an error and of a duplicate.
use scalable_e_commerce_plat.Base.{
  ℕ, String, ◌||◌, Error, ◌==◌, cause, invalid_order_quantity, invalid_order_amount,
  idempotency_conflict, insufficient_stock, if◌then◌else◌,
}
use scalable_e_commerce_plat.Order.Http.{Metric, order_place}

unfoldable pub order_placement_error_response : Error → ℕ × String
order_placement_error_response e = elim (cause e) [
  | invalid_order_quantity ↦ (400, "Invalid quantity")
  | invalid_order_amount ↦ (400, "Invalid order amount")
  | idempotency_conflict ↦ (409, "Idempotency key conflict")
  | insufficient_stock ↦ (409, "Insufficient stock")
  | _ ↦ (500, "Something went wrong")
]

unfoldable pub order_placement_metric_reason : Error → String
order_placement_metric_reason e = elim (cause e) [
  | invalid_order_quantity ↦ "invalid_quantity"
  | invalid_order_amount ↦ "invalid_amount"
  | idempotency_conflict ↦ "idempotency_conflict"
  | insufficient_stock ↦ "insufficient_stock"
  | _ ↦ "internal_failure"
]

-- What recordHandledIdempotencyMetric raises.
unfoldable pub handled_idempotency_metric : String → Metric
handled_idempotency_metric reason =
    if reason == "duplicate_replay"
    then order_place "duplicate" reason
    else if reason == "duplicate_in_flight"
        || reason == "duplicate_lookup_failed"
        || reason == "duplicate_order_lookup_failed"
    then order_place "failure" reason
    else order_place "failure" "idempotency_error"
