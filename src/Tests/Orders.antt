-- ===== src/Tests/Orders.antt =====
-- Runs of the order service.
use scalable_e_commerce_plat.Base.{
  ℕ, ◌≤◌, String, ◌≡◌, ◌↔◌, ◌⊎◌, refl, ok, err, pos, max_int64, arith, List, [], ◌∷◌, some, engine,
  other, ◌*ℤ◌, ◌+ℤ◌, ◌-ℤ◌, wrap64,
}
use scalable_e_commerce_plat.Base.Text.{text_le, codes, codes_le}
use scalable_e_commerce_plat.Dbs.Reference.{reliable}
use scalable_e_commerce_plat.Money.{to_minor_units, from_minor_units, multiply, add}
use scalable_e_commerce_plat.Inventory.Stock.{stock}
use scalable_e_commerce_plat.Inventory.Service as StockService
use scalable_e_commerce_plat.Inventory.Repository as StockRepository
use scalable_e_commerce_plat.Order.Model.{Order, OrderLine, before_create, cancelled}
use scalable_e_commerce_plat.Order.Plan.{
  StockConsumption, stock_consumption_plan, sum_quantities, add_quantity, quantity_for, sort_texts,
  insert_text, validate_order_quantities,
}
use scalable_e_commerce_plat.Order.Plan.Totals.{
  planned, ordered, occurs, planned-stock_consumption_plan,
}
use scalable_e_commerce_plat.Order.Plan.Sorting.{
  IsSorted, product_ids, stock_consumption_plan-IsSorted,
}
use scalable_e_commerce_plat.Order.Plan.Bounds.{stock_consumption_plan_iff}
use scalable_e_commerce_plat.Order.Pricing.{IsPriced, price_lines-IsPriced}
use scalable_e_commerce_plat.Order.Replay.{replay_answer, place_order_replays}
use scalable_e_commerce_plat.Order.Outcome.{Outcome, place_order-Outcome}
use scalable_e_commerce_plat.Order.Cancelling.{CancelOutcome, cancel_order-CancelOutcome}
use scalable_e_commerce_plat.Order.Idempotence.{IsSame, place_order-place_order}
use scalable_e_commerce_plat.Order.RoundTrip.{place_order-cancel_order}
use scalable_e_commerce_plat.Order.Repository as Orders
use scalable_e_commerce_plat.Order.Service.{
  Priced, place_order, place_new, place_within, price_lines, consume_all, restock_all, new_order,
  build_order_created_payload, cancel_order, cancel_loaded, replay_idempotent_order,
}
use scalable_e_commerce_plat.Outbox.Service as OutboxService
use scalable_e_commerce_plat.Outbox.Repository as OutboxRepository
use scalable_e_commerce_plat.Outbox.Model as Event
use scalable_e_commerce_plat.Tests.{
  hundredths, accepting, shop, shop_with_order, world, request, line, order, tea_product,
}
use scalable_e_commerce_plat.Tests.Stock.{shop-IsSound}

abbrev lines : List (OrderLine ℕ)
lines = line ∷ record line { product_id = "cup"; quantity = 1 } ∷ line ∷ []

abbrev plan : List StockConsumption
plan =
    record { product_id = "cup"; quantity = 1 } ∷ record { product_id = "tea"; quantity = 6 } ∷ []

planned_lines : stock_consumption_plan lines ≡ ok plan
unfolding stock_consumption_plan sum_quantities add_quantity quantity_for sort_texts insert_text
    text_le codes codes_le
planned_lines = refl

planned-stock_consumption_plan_example : planned "tea" plan ≡ ordered "tea" lines
planned-stock_consumption_plan_example =
    planned-stock_consumption_plan lines plan "tea" planned_lines

stock_consumption_plan-IsSorted_example :
    IsSorted (product_ids plan) × ((j : String) → occurs j (product_ids plan) ≤ 1)
stock_consumption_plan-IsSorted_example = stock_consumption_plan-IsSorted lines plan planned_lines

stock_consumption_plan_iff_example :
    ((p : List StockConsumption) × (stock_consumption_plan lines ≡ ok p))
    ↔ ((j : String) → ordered j lines ≤ max_int64)
stock_consumption_plan_iff_example = stock_consumption_plan_iff lines

place_order-Outcome_example :
    Outcome hundredths accepting reliable world request shop
      (place_order hundredths accepting reliable world request shop)
place_order-Outcome_example =
    place_order-Outcome hundredths accepting reliable world request shop shop-IsSound

valid_request : validate_order_quantities request.lines ≡ ok tt
unfolding validate_order_quantities
valid_request = refl

place_order_replays_example :
    (place_order hundredths accepting reliable world request shop_with_order
      ≡ (replay_answer shop_with_order order "f", shop_with_order))
    ⊎ ((n : ℕ) × (place_order hundredths accepting reliable world request shop_with_order
          ≡ (err (engine (other n)), shop_with_order)))
place_order_replays_example =
    place_order_replays hundredths accepting reliable world request shop_with_order order
      valid_request refl refl refl refl

cancel_order-CancelOutcome_example :
    CancelOutcome "o1" "ann" shop_with_order
      (cancel_order hundredths accepting reliable world "o1" "ann" shop_with_order)
cancel_order-CancelOutcome_example =
    cancel_order-CancelOutcome hundredths accepting reliable world "o1" "ann" shop_with_order
      (omega arith, tt) shop-IsSound

-- What placing `request` answers, and cancelling it.
abbrev pub placed : Order ℕ
placed = record order { lines = record line { product = some tea_product } ∷ [] }

abbrev cancelled_order : Order ℕ
cancelled_order = record placed { status = cancelled }

pub placed_now : (place_order hundredths accepting reliable world request shop).0 ≡ ok placed
unfolding place_order place_new place_within price_lines consume_all new_order
    build_order_created_payload replay_idempotent_order validate_order_quantities
    stock_consumption_plan sum_quantities add_quantity quantity_for sort_texts insert_text text_le
    to_minor_units from_minor_units multiply add wrap64 ◌*ℤ◌ ◌+ℤ◌ ◌-ℤ◌ before_create
    Event.before_create StockService.consume_stock StockRepository.consume_stock Orders.create_order
    Orders.insert_order Orders.get_product_by_id Orders.get_order_by_idempotency_key
    OutboxService.create_pending OutboxRepository.create_pending
placed_now = refl

cancelled_now :
    (cancel_order hundredths accepting reliable world "o1" "ann"
      (place_order hundredths accepting reliable world request shop).1).0
    ≡ ok cancelled_order
unfolding place_order place_new place_within price_lines consume_all new_order
    build_order_created_payload replay_idempotent_order validate_order_quantities
    stock_consumption_plan sum_quantities add_quantity quantity_for sort_texts insert_text text_le
    to_minor_units from_minor_units multiply add wrap64 ◌*ℤ◌ ◌+ℤ◌ ◌-ℤ◌ before_create
    Event.before_create StockService.consume_stock StockRepository.consume_stock Orders.create_order
    Orders.insert_order Orders.get_product_by_id Orders.get_order_by_idempotency_key
    OutboxService.create_pending OutboxRepository.create_pending cancel_order cancel_loaded
    restock_all Orders.get_order_by_id Orders.preload Orders.cancel_order_if_cancellable
    StockService.restock StockRepository.restock
cancelled_now = refl

place_order-cancel_order_example :
    stock "tea"
      (cancel_order hundredths accepting reliable world "o1" "ann"
        (place_order hundredths accepting reliable world request shop).1).1.inventories
    ≡ stock "tea" shop.inventories
place_order-cancel_order_example =
    place_order-cancel_order hundredths accepting reliable world world request shop placed
      cancelled_order "ann" "tea" shop-IsSound tt tt placed_now refl cancelled_now

abbrev priced : Priced ℕ
priced = record { lines = line ∷ []; total = pos 750; products = ("tea", tea_product) ∷ [] }

priced_now :
    (price_lines hundredths accepting reliable world (line ∷ []) (pos 0) [] shop).0 ≡ ok priced
unfolding price_lines Orders.get_product_by_id to_minor_units from_minor_units multiply add wrap64
    ◌*ℤ◌ ◌+ℤ◌ ◌-ℤ◌
priced_now = refl

price_lines-IsPriced_example :
    IsPriced hundredths shop 0 (line ∷ []) priced
    × ((price_lines hundredths accepting reliable world (line ∷ []) (pos 0) [] shop).1 ≡ shop)
price_lines-IsPriced_example =
    price_lines-IsPriced hundredths accepting reliable world (line ∷ []) 0 [] shop priced
      (omega arith) priced_now

place_order-place_order_example :
    ((again : Order ℕ) × (place_order hundredths accepting reliable world request
          (place_order hundredths accepting reliable world request shop).1
        ≡ (ok again, (place_order hundredths accepting reliable world request shop).1))
      × IsSame hundredths accepting reliable world placed again)
    ⊎ ((n : ℕ) × (place_order hundredths accepting reliable world request
            (place_order hundredths accepting reliable world request shop).1
          ≡ (
            err (engine (other n)),
            (place_order hundredths accepting reliable world request shop).1,
          )))
place_order-place_order_example =
    place_order-place_order hundredths accepting reliable world world request shop placed
      shop-IsSound refl refl refl placed_now refl
