-- ===== src/Store.antt =====
-- The tables that the repositories share (migrations/). `F` is the type of float64.
use scalable_e_commerce_plat.Base.{List}
use scalable_e_commerce_plat.Inventory.Model.{Inventory}
use scalable_e_commerce_plat.Order.Model.{Product, Order, OrderLine}
use scalable_e_commerce_plat.Outbox.Model.{OutboxEvent}

pub record Tables (F : Type 0) : Type 0 where
  pub products : List (Product F)
  pub inventories : List Inventory
  pub orders : List (Order F)
  pub order_lines : List (OrderLine F)
  pub outbox_events : List OutboxEvent

module _ {F : Type 0} where
  abbrev pub write_products : List (Product F) → Tables F → Tables F
  write_products rows s = record s { products = rows }

  abbrev pub write_inventories : List Inventory → Tables F → Tables F
  write_inventories rows s = record s { inventories = rows }

  abbrev pub write_orders : List (Order F) → Tables F → Tables F
  write_orders rows s = record s { orders = rows }

  abbrev pub write_order_lines : List (OrderLine F) → Tables F → Tables F
  write_order_lines rows s = record s { order_lines = rows }

  abbrev pub write_outbox_events : List OutboxEvent → Tables F → Tables F
  write_outbox_events rows s = record s { outbox_events = rows }
