-- ===== src/Tests.antt =====
-- Data that the examples share: prices in hundredths for float64, a validator that accepts all, and
-- small tables.
pub mod Orders
pub mod Stock
pub mod Events
pub mod Accounts
pub mod Queries
pub mod Listing
pub mod Http
pub mod Settings
pub mod Access
pub mod Carts
pub mod Products
pub mod Lifecycle
use scalable_e_commerce_plat.Base.{
  ℕ, ◌+◌, ◌*◌, ◌/◌, ◌-◌, String, ◌≡◌, refl, Bool, true, false, Option, none, some, List, [], ◌∷◌,
  Result, ok, err, ltb, leb, ℤ, pos, negsuc,
}
use scalable_e_commerce_plat.Money.{Floats}
use scalable_e_commerce_plat.Store.{Tables}
use scalable_e_commerce_plat.Validation.{Validation}
use scalable_e_commerce_plat.Inventory.Model.{Inventory}
use scalable_e_commerce_plat.Order.Model.{
  Product, PlaceOrderReq, PlaceOrderLineReq, Order, OrderLine, new,
}
use scalable_e_commerce_plat.Order.Service.{Env}

abbrev pub hundredths : Floats
hundredths = record {
  Float = ℕ;
  zero_float = 0;
  is_nan = λ _. false;
  is_inf = λ _. false;
  lt_float = ltb;
  ge_float = λ a b. leb b a;
  mul_float = λ a b. a * b / 100;
  div_float = λ a b. a * 100 / b;
  sub_float = λ a b. a - b;
  round_float = λ a. (a + 50) / 100 * 100;
  abs_float = λ a. a;
  of_int = λ n. hundredfold n;
  to_int = λ a. pos (a / 100);
  rounding_tolerance = 0;
}
  where
    hundredfold : ℤ → ℕ
    hundredfold (pos n) = n * 100
    hundredfold (negsuc n) = 0

abbrev pub accepting : Validation
accepting = record {
  set_inventory = λ _. ok tt;
  adjust_inventory = λ _. ok tt;
  place_order = λ _. ok tt;
}

abbrev pub tea : Inventory
tea = record { id = "i1"; product_id = "tea"; quantity = pos 10 }

abbrev pub cup : Inventory
cup = record { id = "i2"; product_id = "cup"; quantity = pos 4 }

abbrev pub product : String → ℕ → Product ℕ
product id price = record {
  id = id;
  code = id;
  name = id;
  description = "";
  price = price;
  active = true;
  created_at = 1000;
  updated_at = 1000;
}

abbrev pub shop : Tables ℕ
shop = record {
  products = product "tea" 250 ∷ product "cup" 1200 ∷ [];
  inventories = tea ∷ cup ∷ [];
  orders = [];
  order_lines = [];
  outbox_events = [];
}

abbrev pub world : Env ℕ
world = record {
  order_id = "o1";
  order_code = "SO1";
  line_ids = λ n. "line";
  event_id = "e1";
  inventory_id = λ product_id. product_id;
  clock = 1000;
  encode = λ _. ok "{}";
  others = λ s. s;
}

abbrev pub request : PlaceOrderReq
request = record {
  user_id = "ann";
  idempotency_key_hash = "k";
  idempotency_fingerprint = "f";
  lines = record { product_id = "tea"; quantity = 3 } ∷ [];
}

-- The order that `request` places, and the tables with it.
abbrev pub tea_product : Product ℕ
tea_product = product "tea" 250

abbrev pub line : OrderLine ℕ
line = record {
  id = "line";
  order_id = "o1";
  product_id = "tea";
  product = none;
  quantity = 3;
  price = 750;
}

abbrev pub order : Order ℕ
order = record {
  id = "o1";
  code = "SO1";
  user_id = "ann";
  lines = [];
  total_price = 750;
  status = new;
  idempotency_key = some "k";
  idempotency_fingerprint = some "f";
  idempotency_replay = false;
}

abbrev pub shop_with_order : Tables ℕ
shop_with_order = record shop { orders = order ∷ []; order_lines = line ∷ [] }
