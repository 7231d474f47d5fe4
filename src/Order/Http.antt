-- ===== src/Order/Http.antt =====
-- internal/order/port/http/handlers.go: the order handlers. Redis is a parameter that acts on a
-- state `R`, the service one that acts on the tables `T`. A request comes with its body as gin has
-- bound it, with the user that the middleware has set, and with its header. The log is left out.
pub mod Lines
pub mod Reasons
pub mod Placement
pub mod Single
pub mod Listing
pub mod Fingerprint
pub mod Limit
pub mod Slot
pub mod Keyed
pub mod Retry
pub mod Once
pub mod Wiring
use scalable_e_commerce_plat.Base.{
  ℕ, String, Bool, true, false, Option, none, some, List, [], ◌∷◌, Result, ok, err, Error, Action,
  ◌==◌, ℤ, map,
}
use scalable_e_commerce_plat.Config.{Schema}
use scalable_e_commerce_plat.Config.Settings as Settings
use scalable_e_commerce_plat.Response.{Response, error_response}
use scalable_e_commerce_plat.Order.Model.{Order, OrderLine, Product, OrderStatus, PlaceOrderReq}

pub record IdempotencyRecord : Type 0 where
  pub status : String
  pub order_id : String
  pub fingerprint : String

-- dto.Order; no product is the zero product.
pub record OrderLineRes (F : Type 0) : Type 0 where
  pub product : Option (Product F)
  pub quantity : ℕ
  pub price : F

pub record OrderRes (F : Type 0) : Type 0 where
  pub id : String
  pub code : String
  pub lines : List (OrderLineRes F)
  pub total_price : F
  pub status : OrderStatus

-- pkg/redis, by the operations that the handler calls. A duration is in nanoseconds.
pub record RecordCache (R : Type 0) : Type 0 where
  pub setnx_with_expiration : String → IdempotencyRecord → ℤ → Action R Bool
  pub get : String → Action R IdempotencyRecord
  pub set_with_expiration : String → IdempotencyRecord → ℤ → Action R (Unit {0})
  pub remove : String → Action R (Unit {0})
  pub increment_with_expiration : String → ℤ → Action R ℤ

-- `orderService`
pub record OrderService (T F : Type 0) : Type 0 where
  pub place_order : PlaceOrderReq → Action T (Order F)
  pub get_order_by_id : String → String → Action T (Order F)
  pub cancel_order : String → String → Action T (Order F)

-- The counters of pkg/metrics that the handler raises, with their labels.
pub data Metric : Type 0 where
  order_place : String → String → Metric
  order_idempotency_duplicate order_rate_limited : String → Metric
  inventory_insufficient_stock : Metric

-- `environment` is the one of the configuration, which response.Error reads; `hash` is the SHA-256
-- sum in hexadecimal.
pub record OrderHandler (T R F : Type 0) : Type 0 where
  pub service : OrderService T F
  pub cache : Option (RecordCache R)
  pub idempotency_ttl : ℤ
  pub rate_limit_limit : ℤ
  pub rate_limit_window : ℤ
  pub environment : String
  pub hash : String → String

pub data OrderHandlerOption (R : Type 0) : Type 0 where
  with_order_cache : Option (RecordCache R) → OrderHandlerOption R
  with_order_idempotency_ttl : ℤ → OrderHandlerOption R
  with_order_rate_limit : ℤ → ℤ → OrderHandlerOption R

-- What a request meets and leaves: the responses and the counters, the latest first.
pub record Call (T R F : Type 0) : Type 0 where
  pub tables : T
  pub redis : R
  pub responses : List (Response (OrderRes F))
  pub metrics : List Metric

module _ {T R F : Type 0} where
  unfoldable pub apply_handler_option :
      OrderHandlerOption R → OrderHandler T R F → OrderHandler T R F
  apply_handler_option (with_order_cache cache) h = record h { cache = cache }
  apply_handler_option (with_order_idempotency_ttl ttl) h = record h { idempotency_ttl = ttl }
  apply_handler_option (with_order_rate_limit limit window) h = record h {
    rate_limit_limit = limit;
    rate_limit_window = window;
  }

  unfoldable pub apply_handler_options :
      List (OrderHandlerOption R) → OrderHandler T R F → OrderHandler T R F
  apply_handler_options [] h = h
  apply_handler_options (opt ∷ opts) h = apply_handler_options opts (apply_handler_option opt h)

  unfoldable pub new_order_handler :
      Schema
      → (String → String)
      → OrderService T F
      → List (OrderHandlerOption R)
      → OrderHandler T R F
  new_order_handler cfg hash service opts = apply_handler_options opts (record {
    service = service;
    cache = none;
    idempotency_ttl = Settings.order_idempotency_ttl cfg;
    rate_limit_limit = Settings.order_rate_limit_limit cfg;
    rate_limit_window = Settings.order_rate_limit_window cfg;
    environment = cfg.environment;
    hash = hash;
  })

  abbrev pub on_redis : {A : Type 0} → Action R A → Call T R F → Result A × Call T R F
  on_redis m c = let (r, redis') = m c.redis in (r, record c { redis = redis' })

  abbrev pub on_tables : {A : Type 0} → Action T A → Call T R F → Result A × Call T R F
  on_tables m c = let (r, tables') = m c.tables in (r, record c { tables = tables' })

  abbrev pub respond : Response (OrderRes F) → Call T R F → Call T R F
  respond r c = record c { responses = r ∷ c.responses }

  abbrev pub raise_metric : Metric → Call T R F → Call T R F
  raise_metric m c = record c { metrics = m ∷ c.metrics }

module _ {F : Type 0} where
  -- `utils.Copy(&res, &order)`
  abbrev copy_line : OrderLine F → OrderLineRes F
  copy_line line = record { product = line.product; quantity = line.quantity; price = line.price }

  unfoldable pub copy_order : Order F → OrderRes F
  copy_order order = record {
    id = order.id;
    code = order.code;
    lines = map copy_line order.lines;
    total_price = order.total_price;
    status = order.status;
  }
