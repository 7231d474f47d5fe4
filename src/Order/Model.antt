-- ===== src/Order/Model.antt =====
-- internal/order/model and internal/order/dto. A price is of the type `F` of float64. Time stamps of
-- orders and lines, which nothing tests, are left out; so is `Order.User`, which no query preloads.
use scalable_e_commerce_plat.Base.{ℕ, String, Bool, Option, List}

-- `unset` is the empty string of an order that is not created yet.
pub data OrderStatus : Type 0 where
  unset new in_progress done cancelled : OrderStatus

pub record Product (F : Type 0) : Type 0 where
  pub id : String
  pub code : String
  pub name : String
  pub description : String
  pub price : F
  pub active : Bool
  pub created_at : ℕ
  pub updated_at : ℕ

pub record OrderLine (F : Type 0) : Type 0 where
  pub id : String
  pub order_id : String
  pub product_id : String
  pub product : Option (Product F)
  pub quantity : ℕ
  pub price : F

pub record Order (F : Type 0) : Type 0 where
  pub id : String
  pub code : String
  pub user_id : String
  pub lines : List (OrderLine F)
  pub total_price : F
  pub status : OrderStatus
  pub idempotency_key : Option String
  pub idempotency_fingerprint : Option String
  pub idempotency_replay : Bool

-- dto.MaxOrderLineQuantity
abbrev pub max_order_line_quantity : ℕ
max_order_line_quantity = 1000000

pub record PlaceOrderLineReq : Type 0 where
  pub product_id : String
  pub quantity : ℕ

pub record PlaceOrderReq : Type 0 where
  pub user_id : String
  pub idempotency_key_hash : String
  pub idempotency_fingerprint : String
  pub lines : List PlaceOrderLineReq

-- `Order.BeforeCreate`; `uuid` and `code` are what uuid.New and utils.GenerateCode return.
unfoldable pub before_create : {F : Type 0} → String → String → Order F → Order F
before_create uuid code order = record order {
  id = uuid;
  code = code;
  status = elim order.status [ unset ↦ new | other ↦ other ];
}
