-- ===== src/Order/Service.antt =====
-- internal/order/service/order.go within the unit of work of internal/order/repository. `Env` has
-- what a call meets: the ids that uuid.New and utils.GenerateCode return, the clock, the JSON
-- encoder, and what other sessions commit after the first lookup of the idempotency key.
-- `GetMyOrders` is in Listing.
use scalable_e_commerce_plat.Base.{
  ℕ, String, Bool, true, false, not, ◌||◌, Option, none, some, List, [], ◌∷◌, map, Result, ok, err,
  Error, Action, pure, raise, raise_if, lift, catch, ◌>>=◌, ◌>>◌, ◌==◌, ℤ, pos, permission_denied,
  invalid_order_state, invalid_order_amount, order_not_found, idempotency_conflict,
  idempotency_duplicate, if◌then◌else◌,
}
use scalable_e_commerce_plat.Dbs.{Engine}
use scalable_e_commerce_plat.Store.{Tables}
use scalable_e_commerce_plat.Validation.{Validation}
use scalable_e_commerce_plat.Money.{Floats, to_minor_units, from_minor_units, multiply, add}
use scalable_e_commerce_plat.Inventory.Service as Stock
use scalable_e_commerce_plat.Outbox.Service.{OutboxService, new_outbox_service}
use scalable_e_commerce_plat.Outbox.Service as Outbox
use scalable_e_commerce_plat.Order.Model.{
  Product, Order, OrderLine, OrderStatus, unset, done, cancelled, PlaceOrderReq, PlaceOrderLineReq,
}
use scalable_e_commerce_plat.Order.Plan.{
  StockConsumption, validate_order_quantities, stock_consumption_plan,
}
use scalable_e_commerce_plat.Order.Repository as Orders

pub record OrderCreatedLinePayload (F : Type 0) : Type 0 where
  pub product_id : String
  pub quantity : ℕ
  pub price : F

pub record OrderCreatedPayload (F : Type 0) : Type 0 where
  pub order_id : String
  pub user_id : String
  pub total_price : F
  pub status : OrderStatus
  pub lines : List (OrderCreatedLinePayload F)

pub record Env (F : Type 0) : Type 0 where
  pub order_id : String
  pub order_code : String
  pub line_ids : ℕ → String
  pub event_id : String
  -- The id of the row that a restock creates for a product.
  pub inventory_id : String → String
  pub clock : ℕ
  pub encode : OrderCreatedPayload F → Result String
  pub others : Tables F → Tables F

abbrev line_payload : {F : Type 0} → OrderLine F → OrderCreatedLinePayload F
line_payload line = record {
  product_id = line.product_id;
  quantity = line.quantity;
  price = line.price;
}

unfoldable pub build_order_created_payload : {F : Type 0} → Order F → OrderCreatedPayload F
build_order_created_payload order = record {
  order_id = order.id;
  user_id = order.user_id;
  total_price = order.total_price;
  status = order.status;
  lines = map line_payload order.lines;
}

-- errors.Is(err, …)
abbrev pub is_order_not_found : Error → Bool
is_order_not_found order_not_found = true
is_order_not_found _ = false

abbrev pub is_idempotency_duplicate : Error → Bool
is_idempotency_duplicate idempotency_duplicate = true
is_idempotency_duplicate _ = false

abbrev pub is_closed : OrderStatus → Bool
is_closed done = true
is_closed cancelled = true
is_closed _ = false

-- `order.IdempotencyFingerprint != nil && *order.IdempotencyFingerprint == fingerprint`
abbrev pub same_fingerprint : Option String → String → Bool
same_fingerprint none fingerprint = false
same_fingerprint (some f) fingerprint = f == fingerprint

-- Any error of pkg/money is reported as ErrInvalidOrderAmount.
abbrev pub as_order_amount : Result ℤ → Result ℤ
as_order_amount (ok n) = ok n
as_order_amount (err e) = err invalid_order_amount

-- `productMap[id]`
abbrev pub product_of : {F : Type 0} → List (String × Product F) → String → Option (Product F)
product_of [] id = none
product_of ((k, p) ∷ m) id = if k == id then some p else product_of m id

pub record Priced (F : Type 0) : Type 0 where
  pub lines : List (OrderLine F)
  pub total : ℤ
  pub products : List (String × Product F)

-- `utils.Copy(&lines, &req.Lines)`: the zero values but for the two fields of a request's line.
abbrev pub new_line : {F : Type 0} → F → PlaceOrderLineReq → OrderLine F
new_line zero_price line = record {
  id = "";
  order_id = "";
  product_id = line.product_id;
  product = none;
  quantity = line.quantity;
  price = zero_price;
}

module _ (fl : Floats) (v : Validation) (db : Engine) (env : Env fl.Float) where
  -- The first loop of the transaction: prices, their checked total, and the products read.
  unfoldable pub price_lines :
      List (OrderLine fl.Float)
      → ℤ
      → List (String × Product fl.Float)
      → Action (Tables fl.Float) (Priced fl.Float)
  price_lines [] total products = pure (record { lines = []; total = total; products = products })
  price_lines (line ∷ lines) total products = do
    product ← Orders.get_product_by_id db line.product_id
    unit_price ← lift (as_order_amount (to_minor_units fl product.price))
    line_total ← lift (as_order_amount (multiply unit_price line.quantity))
    total' ← lift (as_order_amount (add total line_total))
    rest ← price_lines lines total' ((line.product_id, product) ∷ products)
    pure (record rest {
      lines = record line { price = from_minor_units fl line_total } ∷ rest.lines;
    })

  unfoldable pub consume_all : List StockConsumption → Action (Tables fl.Float) (Unit {0})
  consume_all [] = pure tt
  consume_all (item ∷ items) =
      Stock.consume_stock v db item.product_id (pos item.quantity) >> consume_all items

  unfoldable pub restock_all : List StockConsumption → Action (Tables fl.Float) (Unit {0})
  restock_all [] = pure tt
  restock_all (item ∷ items) =
      Stock.restock v db (env.inventory_id item.product_id) item.product_id (pos item.quantity)
      >> restock_all items

  -- The order that is created; a key is stored with its fingerprint.
  unfoldable pub new_order : PlaceOrderReq → ℤ → Order fl.Float
  new_order req total = record {
    id = "";
    code = "";
    user_id = req.user_id;
    lines = [];
    total_price = from_minor_units fl total;
    status = unset;
    idempotency_key =
        if req.idempotency_key_hash == "" then none else some req.idempotency_key_hash;
    idempotency_fingerprint =
        if req.idempotency_key_hash == "" then none else some req.idempotency_fingerprint;
    idempotency_replay = false;
  }

  abbrev pub with_products :
      List (String × Product fl.Float) → List (OrderLine fl.Float) → List (OrderLine fl.Float)
  with_products products [] = []
  with_products products (line ∷ lines) =
      record line { product = product_of products line.product_id } ∷ with_products products lines

  -- The function that PlaceOrder runs within the transaction.
  unfoldable pub place_within : PlaceOrderReq → Action (Tables fl.Float) (Order fl.Float)
  place_within req = do
    priced ← price_lines (map (new_line fl.zero_float) req.lines) (pos 0) []
    plan ← lift (stock_consumption_plan priced.lines)
    consume_all plan
    stored ←
        Orders.create_order db env.order_id env.order_code env.line_ids (new_order req priced.total)
          priced.lines
    let created : Order fl.Float = record stored {
      lines = with_products priced.products stored.lines;
    }
    Outbox.create_pending db (new_outbox_service env.clock []) env.event_id env.clock "order"
        created.id "order.created" (env.encode (build_order_created_payload created))
    pure created

  unfoldable pub replay_idempotent_order : PlaceOrderReq → Action (Tables fl.Float) (Order fl.Float)
  replay_idempotent_order req = do
    existing ← Orders.get_order_by_idempotency_key db req.user_id req.idempotency_key_hash
    raise_if (not (same_fingerprint existing.idempotency_fingerprint req.idempotency_fingerprint))
        idempotency_conflict
    pure (record existing { idempotency_replay = true })

  -- The transaction of PlaceOrder, and what follows its error.
  unfoldable pub place_new : PlaceOrderReq → Action (Tables fl.Float) (Order fl.Float)
  place_new req s =
      catch (db.transaction (Tables fl.Float) (Order fl.Float) (place_within req))
        (λ e. if is_idempotency_duplicate e then replay_idempotent_order req else raise e)
        (env.others s)

  abbrev pub has_idempotency : PlaceOrderReq → Bool
  has_idempotency req =
      not (req.idempotency_key_hash == "") || not (req.idempotency_fingerprint == "")

  abbrev pub lacks_idempotency : PlaceOrderReq → Bool
  lacks_idempotency req = req.idempotency_key_hash == "" || req.idempotency_fingerprint == ""

  unfoldable pub place_order : PlaceOrderReq → Action (Tables fl.Float) (Order fl.Float)
  place_order req = do
    lift (validate_order_quantities req.lines)
    lift (v.place_order req)
    if has_idempotency req
        then (if lacks_idempotency req
            then raise idempotency_conflict
            else catch (replay_idempotent_order req)
                (λ e. if is_order_not_found e then place_new req else raise e))
        else place_new req

  unfoldable pub get_order_by_id : String → String → Action (Tables fl.Float) (Order fl.Float)
  get_order_by_id id user_id = do
    order ← Orders.get_order_by_id db id true
    raise_if (user_id == "" || not (order.user_id == user_id)) permission_denied
    pure order

  -- The function that CancelOrder runs within the transaction, after the order is read.
  unfoldable pub cancel_loaded :
      String → String → Order fl.Float → Action (Tables fl.Float) (Order fl.Float)
  cancel_loaded order_id user_id existing = do
    raise_if (not (user_id == existing.user_id)) permission_denied
    raise_if (is_closed existing.status) invalid_order_state
    Orders.cancel_order_if_cancellable db order_id user_id
    plan ← lift (stock_consumption_plan existing.lines)
    restock_all plan
    pure (record existing { status = cancelled })

  unfoldable pub cancel_order : String → String → Action (Tables fl.Float) (Order fl.Float)
  cancel_order order_id user_id = db.transaction (Tables fl.Float) (Order fl.Float) (do
    existing ← Orders.get_order_by_id db order_id true
    cancel_loaded order_id user_id existing)
