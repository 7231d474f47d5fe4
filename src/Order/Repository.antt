-- ===== src/Order/Repository.antt =====
-- internal/order/repository/order.go and product.go. `GetMyOrders` is in Listing; nothing calls
-- `UpdateOrder`, which is left out.
use scalable_e_commerce_plat.Base.{
  ℕ, ◌+◌, String, Bool, true, false, not, ◌&&◌, Option, none, some, List, [], ◌∷◌, map, Error,
  Action, pure, raise, raise_if, catch, is_record_not_found, ◌>>=◌, ◌>>◌, ◌==◌, nat_eq, engine,
  unique_violation, order_not_found, idempotency_duplicate, invalid_order_state, if◌then◌else◌,
}
use scalable_e_commerce_plat.Dbs.{Engine, statement, query, answering}
use scalable_e_commerce_plat.Dbs.Rows.{first_where}
use scalable_e_commerce_plat.Store.{Tables, write_orders, write_order_lines}
use scalable_e_commerce_plat.Order.Model.{
  Product, Order, OrderLine, OrderStatus, new, in_progress, cancelled, before_create,
}

-- The unique index of migrations/000005.
abbrev pub idempotency_index : String
idempotency_index = "idx_orders_user_idempotency_key"

abbrev pub has_key : Option String → Option String → Bool
has_key (some a) (some b) = a == b
has_key _ _ = false

-- The constraints of migrations/ that a present order makes an INSERT violate.
abbrev pub violates : {F : Type 0} → Order F → Order F → List String
violates row o =
    if o.id == row.id
    then "orders_pkey" ∷ []
    else if o.code == row.code
    then "idx_orders_code" ∷ []
    else if o.user_id == row.user_id && has_key o.idempotency_key row.idempotency_key
    then idempotency_index ∷ []
    else []

abbrev pub line_violates : {F : Type 0} → OrderLine F → OrderLine F → List String
line_violates row line = if line.id == row.id then "order_lines_pkey" ∷ [] else []

-- `line.OrderID = order.ID`, and OrderLine.BeforeCreate with the ids that uuid.New returns.
abbrev pub number_lines :
    {F : Type 0} → String → (ℕ → String) → ℕ → List (OrderLine F) → List (OrderLine F)
number_lines order_id uuids n [] = []
number_lines order_id uuids n (line ∷ lines) =
    record line { id = uuids n; order_id = order_id } ∷ number_lines order_id uuids (n + 1) lines

abbrev pub is_idempotency_unique_violation : Error → Bool
is_idempotency_unique_violation (engine (unique_violation c)) = c == idempotency_index
is_idempotency_unique_violation _ = false

abbrev pub is_cancellable : OrderStatus → Bool
is_cancellable new = true
is_cancellable in_progress = true
is_cancellable _ = false

abbrev pub attach : {F : Type 0} → List (Product F) → OrderLine F → OrderLine F
attach products line = record line { product = first_where (λ p. p.id == line.product_id) products }

module _ {F : Type 0} (db : Engine) where
  -- ProductRepo.GetProductByID
  unfoldable pub get_product_by_id : String → Action (Tables F) (Product F)
  get_product_by_id id = query (λ s. s.products) (db.first (Product F) (λ p. p.id == id))

  -- The copy by utils.Copy keeps the lines.
  unfoldable pub insert_order :
      String → String → (ℕ → String) → Order F → List (OrderLine F) → Action (Tables F) (Order F)
  insert_order uuid code line_ids order lines = do
    let row = before_create uuid code order
    statement (λ s. s.orders) write_orders
        (λ rows. answering tt (db.insert (Order F) (violates row) row rows))
    let stored = number_lines row.id line_ids 0 lines
    statement (λ s. s.order_lines) write_order_lines
        (λ rows. answering tt (db.insert_batch (OrderLine F) line_violates stored rows))
    pure (record row { lines = stored })

  unfoldable pub create_order :
      String → String → (ℕ → String) → Order F → List (OrderLine F) → Action (Tables F) (Order F)
  create_order uuid code line_ids order lines =
      catch (insert_order uuid code line_ids order lines)
        (λ e. raise (if is_idempotency_unique_violation e then idempotency_duplicate else e))

  -- WithPreload("Lines", "Lines.Product")
  unfoldable pub preload : Order F → Action (Tables F) (Order F)
  preload order = do
    lines ←
        query (λ s. s.order_lines)
          (db.find (OrderLine F) (λ line. line.order_id == order.id) (λ _. 0) none)
    products ← query (λ s. s.products) (db.find (Product F) (λ _. true) (λ _. 0) none)
    pure (record order { lines = map (attach products) lines })

  unfoldable pub get_order_by_idempotency_key : String → String → Action (Tables F) (Order F)
  get_order_by_idempotency_key user_id key_hash =
      catch
        (do
          order ←
              query (λ s. s.orders)
                (db.first (Order F)
                  (λ o. o.user_id == user_id && has_key o.idempotency_key (some key_hash)))
          preload order)
        (λ e. raise (if is_record_not_found e then order_not_found else e))

  unfoldable pub get_order_by_id : String → Bool → Action (Tables F) (Order F)
  get_order_by_id id preloads = do
    order ← query (λ s. s.orders) (db.first (Order F) (λ o. o.id == id))
    if preloads then preload order else pure order

  unfoldable pub cancel_order_if_cancellable : String → String → Action (Tables F) (Unit {0})
  cancel_order_if_cancellable order_id user_id = do
    affected ←
        statement (λ s. s.orders) write_orders
          (db.update (Order F)
            (λ o. o.id == order_id && (o.user_id == user_id && is_cancellable o.status))
            (λ o. record o { status = cancelled }) (λ _. true))
    raise_if (not (nat_eq affected 1)) invalid_order_state
