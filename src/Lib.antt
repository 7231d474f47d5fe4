-- ===== src/Lib.antt =====
-- Scalable e-commerce platform: orders, stock and the transactional outbox.
--
-- The program is a shop's backend. The order service (internal/order) prices an order, draws the stock
-- of its products through the inventory service (internal/inventory), stores the order with its lines
-- and, in the same transaction, an event in the outbox (internal/outbox). A publisher claims the
-- events that are ready and writes them to a Redis stream; a consumer reads the stream, hands the
-- events that it has not processed to a handler, and acknowledges them. Amounts are int64 cents (pkg/money).
-- In front of the order service, the HTTP handlers limit the rate of a user's orders and keep a record of
-- each idempotency key in Redis; the middleware lets a request pass by its token (pkg/jtoken). What the
-- parts are set to comes from the configuration (pkg/config).
--
-- The model. A call is a function of the tables (Store) that answers a result and the tables that it
-- leaves (Base/Calls: Result, Action, with do blocks for Go's early returns). The database is the
-- parameter Engine of Dbs: each statement of GORM answers what its SQL means for the rows (Dbs/Rows),
-- or a fault that the SQL does not explain, and then leaves the rows alone; a transaction keeps the
-- tables that its function left when that returned no error, and restores them otherwise.
-- Dbs/Reference is an engine without faults, so that the assumptions can be met. float64, the
-- validator, bcrypt, the signing of tokens, SHA-256, the JSON and time formats, the identifiers and
-- clocks, and Redis are parameters too. A handler of HTTP is a function of the tables, the state of Redis,
-- and the responses and counters written so far (Order/Http: Call).
--
--   Money                 pkg/money/money.go: ToMinorUnits, FromMinorUnits, Multiply, Add
--   Inventory/Model       internal/inventory/model and dto
--   Inventory/Repository  internal/inventory/repository/inventory.go
--   Inventory/Service     internal/inventory/service/inventory.go
--   Inventory/Http        internal/inventory/port/http/handlers.go
--   Inventory/Stock       the abstract view: a quantity for each product, and the sound rows; the
--                         modules beside it are named for the call they are about
--   Order/Model           internal/order/model and dto
--   Order/Plan            internal/order/service/order.go: validateOrderQuantities,
--                         stockConsumptionPlan
--   Order/Repository      internal/order/repository: CreateOrder, GetOrderByID,
--                         GetOrderByIdempotencyKey, CancelOrderIfCancellable, GetProductByID
--   Order/Service         internal/order/service/order.go: PlaceOrder, GetOrderByID, CancelOrder
--   Order/Listing         GetMyOrders of internal/order/repository and service, with the pages of Paging
--   Order/Http            internal/order/port/http/handlers.go. Lines has the keys in Redis and the
--                         fingerprint, Placement PlaceOrder with its helpers, Single GetOrderByID and
--                         CancelOrder, Listing GetOrders, Reasons the answers to errors, Wiring the handlers over the
--                         service; the others prove
--   Outbox/Model, /Repository, /Service
--                         internal/outbox/model, repository and service/outbox.go
--   Outbox/Worker         internal/outbox/service/publisher_worker.go: RunOnce
--   Outbox/Stream         internal/outbox/service/redis_stream_publisher.go and consumer/handler.go
--   Outbox/Consumer       internal/outbox/consumer/redis_consumer.go and store.go; Outbox/Consumer/Noted
--                         watches its calls
--   Database              pkg/dbs: validateConnectionPoolConfig, validateMigrationState,
--                         SafeOrderByColumn
--   Product               internal/product: Product/Repository, Product/Service, and Product/Http with the
--                         products in Redis; the rows are those of Order/Model
--   Paging                pkg/paging/paging.go; the division of float64 that counts the pages is a parameter
--   User                  internal/user/model, repository, service and port/http, on the users table alone
--   Config                pkg/config/config.go: Schema and Validate; Config/Settings the settings with
--                         their defaults; Config/Bounds also the pool that cmd/api/main.go opens
--   Tokens                pkg/jtoken/jwt.go; Tokens/Access pkg/middleware/auth.go, auth_interceptor.go
--   Response              pkg/response
--   Cart                  internal/cart/model, dto, repository and service, on tables of their own;
--                         Cart/Contents is the abstract view
--   Lifecycle             internal/server/lifecycle/runner.go, as a step relation
--   Tests                 small tables, and runs of the program on them
--
-- Bounds. Quantities, prices and totals are int64 in the code: an integer of the model is exact, and
-- wrap64 is written where the code's arithmetic could wrap. A line's quantity is Go's uint, a number
-- that is not negative. Instants and durations are numbers of nanoseconds; the delay of a retry is the
-- int64 product of the code. Nothing runs on fuel: every
-- loop of the code goes over a list.
--
-- Interleavings. What other sessions commit between the first lookup of an idempotency key and the
-- transaction of PlaceOrder is the function `others` of Order/Service; a second claim of events starts
-- from the tables that the first has left; rows that other transactions lock are skipped by `held`. A
-- request that repeats an idempotency key starts from what the first has left in Redis and the tables;
-- a record does not expire while a request runs. The goroutines of Run take their steps in any order
-- (Lifecycle: Step); a send on its buffered channel does not block.
--
-- Not modelled: the gRPC ports of users and carts, which translate between a transport
-- and a service; UpdateOrder of the order repository, which nothing
-- calls; the servers, metrics and logs, which start the parts or report on them; the loading of the
-- configuration; the time stamps that nothing tests, those of
-- products apart; the branch of PlaceOrder for a unit of work without
-- an outbox, which the program does not build.
pub mod Base
pub mod Dbs
pub mod Store
pub mod Validation
pub mod Inventory
pub mod Order
pub mod Outbox
pub mod Money
pub mod Database
pub mod Config
pub mod Response
pub mod Paging
pub mod Tokens
pub mod Lifecycle
pub mod Cart
pub mod Product
pub mod User
pub mod Tests
