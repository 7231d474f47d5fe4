-- ===== src/Product.antt =====
-- internal/product: the products of the shop, and the handlers that keep them in Redis. The rows are
-- those of Order/Model: internal/product/model and internal/order/model declare the same columns.
pub mod Repository
pub mod Service
pub mod Written
pub mod Http
