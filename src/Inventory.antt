-- ===== src/Inventory.antt =====
-- internal/inventory: the stock of each product.
pub mod Model
pub mod Repository
pub mod Service
pub mod Stock
pub mod Consume
pub mod Adjust
pub mod Restock
pub mod Setting
pub mod Listed
pub mod Http
