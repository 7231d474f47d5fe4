-- ===== src/Cart.antt =====
-- internal/cart: the products that a user has chosen.
pub mod Model
pub mod Repository
pub mod Service
pub mod Contents
pub mod Steps
pub mod Adding
pub mod Removing
