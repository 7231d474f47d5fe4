-- ===== src/Order.antt =====
-- internal/order: placing and cancelling orders.
pub mod Model
pub mod Plan
pub mod Repository
pub mod Service
pub mod Pricing
pub mod Stored
pub mod Placing
pub mod Requested
pub mod Placed
pub mod Replay
pub mod Outcome
pub mod Lines
pub mod Cancelling
pub mod RoundTrip
pub mod Idempotence
pub mod Draw
pub mod Return
pub mod Listing
pub mod Listed
pub mod Http
