-- ===== src/User.antt =====
-- internal/user: accounts, passwords and token versions.
pub mod Model
pub mod Repository
pub mod Service
pub mod Http
pub mod Login
pub mod Revocation
