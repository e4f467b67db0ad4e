-- ===== src/Services.antt =====
-- services/: the endpoints of the API.
pub mod Client
pub mod Block
pub mod Account
pub mod Network
pub mod Ready
