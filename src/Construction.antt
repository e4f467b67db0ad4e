-- ===== src/Construction.antt =====
-- services/construction/: the endpoints that build a transaction.
pub mod Data
pub mod CallData
pub mod Library
pub mod Payloads
pub mod Preprocess
pub mod Metadata
pub mod Endpoints
pub mod Flow
pub mod Bytes
pub mod TransferData
pub mod Parse
pub mod Describe
