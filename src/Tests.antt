-- ===== src/Tests.antt =====
-- The theorems applied to concrete inputs: a toy go-ethereum whose addresses are their own texts, a
-- toy chain and a toy cache.
pub mod Setting
mod Mapping
mod Blocks
mod Fetching
mod Constructing
pub mod Json
mod Signing
pub mod Asking
pub mod Serving
mod Whole
