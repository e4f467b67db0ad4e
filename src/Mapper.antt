-- ===== src/Mapper.antt =====
-- services/mapper.go: fees, traces, transfers and token logs become Rosetta operations.
pub mod Operations
pub mod Fee
pub mod Erc20
pub mod Trace
pub mod Transfer
