-- ===== src/Services/Block.antt =====
-- services/block_service.go: the endpoints /block and /block/transaction.
pub mod Cache
pub mod Populate
pub mod Fetch
pub mod Endpoint
pub mod Transparent
pub mod Numbered
pub mod Results
pub mod Complete
