-- ===== src/Client.antt =====
-- client/: the SDK client that talks to the node, and the helpers that the services share.
pub mod Data
pub mod Utils
pub mod Tracer
pub mod Fees
pub mod Rewards
pub mod Loaded
pub mod Node
pub mod Balance
pub mod Health
pub mod Uncles
pub mod Estimates
pub mod Tracing
pub mod Defaults
pub mod Sdk
pub mod Connect
pub mod Mint
