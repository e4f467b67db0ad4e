-- ===== src/Types.antt =====
-- types/types.go: the operation types, the statuses and the tests on trace types.
pub mod Errors
use mesh_geth_sdk.Base.{ℕ, String, Bool, true, false, List, [], ◌∷◌, ◌=ₛ◌, if◌then◌else◌}
use mesh_geth_sdk.Rosetta.{Currency}

abbrev pub node_version : String
node_version = "1.9.24"

abbrev pub symbol : String
symbol = "ETH"

abbrev pub decimals : ℕ
decimals = 18

abbrev pub miner_reward_op_type : String
miner_reward_op_type = "MINER_REWARD"

abbrev pub uncle_reward_op_type : String
uncle_reward_op_type = "UNCLE_REWARD"

abbrev pub fee_op_type : String
fee_op_type = "FEE"

abbrev pub call_op_type : String
call_op_type = "CALL"

abbrev pub create_op_type : String
create_op_type = "CREATE"

abbrev pub create2_op_type : String
create2_op_type = "CREATE2"

abbrev pub self_destruct_op_type : String
self_destruct_op_type = "SELFDESTRUCT"

abbrev pub call_code_op_type : String
call_code_op_type = "CALLCODE"

abbrev pub delegate_call_op_type : String
delegate_call_op_type = "DELEGATECALL"

abbrev pub static_call_op_type : String
static_call_op_type = "STATICCALL"

abbrev pub destruct_op_type : String
destruct_op_type = "DESTRUCT"

abbrev pub op_erc20_transfer : String
op_erc20_transfer = "ERC20_TRANSFER"

abbrev pub op_erc20_mint : String
op_erc20_mint = "ERC20_MINT"

abbrev pub op_erc20_burn : String
op_erc20_burn = "ERC20_BURN"

abbrev pub online : String
online = "ONLINE"

abbrev pub success_status : String
success_status = "SUCCESS"

abbrev pub failure_status : String
failure_status = "FAILURE"

abbrev pub historical_balance_supported : Bool
historical_balance_supported = true

abbrev pub uncles_reward_multiplier : ℕ
uncles_reward_multiplier = 32

abbrev pub max_uncle_depth : ℕ
max_uncle_depth = 8

abbrev pub genesis_block_index : ℕ
genesis_block_index = 0

abbrev pub operation_types : List String
operation_types =
    miner_reward_op_type ∷ uncle_reward_op_type ∷ fee_op_type ∷ call_op_type ∷ create_op_type
    ∷ create2_op_type ∷ op_erc20_transfer ∷ self_destruct_op_type ∷ call_code_op_type
    ∷ delegate_call_op_type ∷ static_call_op_type ∷ destruct_op_type ∷ op_erc20_mint ∷ op_erc20_burn
    ∷ []

pub record OperationStatus : Type 0 where
  pub status : String
  pub successful : Bool

abbrev pub operation_statuses : List OperationStatus
operation_statuses =
    record { status = success_status; successful = true }
    ∷ record { status = failure_status; successful = false }
    ∷ []

abbrev pub call_methods : List String
call_methods =
    "eth_getBlockByNumber" ∷ "eth_getTransactionReceipt" ∷ "eth_call" ∷ "eth_estimateGas" ∷ []

abbrev pub native_currency : Currency
native_currency = record { symbol = symbol; decimals = decimals; metadata = [] }

-- The struct `Types`.
pub record SupportedTypes : Type 0 where
  pub operation_types : List String
  pub operation_statuses : List OperationStatus
  pub call_methods : List String
  pub currency : Currency
  pub historical_balance_supported : Bool
  pub node_version : String

-- The loop that both tests run over their table.
unfoldable pub one_of : List String → String → Bool
one_of [] t = false
one_of (x ∷ xs) t = let rest = one_of xs t in if x =ₛ t then true else rest

unfoldable pub call_type : String → Bool
unfolding one_of
call_type t =
    one_of (call_op_type ∷ call_code_op_type ∷ delegate_call_op_type ∷ static_call_op_type ∷ []) t

unfoldable pub create_type : String → Bool
unfolding one_of
create_type t = one_of (create_op_type ∷ create2_op_type ∷ []) t

unfoldable pub load_types : SupportedTypes
load_types = record {
  operation_types = operation_types;
  operation_statuses = operation_statuses;
  call_methods = call_methods;
  currency = native_currency;
  historical_balance_supported = historical_balance_supported;
  node_version = node_version;
}
