-- ===== src/Configuration.antt =====
-- configuration/configuration.go: how the server and the chain are set up.
use mesh_geth_sdk.Base.{ℕ, ℤ, String, Bool, true, false, Option, List, [], ◌=ₛ◌}
use mesh_geth_sdk.Rosetta.{Currency, BlockIdentifier}
use mesh_geth_sdk.Client.Data.{Token}

abbrev pub geth_native_trace : ℕ
geth_native_trace = 0

abbrev pub geth_js_trace : ℕ
geth_js_trace = 1

abbrev pub open_ethereum_trace : ℕ
open_ethereum_trace = 2

abbrev pub mode_offline : String
mode_offline = "OFFLINE"

abbrev pub mode_online : String
mode_online = "ONLINE"

abbrev pub standard_ingestion : String
standard_ingestion = "standard"

abbrev pub analytics_ingestion : String
analytics_ingestion = "analytics"

abbrev pub default_base_fee_floor : ℕ
default_base_fee_floor = 0

abbrev pub default_base_fee_multiplier : ℕ
default_base_fee_multiplier = 1

abbrev pub default_priority_fee_divisor : ℕ
default_priority_fee_divisor = 1

-- Without the customized trace configuration, which is handed to the node as it is.
pub record RosettaConfig : Type 0 where
  pub support_reward_tx : Bool
  pub trace_type : ℕ
  pub supports_syncing : Bool
  pub supports_peering : Bool
  pub supports_block_author : Bool
  pub supports_eip1559 : Bool
  pub supports_op_stack : Bool
  pub currency : Currency
  pub trace_prefix : String
  pub ingestion_mode : String
  pub index_unknown_tokens : Bool
  pub filter_tokens : Bool
  pub token_white_list : List Token
  pub use_token_white_list_metadata : Bool
  pub default_block_number : String
  pub base_fee_floor : Option ℤ
  pub base_fee_multiplier : Option ℤ
  pub priority_fee_divisor : Option ℤ
  pub support_customized_trace_config : Bool
  pub support_customized_block_body : Bool
  pub support_header_forwarding : Bool
  pub forward_headers : List String

pub record NetworkIdentifier : Type 0 where
  pub blockchain : String
  pub network : String

-- Without the chain parameters, which are go-ethereum's.
pub record Configuration : Type 0 where
  pub mode : String
  pub network : NetworkIdentifier
  pub genesis_block_identifier : BlockIdentifier
  pub geth_url : String
  pub remote_geth : Bool
  pub port : ℕ
  pub skip_geth_admin : Bool
  pub geth_arguments : String
  pub rosetta_cfg : RosettaConfig

unfoldable pub is_offline_mode : Configuration → Bool
is_offline_mode c = c.mode =ₛ mode_offline

unfoldable pub is_online_mode : Configuration → Bool
is_online_mode c = c.mode =ₛ mode_online

unfoldable pub is_standard_mode : Configuration → Bool
is_standard_mode c = c.rosetta_cfg.ingestion_mode =ₛ standard_ingestion

unfoldable pub is_analytics_mode : Configuration → Bool
is_analytics_mode c = c.rosetta_cfg.ingestion_mode =ₛ analytics_ingestion

unfoldable pub is_token_list_empty : Configuration → Bool
is_token_list_empty c = elim c.rosetta_cfg.token_white_list [ [] ↦ true | _ ↦ false ]
