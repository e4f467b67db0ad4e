-- ===== src/Ethereum/Config.antt =====
-- examples/ethereum/config/config.go: `LoadConfiguration` reads the set-up of the server from the
-- environment.
pub mod Loaded
pub mod Variables
use Prim.Native.String.{◌++◌}
use mesh_geth_sdk.Base.{
  ℕ, zero, suc, ◌^◌, leb, ltb, ℤ, pos, negsuc, String, ◌=ₛ◌, Bool, true, false, ◌&&◌, Option, none,
  some, List, [], Result, ok, err, crash, ◌>>=◌, or_err, if◌then◌else◌,
}
use mesh_geth_sdk.Base.Text.{is_empty, parse_bool}
use mesh_geth_sdk.Base.Decimal.{parse_ℤ}
use mesh_geth_sdk.Rosetta.{BlockIdentifier}
use mesh_geth_sdk.Geth.{Hash}
use mesh_geth_sdk.Types.Errors.{GoError, message}
use mesh_geth_sdk.Configuration.{
  Configuration, RosettaConfig, NetworkIdentifier, mode_online, mode_offline, geth_native_trace,
}

abbrev pub blockchain : String
blockchain = "Ethereum"

abbrev pub default_geth_url : String
default_geth_url = "http://127.0.0.1:8546"

abbrev pub mainnet_geth_arguments : String
mainnet_geth_arguments = "--config=/app/ethereum/geth.toml --gcmode=archive --graphql"

abbrev pub goerli_geth_arguments : String
goerli_geth_arguments = mainnet_geth_arguments ++ " --goerli"

abbrev pub sepolia_geth_arguments : String
sepolia_geth_arguments = mainnet_geth_arguments ++ " --sepolia"

-- What go-ethereum's `params` say of a chain.
pub record Params (Chain : Type 0) : Type 0 where
  pub mainnet_genesis_hash : Hash
  pub goerli_genesis_hash : Hash
  pub sepolia_genesis_hash : Hash
  pub mainnet_chain_config : Chain
  pub goerli_chain_config : Chain
  pub sepolia_chain_config : Chain

-- The fields of the configuration that depend on the network.
pub record Network (Chain : Type 0) : Type 0 where
  pub identifier : NetworkIdentifier
  pub genesis_block_identifier : BlockIdentifier
  pub chain_config : Chain
  pub geth_arguments : String

-- The numbers that an int64 holds
abbrev pub in_int64 : Option ℤ → Option ℤ
in_int64 none = none
in_int64 (some (pos n)) = if ltb n (2 ^ 63) then some (pos n) else none
in_int64 (some (negsuc n)) = if ltb n (2 ^ 63) then some (negsuc n) else none

-- `strconv.Atoi`
unfoldable pub atoi : String → Option ℤ
atoi s = in_int64 (parse_ℤ s)

unfoldable pub mode_of : String → Result GoError String
mode_of mode =
    if mode =ₛ mode_online
    then ok mode_online
    else if mode =ₛ mode_offline
    then ok mode_offline
    else if is_empty mode
    then err (message "MODE must be populated")
    else err (message "%s is not a valid mode")

unfoldable pub skip_geth_admin_of : String → Result GoError Bool
skip_geth_admin_of env =
    if is_empty env
    then ok false
    else or_err (parse_bool env) (message "unable to parse SKIP_GETH_ADMIN %s: %w")

abbrev pub positive : Option ℤ → Result GoError ℕ
positive (some (pos (suc n))) = ok (suc n)
positive _ = err (message "unable to parse port %s: %w")

unfoldable pub port_of : String → Result GoError ℕ
port_of env = if is_empty env then err (message "PORT must be populated") else positive (atoi env)

unfoldable pub token_filter_of : String → Result GoError Bool
token_filter_of env = or_err (parse_bool env) (message "unable to parse token filter %t: %w")

-- An invalid value counts as false.
unfoldable pub use_token_white_list_metadata_of : String → Bool
use_token_white_list_metadata_of env =
    if is_empty env then false else elim (parse_bool env) [ none ↦ false | some v ↦ v ]

unfoldable pub rosetta_cfg_of : Bool → Bool → RosettaConfig
rosetta_cfg_of filter_tokens use_metadata = record {
  support_reward_tx = true;
  trace_type = geth_native_trace;
  supports_syncing = false;
  supports_peering = false;
  supports_block_author = false;
  supports_eip1559 = false;
  supports_op_stack = false;
  currency = record { symbol = "ETH"; decimals = 18; metadata = [] };
  trace_prefix = "";
  ingestion_mode = "";
  index_unknown_tokens = false;
  filter_tokens = filter_tokens;
  token_white_list = [];
  use_token_white_list_metadata = use_metadata;
  default_block_number = "";
  base_fee_floor = none;
  base_fee_multiplier = none;
  priority_fee_divisor = none;
  support_customized_trace_config = false;
  support_customized_block_body = false;
  support_header_forwarding = false;
  forward_headers = [];
}

abbrev ethereum_network : {Chain : Type 0} → String → Hash → Chain → String → Network Chain
ethereum_network network genesis chain arguments = record {
  identifier = record { blockchain = blockchain; network = network };
  genesis_block_identifier = record { index = 0; hash = genesis.hex };
  chain_config = chain;
  geth_arguments = arguments;
}

module _ {Chain : Type 0} (params : Params Chain) where
  abbrev pub mainnet : Network Chain
  mainnet =
      ethereum_network "Mainnet" params.mainnet_genesis_hash params.mainnet_chain_config
        mainnet_geth_arguments

  abbrev pub goerli : Network Chain
  goerli =
      ethereum_network "Goerli" params.goerli_genesis_hash params.goerli_chain_config
        goerli_geth_arguments

  abbrev pub sepolia : Network Chain
  sepolia =
      ethereum_network "Sepolia" params.sepolia_genesis_hash params.sepolia_chain_config
        sepolia_geth_arguments

  unfoldable pub network_of : String → Result GoError (Network Chain)
  network_of network =
      if network =ₛ "MAINNET"
      then ok mainnet
      else if network =ₛ "GOERLI"
      then ok goerli
      else if network =ₛ "SEPOLIA"
      then ok sepolia
      else err (message "%s is not a valid network")

-- `getenv` gives the empty text for a variable that is not set.
module _ {Chain : Type 0} (params : Params Chain) (getenv : String → String) where
  abbrev pub configured : String → Network Chain → Bool → ℕ → Bool → Configuration
  configured mode network skip_geth_admin port filter_tokens = record {
    mode = mode;
    network = network.identifier;
    genesis_block_identifier = network.genesis_block_identifier;
    geth_url = if is_empty (getenv "GETH") then default_geth_url else getenv "GETH";
    remote_geth = if is_empty (getenv "GETH") then false else true;
    port = port;
    skip_geth_admin = skip_geth_admin;
    geth_arguments = network.geth_arguments;
    rosetta_cfg =
        rosetta_cfg_of filter_tokens
          (use_token_white_list_metadata_of (getenv "USE_TOKEN_WHITE_LIST_METADATA"));
  }

  -- `LoadConfiguration`; the chain parameters stand beside the other fields.
  unfoldable pub load_configuration : Result GoError (Configuration × Chain)
  load_configuration = do
    mode ← mode_of (getenv "MODE")
    network ← network_of params (getenv "NETWORK")
    skip_geth_admin ← skip_geth_admin_of (getenv "SKIP_GETH_ADMIN")
    port ← port_of (getenv "PORT")
    filter_tokens ← token_filter_of (getenv "FILTER")
    ok (configured mode network skip_geth_admin port filter_tokens, network.chain_config)
