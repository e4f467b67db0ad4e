-- ===== src/Tests/Serving.antt =====
-- The theorems on the set-up of the server and on the whole client, at a toy environment and a toy node.
use mesh_geth_sdk.Base.{
  ℕ, ◌≡◌, refl, pos, String, ◌=ₛ◌, true, false, ◌↔◌, Option, none, some, List, [], Result, ok,
  if◌then◌else◌,
}
use mesh_geth_sdk.Types.Errors.{GoError}
use mesh_geth_sdk.Configuration.{Configuration}
use mesh_geth_sdk.Client.Data.{LoadedTransaction}
use mesh_geth_sdk.Client.Loaded.{Node, get_loaded_transaction, load_mined, rewarded}
use mesh_geth_sdk.Client.Estimates.{Estimator}
use mesh_geth_sdk.Client.Rewards.{Ethash}
use mesh_geth_sdk.Client.Sdk.{Library, RpcClient, EthClient, SdkClient, sdk_client}
use mesh_geth_sdk.Client.Sdk.Author.{get_loaded_transaction_without_author}
use mesh_geth_sdk.Client.Utils.{must_checksum}
use mesh_geth_sdk.Services.Client.{Client}
use mesh_geth_sdk.Ethereum.Client.{Receipts, ethereum_client}
use mesh_geth_sdk.Ethereum.Config.{
  Params, load_configuration, mode_of, network_of, skip_geth_admin_of, port_of, token_filter_of,
  atoi, rosetta_cfg_of,
}
use mesh_geth_sdk.Ethereum.Config.Loaded.{Loads, load_configuration-Loads}
use mesh_geth_sdk.Bootstrap.{served_client, ethereum_served}
use mesh_geth_sdk.Bootstrap.Main.{main, new_ethereum_client, main-Loads}
use mesh_geth_sdk.Client.Connect.{Dialer, new_client, get_trace_config}
use mesh_geth_sdk.Client.Node.{Arg}
use mesh_geth_sdk.Base.Text.{parse_bool}
use mesh_geth_sdk.Base.Decimal.{parse_ℤ}
use mesh_geth_sdk.Tests.Setting.{
  toy_geth, alice, rosetta_config, configuration, loaded, toy_header, eth_transaction, unanswered,
}
use mesh_geth_sdk.Tests.Asking.{plain_hash, toy_rpc, toy_tracer, same_currency}

abbrev pub rpc_client : RpcClient
rpc_client = record {
  rpc = toy_rpc;
  tracer = toy_tracer;
  call_context = λ method arg. unanswered;
  admin_peers = unanswered;
  max_priority_fee_per_gas = ok 1;
  latest_head = ok none;
}

abbrev node : Node
node = record {
  hex_to_hash = λ s. record { hex = s };
  header_by_hash = λ h. ok toy_header;
  transaction_by_hash = λ h. ok ((eth_transaction, h), false);
  sender = λ tx base_fee. ok alice;
  block_author = λ n. ok "0xa";
  show_number = λ n. "5";
}

abbrev estimator : Estimator
estimator = record {
  nonce_at = λ a. ok 7;
  suggest_gas_price = ok (pos 3);
  estimate_gas = λ m. ok 21000;
  scale = λ m n. n;
}

abbrev pub eth_client : EthClient
eth_client = record {
  estimator = estimator;
  node = node;
  sync_progress = ok none;
  new_token = λ a. unanswered;
}

abbrev chain : Ethash
chain = record {
  frontier = 5000000000000000000;
  byzantium = 3000000000000000000;
  constantinople = 2000000000000000000;
  is_byzantium = λ n. true;
  is_constantinople = λ n. false;
}

abbrev pub client : SdkClient
client = record {
  chain = chain;
  rosetta_config = rosetta_config;
  skip_admin_calls = false;
  rpc_client = rpc_client;
  eth_client = eth_client;
}

abbrev pub lib : Library
lib = record {
  geth = toy_geth;
  keccak = λ s. [];
  equal = same_currency;
  empty_uncle_hash = plain_hash;
  empty_root_hash = plain_hash;
}

abbrev pub receipts : Receipts
receipts = record {
  order = λ m. m;
  tip_of = λ tx base_fee. ok (pos 1);
  batch = λ hs. unanswered;
  call = λ h. unanswered;
}

abbrev author : ℕ → Result GoError String
author n = ok "0xa"

abbrev loaded_or_toy : Result GoError (Option LoadedTransaction) → LoadedTransaction
loaded_or_toy (ok (some tx)) = tx
loaded_or_toy _ = loaded

abbrev block_5 : mesh_geth_sdk.Rosetta.BlockIdentifier
block_5 = record { index = 5; hash = "0x5" }

abbrev found : LoadedTransaction
found = loaded_or_toy ((sdk_client lib client).get_loaded_transaction block_5 "0xtx")

found-eq :
    (record (sdk_client lib client) { block_author = author }).get_loaded_transaction block_5 "0xtx"
    ≡ ok (some found)
unfolding sdk_client get_loaded_transaction load_mined rewarded must_checksum
found-eq = refl

get_loaded_transaction_without_author_example : client.rosetta_config.supports_block_author ≡ false
get_loaded_transaction_without_author_example =
    get_loaded_transaction_without_author lib client author block_5 "0xtx" found-eq

abbrev params : Params ℕ
params = record {
  mainnet_genesis_hash = record { hex = "0xd4e5" };
  goerli_genesis_hash = record { hex = "0xbf7e" };
  sepolia_genesis_hash = record { hex = "0x25a5" };
  mainnet_chain_config = 1;
  goerli_chain_config = 5;
  sepolia_chain_config = 11155111;
}

abbrev environment : String → String
environment name =
    if name =ₛ "MODE"
    then "ONLINE"
    else if name =ₛ "NETWORK"
    then "SEPOLIA"
    else if name =ₛ "PORT"
    then "8080"
    else if name =ₛ "FILTER"
    then "true"
    else ""

abbrev configuration_or_toy : Result GoError (Configuration × ℕ) → Configuration
configuration_or_toy (ok l) = l.0
configuration_or_toy _ = configuration

load_configuration-Loads_example :
    (load_configuration params environment
      ≡ ok (configuration_or_toy (load_configuration params environment), 11155111))
    ↔ Loads params environment
        (configuration_or_toy (load_configuration params environment))
        11155111
load_configuration-Loads_example =
    load_configuration-Loads params environment
      (configuration_or_toy (load_configuration params environment)) 11155111

abbrev dialer : Dialer (List String)
dialer = record {
  new_rpc_client = λ endpoint headers. ok rpc_client;
  new_eth_client = λ endpoint. ok eth_client;
  read_file = λ path. unanswered;
  as_arg = λ tc. Arg.text tc.tracer;
}

abbrev chains : Params Ethash
chains = record {
  mainnet_genesis_hash = record { hex = "0xd4e5" };
  goerli_genesis_hash = record { hex = "0xbf7e" };
  sepolia_genesis_hash = record { hex = "0x25a5" };
  mainnet_chain_config = chain;
  goerli_chain_config = chain;
  sepolia_chain_config = chain;
}

abbrev started : Result GoError Client
started = main dialer [] chains environment lib receipts (ok tt) (λ headers. ok headers)

abbrev client_or_toy : Result GoError Client → Client
client_or_toy (ok c) = c
client_or_toy _ = sdk_client lib client

started-eq : started ≡ ok (client_or_toy started)
unfolding main new_ethereum_client load_configuration mode_of network_of skip_geth_admin_of port_of
    token_filter_of atoi parse_ℤ parse_bool new_client get_trace_config served_client
    ethereum_served rosetta_cfg_of
started-eq = refl

main-Loads_example :
    (cfg : Configuration) × (ec : SdkClient) × Loads chains environment cfg ec.chain
    × (ec.rosetta_config ≡ cfg.rosetta_cfg)
    × (ec.skip_admin_calls ≡ false)
    × (client_or_toy started ≡ ethereum_client lib receipts ec)
main-Loads_example =
    main-Loads dialer [] chains environment lib receipts (ok tt) (λ headers. ok headers) started-eq
