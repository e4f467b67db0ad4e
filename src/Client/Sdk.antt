-- ===== src/Client/Sdk.antt =====
-- client/client.go: `SDKClient` with all its methods, which is a client of the services; and
-- `WithRPCTransport`.
pub mod Author
use mesh_geth_sdk.Base.{ℕ, String, Bool, false, Option, some, List, Result, ok, err, ◌>>=◌, ℤ}
use mesh_geth_sdk.Rosetta.{Currency}
use mesh_geth_sdk.Geth.{Geth, Address, Hash}
use mesh_geth_sdk.Types.Errors.{GoError}
use mesh_geth_sdk.Configuration.{RosettaConfig}
use mesh_geth_sdk.Services.Client.{Client}
use mesh_geth_sdk.Client.Node.{Rpc}
use mesh_geth_sdk.Client.Balance.{balance}
use mesh_geth_sdk.Client.Health.{PeerInfo, SyncProgress, status}
use mesh_geth_sdk.Client.Uncles.{get_uncles}
use mesh_geth_sdk.Client.Tracing.{
  Tracer, trace_block, trace_transaction, trace_replay_block_transactions, trace_replay_transaction,
}
use mesh_geth_sdk.Client.Rewards.{Ethash, block_reward_transaction}
use mesh_geth_sdk.Client.Loaded.{Node, get_loaded_transaction}
use mesh_geth_sdk.Client.Fees.{get_gas_tip_cap, get_gas_fee_cap}
use mesh_geth_sdk.Client.Estimates.{
  Estimator, Token, get_nonce, get_gas_price, get_erc20_transfer_gas_limit,
  get_contract_call_gas_limit, get_contract_currency,
}
use mesh_geth_sdk.Client.Defaults.{
  populate_cross_chain_transactions, get_block_hash, skip_tx_receipt_parsing, parse_ops,
  block_author, get_transaction_receipt, get_block_receipts, get_native_transfer_gas_limit,
  get_l1_data_fee, get_customized_block_body,
}

-- The calls that the client makes by `CallContext` and `BatchCallContext`.
pub record RpcClient : Type 0 where
  pub rpc : Rpc
  pub tracer : Tracer
  pub call_context : String → String → Result GoError String
  pub admin_peers : Result GoError (List PeerInfo)
  pub max_priority_fee_per_gas : Result GoError ℕ
  pub latest_head : Result GoError (Option (Option ℤ))

-- The methods of go-ethereum's client.
pub record EthClient : Type 0 where
  pub estimator : Estimator
  pub node : Node
  pub sync_progress : Result GoError (Option SyncProgress)
  pub new_token : Address → Result GoError Token

-- The fields of `SDKClient`, of the chain's parameters those that are read.
pub record SdkClient : Type 0 where
  pub chain : Ethash
  pub rosetta_config : RosettaConfig
  pub skip_admin_calls : Bool
  pub rpc_client : RpcClient
  pub eth_client : EthClient

-- What the client uses of other packages: addresses, the Keccak hash, the equality of currencies and the
-- constants of go-ethereum.
pub record Library : Type 0 where
  pub geth : Geth
  pub keccak : String → List ℕ
  pub equal : Currency → Currency → Bool
  pub empty_uncle_hash : Hash
  pub empty_root_hash : Hash

-- The `BlockAuthor` that `GetLoadedTransaction` calls is that of the SDK client itself.
unfoldable pub sdk_client : Library → SdkClient → Client
sdk_client lib ec =
    let config = ec.rosetta_config in
    let rpc = ec.rpc_client.rpc in
    let tracer = ec.rpc_client.tracer in
    let estimator = ec.eth_client.estimator in
    record {
      status =
          status rpc config ec.skip_admin_calls ec.eth_client.sync_progress
            ec.rpc_client.admin_peers;
      balance = balance rpc config lib.equal;
      rosetta_config = config;
      get_block_hash = get_block_hash;
      skip_tx_receipt_parsing = skip_tx_receipt_parsing;
      get_customized_block_body = get_customized_block_body;
      trace_block_by_hash = trace_block tracer config;
      trace_transaction = trace_transaction tracer config;
      block_reward_transaction = block_reward_transaction lib.geth ec.chain config.currency;
      get_loaded_transaction =
          get_loaded_transaction lib.geth
            (record ec.eth_client.node { block_author = block_author })
            config.supports_block_author;
      block_author = block_author;
      get_uncles = get_uncles lib.empty_uncle_hash lib.empty_root_hash rpc;
      trace_replay_block_transactions = trace_replay_block_transactions tracer config;
      trace_replay_transaction = trace_replay_transaction tracer config;
      populate_cross_chain_transactions = populate_cross_chain_transactions;
      get_contract_currency = get_contract_currency ec.eth_client.new_token;
      call_context = ec.rpc_client.call_context;
      get_block_receipts = get_block_receipts;
      get_transaction_receipt = get_transaction_receipt;
      get_nonce = get_nonce lib.geth estimator;
      get_gas_price = get_gas_price lib.geth estimator;
      get_gas_tip_cap =
          λ input. get_gas_tip_cap config ec.rpc_client.max_priority_fee_per_gas input.gas_tip_cap;
      get_gas_fee_cap = λ input. get_gas_fee_cap config ec.rpc_client.latest_head input.gas_fee_cap;
      get_l1_data_fee = get_l1_data_fee;
      get_native_transfer_gas_limit = get_native_transfer_gas_limit;
      get_erc20_transfer_gas_limit = get_erc20_transfer_gas_limit lib.geth estimator lib.keccak;
      get_contract_call_gas_limit = get_contract_call_gas_limit lib.geth estimator;
      parse_ops = parse_ops;
    }

-- `WithRPCTransport` gives the SDK client back; `new_rpc_client` is `NewRPCClient`, which dials.
unfoldable pub with_rpc_transport :
    {Transport : Type 0}
    → (String → Transport → Result GoError RpcClient)
    → SdkClient
    → String
    → Transport
    → Result GoError SdkClient
with_rpc_transport new_rpc_client ec endpoint transport = do
  new_client ← new_rpc_client endpoint transport
  ok (record ec { rpc_client = new_client })
