-- ===== src/Tests/Whole.antt =====
-- A block with a transaction, served by the Ethereum client from a toy node.
use mesh_geth_sdk.Base.{
  List, String, ◌≡◌, refl, pos, true, false, Option, none, some, [], ◌∷◌, Result, ok, All,
}
use mesh_geth_sdk.Base.Dict.{lookup, insert}
use mesh_geth_sdk.Base.Text.{to_upper}
use mesh_geth_sdk.Rosetta.{Error, PartialBlockIdentifier, BlockIdentifier}
use mesh_geth_sdk.Geth.{Hash}
use mesh_geth_sdk.Services.Client.{Transaction, Header}
use mesh_geth_sdk.Client.Loaded.{rewarded, load_mined, get_loaded_transaction}
use mesh_geth_sdk.Ethereum.Mined.{block_transaction-ethereum_client}
use mesh_geth_sdk.Types.{call_type, one_of, create_type}
use mesh_geth_sdk.Configuration.{is_offline_mode}
use mesh_geth_sdk.Client.Data.{call, none_left, RpcTransaction, EthTransaction}
use mesh_geth_sdk.Client.Utils.{must_checksum, loaded_transaction}
use mesh_geth_sdk.Client.Defaults.{populate_cross_chain_transactions, get_block_hash}
use mesh_geth_sdk.Client.Uncles.{verify_lists, load_uncles, get_uncles}
use mesh_geth_sdk.Client.Rewards.{mining_reward, uncle_ops, block_reward_transaction}
use mesh_geth_sdk.Client.Tracer.{flatten, flatten_children, flatten_traces}
use mesh_geth_sdk.Client.Tracing.{
  Tracer, hash_of_tx, trace_block_loop, trace_block, trace_transaction,
}
use mesh_geth_sdk.Client.Sdk.{Library, SdkClient, sdk_client}
use mesh_geth_sdk.Ethereum.{
  Receipt, effective_gas_price, to_receipt, block_receipt, block_receipts_loop, hashes_of,
  get_block_receipts, parse_ops, get_transaction_receipt, received, priced_receipt,
}
use mesh_geth_sdk.Ethereum.Client.{Receipts, ethereum_client}
use mesh_geth_sdk.Ethereum.Served.{block-ethereum_client}
use mesh_geth_sdk.Bootstrap.{Served, served_client, ethereum_served}
use mesh_geth_sdk.Bootstrap.Blocks.{served_client-block}
use mesh_geth_sdk.Mapper.Operations.{last_index}
use mesh_geth_sdk.Mapper.Fee.{fee_ops, miner_earned, paid_ops}
use mesh_geth_sdk.Mapper.Trace.{
  trace_ops, trace_loop, trace_step, trace_round, add_from, add_to, should_add, mark_destroyed,
  resurrect, skips_credit, adjust, zero_out,
}
use mesh_geth_sdk.Services.Block.Cache.{◌>>=◌, lift, relabel}
use mesh_geth_sdk.Services.Block.Populate.{
  receipt_logs, trace_maps, log_loop, populate_with, populate_all, reward_transactions,
  populate_transactions, populate_transaction,
}
use mesh_geth_sdk.Services.Block.Fetch.{
  Decoder, fetch_raw, decode_body, block_author_of, traces_of, with_rewarder, with_trace,
  load_transaction, load_transactions, uncles_of, get_block, get_eth_block,
}
use mesh_geth_sdk.Services.Block.Endpoint.{
  Block, first_base_fee, with_receipt, burn, with_burned, with_fees, prepare, respond, finish,
  block, parent_identifier, finish_one, load_one, trace_one, block_transaction,
}
use mesh_geth_sdk.Services.Block.Complete.{IsNumbered}
use mesh_geth_sdk.Tests.Setting.{
  toy_geth, alice, rosetta_config, configuration, eth_transaction, plain_call, toy_header,
  toy_decoder, toy_codec, toy_hash, toy_cache,
}
use mesh_geth_sdk.Tests.Asking.{toy_tracer}
use mesh_geth_sdk.Tests.Serving.{rpc_client, client, lib, receipts}

abbrev mined : RpcTransaction
mined = record {
  tx = eth_transaction;
  info = record {
    block_number = some "5";
    block_hash = some (record { hex = "0xblock" });
    from = some alice;
    tx_hash = some (record { hex = "0xtx" });
    mint = "";
  };
}

abbrev decoder : Decoder
decoder = record toy_decoder {
  body = λ s.
      ok (record {
        hash = record { hex = "0xblock" };
        transactions = mined ∷ [];
        uncle_hashes = [];
      });
}

abbrev tracer : Tracer
tracer = record toy_tracer {
  call_raw = λ r. ok "[]";
  unmarshal_calls = λ s. ok (some (call plain_call none_left) ∷ []);
}

abbrev answering : SdkClient
answering = record client {
  rosetta_config = record rosetta_config { support_reward_tx = true };
  rpc_client = record rpc_client { tracer = tracer; call_context = λ method arg. ok "{}" };
}

-- The empty hash of uncles is that of the header, and its hash of transactions is not empty.
abbrev library : Library
library = record lib { empty_uncle_hash = toy_header.uncle_hash }

abbrev mined_receipt : Receipt
mined_receipt = record {
  type = 0;
  gas_used = 21000;
  logs = [];
  block_hash = record { hex = "0xblock" };
}

abbrev answered : Receipts
answered = record receipts {
  batch = λ hashes. ok (record { error = none; result = some mined_receipt } ∷ []);
}

abbrev latest : Option PartialBlockIdentifier
latest = none

abbrev block_or_empty : Result Error Block → Block
block_or_empty (ok b) = b
block_or_empty _ = record {
  block_identifier = record { index = 0; hash = "" };
  parent_block_identifier = record { index = 0; hash = "" };
  timestamp = pos 0;
  transactions = [];
}

abbrev served_block : Block
served_block =
    block_or_empty
      (block toy_cache toy_geth configuration (ethereum_client library answered answering) decoder
        toy_codec toy_hash latest []).0

served_block-eq :
    (block toy_cache toy_geth configuration
      (ethereum_client library answered answering)
      decoder
      toy_codec
      toy_hash
      latest
      []).0
    ≡ ok served_block
unfolding block is_offline_mode finish get_eth_block get_block fetch_raw decode_body block_author_of
    traces_of load_transactions load_transaction with_rewarder with_trace uncles_of prepare
    first_base_fee with_fees with_receipt with_burned burn respond populate_transactions
    reward_transactions ◌>>=◌ lift relabel populate_all populate_with log_loop receipt_logs
    trace_maps parse_ops fee_ops miner_earned paid_ops must_checksum trace_ops trace_loop trace_step
    trace_round add_from add_to should_add call_type one_of mark_destroyed resurrect create_type
    skips_credit adjust zero_out last_index lookup to_upper ethereum_client sdk_client
    populate_cross_chain_transactions get_block_hash get_uncles verify_lists load_uncles
    block_reward_transaction mining_reward uncle_ops trace_block trace_block_loop hash_of_tx flatten
    flatten_traces flatten_children get_block_receipts hashes_of block_receipts_loop block_receipt
    effective_gas_price to_receipt parent_identifier loaded_transaction insert
served_block-eq = refl

block-ethereum_client_example : All IsNumbered served_block.transactions
block-ethereum_client_example =
    block-ethereum_client toy_cache configuration library answered answering decoder toy_codec
      toy_hash latest [] served_block-eq

abbrev served : Served (List String)
served = ethereum_served library answered (λ endpoint headers. ok rpc_client) answering

served-eq :
    served_client (ok tt) (λ headers. ok headers) configuration served
    ≡ ok (ethereum_client library answered answering)
unfolding served_client ethereum_served
served-eq = refl

served_client-block_example : configuration.rosetta_cfg.support_header_forwarding ≡ false
served_client-block_example =
    served_client-block toy_cache toy_geth decoder toy_codec toy_hash library answered
      (λ endpoint headers. ok rpc_client) answering (λ headers. ok headers) configuration (ok tt)
      latest [] served-eq served_block-eq

abbrev one_receipt : Receipts
one_receipt = record answered { call = λ h. ok (some mined_receipt) }

abbrev tracing_one : SdkClient
tracing_one = record answering {
  rpc_client = record rpc_client {
    tracer = record tracer { unmarshal_call = λ s. ok (some (call plain_call none_left)) };
  };
}

abbrev named_block : BlockIdentifier
named_block = record { index = 5; hash = "0x5" }

abbrev transaction_or_empty : Result Error Transaction → Transaction
transaction_or_empty (ok t) = t
transaction_or_empty _ = record { hash = ""; operations = []; metadata = [] }

abbrev served_transaction : Transaction
served_transaction =
    transaction_or_empty
      (block_transaction toy_cache toy_geth configuration
        (ethereum_client lib one_receipt tracing_one) decoder toy_codec toy_hash (some named_block)
        "0xtx" []).0

served_transaction-eq :
    (block_transaction toy_cache toy_geth configuration
      (ethereum_client lib one_receipt tracing_one)
      decoder
      toy_codec
      toy_hash
      (some named_block)
      "0xtx"
      []).0
    ≡ ok served_transaction
unfolding block_transaction is_offline_mode finish_one load_one trace_one ethereum_client sdk_client
    get_loaded_transaction load_mined rewarded must_checksum loaded_transaction trace_transaction
    flatten_traces flatten_children flatten get_transaction_receipt received priced_receipt
    effective_gas_price to_receipt with_burned burn populate_transaction populate_with ◌>>=◌ lift
    log_loop receipt_logs trace_maps parse_ops fee_ops miner_earned paid_ops trace_ops trace_loop
    trace_step trace_round add_from add_to should_add call_type one_of mark_destroyed resurrect
    create_type skips_credit adjust zero_out last_index lookup to_upper insert
served_transaction-eq = refl

block_transaction-ethereum_client_example :
    (is_offline_mode configuration ≡ false)
    × ((head : Header) × (found : EthTransaction × Hash)
        × (tracing_one.eth_client.node.header_by_hash (record { hex = "0x5" }) ≡ ok head)
        × (tracing_one.eth_client.node.transaction_by_hash (record { hex = "0xtx" })
            ≡ ok (found, false))
        × (served_transaction.hash ≡ found.1.hex)
        × IsNumbered served_transaction)
block_transaction-ethereum_client_example =
    block_transaction-ethereum_client toy_cache configuration lib one_receipt tracing_one decoder
      toy_codec toy_hash named_block "0xtx" [] served_transaction-eq
