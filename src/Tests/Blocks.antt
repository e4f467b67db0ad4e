-- ===== src/Tests/Blocks.antt =====
-- The theorems on blocks, on the cache and on the table of errors at concrete inputs.
use mesh_geth_sdk.Base.{
  ◌≤ℤ◌, false, pos, ◌≡◌, refl, true, Option, none, some, List, [], ◌∷◌, Result, ok, err, All,
  length,
}
use mesh_geth_sdk.Base.Dict.{lookup, insert}
use mesh_geth_sdk.Rosetta.{PartialBlockIdentifier, Error}
use mesh_geth_sdk.Types.Errors.{GoError, wrapped, client_block_orphaned, is_block_orphaned}
use mesh_geth_sdk.Configuration.{is_offline_mode}
use mesh_geth_sdk.Geth.{Address}
use mesh_geth_sdk.Client.Data.{LoadedTransaction}
use mesh_geth_sdk.Services.Client.{Client, Status, Transaction}
use mesh_geth_sdk.Services.Network.{NetworkStatus, network_status}
use mesh_geth_sdk.Services.Ready.{network_status-answer}
use mesh_geth_sdk.Services.Block.Cache.{◌>>=◌, lift, relabel}
use mesh_geth_sdk.Services.Block.Populate.{
  populate_all, populate_transactions, reward_transactions, populate_with, log_loop, receipt_logs,
  log_step, skips_log, log_currency, unfiltered_currency, append_erc20_ops, trace_maps,
}
use mesh_geth_sdk.Services.Block.Transparent.{
  ask_node, IsSound, populate_all-Agrees, populate_all-IsSound,
}
use mesh_geth_sdk.Services.Block.Cache.{get_currency_from_node_or_cache, answer, remember}
use mesh_geth_sdk.Services.Block.Numbered.{AllMirror, populate_all-AllMirror}
use mesh_geth_sdk.Services.Block.Endpoint.{
  Block, with_fees, with_receipt, with_burned, burn, prepare, respond, finish, first_base_fee,
  parent_identifier, block,
}
use mesh_geth_sdk.Services.Block.Results.{
  BurnsGas, Follows, with_fees-BurnsGas, block_fails, block-Follows,
}
use mesh_geth_sdk.Services.Block.Fetch.{
  get_eth_block, get_block, fetch_raw, decode_body, block_author_of, traces_of, load_transactions,
  uncles_of,
}
use mesh_geth_sdk.Base.Text.{to_upper}
use mesh_geth_sdk.Types.{call_type, create_type, one_of}
use mesh_geth_sdk.Client.Utils.{must_checksum, to_block_num_arg}
use mesh_geth_sdk.Mapper.Operations.{last_index}
use mesh_geth_sdk.Mapper.Fee.{fee_ops, miner_earned, paid_ops}
use mesh_geth_sdk.Mapper.Erc20.{erc20_ops}
use mesh_geth_sdk.Mapper.Trace.{
  trace_ops, trace_loop, trace_step, trace_round, add_from, add_to, should_add, mark_destroyed,
  resurrect, skips_credit, adjust, zero_out,
}
use mesh_geth_sdk.Ethereum.{parse_ops}
use mesh_geth_sdk.Tests.Setting.{
  toy_geth, configuration, toy_chain, answering_chain, toy_codec, toy_decoder, toy_hash, toy_cache,
  toy_cache-CacheLaws, loaded, receipt,
}

abbrev loaded_twice : List LoadedTransaction
loaded_twice = loaded ∷ loaded ∷ []

nothing_held : IsSound toy_cache toy_cache-CacheLaws toy_chain []
unfolding lookup
nothing_held a currency h = cc

populate_all-Agrees_example :
    (populate_all toy_geth configuration toy_chain
      (get_currency_from_node_or_cache toy_cache toy_chain)
      toy_codec
      loaded_twice
      []).0
    ≡ (populate_all toy_geth configuration toy_chain
        (ask_node toy_chain)
        toy_codec
        loaded_twice
        tt).0
populate_all-Agrees_example =
    populate_all-Agrees toy_cache toy_cache-CacheLaws toy_chain toy_geth configuration toy_codec
      loaded_twice [] nothing_held

abbrev token_address : Address
token_address = record { hex = "0xtoken" }

token_is_held :
    (toy_cache.get "0xtoken"
      (populate_all toy_geth configuration toy_chain
        (get_currency_from_node_or_cache toy_cache toy_chain)
        toy_codec
        loaded_twice
        []).1).0
    ≡ some (record { symbol = "0xtoken"; decimals = 6 })
unfolding populate_all ◌>>=◌ relabel populate_with lift log_loop receipt_logs log_step skips_log
    log_currency unfiltered_currency append_erc20_ops erc20_ops trace_maps parse_ops fee_ops
    miner_earned paid_ops must_checksum trace_ops trace_loop trace_step trace_round add_from add_to
    should_add call_type one_of mark_destroyed resurrect create_type skips_credit adjust zero_out
    last_index lookup to_upper get_currency_from_node_or_cache answer remember insert
token_is_held = refl

populate_all-IsSound_example :
    toy_chain.get_contract_currency token_address true
    ≡ ok (record { symbol = "0xtoken"; decimals = 6 })
populate_all-IsSound_example =
    populate_all-IsSound toy_cache toy_cache-CacheLaws toy_chain toy_geth configuration toy_codec
      loaded_twice [] nothing_held token_address (record { symbol = "0xtoken"; decimals = 6 })
      token_is_held

abbrev result_or_nil : {E A : Type 0} → Result E (List A) → List A
result_or_nil (ok xs) = xs
result_or_nil _ = []

abbrev populated : List Transaction
populated =
    result_or_nil
      (populate_all toy_geth configuration toy_chain (ask_node toy_chain) toy_codec loaded_twice
        tt).0

populated-eq :
    (populate_all toy_geth configuration toy_chain (ask_node toy_chain) toy_codec loaded_twice tt).0
    ≡ ok populated
unfolding populate_all ◌>>=◌ relabel populate_with lift log_loop receipt_logs log_step skips_log
    log_currency unfiltered_currency append_erc20_ops erc20_ops trace_maps parse_ops fee_ops
    miner_earned paid_ops must_checksum trace_ops trace_loop trace_step trace_round add_from add_to
    should_add call_type one_of mark_destroyed resurrect create_type skips_credit adjust zero_out
    last_index lookup to_upper
populated-eq = refl

populate_all-AllMirror_example : AllMirror toy_chain loaded_twice populated
populate_all-AllMirror_example =
    populate_all-AllMirror toy_geth configuration toy_chain (ask_node toy_chain) toy_codec
      loaded_twice tt populated-eq

abbrev charged : List LoadedTransaction
charged =
    result_or_nil (with_fees {E = Error} (some (pos 1)) (some (some receipt ∷ [])) (loaded ∷ []))

charged-eq :
    with_fees {E = Error} (some (pos 1)) (some (some receipt ∷ [])) (loaded ∷ []) ≡ ok charged
unfolding with_fees with_receipt with_burned burn
charged-eq = refl

with_fees-BurnsGas_example : All BurnsGas charged × (length charged ≡ 1)
with_fees-BurnsGas_example =
    with_fees-BurnsGas (some (pos 1)) (some (some receipt ∷ [])) (loaded ∷ []) charged-eq

abbrev block_5 : Option PartialBlockIdentifier
block_5 = some (record { hash = none; index = some 5 })

abbrev orphaned_answer : GoError
orphaned_answer = wrapped "block fetch failed: " (wrapped "call: " client_block_orphaned)

block_fails_example :
    (answer : Error) × (block toy_cache toy_geth configuration toy_chain toy_decoder toy_codec
        toy_hash block_5 []
      ≡ (err answer, []))
    × (answer.code ≡ 11)
    × (answer.retriable ≡ true)
unfolding is_offline_mode is_block_orphaned get_eth_block get_block fetch_raw to_block_num_arg
block_fails_example =
    block_fails toy_cache toy_geth configuration toy_chain toy_decoder toy_codec toy_hash block_5 []
      {e = orphaned_answer} refl

abbrev expected_block : Block
expected_block = record {
  block_identifier = record { index = 5; hash = "0xhash" };
  parent_block_identifier = record { index = 4; hash = "0xparent" };
  timestamp = pos 1000;
  transactions = [];
}

expected_block-eq :
    (block toy_cache toy_geth configuration answering_chain toy_decoder toy_codec toy_hash block_5
      []).0
    ≡ ok expected_block
unfolding block is_offline_mode finish get_eth_block get_block fetch_raw decode_body block_author_of
    traces_of load_transactions uncles_of prepare first_base_fee with_fees respond
    populate_transactions reward_transactions ◌>>=◌ lift populate_all parent_identifier
expected_block-eq = refl

block-Follows_example :
    Follows expected_block.block_identifier expected_block.parent_block_identifier
block-Follows_example =
    block-Follows toy_cache toy_geth configuration answering_chain toy_decoder toy_codec toy_hash
      block_5 [] expected_block-eq

abbrev synced : Status
synced = record {
  current_block = record { index = 5; hash = "0x5" };
  current_time = pos 1000;
  sync_status = none;
  peers = [];
}

abbrev synced_chain : Client
synced_chain = record toy_chain { status = ok synced }

abbrev expected_status : NetworkStatus
expected_status = record {
  current_block_identifier = record { index = 5; hash = "0x5" };
  current_block_timestamp = pos 1000;
  genesis_block_identifier = record { index = 0; hash = "0x0" };
  sync_status = none;
  peers = [];
}

expected_status-eq : network_status (pos 900) configuration synced_chain ≡ ok expected_status
unfolding network_status
expected_status-eq = refl

network_status-answer_example :
    (is_offline_mode configuration ≡ false)
    × ((s : Status) × (synced_chain.status ≡ ok s)
        × (expected_status.current_block_identifier ≡ s.current_block)
        × (expected_status.genesis_block_identifier ≡ configuration.genesis_block_identifier)
        × (pos 900 ≤ℤ expected_status.current_block_timestamp))
network_status-answer_example =
    network_status-answer (pos 900) configuration synced_chain expected_status-eq
