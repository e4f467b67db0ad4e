-- ===== src/Tests/Mapping.antt =====
-- The mapper's theorems at a call of value 7, a fee of 30, a token log and transfers.
use mesh_geth_sdk.Base.{◌^◌, ℤ, ◌+ℤ◌, pos, neg, ◌≡◌, refl, some, List, [], ◌∷◌, Result, ok, inl}
use mesh_geth_sdk.Base.Dict.{Dict, lookup, insert}
use mesh_geth_sdk.Base.Text.{to_upper}
use mesh_geth_sdk.Types.{call_type, create_type, one_of}
use mesh_geth_sdk.Client.Utils.{must_checksum, amount}
use mesh_geth_sdk.Base.Decimal.{parse_ℤ, show_ℤ}
use mesh_geth_sdk.Rosetta.{Operation}
use mesh_geth_sdk.Geth.{Hash}
use mesh_geth_sdk.Types.Errors.{GoError}
use mesh_geth_sdk.Client.Data.{EvmTransfer, FlatCall, ContractCurrency, LoadedTransaction}
use mesh_geth_sdk.Mapper.Operations.{IsIndexed, total, last_index}
use mesh_geth_sdk.Mapper.Trace.{
  trace_ops, trace_loop, trace_step, trace_round, add_from, add_to, should_add, mark_destroyed,
  resurrect, skips_credit, adjust, zero_out,
}
use mesh_geth_sdk.Mapper.Trace.Balance.{trace_ops_balance}
use mesh_geth_sdk.Mapper.Trace.Indices.{trace_ops-IsIndexed}
use mesh_geth_sdk.Mapper.Fee.{fee_ops}
use mesh_geth_sdk.Mapper.Fee.Balance.{Charges, fee_ops-Charges}
use mesh_geth_sdk.Mapper.Erc20.{transfer_log_ops, erc20_ops}
use mesh_geth_sdk.Mapper.Erc20.Supply.{
  Supplies, supply_change, moved, erc20_ops-Supplies, transfer_log_ops_ignores_event,
}
use mesh_geth_sdk.Mapper.Transfer.{
  transfer_ops, traces_transfers, trace_transfers, append_ops, parse_transfer_ops, transfer_loop,
  transfer_step, booking, book, find_key, open_ops, open_receiver, allocate, consolidate,
  add_amount, amount_at, set_amount, write_amount, follow, deref,
}
use mesh_geth_sdk.Mapper.Transfer.Indices.{transfer_ops-IsIndexed}
use mesh_geth_sdk.Mapper.Transfer.Low.{transfer_ops_skips}
use mesh_geth_sdk.Ethereum.{parse_ops}
use mesh_geth_sdk.Ethereum.Parsed.{parse_ops_balance}
use mesh_geth_sdk.Tests.Setting.{
  toy_geth, toy_geth-ReadsHex, alice, bob, plain_call, transfer_log, loaded,
}

abbrev in_order : Dict ℤ → Dict ℤ
in_order m = m

abbrev calls : List FlatCall
calls = plain_call ∷ record plain_call { value = pos 0 } ∷ []

trace_ops_balance_example :
    (ops : List Operation) × (trace_ops toy_geth in_order calls 2 ≡ ok ops)
    × IsIndexed 2 ops
    × (total ops ≡ pos 0)
unfolding to_upper
trace_ops_balance_example =
    trace_ops_balance toy_geth toy_geth-ReadsHex 2 in_order calls refl
      ((refl, refl), ((refl, refl), tt))

abbrev result_or_nil : Result GoError (List Operation) → List Operation
result_or_nil (ok ops) = ops
result_or_nil _ = []

abbrev traced : List Operation
traced = result_or_nil (trace_ops toy_geth in_order calls 2)

traced-eq : trace_ops toy_geth in_order calls 2 ≡ ok traced
unfolding to_upper must_checksum trace_ops trace_loop trace_step trace_round add_from add_to
    should_add call_type one_of mark_destroyed resurrect create_type skips_credit adjust zero_out
    last_index lookup
traced-eq = refl

trace_ops-IsIndexed_example : IsIndexed 2 traced
trace_ops-IsIndexed_example = trace_ops-IsIndexed toy_geth in_order calls 2 traced-eq

fee_ops-Charges_example :
    (ops : List Operation) × (fee_ops toy_geth loaded ≡ ok ops)
    × Charges alice (record { hex = "0xm" }) (pos 30) (pos 10) ops
fee_ops-Charges_example = fee_ops-Charges toy_geth loaded toy_geth-ReadsHex refl refl refl refl

parse_ops_balance_example :
    (ops : List Operation) × (parse_ops toy_geth in_order loaded ≡ ok ops)
    × (total ops ≡ neg (pos 10))
unfolding to_upper
parse_ops_balance_example =
    parse_ops_balance toy_geth in_order loaded toy_geth-ReadsHex refl refl refl refl refl
      ((refl, refl), tt)

abbrev token : ContractCurrency
token = record { symbol = "TKN"; decimals = 6 }

abbrev transfer_event : Hash
transfer_event = record {
  hex = "0xddf252ad1be2c89b69c2b068fc378daa952ba7f163c4a11628f55a4df523b3ef";
}

abbrev parties : List Hash
parties = record { hex = "0x0a" } ∷ record { hex = "0x0b" } ∷ []

erc20_ops-Supplies_example :
    (ops : List Operation) × (erc20_ops toy_geth transfer_log token 3 ≡ ok ops)
    × Supplies 3 (supply_change (moved toy_geth transfer_log) (transfer_event ∷ parties)) ops
erc20_ops-Supplies_example =
    erc20_ops-Supplies toy_geth transfer_log token 3 transfer_event parties refl (inl (refl, refl))

abbrev zero_topic : Hash
zero_topic = record { hex = "0x0000000000000000000000000000000000000000000000000000000000000000" }

abbrev approval_event : Hash
approval_event = record {
  hex = "0x8c5be1e5ebec7d5bd14f71427d1e84f3dd0314c0f7b2291e5b200ac8c7c3b925";
}

transfer_log_ops_ignores_event_example :
    transfer_log_ops toy_geth transfer_log token 0 approval_event zero_topic transfer_event
    ≡ transfer_log_ops toy_geth transfer_log token 0 transfer_event zero_topic transfer_event
transfer_log_ops_ignores_event_example =
    transfer_log_ops_ignores_event toy_geth transfer_log token 0 approval_event transfer_event
      zero_topic transfer_event (inl refl)

abbrev transfer : ℤ → EvmTransfer
transfer value = record { purpose = ""; from = some alice; to = some bob; value = value }

abbrev moving : LoadedTransaction
moving = record loaded {
  trace =
      record plain_call {
        before_evm_transfers = transfer (pos 5) ∷ transfer (pos 6) ∷ [];
        after_evm_transfers = transfer (pos 1) ∷ [];
      }
      ∷ [];
}

abbrev moved_ops : List Operation
moved_ops = result_or_nil (transfer_ops moving 4)

moved_ops-eq : transfer_ops moving 4 ≡ ok moved_ops
unfolding transfer_ops traces_transfers trace_transfers append_ops parse_transfer_ops transfer_loop
    transfer_step booking book find_key lookup insert open_ops open_receiver allocate consolidate
    add_amount amount_at set_amount write_amount follow deref amount parse_ℤ show_ℤ ◌+ℤ◌
moved_ops-eq = refl

transfer_ops-IsIndexed_example : IsIndexed 4 moved_ops
transfer_ops-IsIndexed_example = transfer_ops-IsIndexed moving 4 moved_ops-eq

abbrev large : LoadedTransaction
large = record loaded {
  trace = record plain_call { before_evm_transfers = transfer (pos (2 ^ 64)) ∷ [] } ∷ [];
}

transfer_ops_skips_example : transfer_ops large 4 ≡ ok []
transfer_ops_skips_example = transfer_ops_skips large 4 (((refl, tt), tt), tt)
