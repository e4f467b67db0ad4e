-- ===== src/Tests/Fetching.antt =====
-- The theorems on the client, on traces, fees and transfer data at concrete inputs.
use mesh_geth_sdk.Base.{
  ℤ, pos, ◌+ℤ◌, ◌*ℤ◌, ◌≡◌, refl, true, false, Option, none, some, List, [], ◌∷◌, Result, ok, err,
  length, map, All,
}
use mesh_geth_sdk.Rosetta.{BlockIdentifier}
use mesh_geth_sdk.Types.Errors.{GoError, not_found}
use mesh_geth_sdk.Client.Data.{
  FlatCall, Call, call, none_left, more, OpenEthTrace, OpenEthTraceCall, LoadedTransaction,
}
use mesh_geth_sdk.Client.Utils.{must_checksum}
use mesh_geth_sdk.Client.Tracer.{flatten_traces, calls_at, group_results}
use mesh_geth_sdk.Client.Tracer.Marks.{unmarked, preorder, reverted, flatten_traces-marks}
use mesh_geth_sdk.Client.Tracer.Decode.{
  CustomCall, CustomTrace, custom, no_traces, one_more, call_of_trace,
}
use mesh_geth_sdk.Client.Tracer.Decode.Explained.{IsExplained, flatten_traces-IsExplained}
use mesh_geth_sdk.Client.Tracer.Groups.{calls_of, all_traces, group_results-calls_of}
use mesh_geth_sdk.Client.Fees.{get_base_fee_floor, get_base_fee_multiplier, get_gas_fee_cap}
use mesh_geth_sdk.Client.Fees.Caps.{IsMax, get_gas_fee_cap-IsMax}
use mesh_geth_sdk.Client.Rewards.{Ethash}
use mesh_geth_sdk.Client.Loaded.{Node, rewarded, load_mined, get_loaded_transaction}
use mesh_geth_sdk.Client.Loaded.Pending.{get_loaded_transaction_block_hash}
use mesh_geth_sdk.Tests.Setting.{
  toy_geth, alice, bob, plain_call, loaded, eth_transaction, rosetta_config, toy_header,
}

abbrev failed_call : FlatCall
failed_call = record plain_call { revert = true; error_message = "out of gas" }

abbrev tree : Call
tree =
    call failed_call (more (call plain_call none_left) (more (call plain_call none_left) none_left))

flatten_traces-marks_example :
    (length (flatten_traces tree []) ≡ 3)
    × (map unmarked (flatten_traces tree []) ≡ map unmarked (preorder tree))
    × (map reverted (flatten_traces tree []) ≡ true ∷ true ∷ true ∷ [])
flatten_traces-marks_example = flatten_traces-marks tree

abbrev failed_trace : CustomCall
failed_trace = record {
  before_evm_transfers = [];
  after_evm_transfers = [];
  type = "CALL";
  from = "0xa";
  to = bob;
  value = none;
  gas_used = some (pos 21000);
  revert = false;
  error_message = "out of gas";
}

abbrev silent_trace : CustomCall
silent_trace = record failed_trace { error_message = "" }

abbrev trace_tree : CustomTrace
trace_tree =
    custom failed_trace (
      one_more (custom silent_trace no_traces) (one_more (custom silent_trace no_traces) no_traces))

flatten_traces-IsExplained_example :
    All IsExplained (flatten_traces (call_of_trace toy_geth trace_tree) [])
flatten_traces-IsExplained_example = flatten_traces-IsExplained toy_geth trace_tree

abbrev open_trace : OpenEthTrace
open_trace = record {
  subtraces = 0;
  action = record { type = "call"; from = alice; to = bob; value = pos 7; gas_used = pos 1 };
  type = "call";
  transaction_hash = "0xtx";
}

abbrev results : List OpenEthTraceCall
results =
    record { output = "0x"; trace = open_trace ∷ [] }
    ∷ record { output = "0x"; trace = open_trace ∷ [] }
    ∷ []

group_results-calls_of_example :
    calls_at "0xtx" (group_results results []) ≡ calls_of "0xtx" (all_traces results)
group_results-calls_of_example = group_results-calls_of results "0xtx" refl

get_gas_fee_cap-IsMax_example :
    ((cap : ℤ) × (get_gas_fee_cap rosetta_config (ok (some (some (pos 100)))) none (pos 2)
        ≡ ok (some cap))
      × IsMax
          (pos 100 *ℤ get_base_fee_multiplier rosetta_config +ℤ pos 2)
          (get_base_fee_floor rosetta_config +ℤ pos 2)
          cap)
    × (get_gas_fee_cap rosetta_config (ok none) none (pos 2) ≡ err not_found)
    × (get_gas_fee_cap rosetta_config (ok none) (some (pos 70)) (pos 2) ≡ ok (some (pos 70)))
get_gas_fee_cap-IsMax_example =
    get_gas_fee_cap-IsMax rosetta_config (ok none) (some (pos 100)) (pos 70) (pos 2)

abbrev ethash : Ethash
ethash = record {
  frontier = 5000000000000000000;
  byzantium = 3000000000000000000;
  constantinople = 2000000000000000000;
  is_byzantium = λ n. true;
  is_constantinople = λ n. false;
}

abbrev block_6 : BlockIdentifier
block_6 = record { index = 6; hash = "0x6" }

abbrev node : Node
node = record {
  hex_to_hash = λ s. record { hex = s };
  header_by_hash = λ h. ok toy_header;
  transaction_by_hash = λ h. ok ((eth_transaction, h), false);
  sender = λ tx base_fee. ok alice;
  block_author = λ n. ok "0xa";
  show_number = λ n. "5";
}

abbrev loaded_or_toy : Result GoError (Option LoadedTransaction) → LoadedTransaction
loaded_or_toy (ok (some tx)) = tx
loaded_or_toy _ = loaded

abbrev found : LoadedTransaction
found = loaded_or_toy (get_loaded_transaction toy_geth node false block_6 "0xtx")

found-eq : get_loaded_transaction toy_geth node false block_6 "0xtx" ≡ ok (some found)
unfolding get_loaded_transaction load_mined rewarded must_checksum
found-eq = refl

get_loaded_transaction_block_hash_example : found.block_hash ≡ some (record { hex = "0xtx" })
get_loaded_transaction_block_hash_example =
    get_loaded_transaction_block_hash toy_geth node false block_6 "0xtx" found-eq
