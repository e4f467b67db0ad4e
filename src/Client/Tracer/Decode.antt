-- ===== src/Client/Tracer/Decode.antt =====
-- client/tracer.go: `UnmarshalJSON` of `EVMTransfer`, `Call` and `OpenEthAction`. The JSON library fills a
-- structure of the same fields, in which numbers may be missing; what is made of it is below.
pub mod Explained
use mesh_geth_sdk.Base.{ℤ, pos, String, Bool, true, false, not, Option, none, some, List, map}
use mesh_geth_sdk.Base.Text.{is_empty}
use mesh_geth_sdk.Geth.{Geth, Address}
use mesh_geth_sdk.Client.Data.{
  EvmTransfer, FlatCall, Call, call, Calls, none_left, more, OpenEthAction,
}

-- `new(big.Int)` for a number that is missing
unfoldable pub or_zero : Option ℤ → ℤ
or_zero none = pos 0
or_zero (some n) = n

-- `CustomTrace` of `EVMTransfer`
pub record CustomTransfer : Type 0 where
  pub purpose : String
  pub from : Option Address
  pub to : Option Address
  pub value : Option ℤ

unfoldable pub transfer_of : CustomTransfer → EvmTransfer
unfolding or_zero
transfer_of dec = record {
  purpose = dec.purpose;
  from = dec.from;
  to = dec.to;
  value = or_zero dec.value;
}

-- `CustomTrace` of `Call` without its calls; its `Revert` is not read.
pub record CustomCall : Type 0 where
  pub before_evm_transfers : List CustomTransfer
  pub after_evm_transfers : List CustomTransfer
  pub type : String
  pub from : String
  pub to : Address
  pub value : Option ℤ
  pub gas_used : Option ℤ
  pub revert : Bool
  pub error_message : String

mutual
  pub data CustomTrace : Type 0 where
    custom : CustomCall → CustomTraces → CustomTrace

  pub data CustomTraces : Type 0 where
    no_traces : CustomTraces
    one_more : CustomTrace → CustomTraces → CustomTraces

module _ (g : Geth) where
  -- Any error message means that the transaction has reverted.
  unfoldable pub flat_call_of : CustomCall → FlatCall
  unfolding or_zero
  flat_call_of dec = record {
    before_evm_transfers = map transfer_of dec.before_evm_transfers;
    after_evm_transfers = map transfer_of dec.after_evm_transfers;
    type = dec.type;
    from = g.hex_to_address dec.from;
    to = dec.to;
    value = or_zero dec.value;
    gas_used = or_zero dec.gas_used;
    revert = not (is_empty dec.error_message);
    error_message = dec.error_message;
  }

  -- The calls below are decoded by the same function.
  unfoldable pub calls_of_traces : CustomTraces → Calls
  unfolding flat_call_of
  calls_of_traces no_traces = none_left
  calls_of_traces (one_more (custom dec children) rest) =
      more (call (flat_call_of dec) (calls_of_traces children)) (calls_of_traces rest)

  -- `Call.UnmarshalJSON`
  unfoldable pub call_of_trace : CustomTrace → Call
  unfolding flat_call_of calls_of_traces
  call_of_trace (custom dec children) = call (flat_call_of dec) (calls_of_traces children)

-- `CustomTrace` of `OpenEthAction`
pub record CustomAction : Type 0 where
  pub type : String
  pub from : Address
  pub to : Address
  pub value : Option ℤ
  pub gas_used : Option ℤ

unfoldable pub action_of : CustomAction → OpenEthAction
unfolding or_zero
action_of dec = record {
  type = dec.type;
  from = dec.from;
  to = dec.to;
  value = or_zero dec.value;
  gas_used = or_zero dec.gas_used;
}
