-- ===== src/Client/Tracer.antt =====
-- client/tracer.go, and `FlattenTraces` and the loop of `TraceReplayBlockTransactions` of
-- client/client.go: trees and lists of traces become lists of flat calls.
pub mod Marks
pub mod Groups
pub mod Decode
use mesh_geth_sdk.Base.{
  String, Bool, true, false, List, [], ◌∷◌, ◌++◌, if◌then◌else◌, none, some, Option,
}
use mesh_geth_sdk.Base.Text.{is_empty}
use mesh_geth_sdk.Base.Dict.{Dict, lookup, insert}
use mesh_geth_sdk.Client.Data.{
  FlatCall, Call, call, Calls, none_left, more, OpenEthTrace, OpenEthTraceCall,
}

-- `flatten`: a call without its children is the flat call that it holds.
unfoldable pub flatten : Call → FlatCall
flatten (call c children) = c

-- What the loop of `FlattenTraces` does to a child before it descends.
unfoldable pub inherit : FlatCall → FlatCall → FlatCall
inherit parent child =
    if parent.revert
    then record child {
      revert = true;
      error_message =
          if is_empty child.error_message then parent.error_message else child.error_message;
    }
    else child

-- The loop over the children of `parent`: each child's result holds `flattened` once more.
unfoldable pub flatten_children : FlatCall → Calls → List FlatCall → List FlatCall
unfolding inherit
flatten_children parent none_left flattened = []
flatten_children parent (more (call c children) rest) flattened =
    (flattened ++ inherit parent c ∷ flatten_children (inherit parent c) children flattened)
    ++ flatten_children parent rest flattened

unfoldable pub flatten_traces : Call → List FlatCall → List FlatCall
unfolding flatten_children
flatten_traces (call c children) flattened = flattened ++ c ∷ flatten_children c children flattened

-- The loop of `Call.init` marks the child, and copies no message.
unfoldable pub inherit_revert : FlatCall → FlatCall → FlatCall
inherit_revert parent child = if parent.revert then record child { revert = true } else child

unfoldable pub init_children : FlatCall → Calls → List FlatCall
unfolding inherit_revert
init_children parent none_left = []
init_children parent (more (call c children) rest) =
    (inherit_revert parent c ∷ init_children (inherit_revert parent c) children)
    ++ init_children parent rest

-- `Call.init`
unfoldable pub init : Call → List FlatCall
unfolding init_children
init (call c children) = c ∷ init_children c children

-- The flat call of one open ethereum trace.
unfoldable pub flat_of_open_eth : OpenEthTrace → FlatCall
flat_of_open_eth child = record {
  before_evm_transfers = [];
  after_evm_transfers = [];
  type = if is_empty child.action.type then child.type else child.action.type;
  from = child.action.from;
  to = child.action.to;
  value = child.action.value;
  gas_used = child.action.gas_used;
  revert = false;
  error_message = "";
}

flatten_open_eth : List OpenEthTrace → List FlatCall → List FlatCall
unfolding flat_of_open_eth
flatten_open_eth [] flattened = flattened
flatten_open_eth (child ∷ rest) flattened =
    flatten_open_eth rest (flattened ++ flat_of_open_eth child ∷ [])

-- `FlattenOpenEthTraces`
unfoldable pub flatten_open_eth_traces : OpenEthTraceCall → List FlatCall → List FlatCall
unfolding flatten_open_eth
flatten_open_eth_traces t flattened = flatten_open_eth t.trace flattened

abbrev pub or_nil : Option (List FlatCall) → List FlatCall
or_nil none = []
or_nil (some calls) = calls

-- A missing key reads as the nil slice.
unfoldable pub calls_at : String → Dict (List FlatCall) → List FlatCall
calls_at k m = or_nil (lookup k m)

-- The inner loop of `TraceReplayBlockTransactions`, over the traces of one result.
unfoldable pub group_traces : List OpenEthTrace → Dict (List FlatCall) → Dict (List FlatCall)
unfolding flat_of_open_eth calls_at
group_traces [] m = m
group_traces (child ∷ rest) m = group_traces rest (
    if is_empty child.transaction_hash
    then m
    else insert child.transaction_hash
        (calls_at child.transaction_hash m ++ flat_of_open_eth child ∷ []) m)

-- Its outer loop, over the results.
unfoldable pub group_results : List OpenEthTraceCall → Dict (List FlatCall) → Dict (List FlatCall)
unfolding group_traces
group_results [] m = m
group_results (result ∷ rest) m = group_results rest (group_traces result.trace m)
