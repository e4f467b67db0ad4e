-- ===== src/Client/Tracing.antt =====
-- client/client.go: the methods that ask the node for traces, `TraceBlockByHash`, `TraceTransaction`,
-- `TraceReplayBlockTransactions` and `TraceReplayTransaction`.
pub mod Permits
use Prim.Native.String.{◌++◌}
use mesh_geth_sdk.Base.{
  ℕ, String, Bool, true, false, Option, none, some, List, [], ◌∷◌, Result, ok, err, crash, ◌>>=◌,
  or_crash, if◌then◌else◌,
}
use mesh_geth_sdk.Base.Text.{is_empty}
use mesh_geth_sdk.Base.Dict.{Dict, insert}
use mesh_geth_sdk.Geth.{Hash}
use mesh_geth_sdk.Types.Errors.{GoError, message}
use mesh_geth_sdk.Configuration.{RosettaConfig}
use mesh_geth_sdk.Client.Data.{FlatCall, Call, RpcTransaction, OpenEthTraceCall}
use mesh_geth_sdk.Client.Node.{Request, Arg}
use mesh_geth_sdk.Client.Tracer.{flatten, flatten_traces, flatten_open_eth_traces, group_results}

-- A call that gives a raw message, the decoders of the messages, in which nil results may stand, and the
-- two configurations of traces, which the node is handed as they are.
pub record Tracer : Type 0 where
  pub call_raw : Request → Result GoError String
  pub unmarshal_calls : String → Result GoError (List (Option Call))
  pub unmarshal_call : String → Result GoError (Option Call)
  pub unmarshal_results : String → Result GoError (List (Option OpenEthTraceCall))
  pub unmarshal_result : String → Result GoError (Option OpenEthTraceCall)
  pub trace_config : Arg
  pub customized_trace_config : Arg

abbrev pub first_tx : List RpcTransaction → Option RpcTransaction
first_tx [] = none
first_tx (tx ∷ rest) = some tx

abbrev pub other_txs : List RpcTransaction → List RpcTransaction
other_txs [] = []
other_txs (tx ∷ rest) = rest

-- The hash of the transaction at the index of a call: `txs[i].TxExtraInfo.TxHash.Hex()`
unfoldable pub hash_of_tx : List RpcTransaction → Result GoError Hash
hash_of_tx txs = do tx ← or_crash (first_tx txs); or_crash tx.info.tx_hash

-- The loop of `TraceBlockByHash`; the transactions are those from the index of the call on.
unfoldable pub trace_block_loop :
    List (Option Call)
    → List RpcTransaction
    → Dict (List FlatCall)
    → Result GoError (Dict (List FlatCall))
trace_block_loop [] txs m = ok m
trace_block_loop (none ∷ calls) txs m = crash
trace_block_loop (some c ∷ calls) txs m =
    let later = λ (m' : Dict (List FlatCall)). trace_block_loop calls (other_txs txs) m' in
    if is_empty (flatten c).type then later m else (do
      h ← hash_of_tx txs
      if is_empty h.hex
          then err (message "could not get %dth tx hash for block %s")
          else later (insert h.hex (flatten_traces c []) m))

abbrev pub flatten_result : Option Call → List FlatCall
flatten_result none = []
flatten_result (some c) = flatten_traces c []

-- The results that the loop of `TraceReplayBlockTransactions` reads; nil is dereferenced.
unfoldable pub present_results :
    List (Option OpenEthTraceCall) → Result GoError (List OpenEthTraceCall)
present_results [] = ok []
present_results (none ∷ results) = crash
present_results (some result ∷ results) = do rest ← present_results results; ok (result ∷ rest)

module _ (node : Tracer) (config : RosettaConfig) where
  -- `TraceBlockByHash` between `Acquire` and `Release`
  unfoldable pub trace_block : Hash → List RpcTransaction → Result GoError (Dict (List FlatCall))
  trace_block block_hash txs = do
    raw ← node.call_raw (
      "debug_traceBlockByHash",
      Arg.hash block_hash
          ∷ (if config.support_customized_trace_config
              then node.customized_trace_config
              else node.trace_config)
          ∷ [],
    )
    calls ← node.unmarshal_calls raw
    trace_block_loop calls txs []

  -- `TraceTransaction`
  unfoldable pub trace_transaction : Hash → Result GoError (String × List FlatCall)
  trace_transaction hash = do
    raw ← node.call_raw ("debug_traceTransaction", Arg.hash hash ∷ node.trace_config ∷ [])
    result ← node.unmarshal_call raw
    ok (raw, flatten_result result)

  -- `TraceReplayBlockTransactions`
  unfoldable pub trace_replay_block_transactions : String → Result GoError (Dict (List FlatCall))
  trace_replay_block_transactions hsh = do
    raw ←
        node.call_raw
          (config.trace_prefix ++ "_replayBlockTransactions", Arg.text hsh ∷ Arg.text "trace" ∷ [])
    results ← node.unmarshal_results raw
    present ← present_results results
    ok (group_results present [])

  -- What is made of the result of a replay; nil is dereferenced.
  unfoldable pub replayed :
      String → Option OpenEthTraceCall → Result GoError (String × List FlatCall)
  replayed raw none = crash
  replayed raw (some t) = elim t.trace [
    | [] ↦ err (message "Transaction(%s) does not have traces")
    | child ∷ rest ↦ ok (raw, flatten_open_eth_traces t [])
  ]

  -- `TraceReplayTransaction`: a call that fails ends the process (`log.Fatalln`).
  unfoldable pub trace_replay_transaction : String → Result GoError (String × List FlatCall)
  trace_replay_transaction hsh =
      elim (node.call_raw
        (config.trace_prefix ++ "_replayTransaction", Arg.text hsh ∷ Arg.text "trace" ∷ [])) [
          | crash ↦ crash
          | err e ↦ crash
          | ok raw ↦ (do result ← node.unmarshal_result raw; replayed raw result)
        ]
