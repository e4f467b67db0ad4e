-- ===== src/Mapper/Transfer/Low.antt =====
-- services/mapper.go: the test for zero in `parseTransferOps`.
use mesh_geth_sdk.Base.{
  ℕ, ◌+◌, uint64, ◌≡◌, refl, ap, ◌∙◌, Bool, false, List, [], ◌∷◌, ◌++◌, ok, length, All, append-nil,
}
use mesh_geth_sdk.Client.Data.{EvmTransfer, FlatCall, LoadedTransaction}
use mesh_geth_sdk.Mapper.Transfer.{
  TransferState, transfer_step, transfer_loop, parse_transfer_ops, append_ops, trace_transfers,
  traces_transfers, deref, empty_heap, transfer_ops,
}

-- The value of every transfer, before and after the calls, is a multiple of 2^64.
abbrev pub IsLow : EvmTransfer → Type 0
IsLow t = uint64 t.value ≡ 0

abbrev pub AllLow : FlatCall → Type 0
AllLow t = All IsLow t.before_evm_transfers × All IsLow t.after_evm_transfers

transfer_loop-low :
    (nil_map : Bool) (ts : List EvmTransfer) (s : TransferState)
    → All IsLow ts
    → transfer_loop nil_map ts s ≡ ok s
unfolding transfer_loop transfer_step
transfer_loop-low nil_map [] s h = refl
transfer_loop-low nil_map (t ∷ ts) s h = rw (h.0) (transfer_loop-low nil_map ts s h.1)

append_ops-low :
    (start : ℕ) (ts : List EvmTransfer) (s : TransferState)
    → All IsLow ts
    → append_ops s.ops (parse_transfer_ops false start ts s)
      ≡ ok (false, record s { count = start; ops = s.ops ++ [] })
unfolding append_ops parse_transfer_ops
append_ops-low start ts s h = ap (append_ops s.ops) (transfer_loop-low false ts _ h)

trace_transfers-low :
    (start : ℕ) (t : FlatCall) (s : TransferState)
    → AllLow t
    → s.ops ≡ []
    → (s' : TransferState) × (trace_transfers start t s ≡ ok s') × (s'.ops ≡ [])
unfolding trace_transfers
trace_transfers-low start t s h e =
    let s1 = record s { count = start + length s.ops; ops = s.ops ++ [] } in
    let s2 = record s1 { count = start + length s1.ops; ops = s1.ops ++ [] } in
    (
      s2,
      rw
          (
            append_ops-low (start + length s.ops) t.before_evm_transfers s h.0,
            append_ops-low (start + length s1.ops) t.after_evm_transfers s1 h.1,
          )
          refl,
      append-nil (s.ops ++ []) ∙ append-nil s.ops ∙ e,
    )

traces_transfers-low :
    (start : ℕ) (ts : List FlatCall) (s : TransferState)
    → All AllLow ts
    → s.ops ≡ []
    → (s' : TransferState) × (traces_transfers start ts s ≡ ok s') × (s'.ops ≡ [])
unfolding traces_transfers
traces_transfers-low start [] s h e = (s, refl, e)
traces_transfers-low start (t ∷ ts) s h e =
    let (s1, made, e1) = trace_transfers-low start t s h.0 e in
    let (s2, rest, e2) = traces_transfers-low start ts s1 h.1 e1 in (s2, rw made rest, e2)

-- Where the value of every transfer is a multiple of 2^64, however large it is, `TransferOps` returns
-- no operations at all: the test for zero reads the low 64 bits of the value alone.
pub transfer_ops_skips :
    (tx : LoadedTransaction) (start : ℕ) → All AllLow tx.trace → transfer_ops tx start ≡ ok []
unfolding transfer_ops deref
transfer_ops_skips tx start h =
    let (s, made, none_left) = traces_transfers-low start tx.trace empty_heap h refl in
    rw (made, none_left) refl
