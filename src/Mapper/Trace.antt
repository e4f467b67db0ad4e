-- ===== src/Mapper/Trace.antt =====
-- `TraceOps` of services/mapper.go: flat calls become debits and credits, and accounts that
-- destroyed themselves are emptied at the end.
pub mod Indices
pub mod Skips
pub mod Balance
use mesh_geth_sdk.Base.{
  ℕ, ◌+◌, ◌==◌, ℤ, pos, ◌+ℤ◌, ◌-ℤ◌, neg, is_zero_ℤ, is_neg_ℤ, String, Bool, true, false, ◌=ₛ◌, ◌&&◌,
  not, Option, none, some, List, [], ◌∷◌, ◌++◌, if◌then◌else◌, Result, ok, err, crash, ◌>>=◌,
  or_crash, length, is_some,
}
use mesh_geth_sdk.Base.Decimal.{show_ℤ}
use mesh_geth_sdk.Base.Text.{is_empty, to_upper}
use mesh_geth_sdk.Base.Dict.{Dict, lookup, insert, erase}
use mesh_geth_sdk.Rosetta.{Operation, Amount, Value, text}
use mesh_geth_sdk.Geth.{Geth}
use mesh_geth_sdk.Types.{
  call_type, create_type, self_destruct_op_type, destruct_op_type, success_status, failure_status,
  native_currency,
}
use mesh_geth_sdk.Types.Errors.{GoError}
use mesh_geth_sdk.Client.Data.{FlatCall}
use mesh_geth_sdk.Client.Utils.{must_checksum, checksum_address}
use mesh_geth_sdk.Mapper.Operations.{last_index}

-- The variables of the loop: the operations so far and the map `destroyedAccounts`.
pub record TraceState : Type 0 where
  pub ops : List Operation
  pub destroyed : Dict ℤ

abbrev pub no_ops : TraceState
no_ops = record { ops = []; destroyed = [] }

abbrev pub status_of : FlatCall → String
status_of t = if t.revert then failure_status else success_status

abbrev pub metadata_of : FlatCall → Dict Value
metadata_of t = if t.revert then ("error", text t.error_message) ∷ [] else []

-- A call with no value adds no operations.
unfoldable pub should_add : FlatCall → Bool
should_add t = not (is_zero_ℤ t.value && call_type t.type)

-- One side of a call; a call of value zero has no amount.
abbrev pub trace_op : FlatCall → ℕ → List ℕ → String → ℤ → Operation
trace_op t index related address value = record {
  index = index;
  related = related;
  type = to_upper t.type;
  status = some (status_of t);
  account = some address;
  amount =
      if is_zero_ℤ t.value
      then none
      else some (record { value = show_ℤ value; currency = native_currency });
  metadata = metadata_of t;
}

-- The balance of a destroyed account moves with each successful call that has a value.
unfoldable pub adjust : FlatCall → String → (ℤ → ℤ) → Dict ℤ → Dict ℤ
adjust t address f destroyed =
    if is_zero_ℤ t.value then destroyed else elim (lookup address destroyed) [
      | none ↦ destroyed
      | some balance ↦ if t.revert then destroyed else insert address (f balance) destroyed
    ]

-- The debit of `from`, with the number of operations so far for its index.
unfoldable pub add_from : ℕ → FlatCall → String → TraceState → TraceState
unfolding should_add adjust
add_from start t from s =
    if should_add t
    then record {
      ops = s.ops ++ trace_op t (length s.ops + start) [] from (neg t.value) ∷ [];
      destroyed = adjust t from (λ balance. balance -ℤ t.value) s.destroyed;
    }
    else s

-- The credit of `to`, which is related to the last operation.
unfoldable pub add_to : FlatCall → String → TraceState → Result GoError TraceState
unfolding should_add adjust last_index
add_to t to s =
    if should_add t
    then (do
      last ← or_crash (last_index s.ops)
      ok (record {
        ops = s.ops ++ trace_op t (last + 1) (last ∷ []) to t.value ∷ [];
        destroyed = adjust t to (λ balance. balance +ℤ t.value) s.destroyed;
      }))
    else ok s

-- `destroyedAccounts[from] = new(big.Int)`
unfoldable pub mark_destroyed : FlatCall → String → TraceState → TraceState
mark_destroyed t from s =
    if to_upper t.type =ₛ self_destruct_op_type
    then record s { destroyed = insert from (pos 0) s.destroyed }
    else s

-- `delete(destroyedAccounts, to)`
unfoldable pub resurrect : FlatCall → String → TraceState → TraceState
resurrect t to s =
    if create_type (to_upper t.type) then record s { destroyed = erase to s.destroyed } else s

-- The two places where the loop goes on to the next call without a credit.
unfoldable pub skips_credit : FlatCall → String → String → Bool
skips_credit t from to =
    if (to_upper t.type =ₛ self_destruct_op_type) && (from =ₛ to) then true else is_empty t.to.hex

-- One round of the loop, from the checksummed addresses on.
unfoldable pub trace_round : ℕ → FlatCall → String → String → TraceState → Result GoError TraceState
trace_round start t from to s =
    let s' = mark_destroyed t from (add_from start t from s) in
    if skips_credit t from to then ok s' else add_to t to (resurrect t to s')

unfoldable pub trace_step : Geth → ℕ → FlatCall → TraceState → Result GoError TraceState
trace_step g start t s = do
  from ← must_checksum g t.from.hex
  to ← must_checksum g t.to.hex
  trace_round start t from to s

unfoldable pub trace_loop : Geth → ℕ → List FlatCall → TraceState → Result GoError TraceState
trace_loop g start [] s = ok s
trace_loop g start (t ∷ ts) s = trace_step g start t s >>= trace_loop g start ts

-- The operation that takes what is left from a destroyed account; a negative balance ends the
-- process (`log.Fatalf`).
unfoldable pub destruct_op : ℕ → String → ℤ → Operation
destruct_op index acct val = record {
  index = index;
  related = [];
  type = destruct_op_type;
  status = some success_status;
  account = some acct;
  amount = some (record { value = show_ℤ (neg val); currency = native_currency });
  metadata = [];
}

unfoldable pub zero_out_checked :
    Result GoError String → String → ℤ → List Operation → Result GoError (List Operation)
unfolding destruct_op
zero_out_checked (err e) acct val ops = ok ops
zero_out_checked crash acct val ops = crash
zero_out_checked (ok a) acct val ops =
    if is_zero_ℤ val
    then ok ops
    else if is_neg_ℤ val
    then crash
    else (do last ← or_crash (last_index ops); ok (ops ++ destruct_op (last + 1) acct val ∷ []))

-- One account of the map; an address that does not check is passed over.
unfoldable pub zero_out_step : Geth → String → ℤ → List Operation → Result GoError (List Operation)
zero_out_step g acct val ops = zero_out_checked (checksum_address g acct) acct val ops

unfoldable pub zero_out : Geth → Dict ℤ → List Operation → Result GoError (List Operation)
zero_out g [] ops = ok ops
zero_out g ((acct, val) ∷ rest) ops = zero_out_step g acct val ops >>= zero_out g rest

-- `order` is the order in which Go ranges over the map.
unfoldable pub trace_ops :
    Geth → (Dict ℤ → Dict ℤ) → List FlatCall → ℕ → Result GoError (List Operation)
trace_ops g order [] start = ok []
trace_ops g order (t ∷ ts) start = do
  s ← trace_loop g start (t ∷ ts) no_ops
  zero_out g (order s.destroyed) s.ops
