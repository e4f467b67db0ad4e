-- ===== src/Mapper/Transfer.antt =====
-- `parseTransferOps` and `TransferOps` of services/mapper.go. The operations are shared by pointer
-- between the result and the map `addrs`, so they live on a heap, in the order in which they are
-- made, and a pointer is a position in it.
pub mod Heap
pub mod Indices
pub mod Low
use Prim.Native.String.{◌++◌ as ◌++ₛ◌}
use mesh_geth_sdk.Base.{
  ℕ, ◌+◌, ◌-◌, ◌==◌, ℤ, pos, ◌+ℤ◌, neg, uint64, String, Bool, true, false, Option, none, some, List,
  [], ◌∷◌, ◌++◌, if◌then◌else◌, Result, ok, err, crash, ◌>>=◌, or_crash, length, get_elem?, set,
}
use mesh_geth_sdk.Base.Decimal.{show_ℤ, parse_ℤ}
use mesh_geth_sdk.Base.Dict.{Dict, lookup, insert}
use mesh_geth_sdk.Rosetta.{Operation, Amount}
use mesh_geth_sdk.Geth.{Address}
use mesh_geth_sdk.Types.{fee_op_type, success_status, native_currency}
use mesh_geth_sdk.Types.Errors.{GoError}
use mesh_geth_sdk.Client.Data.{EvmTransfer, FlatCall, LoadedTransaction}
use mesh_geth_sdk.Client.Utils.{amount}

-- The variables of the loop, with the heap and the map.
pub record TransferState : Type 0 where
  pub count : ℕ
  pub ops : List ℕ
  pub heap : List Operation
  pub addrs : Dict ℕ

-- `err` is the early `return nil, nil`, with what the heap and the map then are.
abbrev pub Step : Type 0
Step = Result TransferState TransferState

-- What one transfer books: the amount, the account, the key in the map, and for a transfer between
-- two accounts (`shouldAdd`) the receiver and the reverse key.
pub record Booking : Type 0 where
  pub address : String
  pub key : String
  pub amount : ℤ
  pub receiver : Option (String × String)

-- `String()` of a nil address is a nil dereference.
unfoldable pub booking : ℤ → Option Address → Option Address → Option Booking
booking value none none = none
booking value none (some to) =
    some (record { address = to.hex; key = to.hex; amount = value; receiver = none })
booking value (some from) none =
    some (record { address = from.hex; key = from.hex; amount = neg value; receiver = none })
booking value (some from) (some to) = some (record {
  address = from.hex;
  key = from.hex ++ₛ to.hex;
  amount = neg value;
  receiver = some (to.hex, to.hex ++ₛ from.hex);
})

-- `op.Amount.Value = v`, through a pointer.
unfoldable pub write_amount : Operation → String → Operation
write_amount op v = record op {
  amount = elim op.amount [ none ↦ none | some a ↦ some (record a { value = v }) ];
}

unfoldable pub set_amount : List Operation → ℕ → String → Option (List Operation)
set_amount heap r v = elim (get_elem? heap r) [
  | none ↦ none
  | some op ↦ elim op.amount [ none ↦ none | some a ↦ some (set heap r (write_amount op v)) ]
]

-- `val.Amount.Value`
unfoldable pub amount_at : List Operation → ℕ → Option String
amount_at heap r = elim (get_elem? heap r) [
  | none ↦ none
  | some op ↦ elim op.amount [ none ↦ none | some a ↦ some a.value ]
]

-- The amount of the reverse key follows.
unfoldable pub follow : Option (String × String) → ℤ → TransferState → Step
follow none new_amt s = ok s
follow (some (to, reverse)) new_amt s = do
  r ← or_crash (lookup reverse s.addrs)
  heap ← or_crash (set_amount s.heap r (show_ℤ (neg new_amt)))
  ok (record s { heap = heap })

-- The branch `exists`: the amount is added to the operation that the map points to. An amount that
-- is no number ends the function.
unfoldable pub add_amount : Booking → ℕ → Option ℤ → TransferState → Step
add_amount b r none s = err s
add_amount b r (some amt) s = do
  heap ← or_crash (set_amount s.heap r (show_ℤ (amt +ℤ b.amount)))
  follow b.receiver (amt +ℤ b.amount) (record s { heap = heap })

unfoldable pub consolidate : Booking → ℕ → TransferState → Step
consolidate b r s = do value ← or_crash (amount_at s.heap r); add_amount b r (parse_ℤ value) s

abbrev pub transfer_op : ℕ → List ℕ → String → ℤ → Operation
transfer_op index related address value = record {
  index = index;
  related = related;
  type = fee_op_type;
  status = some success_status;
  account = some address;
  amount = amount (some value) native_currency;
  metadata = [];
}

-- A new operation: a write to a nil map panics.
unfoldable pub allocate : Bool → String → Operation → TransferState → Step
allocate true key op s = crash
allocate false key op s = ok (record {
  count = s.count + 1;
  ops = s.ops ++ length s.heap ∷ [];
  heap = s.heap ++ op ∷ [];
  addrs = insert key (length s.heap) s.addrs;
})

-- The operation of the receiver, which is related to the one before.
unfoldable pub open_receiver : Bool → ℤ → Option (String × String) → TransferState → Step
open_receiver nil_map value none s = ok s
open_receiver nil_map value (some (to, reverse)) s =
    allocate nil_map reverse (transfer_op s.count ((s.count - 1) ∷ []) to value) s

-- The operations of a key that the map does not hold yet.
unfoldable pub open_ops : Bool → ℤ → Booking → TransferState → Step
open_ops nil_map value b s =
    allocate nil_map b.key (transfer_op s.count [] b.address b.amount) s
    >>= open_receiver nil_map value b.receiver

-- `addrs[key]` of a nil map finds nothing.
unfoldable pub find_key : Bool → String → Dict ℕ → Option ℕ
find_key true key addrs = none
find_key false key addrs = lookup key addrs

unfoldable pub book : Bool → ℤ → Booking → TransferState → Step
book nil_map value b s = elim (find_key nil_map b.key s.addrs) [
  | none ↦ open_ops nil_map value b s
  | some r ↦ consolidate b r s
]

-- One round of the loop.
unfoldable pub transfer_step : Bool → EvmTransfer → TransferState → Step
transfer_step nil_map t s =
    if uint64 t.value == 0
    then ok s
    else (do b ← or_crash (booking t.value t.from t.to); book nil_map t.value b s)

unfoldable pub transfer_loop : Bool → List EvmTransfer → TransferState → Step
transfer_loop nil_map [] s = ok s
transfer_loop nil_map (t ∷ ts) s = transfer_step nil_map t s >>= transfer_loop nil_map ts

-- `parseTransferOps`, on the heap and the map of `h`.
unfoldable pub parse_transfer_ops : Bool → ℕ → List EvmTransfer → TransferState → Step
parse_transfer_ops nil_map start transfers h =
    transfer_loop nil_map transfers (record h { count = start; ops = [] })

-- `ops = append(ops, more...)`: after `return nil, nil` there is nothing to append, and the map that
-- was returned is nil.
unfoldable pub append_ops : List ℕ → Step → Result GoError (Bool × TransferState)
append_ops ops (ok s) = ok (false, record s { ops = ops ++ s.ops })
append_ops ops (err s) = ok (true, record s { ops = ops })
append_ops ops crash = crash

-- One trace: the transfers before it, then those after it, with the map that the first call returned.
unfoldable pub trace_transfers : ℕ → FlatCall → TransferState → Result GoError TransferState
trace_transfers start trace s = do
  before ←
      append_ops s.ops
        (parse_transfer_ops false (start + length s.ops) trace.before_evm_transfers s)
  after ←
      append_ops before.1.ops (
        parse_transfer_ops before.0 (start + length before.1.ops) trace.after_evm_transfers
          before.1)
  ok after.1

unfoldable pub traces_transfers : ℕ → List FlatCall → TransferState → Result GoError TransferState
traces_transfers start [] s = ok s
traces_transfers start (t ∷ ts) s = trace_transfers start t s >>= traces_transfers start ts

-- What the pointers point to in the end.
unfoldable pub deref : List Operation → List ℕ → Result GoError (List Operation)
deref heap [] = ok []
deref heap (r ∷ rs) = do op ← or_crash (get_elem? heap r); ops ← deref heap rs; ok (op ∷ ops)

abbrev pub empty_heap : TransferState
empty_heap = record { count = 0; ops = []; heap = []; addrs = [] }

-- `TransferOps`
unfoldable pub transfer_ops : LoadedTransaction → ℕ → Result GoError (List Operation)
transfer_ops tx start = do s ← traces_transfers start tx.trace empty_heap; deref s.heap s.ops
