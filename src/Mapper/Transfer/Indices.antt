-- ===== src/Mapper/Transfer/Indices.antt =====
-- services/mapper.go: the indices of the operations of `TransferOps`, which are written to through
-- shared pointers.
use mesh_geth_sdk.Base.{
  ℕ, ◌+◌, ◌==◌, ℤ, ◌+ℤ◌, uint64, String, ◌≡◌, refl, ap, ◌∙◌, Bool, true, false, Option, none, some,
  List, [], ◌∷◌, ◌++◌, ok, err, crash, ◌>>=◌, >>=-eq-ok, ok-injective, or_crash, neg, arith, length,
  length-append, inl, inr, Bool-cases,
}
use mesh_geth_sdk.Base.Decimal.{show_ℤ, parse_ℤ}
use mesh_geth_sdk.Base.Dict.{lookup}
use mesh_geth_sdk.Rosetta.{Operation}
use mesh_geth_sdk.Client.Data.{EvmTransfer, FlatCall, LoadedTransaction}
use mesh_geth_sdk.Mapper.Operations.{IsIndexed}
use mesh_geth_sdk.Mapper.Transfer.{
  TransferState, Step, Booking, booking, set_amount, amount_at, follow, add_amount, consolidate,
  transfer_op, allocate, open_receiver, open_ops, find_key, book, transfer_step, transfer_loop,
  parse_transfer_ops, append_ops, trace_transfers, traces_transfers, deref, empty_heap,
  transfer_ops,
}
use mesh_geth_sdk.Mapper.Transfer.Heap.{
  Extends, Extends-append, index_at-length, set_amount-Extends, RefsIndexed, RefsIndexed-Extends,
  RefsIndexed-snoc, RefsIndexed-append, deref-IsIndexed,
}

module _ (start : ℕ) where
  -- The operations of one call so far, and the count of them.
  abbrev Good : TransferState → Type 0
  Good s = RefsIndexed s.heap start s.ops × (s.count ≡ start + length s.ops)

  abbrev Post : TransferState → Step → Type 0
  Post s (ok s') = Extends s.heap s'.heap × (Good s → Good s')
  Post s (err s') = Extends s.heap s'.heap
  Post s crash = Unit

  Post-after : (s s' : TransferState) (m : Step) → Post s (ok s') → Post s' m → Post s m
  Post-after s s' (ok s2) p q = (λ r i e. q.0 r i (p.0 r i e), λ h. q.1 (p.1 h))
  Post-after s s' (err s2) p q = λ r i e. q r i (p.0 r i e)
  Post-after s s' crash p q = tt

  Post-bind :
      (s : TransferState) (m : Step) (f : TransferState → Step)
      → Post s m
      → ((s' : TransferState) → m ≡ ok s' → Post s' (f s'))
      → Post s (m >>= f)
  Post-bind s (ok s') f p k = Post-after s s' (f s') p (k s' refl)
  Post-bind s (err s') f p k = p
  Post-bind s crash f p k = tt

  Post-or_crash :
      {A : Type 0} (s : TransferState) (o : Option A) (f : A → Step)
      → ((a : A) → o ≡ some a → Post s (f a))
      → Post s (or_crash o >>= f)
  Post-or_crash s none f k = tt
  Post-or_crash s (some a) f k = k a refl

  Post-ok : (s : TransferState) → Post s (ok s)
  Post-ok s = (λ r i e. e, λ h. h)

  -- Only the heap changes.
  Post-heap :
      (s : TransferState) (h : List Operation)
      → Extends s.heap h
      → Post s (ok (record s { heap = h }))
  Post-heap s h x = (x, λ (refs, count). (RefsIndexed-Extends s.heap h start s.ops x refs, count))

  follow-Post : (o : Option (String × String)) (a : ℤ) (s : TransferState) → Post s (follow o a s)
  unfolding follow
  follow-Post none a s = Post-ok s
  follow-Post (some (to, reverse)) a s = Post-or_crash s (lookup reverse s.addrs) _ λ r _.
      Post-or_crash s (set_amount s.heap r (show_ℤ (neg a))) _
        λ h e. Post-heap s h (set_amount-Extends s.heap r (show_ℤ (neg a)) e)

  add_amount-Post :
      (b : Booking) (r : ℕ) (o : Option ℤ) (s : TransferState) → Post s (add_amount b r o s)
  unfolding add_amount
  add_amount-Post b r none s = λ r i e. e
  add_amount-Post b r (some amt) s =
      Post-or_crash s (set_amount s.heap r (show_ℤ (amt +ℤ b.amount))) _ λ h e.
        let s' = record s { heap = h } in
        Post-after s s' (follow b.receiver (amt +ℤ b.amount) s')
          (Post-heap s h (set_amount-Extends s.heap r (show_ℤ (amt +ℤ b.amount)) e))
          (follow-Post b.receiver (amt +ℤ b.amount) s')

  consolidate-Post : (b : Booking) (r : ℕ) (s : TransferState) → Post s (consolidate b r s)
  unfolding consolidate
  consolidate-Post b r s =
      Post-or_crash s (amount_at s.heap r) _ λ value _. add_amount-Post b r (parse_ℤ value) s

  allocate-Post :
      (nil_map : Bool) (key : String) (op : Operation) (s : TransferState)
      → op.index ≡ s.count
      → Post s (allocate nil_map key op s)
  unfolding allocate
  allocate-Post true key op s e = tt
  allocate-Post false key op s e = (
    Extends-append s.heap op,
    λ (refs, count). (
      RefsIndexed-snoc (s.heap ++ op ∷ []) start (length s.heap) s.ops
          (RefsIndexed-Extends s.heap (s.heap ++ op ∷ []) start s.ops (Extends-append s.heap op)
            refs)
          (index_at-length s.heap op ∙ ap some (e ∙ count)),
      omega (arith, length-append s.ops (length s.heap ∷ [])),
    ),
  )

  open_receiver-Post :
      (nil_map : Bool) (value : ℤ) (o : Option (String × String)) (s : TransferState)
      → Post s (open_receiver nil_map value o s)
  unfolding open_receiver
  open_receiver-Post nil_map value none s = Post-ok s
  open_receiver-Post nil_map value (some (to, reverse)) s = allocate-Post nil_map reverse _ s refl

  open_ops-Post :
      (nil_map : Bool) (value : ℤ) (b : Booking) (s : TransferState)
      → Post s (open_ops nil_map value b s)
  unfolding open_ops
  open_ops-Post nil_map value b s =
      Post-bind s (allocate nil_map b.key (transfer_op s.count [] b.address b.amount) s) _
        (allocate-Post nil_map b.key _ s refl)
        (λ s' _. open_receiver-Post nil_map value b.receiver s')

  book-Post :
      (nil_map : Bool) (value : ℤ) (b : Booking) (s : TransferState)
      → Post s (book nil_map value b s)
  unfolding book
  book-Post nil_map value b s =
      elim (find_key nil_map b.key s.addrs)
        as (λ o.
          Post s (elim o [ none ↦ open_ops nil_map value b s | some r ↦ consolidate b r s ])) [
            | none ↦ open_ops-Post nil_map value b s
            | some r ↦ consolidate-Post b r s
          ]

  transfer_step-Post :
      (nil_map : Bool) (t : EvmTransfer) (s : TransferState) → Post s (transfer_step nil_map t s)
  unfolding transfer_step
  transfer_step-Post nil_map t s = elim (Bool-cases (uint64 t.value == 0)) [
    | inl skip ↦ rw skip (Post-ok s)
    | inr go ↦
        rw go (Post-or_crash s (booking t.value t.from t.to) _ λ b _. book-Post nil_map t.value b s)
  ]

  transfer_loop-Post :
      (nil_map : Bool) (ts : List EvmTransfer) (s : TransferState)
      → Post s (transfer_loop nil_map ts s)
  unfolding transfer_loop
  transfer_loop-Post nil_map [] s = Post-ok s
  transfer_loop-Post nil_map (t ∷ ts) s =
      Post-bind s (transfer_step nil_map t s) (transfer_loop nil_map ts)
        (transfer_step-Post nil_map t s) (λ s' _. transfer_loop-Post nil_map ts s')

-- What the caller appends after a call keeps the numbering.
append_ops-Refs :
    (start : ℕ) (ops : List ℕ) (s : TransferState) (m : Step) {r : Bool × TransferState}
    → Post (start + length ops) s m
    → Good (start + length ops) s
    → RefsIndexed s.heap start ops
    → append_ops ops m ≡ ok r
    → RefsIndexed r.1.heap start r.1.ops
unfolding append_ops
append_ops-Refs start ops s (ok s') p good refs e = rw (← ok-injective e) (
    RefsIndexed-append s'.heap start ops s'.ops
      (RefsIndexed-Extends s.heap s'.heap start ops p.0 refs) ((p.1 good).0))
append_ops-Refs start ops s (err s') p good refs e =
    rw (← ok-injective e) (RefsIndexed-Extends s.heap s'.heap start ops p refs)
append_ops-Refs start ops s crash p good refs e = cc

module _ (start : ℕ) where
  -- The operations of all the calls so far.
  abbrev Numbered : TransferState → Type 0
  Numbered s = RefsIndexed s.heap start s.ops

  parse_transfer_ops-Numbered :
      (nil_map : Bool) (ts : List EvmTransfer) (s : TransferState) {r : Bool × TransferState}
      → append_ops s.ops (parse_transfer_ops nil_map (start + length s.ops) ts s) ≡ ok r
      → Numbered s
      → Numbered r.1
  unfolding parse_transfer_ops
  parse_transfer_ops-Numbered nil_map ts s e h =
      let from = record s { count = start + length s.ops; ops = [] } in
      append_ops-Refs start s.ops from (transfer_loop nil_map ts from)
        (transfer_loop-Post (start + length s.ops) nil_map ts from)
        (unfold RefsIndexed in (tt, omega arith)) h e

  trace_transfers-Numbered :
      (t : FlatCall) (s : TransferState) {s' : TransferState}
      → trace_transfers start t s ≡ ok s'
      → Numbered s
      → Numbered s'
  unfolding trace_transfers
  trace_transfers-Numbered t s e h =
      let (before, e1, e') =
        >>=-eq-ok
          (append_ops s.ops
            (parse_transfer_ops false (start + length s.ops) t.before_evm_transfers s))
          _ e in
      let (after, e2, e'') =
        >>=-eq-ok
          (append_ops before.1.ops (
            parse_transfer_ops before.0 (start + length before.1.ops) t.after_evm_transfers
              before.1))
          _ e' in
      rw (← ok-injective e'') (
        parse_transfer_ops-Numbered before.0 t.after_evm_transfers before.1 e2
          (parse_transfer_ops-Numbered false t.before_evm_transfers s e1 h))

  traces_transfers-Numbered :
      (ts : List FlatCall) (s : TransferState) {s' : TransferState}
      → traces_transfers start ts s ≡ ok s'
      → Numbered s
      → Numbered s'
  unfolding traces_transfers
  traces_transfers-Numbered [] s e h = rw (← ok-injective e) h
  traces_transfers-Numbered (t ∷ ts) s e h =
      let (s1, first, e') = >>=-eq-ok (trace_transfers start t s) _ e in
      traces_transfers-Numbered ts s1 e' (trace_transfers-Numbered t s first h)

-- Whatever the transfers, also where amounts are added to operations that are already there, the
-- operations that `TransferOps` returns have the indices `start`, `start + 1` and so on.
pub transfer_ops-IsIndexed :
    (tx : LoadedTransaction) (start : ℕ) {ops : List Operation}
    → transfer_ops tx start ≡ ok ops
    → IsIndexed start ops
unfolding transfer_ops
transfer_ops-IsIndexed tx start e =
    let (s, made, e') =
      >>=-eq-ok (traces_transfers start tx.trace empty_heap) (λ s. deref s.heap s.ops) e in
    deref-IsIndexed s.heap start s.ops
      (traces_transfers-Numbered start tx.trace empty_heap made (unfold RefsIndexed in tt)) e'
