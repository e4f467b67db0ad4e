-- ===== src/Mapper/Trace/Indices.antt =====
-- services/mapper.go: the indices of the operations of `TraceOps`.
use mesh_geth_sdk.Base.{
  ℕ, ◌+◌, ℤ, is_zero_ℤ, is_neg_ℤ, String, ◌≡◌, refl, sym, ap, ◌∙◌, true, false, some, List, [], ◌∷◌,
  ◌++◌, Result, ok, err, crash, >>=-eq-ok, ok-injective, arith, inl, inr, ◌⊎◌, Bool-cases,
  Option-cases,
}
use mesh_geth_sdk.Base.Dict.{Dict}
use mesh_geth_sdk.Rosetta.{Operation}
use mesh_geth_sdk.Geth.{Geth}
use mesh_geth_sdk.Types.Errors.{GoError}
use mesh_geth_sdk.Client.Data.{FlatCall}
use mesh_geth_sdk.Client.Utils.{must_checksum, checksum_address}
use mesh_geth_sdk.Mapper.Operations.{IsIndexed, IsIndexed-snoc, IsIndexed-next, last_index}
use mesh_geth_sdk.Mapper.Trace.{
  TraceState, no_ops, trace_op, add_from, add_to, mark_destroyed, resurrect, skips_credit,
  should_add, trace_round, trace_step, trace_loop, destruct_op, zero_out_checked, zero_out_step,
  zero_out, trace_ops,
}

pub ops-mark_destroyed :
    (t : FlatCall) (from : String) (s : TraceState) → (mark_destroyed t from s).ops ≡ s.ops
unfolding mark_destroyed
ops-mark_destroyed t from s = ground arith

pub ops-resurrect : (t : FlatCall) (to : String) (s : TraceState) → (resurrect t to s).ops ≡ s.ops
unfolding resurrect
ops-resurrect t to s = ground arith

-- A credit that is added is related to the last operation.
add_to-added :
    (t : FlatCall) (to : String) (s : TraceState) {s' : TraceState}
    → should_add t ≡ true
    → add_to t to s ≡ ok s'
    → (last : ℕ) × (last_index s.ops ≡ some last)
      × (s'.ops ≡ s.ops ++ trace_op t (last + 1) (last ∷ []) to t.value ∷ [])
unfolding add_to
add_to-added t to s added e = elim (Option-cases (last_index s.ops)) [
  | inl nothing ↦ cc (rw (added, nothing) at e)
  | inr (last, known) ↦
      let e' = rw (added, known) at e in (last, known, ap (λ x. x.ops) (sym (ok-injective e')))
]

add_to-skipped :
    (t : FlatCall) (to : String) (s : TraceState) {s' : TraceState}
    → should_add t ≡ false
    → add_to t to s ≡ ok s'
    → s' ≡ s
unfolding add_to
add_to-skipped t to s skipped e = sym (ok-injective (rw skipped at e))

index-destruct_op : (n : ℕ) (acct : String) (val : ℤ) → (destruct_op n acct val).index ≡ n
unfolding destruct_op
index-destruct_op n acct val = refl

abbrev Emptied : String → ℤ → List Operation → List Operation → Type 0
Emptied acct val ops ops' =
    (ops' ≡ ops)
    ⊎ ((last : ℕ) × (last_index ops ≡ some last)
        × (ops' ≡ ops ++ destruct_op (last + 1) acct val ∷ []))

-- A destroyed account adds nothing, or one operation after the last one.
zero_out_checked-cases :
    (r : Result GoError String) (acct : String) (val : ℤ) (ops : List Operation)
    {ops' : List Operation}
    → zero_out_checked r acct val ops ≡ ok ops'
    → Emptied acct val ops ops'
unfolding zero_out_checked
zero_out_checked-cases (err x) acct val ops e = inl (sym (ok-injective e))
zero_out_checked-cases crash acct val ops e = cc
zero_out_checked-cases (ok a) acct val ops e = elim (Bool-cases (is_zero_ℤ val)) [
  | inl zero_val ↦ inl (sym (ok-injective (rw zero_val at e)))
  | inr some_val ↦ elim (Bool-cases (is_neg_ℤ val)) [
    | inl negative ↦ cc (rw (some_val, negative) at e)
    | inr positive ↦ elim (Option-cases (last_index ops)) [
      | inl nothing ↦ cc (rw (some_val, positive, nothing) at e)
      | inr (last, known) ↦
          inr (last, known, sym (ok-injective (rw (some_val, positive, known) at e)))
    ]
  ]
]

module _ (start : ℕ) where
  abbrev Numbered : TraceState → Type 0
  Numbered s = IsIndexed start s.ops

  add_from-Numbered :
      (t : FlatCall) (from : String) (s : TraceState)
      → Numbered s
      → Numbered (add_from start t from s)
  unfolding add_from
  add_from-Numbered t from s h = elim (Bool-cases (should_add t)) [
    | inl e ↦ rw e (IsIndexed-snoc start s.ops _ h (omega arith))
    | inr e ↦ rw e h
  ]

  mark_destroyed-Numbered :
      (t : FlatCall) (from : String) (s : TraceState)
      → Numbered s
      → Numbered (mark_destroyed t from s)
  mark_destroyed-Numbered t from s h = rw (ops-mark_destroyed t from s) h

  resurrect-Numbered :
      (t : FlatCall) (to : String) (s : TraceState) → Numbered s → Numbered (resurrect t to s)
  resurrect-Numbered t to s h = rw (ops-resurrect t to s) h

  add_to-Numbered :
      (t : FlatCall) (to : String) (s : TraceState) {s' : TraceState}
      → add_to t to s ≡ ok s'
      → Numbered s
      → Numbered s'
  add_to-Numbered t to s e h = elim (Bool-cases (should_add t)) [
    | inl added ↦
        let (last, known, ops') = add_to-added t to s added e in
        rw ops' (IsIndexed-snoc start s.ops _ h (IsIndexed-next start s.ops h known))
    | inr skipped ↦ rw (add_to-skipped t to s skipped e) h
  ]

  trace_round-Numbered :
      (t : FlatCall) (from to : String) (s : TraceState) {s' : TraceState}
      → trace_round start t from to s ≡ ok s'
      → Numbered s
      → Numbered s'
  unfolding trace_round
  trace_round-Numbered t from to s e h =
      let before = mark_destroyed t from (add_from start t from s) in
      let kept : Numbered before =
        mark_destroyed-Numbered t from (add_from start t from s) (add_from-Numbered t from s h) in
      elim (Bool-cases (skips_credit t from to)) [
        | inl skip ↦ rw (← ok-injective (rw skip at e)) kept
        | inr go ↦
            add_to-Numbered t to (resurrect t to before) (rw go at e)
              (resurrect-Numbered t to before kept)
      ]

  trace_step-Numbered :
      (g : Geth) (t : FlatCall) (s : TraceState) {s' : TraceState}
      → trace_step g start t s ≡ ok s'
      → Numbered s
      → Numbered s'
  unfolding trace_step
  trace_step-Numbered g t s e h =
      let (from, _, e') = >>=-eq-ok (must_checksum g t.from.hex) _ e in
      let (to, _, e'') = >>=-eq-ok (must_checksum g t.to.hex) _ e' in
      trace_round-Numbered t from to s e'' h

  trace_loop-Numbered :
      (g : Geth) (ts : List FlatCall) (s : TraceState) {s' : TraceState}
      → trace_loop g start ts s ≡ ok s'
      → Numbered s
      → Numbered s'
  unfolding trace_loop
  trace_loop-Numbered g [] s e h = rw (← ok-injective e) h
  trace_loop-Numbered g (t ∷ ts) s e h =
      let (s1, first, e') = >>=-eq-ok (trace_step g start t s) _ e in
      trace_loop-Numbered g ts s1 e' (trace_step-Numbered g t s first h)

  zero_out_step-Numbered :
      (g : Geth) (acct : String) (val : ℤ) (ops : List Operation) {ops' : List Operation}
      → zero_out_step g acct val ops ≡ ok ops'
      → IsIndexed start ops
      → IsIndexed start ops'
  unfolding zero_out_step
  zero_out_step-Numbered g acct val ops e h =
      elim (zero_out_checked-cases (checksum_address g acct) acct val ops e) [
        | inl same ↦ rw same h
        | inr (last, known, ops') ↦ rw ops' (
            IsIndexed-snoc start ops _ h
              (index-destruct_op (last + 1) acct val ∙ IsIndexed-next start ops h known))
      ]

  zero_out-Numbered :
      (g : Geth) (m : Dict ℤ) (ops : List Operation) {ops' : List Operation}
      → zero_out g m ops ≡ ok ops'
      → IsIndexed start ops
      → IsIndexed start ops'
  unfolding zero_out
  zero_out-Numbered g [] ops e h = rw (← ok-injective e) h
  zero_out-Numbered g ((acct, val) ∷ m) ops e h =
      let (ops1, first, e') = >>=-eq-ok (zero_out_step g acct val ops) _ e in
      zero_out-Numbered g m ops1 e' (zero_out_step-Numbered g acct val ops first h)

-- Whatever the calls and the order in which the map of destroyed accounts is ranged over, the
-- operations that `TraceOps` returns have the indices `start`, `start + 1` and so on.
pub trace_ops-IsIndexed :
    (g : Geth) (order : Dict ℤ → Dict ℤ) (calls : List FlatCall) (start : ℕ) {ops : List Operation}
    → trace_ops g order calls start ≡ ok ops
    → IsIndexed start ops
unfolding trace_ops
trace_ops-IsIndexed g order [] start e = rw (← ok-injective e) tt
trace_ops-IsIndexed g order (t ∷ ts) start e =
    let (s, looped, e') =
      >>=-eq-ok (trace_loop g start (t ∷ ts) no_ops) (λ s. zero_out g (order s.destroyed) s.ops)
        e in
    zero_out-Numbered start g (order s.destroyed) s.ops e'
      (trace_loop-Numbered start g (t ∷ ts) no_ops looped tt)
