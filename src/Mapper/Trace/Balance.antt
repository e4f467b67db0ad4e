-- ===== src/Mapper/Trace/Balance.antt =====
-- services/mapper.go: the balance of `TraceOps` on calls that are no self-destructs.
use mesh_geth_sdk.Base.{
  ℕ, ◌+◌, ℤ, pos, pos_part, neg_part, neg, ◌+ℤ◌, ◌-ℤ◌, is_zero_ℤ, int_laws, String, ◌≡◌, refl, ap,
  ◌∙◌, true, false, ◌=ₛ◌, List, [], ◌∷◌, ◌++◌, ok, ◌>>=◌, arith, length, inl, inr, Bool-cases, All,
}
use mesh_geth_sdk.Base.Decimal.{parse-show_ℤ}
use mesh_geth_sdk.Base.Text.{to_upper, is_empty}
use mesh_geth_sdk.Base.Dict.{Dict, lookup, erase}
use mesh_geth_sdk.Rosetta.{Operation}
use mesh_geth_sdk.Geth.{Geth, ReadsHex}
use mesh_geth_sdk.Types.{self_destruct_op_type, create_type}
use mesh_geth_sdk.Client.Data.{FlatCall}
use mesh_geth_sdk.Client.Utils.{must_checksum-hex}
use mesh_geth_sdk.Mapper.Operations.{
  IsIndexed, total, total-append, stated, last_index, last_index-append,
}
use mesh_geth_sdk.Mapper.Trace.{
  TraceState, no_ops, trace_op, adjust, add_from, add_to, mark_destroyed, resurrect, skips_credit,
  should_add, trace_round, trace_step, trace_loop, zero_out, trace_ops,
}
use mesh_geth_sdk.Mapper.Trace.Indices.{trace_ops-IsIndexed, ops-resurrect}

-- A call that is no self-destruct, to an address that prints as some text.
abbrev pub IsPlain : FlatCall → Type 0
IsPlain t = ((to_upper t.type =ₛ self_destruct_op_type) ≡ false) × (is_empty t.to.hex ≡ false)

-- No account is marked as destroyed, and the operations add up to zero.
abbrev IsEven : TraceState → Type 0
IsEven s = (s.destroyed ≡ []) × (total s.ops ≡ pos 0)

adjust-nil : (t : FlatCall) (a : String) (f : ℤ → ℤ) → adjust t a f [] ≡ []
unfolding adjust lookup
adjust-nil t a f = ground arith

-- The two sides of a call add up to zero.
two_sides :
    (t : FlatCall) (i j : ℕ) (r q : List ℕ) (from to : String)
    → stated (trace_op t i r from (neg t.value)).amount +ℤ stated (trace_op t j q to t.value).amount
      ≡ pos 0
two_sides t i j r q from to = elim (Bool-cases (is_zero_ℤ t.value)) [
  | inl z ↦ rw z (omega int_laws)
  | inr v ↦ simp (v, parse-show_ℤ) (omega int_laws)
]

module _ (start : ℕ) (t : FlatCall) (from to : String) (s : TraceState) (plain : IsPlain t) where
  abbrev Evens : Type 0
  Evens = (s' : TraceState) × (trace_round start t from to s ≡ ok s') × IsEven s'

  mark_destroyed-plain : (r : TraceState) → mark_destroyed t from r ≡ r
  unfolding mark_destroyed
  mark_destroyed-plain r = rw (plain.0) refl

  skips_credit-plain : skips_credit t from to ≡ false
  unfolding skips_credit
  skips_credit-plain = rw (plain.0, plain.1) refl

  resurrect-IsEven : (r : TraceState) → r.destroyed ≡ [] → (resurrect t to r).destroyed ≡ []
  unfolding resurrect erase
  resurrect-IsEven r h = elim (Bool-cases (create_type (to_upper t.type))) [
    | inl e ↦ rw e (ap (erase to) h)
    | inr e ↦ rw e h
  ]

  -- The state before the credit, and the operation that the debit adds.
  abbrev debit : Operation
  debit = trace_op t (length s.ops + start) [] from (neg t.value)

  abbrev debited : TraceState
  debited = resurrect t to (add_from start t from s)

  abbrev credit : Operation
  credit = trace_op t (length s.ops + start + 1) ((length s.ops + start) ∷ []) to t.value

  ops-debited : should_add t ≡ true → debited.ops ≡ s.ops ++ debit ∷ []
  ops-debited e = ops-resurrect t to (add_from start t from s) ∙ (unfold add_from in rw e refl)

  destroyed-debited : s.destroyed ≡ [] → debited.destroyed ≡ []
  destroyed-debited h = resurrect-IsEven (add_from start t from s) (
      unfold add_from in
      elim (Bool-cases (should_add t)) [
        | inl e ↦ rw e (
            ap (adjust t from (λ balance. balance -ℤ t.value)) h
            ∙ adjust-nil t from (λ balance. balance -ℤ t.value))
        | inr e ↦ rw e h
      ])

  add_to-debited :
      should_add t ≡ true
      → add_to t to debited
        ≡ ok (record {
          ops = debited.ops ++ credit ∷ [];
          destroyed = adjust t to (λ balance. balance +ℤ t.value) debited.destroyed;
        })
  unfolding add_to
  add_to-debited e = rw (e, ap last_index (ops-debited e) ∙ last_index-append s.ops debit) refl

  total_of_pair : total s.ops ≡ pos 0 → total ((s.ops ++ debit ∷ []) ++ credit ∷ []) ≡ pos 0
  total_of_pair h =
      rw (total-append, total-append, h)
        (let sides =
            two_sides t (length s.ops + start) (length s.ops + start + 1) []
              ((length s.ops + start) ∷ []) from to in
          omega (int_laws, ap pos_part sides, ap neg_part sides))

  trace_round-eq : trace_round start t from to s ≡ add_to t to debited
  unfolding trace_round
  trace_round-eq = rw (skips_credit-plain, mark_destroyed-plain (add_from start t from s)) refl

  trace_round-IsEven : IsEven s → Evens
  trace_round-IsEven (empty, even) = elim (Bool-cases (should_add t)) [
    | inl e ↦ (
      record {
        ops = debited.ops ++ credit ∷ [];
        destroyed = adjust t to (λ balance. balance +ℤ t.value) debited.destroyed;
      },
      trace_round-eq ∙ add_to-debited e,
      (
        ap (adjust t to (λ balance. balance +ℤ t.value)) (destroyed-debited empty)
            ∙ adjust-nil t to (λ balance. balance +ℤ t.value),
        rw (ops-debited e) (total_of_pair even),
      ),
    )
    | inr e ↦ (
      debited,
      trace_round-eq ∙ (unfold add_to in rw e refl),
      (
        destroyed-debited empty,
        rw (ops-resurrect t to (add_from start t from s)) (unfold add_from in rw e even),
      ),
    )
  ]

module _ (g : Geth) (reads : ReadsHex g) (start : ℕ) where
  trace_step-eq :
      (t : FlatCall) (s : TraceState)
      → trace_step g start t s ≡ trace_round start t t.from.hex t.to.hex s
  unfolding trace_step
  trace_step-eq t s = rw (must_checksum-hex g reads t.from, must_checksum-hex g reads t.to) refl

  trace_loop-IsEven :
      (ts : List FlatCall) (s : TraceState)
      → All IsPlain ts
      → IsEven s
      → (s' : TraceState) × (trace_loop g start ts s ≡ ok s') × IsEven s'
  unfolding trace_loop
  trace_loop-IsEven [] s plain h = (s, refl, h)
  trace_loop-IsEven (t ∷ ts) s plain h =
      let (s1, stepped, h1) = trace_round-IsEven start t t.from.hex t.to.hex s plain.0 h in
      let (s2, looped, h2) = trace_loop-IsEven ts s1 plain.1 h1 in
      (s2, ap (λ m. m >>= trace_loop g start ts) (trace_step-eq t s ∙ stepped) ∙ looped, h2)

  -- From a list of calls in which none is a self-destruct, `TraceOps` returns operations (it neither
  -- fails nor crashes); they are numbered from `start` on, and their amounts add up to
  -- zero: each call debits one account by what it credits to the other.
  pub trace_ops_balance :
      (order : Dict ℤ → Dict ℤ) (ts : List FlatCall)
      → order [] ≡ []
      → All IsPlain ts
      → (ops : List Operation) × (trace_ops g order ts start ≡ ok ops)
        × IsIndexed start ops
        × (total ops ≡ pos 0)
  unfolding trace_ops
  trace_ops_balance order [] keeps plain = ([], refl, tt, refl)
  trace_ops_balance order (t ∷ ts) keeps plain =
      let (s, looped, (empty, even)) = trace_loop-IsEven (t ∷ ts) no_ops plain (refl, refl) in
      let made : trace_ops g order (t ∷ ts) start ≡ ok s.ops =
        ap (λ m. m >>= λ s. zero_out g (order s.destroyed) s.ops) looped
        ∙ (unfold zero_out in rw (empty, keeps) refl) in
      (s.ops, made, trace_ops-IsIndexed g order (t ∷ ts) start made, even)
