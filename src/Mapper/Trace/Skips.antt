-- ===== src/Mapper/Trace/Skips.antt =====
-- services/mapper.go: calls of value zero in the loop of `TraceOps`.
use mesh_geth_sdk.Base.{
  ℕ, is_zero_ℤ, String, ◌≡◌, refl, ap, Bool, true, false, ◌&&◌, ◌=ₛ◌, eq_iff, List, [], ◌∷◌,
  if◌then◌else◌, ok, ◌>>=◌, arith, inl, inr, Bool-cases,
}
use mathlib.Core.Path.{fun_ext}
use mesh_geth_sdk.Base.Text.{to_upper}
use mesh_geth_sdk.Geth.{Geth, ReadsHex}
use mesh_geth_sdk.Types.{
  call_type, create_type, call_op_type, call_code_op_type, delegate_call_op_type,
  static_call_op_type, self_destruct_op_type,
}
use mesh_geth_sdk.Client.Data.{FlatCall}
use mesh_geth_sdk.Client.Utils.{must_checksum-hex}
use mesh_geth_sdk.Mapper.Trace.{
  TraceState, add_from, add_to, mark_destroyed, resurrect, skips_credit, should_add, trace_round,
  trace_step, trace_loop,
}

-- A call of value zero whose type is one of the four call types, in capitals.
abbrev pub is_idle : FlatCall → Bool
is_idle t = is_zero_ℤ t.value && call_type t.type

abbrev pub busy : List FlatCall → List FlatCall
busy [] = []
busy (t ∷ ts) = if is_idle t then busy ts else t ∷ busy ts

-- What the four call types have in common.
abbrev Ordinary : String → Type 0
Ordinary s = ((to_upper s =ₛ self_destruct_op_type) ≡ false) × (create_type (to_upper s) ≡ false)

call-Ordinary : Ordinary call_op_type
unfolding to_upper create_type
call-Ordinary = (refl, refl)

call_code-Ordinary : Ordinary call_code_op_type
unfolding to_upper create_type
call_code-Ordinary = (refl, refl)

delegate_call-Ordinary : Ordinary delegate_call_op_type
unfolding to_upper create_type
delegate_call-Ordinary = (refl, refl)

static_call-Ordinary : Ordinary static_call_op_type
unfolding to_upper create_type
static_call-Ordinary = (refl, refl)

call_type-Ordinary : (s : String) → call_type s ≡ true → Ordinary s
unfolding call_type
call_type-Ordinary s h = elim (Bool-cases (call_op_type =ₛ s)) [
  | inl a ↦ rw (← (eq_iff call_op_type s).0 a) call-Ordinary
  | inr a ↦ elim (Bool-cases (call_code_op_type =ₛ s)) [
    | inl b ↦ rw (← (eq_iff call_code_op_type s).0 b) call_code-Ordinary
    | inr b ↦ elim (Bool-cases (delegate_call_op_type =ₛ s)) [
      | inl c ↦ rw (← (eq_iff delegate_call_op_type s).0 c) delegate_call-Ordinary
      | inr c ↦ elim (Bool-cases (static_call_op_type =ₛ s)) [
        | inl d ↦ rw (← (eq_iff static_call_op_type s).0 d) static_call-Ordinary
        | inr d ↦ cc (rw (a, b, c, d) at h)
      ]
    ]
  ]
]

should_add-is_idle : (t : FlatCall) → is_idle t ≡ true → should_add t ≡ false
unfolding should_add
should_add-is_idle t h = rw h refl

-- The fields that a record update writes back unchanged.
module _ (start : ℕ) (t : FlatCall) (from to : String) (s : TraceState)
    (idle : is_idle t ≡ true) where
  idle-Ordinary : Ordinary t.type
  idle-Ordinary = call_type-Ordinary t.type (ground arith)

  add_from-idle : add_from start t from s ≡ s
  unfolding add_from
  add_from-idle = rw (should_add-is_idle t idle) refl

  mark_destroyed-idle : mark_destroyed t from s ≡ s
  unfolding mark_destroyed
  mark_destroyed-idle = rw (idle-Ordinary.0) refl

  resurrect-idle : resurrect t to s ≡ s
  unfolding resurrect
  resurrect-idle = rw (idle-Ordinary.1) refl

  add_to-idle : add_to t to s ≡ ok s
  unfolding add_to
  add_to-idle = rw (should_add-is_idle t idle) refl

  trace_round-is_idle : trace_round start t from to s ≡ ok s
  unfolding trace_round
  trace_round-is_idle = elim (Bool-cases (skips_credit t from to)) [
    | inl skip ↦ rw (skip, add_from-idle, mark_destroyed-idle) refl
    | inr go ↦ rw (go, add_from-idle, mark_destroyed-idle, resurrect-idle, add_to-idle) refl
  ]

module _ (g : Geth) (reads : ReadsHex g) (start : ℕ) where
  trace_step-is_idle :
      (t : FlatCall) (s : TraceState) → is_idle t ≡ true → trace_step g start t s ≡ ok s
  unfolding trace_step
  trace_step-is_idle t s idle =
      rw (must_checksum-hex g reads t.from, must_checksum-hex g reads t.to)
        (trace_round-is_idle start t t.from.hex t.to.hex s idle)

  -- Calls of value zero whose type is CALL, CALLCODE, DELEGATECALL or STATICCALL, so spelled, may be
  -- left out of the list: the loop of `TraceOps` ends in the same state without them.
  pub trace_loop-busy :
      (ts : List FlatCall) (s : TraceState)
      → trace_loop g start ts s ≡ trace_loop g start (busy ts) s
  unfolding trace_loop
  trace_loop-busy [] s = refl
  trace_loop-busy (t ∷ ts) s = elim (Bool-cases (is_idle t)) [
    | inl idle ↦ rw (trace_step-is_idle t s idle, idle) (trace_loop-busy ts s)
    | inr other ↦ rw other (ap (λ k. trace_step g start t s >>= k) (fun_ext (trace_loop-busy ts)))
  ]
