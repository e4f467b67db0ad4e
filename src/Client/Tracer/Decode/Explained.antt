-- ===== src/Client/Tracer/Decode/Explained.antt =====
-- client/tracer.go and `FlattenTraces`: the marks and messages of decoded traces.
use mesh_geth_sdk.Base.{◌≡◌, refl, not, [], ◌∷◌, arith, All, All-append}
use mesh_geth_sdk.Base.Text.{is_empty}
use mesh_geth_sdk.Geth.{Geth}
use mesh_geth_sdk.Client.Data.{FlatCall}
use mesh_geth_sdk.Client.Tracer.{inherit, flatten_children, flatten_traces}
use mesh_geth_sdk.Client.Tracer.Decode.{
  CustomTrace, custom, CustomTraces, no_traces, one_more, flat_call_of, calls_of_traces,
  call_of_trace,
}

-- A call is reverted exactly if it has a message.
abbrev pub IsExplained : FlatCall → Type 0
IsExplained c = c.revert ≡ not (is_empty c.error_message)

inherit-IsExplained : (p c : FlatCall) → IsExplained p → IsExplained c → IsExplained (inherit p c)
unfolding inherit
inherit-IsExplained p c hp hc = ground arith

module _ (g : Geth) where
  flatten_children-IsExplained :
      (p : FlatCall) (cs : CustomTraces)
      → IsExplained p
      → All IsExplained (flatten_children p (calls_of_traces g cs) [])
  unfolding flatten_children calls_of_traces flat_call_of
  flatten_children-IsExplained p no_traces h = tt
  flatten_children-IsExplained p (one_more (custom dec children) rest) h =
      let c = inherit p (flat_call_of g dec) in
      let here : IsExplained c = inherit-IsExplained p (flat_call_of g dec) h refl in
      All-append IsExplained (c ∷ flatten_children c (calls_of_traces g children) [])
        (flatten_children p (calls_of_traces g rest) [])
        (here, flatten_children-IsExplained c children here) (flatten_children-IsExplained p rest h)

  -- FlattenTraces of a decoded trace lists calls that are reverted exactly if they have an error message,
  -- their own or that of a call above.
  pub flatten_traces-IsExplained :
      (t : CustomTrace) → All IsExplained (flatten_traces (call_of_trace g t) [])
  unfolding flatten_traces call_of_trace flat_call_of
  flatten_traces-IsExplained (custom dec children) =
      (refl, flatten_children-IsExplained (flat_call_of g dec) children refl)
