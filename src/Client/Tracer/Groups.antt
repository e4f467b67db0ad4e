-- ===== src/Client/Tracer/Groups.antt =====
-- client/client.go: the map that `TraceReplayBlockTransactions` fills.
use mesh_geth_sdk.Base.{
  String, ◌≡◌, refl, ap, Bool, true, false, List, [], ◌∷◌, ◌++◌, if◌then◌else◌, some, Option, map,
  append-nil, append_assoc, ◌=ₛ◌, eq_iff, ◌∙◌, sym, inl, inr, Bool-cases,
}
use mesh_geth_sdk.Base.Text.{is_empty}
use mesh_geth_sdk.Base.Dict.{Dict, lookup, insert, lookup-insert}
use mesh_geth_sdk.Client.Data.{FlatCall, OpenEthTrace, OpenEthTraceCall}
use mesh_geth_sdk.Client.Tracer.{
  flat_of_open_eth, flatten_open_eth, calls_at, or_nil, group_traces, group_results,
}

-- The flat calls of the traces that carry the hash `k`, in their order.
abbrev pub calls_of : String → List OpenEthTrace → List FlatCall
calls_of k [] = []
calls_of k (t ∷ ts) =
    if t.transaction_hash =ₛ k then flat_of_open_eth t ∷ calls_of k ts else calls_of k ts

abbrev pub all_traces : List OpenEthTraceCall → List OpenEthTrace
all_traces [] = []
all_traces (r ∷ rs) = r.trace ++ all_traces rs

or_nil-if :
    (b : Bool) (v : List FlatCall) (o : Option (List FlatCall))
    → or_nil (if b then some v else o) ≡ (if b then v else or_nil o)
or_nil-if true v o = refl
or_nil-if false v o = refl

calls_at-insert :
    (k j : String) (v : List FlatCall) (m : Dict (List FlatCall))
    → calls_at j (insert k v m) ≡ (if k =ₛ j then v else calls_at j m)
unfolding calls_at
calls_at-insert k j v m = ap or_nil (lookup-insert k j v m) ∙ or_nil-if (k =ₛ j) v (lookup j m)

is_empty-ne : (s k : String) → is_empty k ≡ false → is_empty s ≡ true → (s =ₛ k) ≡ false
is_empty-ne s k h e = elim (Bool-cases (s =ₛ k)) [
  | inl same ↦ cc (ap is_empty ((eq_iff s k).0 same))
  | inr other ↦ other
]

-- One trace adds its flat call under its own hash, and nothing else.
abbrev pub add_trace : OpenEthTrace → Dict (List FlatCall) → Dict (List FlatCall)
add_trace t m =
    if is_empty t.transaction_hash
    then m
    else insert t.transaction_hash (calls_at t.transaction_hash m ++ flat_of_open_eth t ∷ []) m

calls_at-add_trace :
    (t : OpenEthTrace) (k : String) (m : Dict (List FlatCall))
    → is_empty k ≡ false
    → calls_at k (add_trace t m)
      ≡ (if t.transaction_hash =ₛ k then calls_at k m ++ flat_of_open_eth t ∷ [] else calls_at k m)
calls_at-add_trace t k m h = elim (Bool-cases (is_empty t.transaction_hash)) [
  | inl e ↦ rw (e, is_empty-ne t.transaction_hash k h e) refl
  | inr e ↦ elim (Bool-cases (t.transaction_hash =ₛ k)) [
    | inl same ↦ rw (e, calls_at-insert, same) (rw ((eq_iff t.transaction_hash k).0 same) refl)
    | inr other ↦ rw (e, calls_at-insert, other) refl
  ]
]

group_traces-calls_of :
    (ts : List OpenEthTrace) (k : String) (m : Dict (List FlatCall))
    → is_empty k ≡ false
    → calls_at k (group_traces ts m) ≡ calls_at k m ++ calls_of k ts
unfolding group_traces
group_traces-calls_of [] k m h = sym (append-nil _)
group_traces-calls_of (t ∷ ts) k m h =
    group_traces-calls_of ts k (add_trace t m) h
    ∙ (rw (calls_at-add_trace t k m h) (elim (Bool-cases (t.transaction_hash =ₛ k)) [
      | inl same ↦ rw same (append_assoc (calls_at k m) (flat_of_open_eth t ∷ []) (calls_of k ts))
      | inr other ↦ rw other refl
    ]))

calls_of-append :
    (k : String) (ts us : List OpenEthTrace)
    → calls_of k (ts ++ us) ≡ calls_of k ts ++ calls_of k us
calls_of-append k [] us = refl
calls_of-append k (t ∷ ts) us = elim (Bool-cases (t.transaction_hash =ₛ k)) [
  | inl same ↦ rw same (ap (λ cs. flat_of_open_eth t ∷ cs) (calls_of-append k ts us))
  | inr other ↦ rw other (calls_of-append k ts us)
]

group_results-append :
    (rs : List OpenEthTraceCall) (k : String) (m : Dict (List FlatCall))
    → is_empty k ≡ false
    → calls_at k (group_results rs m) ≡ calls_at k m ++ calls_of k (all_traces rs)
unfolding group_results
group_results-append [] k m h = sym (append-nil _)
group_results-append (r ∷ rs) k m h =
    group_results-append rs k (group_traces r.trace m) h
    ∙ (rw (group_traces-calls_of r.trace k m h, calls_of-append)
        (append_assoc (calls_at k m) (calls_of k r.trace) (calls_of k (all_traces rs))))

-- Whatever the results, the calls that the map holds under a non-empty hash are those of the
-- traces with that hash, in their order.
pub group_results-calls_of :
    (rs : List OpenEthTraceCall) (k : String)
    → is_empty k ≡ false
    → calls_at k (group_results rs []) ≡ calls_of k (all_traces rs)
group_results-calls_of rs k h = group_results-append rs k [] h ∙ (unfold calls_at lookup in refl)

flatten_open_eth-map :
    (ts : List OpenEthTrace) (acc : List FlatCall)
    → flatten_open_eth ts acc ≡ acc ++ map flat_of_open_eth ts
unfolding flatten_open_eth
flatten_open_eth-map [] acc = sym (append-nil _)
flatten_open_eth-map (t ∷ ts) acc =
    flatten_open_eth-map ts (acc ++ flat_of_open_eth t ∷ [])
    ∙ append_assoc acc (flat_of_open_eth t ∷ []) (map flat_of_open_eth ts)
