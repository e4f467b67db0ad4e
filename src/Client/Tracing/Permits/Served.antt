-- ===== src/Client/Tracing/Permits/Served.antt =====
-- client/client.go: from whatever has happened to the calls of `TraceBlockByHash`, all can still be
-- served.
use mesh_geth_sdk.Base.{ℕ, ◌-◌, ◌≤◌, ◌≡◌, refl, ap, List, [], ◌∷◌, ◌++◌, append_assoc, map, arith}
use mathlib.Core.Path.{subst}
use mesh_geth_sdk.Geth.{Hash}
use mesh_geth_sdk.Configuration.{RosettaConfig}
use mesh_geth_sdk.Client.Data.{RpcTransaction}
use mesh_geth_sdk.Client.Tracing.{Tracer, trace_block}
use mesh_geth_sdk.Client.Tracing.Permits.{
  max_trace_concurrency, Traces, Stage, waiting, tracing, returned, System, acquire, finish, Reach,
  here, next, start, running, Reach-IsFair,
}

-- The arguments of the calls, and what is made of them with the permit.
module _ {Ask : Type 0} (trace : Ask → Traces) where
  abbrev system : ℕ → List (Stage Ask) → System Ask
  system held stages = record { held = held; stages = stages }

  -- What a call returns where it is not cancelled, and the same for those that run.
  abbrev pub serve : Stage Ask → Stage Ask
  serve (waiting r) = returned (trace r)
  serve (tracing r) = returned (trace r)
  serve (returned x) = returned x

  abbrev drain : Stage Ask → Stage Ask
  drain (waiting r) = waiting r
  drain (tracing r) = returned (trace r)
  drain (returned x) = returned x

  -- The first of the calls to come goes to those that are past.
  past :
      (s : System Ask) (held : ℕ) (before rest : List (Stage Ask)) (x : Stage Ask)
      → Reach trace s (system held (before ++ x ∷ rest))
      → Reach trace s (system held ((before ++ x ∷ []) ++ rest))
  past s held before rest x r = rw (append_assoc before (x ∷ []) rest) r

  unpast :
      (s : System Ask) (held : ℕ) (before rest : List (Stage Ask)) (x : Stage Ask)
      → Reach trace s (system held ((before ++ x ∷ []) ++ rest))
      → Reach trace s (system held (before ++ x ∷ rest))
  unpast s held before rest x r =
      subst (λ l. Reach trace s (system held l)) (append_assoc before (x ∷ []) rest) r

  -- All that run may return, one after the other.
  drain_all :
      (s : System Ask) (held : ℕ) (before after : List (Stage Ask))
      → Reach trace s (system held (before ++ after))
      → held ≡ running after
      → Reach trace s (system 0 (before ++ map drain after))
  drain_all s held before [] r counted = rw (← counted) r
  drain_all s held before (waiting a ∷ rest) r counted =
      unpast s 0 before (map drain rest) (waiting a) (
        drain_all s held (before ++ waiting a ∷ []) rest (past s held before rest (waiting a) r)
          (omega arith))
  drain_all s held before (returned x ∷ rest) r counted =
      unpast s 0 before (map drain rest) (returned x) (
        drain_all s held (before ++ returned x ∷ []) rest (past s held before rest (returned x) r)
          (omega arith))
  drain_all s held before (tracing a ∷ rest) r counted =
      let done = next r (finish before rest a refl refl) in
      unpast s 0 before (map drain rest) (returned (trace a)) (
        drain_all s (held - 1) (before ++ returned (trace a) ∷ []) rest
          (past s (held - 1) before rest (returned (trace a)) done) (omega arith))

  -- While nothing runs, each that waits may run and return.
  serve_all :
      (s : System Ask) (before after : List (Stage Ask))
      → Reach trace s (system 0 (before ++ after))
      → running after ≡ 0
      → Reach trace s (system 0 (before ++ map serve after))
  serve_all s before [] r idle = r
  serve_all s before (waiting a ∷ rest) r idle =
      let taken = next r (acquire before rest a refl (omega arith) refl) in
      let done = next taken (finish before rest a refl refl) in
      unpast s 0 before (map serve rest) (returned (trace a)) (
        serve_all s (before ++ returned (trace a) ∷ []) rest
          (past s 0 before rest (returned (trace a)) done) (omega arith))
  serve_all s before (returned x ∷ rest) r idle = unpast s 0 before (map serve rest) (returned x) (
      serve_all s (before ++ returned x ∷ []) rest (past s 0 before rest (returned x) r)
        (omega arith))
  serve_all s before (tracing a ∷ rest) r idle = absurd (omega arith)

  running-drain : (stages : List (Stage Ask)) → running (map drain stages) ≡ 0
  running-drain [] = refl
  running-drain (waiting r ∷ rest) = omega (arith, running-drain rest)
  running-drain (tracing r ∷ rest) = omega (arith, running-drain rest)
  running-drain (returned x ∷ rest) = omega (arith, running-drain rest)

  serve-drain : (stages : List (Stage Ask)) → map serve (map drain stages) ≡ map serve stages
  serve-drain [] = refl
  serve-drain (waiting r ∷ rest) = ap (λ l. returned (trace r) ∷ l) (serve-drain rest)
  serve-drain (tracing r ∷ rest) = ap (λ l. returned (trace r) ∷ l) (serve-drain rest)
  serve-drain (returned x ∷ rest) = ap (λ l. returned x ∷ l) (serve-drain rest)

  Reach-serve :
      (asks : List Ask) {s : System Ask}
      → Reach trace (start asks) s
      → (running s.stages ≤ max_trace_concurrency)
        × (s.held ≡ running s.stages)
        × Reach trace s (record { held = 0; stages = map serve s.stages })
  Reach-serve asks {s} r =
      let (counted, bounded) = Reach-IsFair trace asks r in
      let drained = drain_all s s.held [] s.stages here counted in
      (
        omega arith,
        counted,
        subst (λ l. Reach trace s (system 0 l)) (serve-drain s.stages)
            (serve_all s [] (map drain s.stages) drained (running-drain s.stages)),
      )

-- A call of `TraceBlockByHash`: the hash of the block, and its transactions
abbrev pub Ask : Type 0
Ask = Hash × List RpcTransaction

abbrev pub traces_of : Tracer → RosettaConfig → Ask → Traces
traces_of node config (block_hash, txs) = trace_block node config block_hash txs

-- Whatever has happened to the calls of `TraceBlockByHash` so far, at most sixteen of them run, and they
-- are what the permits that are held count; and all can still be served: a run leads on to where no permit
-- is held and each has returned what it returned before (traces, an error or a panic), or else what it
-- makes of the answer of the node.
pub Reach-served :
    (node : Tracer) (config : RosettaConfig) (asks : List Ask) {s : System Ask}
    → Reach (traces_of node config) (start asks) s
    → (running s.stages ≤ max_trace_concurrency)
      × (s.held ≡ running s.stages)
      × Reach
          (traces_of node config)
          s
          (record { held = 0; stages = map (serve (traces_of node config)) s.stages })
Reach-served node config = Reach-serve (traces_of node config)
