-- ===== src/Client/Tracing/Permits.antt =====
-- client/client.go: calls of `TraceBlockByHash` that run at the same time. It acquires a permit of the
-- semaphore of the client, which has sixteen, and gives it back when it returns, with an error or in a
-- panic too (`defer`), which net/http recovers from. The other methods for traces take no permit.
-- `Acquire` gives a permit only while one is free, and `Release` takes it back: what
-- golang.org/x/sync/semaphore documents.
pub mod Served
use mesh_geth_sdk.Base.{
  ℕ, ◌+◌, ◌-◌, ◌≤◌, ◌≡◌, refl, sym, ap, ◌∙◌, List, [], ◌∷◌, ◌++◌, append-nil, append_assoc, map,
  Result, ok, err, crash, arith,
}
use mathlib.Core.Path.{subst}
use mesh_geth_sdk.Base.Dict.{Dict}
use mesh_geth_sdk.Types.Errors.{GoError}
use mesh_geth_sdk.Client.Data.{FlatCall}

abbrev pub max_trace_concurrency : ℕ
max_trace_concurrency = 16

abbrev pub semaphore_trace_weight : ℕ
semaphore_trace_weight = 1

abbrev pub Traces : Type 0
Traces = Result GoError (Dict (List FlatCall))

-- A call waits in `Acquire`, runs with a permit, or has returned; one that panics has returned `crash`.
pub data Stage (Ask : Type 0) : Type 0 where
  waiting : Ask → Stage Ask
  tracing : Ask → Stage Ask
  returned : Traces → Stage Ask

pub record System (Ask : Type 0) : Type 0 where
  pub held : ℕ
  pub stages : List (Stage Ask)

module _ {Ask : Type 0} where
  -- All calls wait.
  abbrev pub start : List Ask → System Ask
  start asks = record { held = 0; stages = map waiting asks }

  -- The permits that a call holds.
  abbrev permits : Stage Ask → ℕ
  permits (waiting r) = 0
  permits (tracing r) = 1
  permits (returned x) = 0

  abbrev pub running : List (Stage Ask) → ℕ
  running [] = 0
  running (s ∷ rest) = permits s + running rest

  running-append : (xs ys : List (Stage Ask)) → running (xs ++ ys) ≡ running xs + running ys
  running-append [] ys = omega arith
  running-append (x ∷ xs) ys = omega (arith, running-append xs ys)

  -- The permits that are held are those of the calls that run, and are at most sixteen.
  abbrev pub IsFair : System Ask → Type 0
  IsFair s = (s.held ≡ running s.stages) × (s.held ≤ max_trace_concurrency)

  running_middle :
      (before after : List (Stage Ask)) (x : Stage Ask)
      → running (before ++ x ∷ after) ≡ running before + permits x + running after
  running_middle before after x = omega (arith, running-append before (x ∷ after))

  running-waiting : (asks : List Ask) → running (map waiting asks) ≡ 0
  running-waiting [] = refl
  running-waiting (r ∷ rest) = omega (arith, running-waiting rest)

-- The arguments of `TraceBlockByHash`, and what it makes of them with the permit.
module _ {Ask : Type 0} (trace : Ask → Traces) where
  -- A step of one call, anywhere among the others. `Acquire` fails where its context is done.
  pub data Step (s t : System Ask) : Type 0 where
    acquire :
        (before after : List (Stage Ask)) (r : Ask)
        → s.stages ≡ before ++ waiting r ∷ after
        → s.held + semaphore_trace_weight ≤ max_trace_concurrency
        → t
          ≡ record { held = s.held + semaphore_trace_weight; stages = before ++ tracing r ∷ after }
        → Step s t
    cancel :
        (before after : List (Stage Ask)) (r : Ask) (e : GoError)
        → s.stages ≡ before ++ waiting r ∷ after
        → t ≡ record { held = s.held; stages = before ++ returned (err e) ∷ after }
        → Step s t
    finish :
        (before after : List (Stage Ask)) (r : Ask)
        → s.stages ≡ before ++ tracing r ∷ after
        → t ≡ record {
          held = s.held - semaphore_trace_weight;
          stages = before ++ returned (trace r) ∷ after;
        }
        → Step s t

  pub data Reach (s : System Ask) : System Ask → Type 0 where
    here : Reach s s
    next : {t u : System Ask} → Reach s t → Step t u → Reach s u

  Step-IsFair : {s t : System Ask} → Step s t → IsFair s → IsFair t
  Step-IsFair {s} (acquire before after r at free made) (counted, bounded) =
      let was : s.held ≡ running (before ++ waiting r ∷ after) = counted ∙ ap running at in
      rw made (
        omega (
          arith,
          was,
          running_middle before after (waiting r),
          running_middle before after (tracing r),
        ),
        free,
      )
  Step-IsFair {s} (cancel before after r e at made) (counted, bounded) =
      let was : s.held ≡ running (before ++ waiting r ∷ after) = counted ∙ ap running at in
      rw made (
        omega (
          arith,
          was,
          running_middle before after (waiting r),
          running_middle before after (returned (err e)),
        ),
        bounded,
      )
  Step-IsFair {s} (finish before after r at made) (counted, bounded) =
      let was : s.held ≡ running (before ++ tracing r ∷ after) = counted ∙ ap running at in
      rw made (
        omega (
          arith,
          was,
          running_middle before after (tracing r),
          running_middle before after (returned (trace r)),
        ),
        omega arith,
      )

  pub Reach-IsFair : (asks : List Ask) {s : System Ask} → Reach (start asks) s → IsFair s
  Reach-IsFair asks here = (sym (running-waiting asks), omega arith)
  Reach-IsFair asks (next r st) = Step-IsFair st (Reach-IsFair asks r)
