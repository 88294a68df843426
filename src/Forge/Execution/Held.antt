-- ===== src/Forge/Execution/Held.antt =====
-- What holds of an execution's local variables and the store while it has the run
-- (packages/forge-application/src/runs/execute-run.ts).
use cyclewarden.Prelude.{
  ℕ, ◌+◌, ◌≡◌, refl, sym, ap, ◌∙◌, true, some, get, put, get-put_self, arith, contains,
}
use cyclewarden.Domain.Contracts.{Run, RunState, state_eq, RunLifecycleSnapshot}
use cyclewarden.Domain.Schemas.{run_schema}
use cyclewarden.Domain.RunLifecycle.{transition_run, can_transition, is_active_run_state}
use cyclewarden.Domain.Errors.{Result, ok, throw}
use cyclewarden.Forge.Store.{Store, Host}
use cyclewarden.Forge.Steps.{read_clock, move_run, Reach, here, next}
use cyclewarden.Forge.Invariant.Parts.{UniqueUuids, IsValid}
use cyclewarden.Forge.Invariant.Steps.{Step-IsValid, Reach-IsValid}
use cyclewarden.Forge.Execution.Frame.{Frame, Body, then_do, ◌>>=◌}
use cyclewarden.Forge.Execution.Requests.{recoverable_states}
use cyclewarden.Forge.Execution.Attempt.{Runtime}

-- The host's clock gives what the schemas accept as a timestamp, as `toISOString` does.
abbrev pub ClockIsValid : Host → Type 0
ClockIsValid host = (i : ℕ) → host.formats.datetime (host.now i) ≡ true

-- The store is valid and has the run as the execution knows it, in a state that the `catch` block handles.
pub record Held (host : Host) (old : Run) (f : Frame) : Type 0 where
  pub valid : IsValid host f.store
  pub stored : get f.store.runs old.id ≡ some f.run
  pub same_id : f.run.id ≡ old.id
  pub same_workspace : f.run.workspace_id ≡ old.workspace_id
  pub recoverable : contains f.run.state recoverable_states ≡ true

pub recoverable_active :
    (s : RunState) → contains s recoverable_states ≡ true → is_active_run_state s ≡ true
unfolding is_active_run_state
recoverable_active s h = ground arith

pub recoverable_fails :
    (s : RunState) → contains s recoverable_states ≡ true → can_transition s RunState.failed ≡ true
unfolding can_transition
recoverable_fails s h = ground arith

module _ (host : Host) (old : Run) where
  -- However a computation ends, the run is held, and its answer is as said.
  abbrev pub After : {A : Type 0} → (A → Frame → Type 0) → Result A × Frame → Type 0
  After Q (ok a, f) = Held host old f × Q a f
  After Q (throw e, f) = Held host old f

  module _ {A B : Type 0} where
    bind_case :
        (Q : A → Frame → Type 0) (R : B → Frame → Type 0) (r : Result A × Frame) (k : A → Body B)
        → After Q r
        → ((a : A) (f : Frame) → Held host old f → Q a f → After R (k a f))
        → After R (then_do r k)
    bind_case Q R (ok a, f) k p q = q a f p.0 p.1
    bind_case Q R (throw e, f) k p q = p

    pub After-bind :
        (Q : A → Frame → Type 0) (R : B → Frame → Type 0) (m : Body A) (k : A → Body B) (f : Frame)
        → After Q (m f)
        → ((a : A) (f : Frame) → Held host old f → Q a f → After R (k a f))
        → After R ((m >>= k) f)
    unfolding ◌>>=◌
    After-bind Q R m k f p q = bind_case Q R (m f) k p q

-- Where a transition is legal, it is made.
pub moves_on :
    (run : RunLifecycleSnapshot) (state : RunState)
    → can_transition run.state state ≡ true
    → transition_run run state ≡ ok (record run { state = state; version = run.version + 1 })
unfolding transition_run
moves_on run state h = ground arith

module _ (runtime : Runtime) (old : Run) where
  open runtime use {host}

  module _ (unique : UniqueUuids host) (clock : ClockIsValid host) where
    -- The store takes a run that has moved in place of the one that is held.
    pub saved-IsValid :
        (f : Frame) (run : Run)
        → Held host old f
        → run.id ≡ old.id
        → run.workspace_id ≡ old.workspace_id
        → run.task_id ≡ f.run.task_id
        → run.iteration ≡ f.run.iteration
        → run.version ≡ f.run.version + 1
        → can_transition f.run.state run.state ≡ true
        → run_schema host.formats run ≡ true
        → IsValid host (record (f.store) { runs = put f.store.runs run.id run })
    saved-IsValid f run h id own task iteration version legal good =
        Step-IsValid host old.workspace_id unique
          (move_run f.store f.run run (ap (get f.store.runs) id ∙ h.stored) h.same_workspace own
            (record {
              same_task = task;
              same_iteration = iteration;
              legal = legal;
              was_active = recoverable_active f.run.state h.recoverable;
              versioned = version;
            })
            good)
          h.valid

    -- What leaves the runs alone and keeps to the steps of the workspace.
    pub Held-quiet :
        (f : Frame) (t : Store)
        → Held host old f
        → Reach host old.workspace_id f.store t
        → t.runs ≡ f.store.runs
        → Held host old (record f { store = t })
    Held-quiet f t h r same = record {
      valid = Reach-IsValid host old.workspace_id unique h.valid r;
      stored = ap (λ runs. get runs old.id) same ∙ h.stored;
      same_id = h.same_id;
      same_workspace = h.same_workspace;
      recoverable = h.recoverable;
    }

    -- Reading the clock is such a computation.
    pub Held-tick :
        (f : Frame)
        → Held host old f
        → Held host old
            (record f { store = record (f.store) { times_read = f.store.times_read + 1 } })
    Held-tick f h =
        Held-quiet f (record (f.store) { times_read = f.store.times_read + 1 }) h
          (next here (read_clock f.store)) refl

-- A saved run is found under its identifier.
pub saved_stored :
    (s : Store) (old run : Run) → run.id ≡ old.id → get (put s.runs run.id run) old.id ≡ some run
saved_stored s old run id =
    ap (get (put s.runs run.id run)) (sym id) ∙ get-put_self s.runs run.id run
