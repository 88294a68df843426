-- ===== src/Forge/Execution/Ending.antt =====
-- How an execution ends (packages/forge-application/src/runs/execute-run.ts).
use cyclewarden.Prelude.{
  [], ◌∷◌, ◌++◌, if◌then◌else◌, ◌+◌, ◌≡◌, refl, ap, ◌∙◌, Option, none, some, true, String, get, put,
  contains,
}
use cyclewarden.Domain.Contracts.{Run, RunState, RunLifecycleSnapshot, state_eq}
use cyclewarden.Domain.Schemas.{run_schema, non_empty}
use cyclewarden.Domain.RunLifecycle.{can_transition}
use cyclewarden.Domain.Errors.{ForgeError, Result, ok, throw}
use cyclewarden.Forge.Store.{Store, Host}
use cyclewarden.Forge.Exec
use cyclewarden.Forge.Queries.{non_blank}
use cyclewarden.Forge.Methods.{EventInput, current_time, save_run, append_event}
use cyclewarden.Forge.Invariant.Parts.{UniqueUuids, IsValid}
use cyclewarden.Forge.Invariant.Steps.{Reach-IsValid}
use cyclewarden.Forge.Execution.Frame.{
  outcome, Frame, Body, return, return_result, reads, ◌>>◌, then_do, call, ◌>>=◌,
}
use cyclewarden.Forge.Execution.Requests.{
  ExecuteRunInput, move, error_name, recoverable_states, cleaning,
}
use cyclewarden.Forge.Execution.Attempt.{Runtime, attempt}
use cyclewarden.Forge.Execution.Body.{clean_up, fail_run, recover, caught, frame_of, execute_queued}
use cyclewarden.Forge.Execution.Held.{
  ClockIsValid, Held, After, moves_on, saved-IsValid, Held-tick, saved_stored, recoverable_fails,
}
use cyclewarden.Forge.Execution.Moves.{moved_accepted, failed_accepted}
use cyclewarden.Forge.Execution.Quiet.{Quiet-append_event}
use cyclewarden.Forge.Execution.Parts.{Elsewhere, Handed, Held-wait}
use cyclewarden.Forge.Execution.Phases.{attempt_lem}

-- How an execution of a run ends, by its answer: the store is valid, and either the run that is returned
-- is stored and awaits its review, or the run is stored as failed.
abbrev pub Ended : Host → String → Result Run × Store → Type 0
Ended host run_id (ok run, t) =
    IsValid host t × (get t.runs run_id ≡ some run) × (run.state ≡ RunState.awaiting_review)
Ended host run_id (throw e, t) =
    IsValid host t × ((run : Run) × (get t.runs run_id ≡ some run) × (run.state ≡ RunState.failed))

-- The store is valid, and has the run as the execution left it, in a given state.
abbrev pub Leaves : Host → Run → RunState → Frame → Type 0
Leaves host old state f =
    IsValid host f.store × (get f.store.runs old.id ≡ some f.run) × (f.run.state ≡ state)

module _ (runtime : Runtime) (old : Run) (unique : UniqueUuids runtime.host)
    (clock : ClockIsValid runtime.host) (elsewhere : Elsewhere runtime old) where
  open runtime use {host}

  last_case :
      {A : Type 0} (state : RunState) (r : Result A × Frame)
      → Leaves host old state r.1
      → Leaves host old state (then_do r (λ a. return tt)).1
  last_case state (ok a, f) p = p
  last_case state (throw x, f) p = p

  -- An event that is appended at the end leaves the run as it is.
  Leaves-append :
      (state : RunState) (input : EventInput) (f : Frame)
      → input.run_id ≡ old.id
      → f.run.workspace_id ≡ old.workspace_id
      → Leaves host old state f
      → Leaves host old state ((call (append_event host input) >>= (λ a. return tt)) f).1
  unfolding call ◌>>=◌
  Leaves-append state input f is_old own (valid, stored, at) =
      let (reaches, same) = Quiet-append_event host old.workspace_id old.id input is_old f.store in
      last_case state (call (append_event host input) f) (
        Reach-IsValid host old.workspace_id unique valid (reaches (f.run, stored, own)),
        ap (λ runs. get runs old.id) same ∙ stored,
        at,
      )

  module _ (e : ForgeError) (named : non_empty (error_name e) ≡ true) where
    fail_run_lem :
        (f : Frame) → Held host old f → Leaves host old RunState.failed (fail_run runtime e f).1
    unfolding fail_run ◌>>=◌ call move Exec.◌>>=◌ current_time save_run
    fail_run_lem f h =
        let lifecycle : RunLifecycleSnapshot = record (f.run.lifecycle) {
          state = RunState.failed;
          version = f.run.version + 1;
        } in
        let moved : Run = record (f.run) {
          lifecycle = lifecycle;
          updated_at = host.now f.store.times_read;
        } in
        let run : Run = record moved {
          finished_at = some (host.now (f.store.times_read + 1));
          failure_code = some (error_name e);
          failure_summary = some (runtime.error_message e);
        } in
        let legal : can_transition f.run.state RunState.failed ≡ true =
          recoverable_fails f.run.state h.recoverable in
        let good : run_schema host.formats run ≡ true =
          failed_accepted host clock moved (f.store.times_read + 1) (error_name e)
            (runtime.error_message e) named
            (moved_accepted host clock f.run lifecycle f.store.times_read refl refl refl refl
              (h.valid.accepted old.id f.run h.stored)) in
        let ticked : Frame = record f {
          store = record (f.store) { times_read = f.store.times_read + 1 };
        } in
        let ticked' : Frame = record f {
          store = record (f.store) { times_read = f.store.times_read + 1 + 1 };
        } in
        rw (moves_on f.run.lifecycle RunState.failed legal, good)
          (Leaves-append RunState.failed _
            (record ticked' {
              store = record (ticked'.store) { runs = put f.store.runs run.id run };
              run = run;
            })
            h.same_id h.same_workspace
            (
              saved-IsValid runtime old unique clock ticked' run
                  (Held-tick runtime old unique clock ticked
                    (Held-tick runtime old unique clock f h))
                  h.same_id h.same_workspace refl refl refl legal good,
              saved_stored f.store old run h.same_id,
              refl,
            ))

    rethrow_case :
        (r : Result (Unit {0}) × Frame)
        → Leaves host old RunState.failed r.1
        → Ended host old.id (outcome (then_do r (λ a. return_result {A = Run} (throw e))))
    rethrow_case (ok a, f) p = (p.0, (f.run, p.1, p.2))
    rethrow_case (throw x, f) p = (p.0, (f.run, p.1, p.2))

    -- The end of the `catch` block.
    abbrev rethrow : Run → Body Run
    rethrow run =
        (if contains run.state recoverable_states then fail_run runtime e else return tt)
        >> return_result {A = Run} (throw e)

    rethrow_lem : (f : Frame) → Held host old f → Ended host old.id (outcome (rethrow f.run f))
    unfolding ◌>>=◌
    rethrow_lem f h = rw h.recoverable (rethrow_case (fail_run runtime e f) (fail_run_lem f h))

    clean_up_case :
        (id : Option String) (f : Frame)
        → Held host old f
        → Ended host old.id (outcome ((clean_up runtime id >> (reads (λ f. f.run) >>= rethrow)) f))
    unfolding ◌>>=◌
    clean_up_case none f h = rethrow_lem f h
    clean_up_case (some id) f h = rethrow_lem _ (
        Held-wait runtime old unique clock elsewhere cleaning
          (record f { destroy_calls = f.destroy_calls ++ id ∷ [] })
          (record {
            valid = h.valid;
            stored = h.stored;
            same_id = h.same_id;
            same_workspace = h.same_workspace;
            recoverable = h.recoverable;
          }))

    recover_lem : (f : Frame) → Held host old f → Ended host old.id (outcome (recover runtime e f))
    unfolding recover ◌>>=◌
    recover_lem f h = clean_up_case (non_blank f.sandbox_id) f h

  caught_case :
      (r : Result Run × Frame)
      → After host old Handed r
      → ((e : ForgeError) → r.0 ≡ throw e → non_empty (error_name e) ≡ true)
      → Ended host old.id (outcome (caught runtime r))
  unfolding caught
  caught_case (ok run, f) (h, (same, at)) named = (h.valid, h.stored ∙ ap some same, at)
  caught_case (throw e, f) h named = recover_lem e (named e refl) f h

  Held-start :
      (s : Store)
      → IsValid host s
      → get s.runs old.id ≡ some old
      → old.state ≡ RunState.queued
      → Held host old (frame_of runtime s old)
  Held-start s v stored queued = record {
    valid = v;
    stored = stored;
    same_id = refl;
    same_workspace = refl;
    recoverable = rw queued refl;
  }

  -- The execution of a run that is found queued.
  pub execute_queued_lem :
      (input : ExecuteRunInput) (s : Store)
      → IsValid host s
      → get s.runs old.id ≡ some old
      → old.state ≡ RunState.queued
      → ((e : ForgeError)
          → (attempt runtime input (frame_of runtime s old)).0 ≡ throw e
          → non_empty (error_name e) ≡ true)
      → Ended host old.id (outcome (execute_queued runtime input s old))
  unfolding execute_queued
  execute_queued_lem input s v stored queued named =
      caught_case (attempt runtime input (frame_of runtime s old))
        (attempt_lem runtime old unique clock elsewhere input (frame_of runtime s old)
          (Held-start s v stored queued) queued)
        named
