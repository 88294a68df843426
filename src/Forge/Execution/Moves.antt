-- ===== src/Forge/Execution/Moves.antt =====
-- The moves of an execution (packages/forge-application/src/runs/execute-run.ts): each one that is legal
-- is saved.
use cyclewarden.Prelude.{◌+◌, ◌≡◌, refl, true, some, arith, ℕ, String, contains}
use cyclewarden.Domain.Contracts.{Run, RunState, state_eq, RunLifecycleSnapshot}
use cyclewarden.Domain.Schemas.{run_schema, non_empty}
use cyclewarden.Domain.RunLifecycle.{can_transition}
use cyclewarden.Forge.Store.{Host}
use cyclewarden.Forge.Exec
use cyclewarden.Forge.Methods.{current_time, save_run}
use cyclewarden.Forge.Invariant.Parts.{UniqueUuids}
use cyclewarden.Forge.Execution.Frame.{Frame, call, ◌>>=◌}
use cyclewarden.Forge.Execution.Requests.{move, recoverable_states}
use cyclewarden.Forge.Execution.Attempt.{Runtime, advance, start_running}
use cyclewarden.Forge.Execution.Held.{
  ClockIsValid, Held, After, moves_on, saved-IsValid, Held-tick, saved_stored,
}

module _ (host : Host) (clock : ClockIsValid host) (run : Run) where
  -- The schema accepts a moved run where it accepts the run before.
  pub moved_accepted :
      (lifecycle : RunLifecycleSnapshot) (i : ℕ)
      → lifecycle.id ≡ run.id
      → lifecycle.workspace_id ≡ run.workspace_id
      → lifecycle.task_id ≡ run.task_id
      → lifecycle.iteration ≡ run.iteration
      → run_schema host.formats run ≡ true
      → run_schema host.formats (record run { lifecycle = lifecycle; updated_at = host.now i })
        ≡ true
  unfolding run_schema
  moved_accepted lifecycle i id workspace task iteration good = ground (arith, clock i)

  pub started_accepted :
      (i : ℕ)
      → run_schema host.formats run ≡ true
      → run_schema host.formats (record run { started_at = some (host.now i) }) ≡ true
  unfolding run_schema
  started_accepted i good = ground (arith, clock i)

  pub failed_accepted :
      (i : ℕ) (code summary : String)
      → non_empty code ≡ true
      → run_schema host.formats run ≡ true
      → run_schema host.formats (record run {
        finished_at = some (host.now i);
        failure_code = some code;
        failure_summary = some summary;
      })
        ≡ true
  unfolding run_schema
  failed_accepted i code summary named good = ground (arith, clock i)

module _ (runtime : Runtime) (old : Run) where
  open runtime use {host}

  module _ (unique : UniqueUuids host) (clock : ClockIsValid host) where
    -- `advance` succeeds wherever its transition is legal.
    pub advance_lem :
        (next_state : RunState) (f : Frame)
        → Held host old f
        → can_transition f.run.state next_state ≡ true
        → contains next_state recoverable_states ≡ true
        → After host old (λ a g. g.run.state ≡ next_state) (advance runtime next_state f)
    unfolding advance ◌>>=◌ call move Exec.◌>>=◌ current_time save_run
    advance_lem next_state f h legal recoverable =
        let lifecycle : RunLifecycleSnapshot = record (f.run.lifecycle) {
          state = next_state;
          version = f.run.version + 1;
        } in
        let run : Run = record (f.run) {
          lifecycle = lifecycle;
          updated_at = host.now f.store.times_read;
        } in
        let good : run_schema host.formats run ≡ true =
          moved_accepted host clock f.run lifecycle f.store.times_read refl refl refl refl
            (h.valid.accepted old.id f.run h.stored) in
        rw (moves_on f.run.lifecycle next_state legal, good)
          (
            record {
              valid =
                  saved-IsValid runtime old unique clock
                    (record f { store = record (f.store) { times_read = f.store.times_read + 1 } })
                    run (Held-tick runtime old unique clock f h) h.same_id h.same_workspace refl
                    refl refl legal good;
              stored = saved_stored f.store old run h.same_id;
              same_id = h.same_id;
              same_workspace = h.same_workspace;
              recoverable = recoverable;
            },
            refl,
          )

    pub start_running_lem :
        (f : Frame)
        → Held host old f
        → f.run.state ≡ RunState.provisioning
        → After host old (λ a g. g.run.state ≡ RunState.running) (start_running runtime f)
    unfolding start_running ◌>>=◌ call move Exec.◌>>=◌ current_time save_run can_transition
    start_running_lem f h provisioning =
        let lifecycle : RunLifecycleSnapshot = record (f.run.lifecycle) {
          state = RunState.running;
          version = f.run.version + 1;
        } in
        let moved : Run = record (f.run) {
          lifecycle = lifecycle;
          updated_at = host.now f.store.times_read;
        } in
        let run : Run = record moved { started_at = some (host.now (f.store.times_read + 1)) } in
        let legal : can_transition f.run.state RunState.running ≡ true = rw provisioning refl in
        let good : run_schema host.formats run ≡ true =
          started_accepted host clock moved (f.store.times_read + 1) (
            moved_accepted host clock f.run lifecycle f.store.times_read refl refl refl refl
              (h.valid.accepted old.id f.run h.stored)) in
        let ticked : Frame = record f {
          store = record (f.store) { times_read = f.store.times_read + 1 };
        } in
        rw (moves_on f.run.lifecycle RunState.running legal, good)
          (
            record {
              valid =
                  saved-IsValid runtime old unique clock
                    (record f {
                      store = record (f.store) { times_read = f.store.times_read + 1 + 1 };
                    })
                    run
                    (Held-tick runtime old unique clock ticked
                      (Held-tick runtime old unique clock f h))
                    h.same_id h.same_workspace refl refl refl legal good;
              stored = saved_stored f.store old run h.same_id;
              same_id = h.same_id;
              same_workspace = h.same_workspace;
              recoverable = refl;
            },
            refl,
          )
