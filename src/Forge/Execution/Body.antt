-- ===== src/Forge/Execution/Body.antt =====
-- packages/forge-application/src/runs/execute-run.ts: `executeRun`. Whatever else the application does
-- while it waits for a provider is a parameter.
use cyclewarden.Prelude.{
  false, get, ◌≡◌, refl, Option, none, some, [], String, ◌!=◌, str, obj, end, field, if◌then◌else◌,
  contains,
}
use cyclewarden.Domain.Contracts.{Run, RunState, state_eq}
use cyclewarden.Domain.Errors.{ForgeError, Result, ok, throw, run_must_be_queued}
use cyclewarden.Forge.Store.{Store}
use cyclewarden.Forge.Exec.{Exec, then_do}
use cyclewarden.Forge.Queries.{get_run, non_blank}
use cyclewarden.Forge.Methods.{current_time, save_run, append_event}
use cyclewarden.Forge.Execution.Frame.{
  outcome, Frame, Body, return, return_result, call, reads, ◌>>=◌, ◌>>◌, assign_run, note_destroy,
}
use cyclewarden.Forge.Execution.Requests.{
  ExecuteRunInput, cleaning, error_name, recoverable_states, event_of_system, move,
}
use cyclewarden.Forge.Execution.Attempt.{Runtime, wait, attempt}

module _ (runtime : Runtime) where
  open runtime use {host, platform, error_message, meanwhile}

  -- `if (sandboxId) await destroy(...).catch(() => undefined);`
  abbrev pub clean_up : Option String → Body (Unit {0})
  clean_up none = return tt
  clean_up (some sandbox_id) = note_destroy sandbox_id >> wait runtime cleaning

  unfoldable pub fail_run : ForgeError → Body (Unit {0})
  fail_run e = do
    run ← reads (λ f. f.run)
    moved ← call (move host run RunState.failed)
    finished ← call (current_time host)
    let failed' : Run = record moved {
      finished_at = some finished;
      failure_code = some (error_name e);
      failure_summary = some (error_message e);
    }
    assign_run failed'
    call (save_run host failed')
    call (
        append_event host (
          event_of_system failed'.id "run.failed"
            (obj (field "failureCode" (str (error_name e)) end))))
    return tt

  -- The `catch` block.
  unfoldable pub recover : ForgeError → Body Run
  unfolding fail_run
  recover e = do
    sandbox_id ← reads (λ f. non_blank f.sandbox_id)
    clean_up sandbox_id
    run ← reads (λ f. f.run)
    if contains run.state recoverable_states then fail_run e else return tt
    return_result (throw e)

  unfoldable pub caught : Result Run × Frame → Result Run × Frame
  unfolding recover
  caught (ok run, f) = (ok run, f)
  caught (throw e, f) = recover e f

  abbrev pub frame_of : Store → Run → Frame
  frame_of s run = record {
    store = s;
    run = run;
    sandbox_id = none;
    created = [];
    destroy_calls = [];
  }

  -- What `executeRun` does with the run that it has found queued.
  unfoldable pub execute_queued : ExecuteRunInput → Store → Run → Result Run × Frame
  execute_queued input s run = caught (attempt runtime input (frame_of s run))

  unfoldable pub execute_found : ExecuteRunInput → Run → Exec Run
  execute_found input run s =
      if run.state != RunState.queued
      then (throw (run_must_be_queued run.state), s)
      else outcome (execute_queued input s run)

  unfoldable pub execute_run : ExecuteRunInput → Exec Run
  execute_run input s = then_do (get_run input.run_id s) (execute_found input)

  -- A run that is found queued is executed.
  pub execute_run-queued :
      (input : ExecuteRunInput) (s : Store) (run : Run)
      → get s.runs input.run_id ≡ some run
      → run.state ≡ RunState.queued
      → execute_run input s ≡ outcome (execute_queued input s run)
  unfolding execute_run execute_found get_run
  execute_run-queued input s run stored queued =
      let ready : (run.state != RunState.queued) ≡ false = rw queued refl in rw (stored, ready) refl
