-- ===== src/Forge/Commands/CancelRun.antt =====
-- packages/forge-application/src/runs/cancel-run.ts.
use cyclewarden.Prelude.{
  not, none, some, String, ◌!=◌, ◌==◌, string_eq, str, obj, end, field, if◌then◌else◌,
}
use cyclewarden.Domain.Contracts.{Run, RunState, state_eq, user}
use cyclewarden.Domain.RunLifecycle.{is_cancellable_run_state, transition_run}
use cyclewarden.Domain.Errors.{unauthorized, run_cannot_be_cancelled}
use cyclewarden.Forge.Store.{Host, Outcome}
use cyclewarden.Forge.Exec.{Exec, return, from_result, throw_if, ◌>>=◌, ◌>>◌}
use cyclewarden.Forge.Queries.{get_run}
use cyclewarden.Forge.Methods.{Request, current_time, save_run, append_event, execute_idempotent}
use cyclewarden.Forge.Commands.Authorizer.{WorkspaceAuthorizer}

pub record CancelRunInput : Type 0 where
  pub workspace_id : String
  pub user_id : String
  pub run_id : String
  pub idempotency_key : String
  pub reason : String

abbrev pub cancel_run_request : CancelRunInput → Request
cancel_run_request input = record {
  workspace_id = input.workspace_id;
  operation = "cancel-run";
  idempotency_key = input.idempotency_key;
  body = obj (field "runId" (str input.run_id) (field "reason" (str input.reason) end));
}

module _ (host : Host) where
  -- The two transitions, each saved and recorded.
  unfoldable pub cancel_now : CancelRunInput → Run → Exec Outcome
  cancel_now input run = do
    lifecycle ← from_result (transition_run run.lifecycle RunState.cancelling)
    updated ← current_time host
    let requested : Run = record run { lifecycle = lifecycle; updated_at = updated }
    save_run host requested
    append_event host (record {
      run_id = requested.id;
      type = "run.cancel_requested";
      payload = obj (field "reason" (str input.reason) end);
      actor_type = some user;
      actor_id = some input.user_id;
      correlation_id = none;
    })
    lifecycle' ← from_result (transition_run requested.lifecycle RunState.cancelled)
    finished ← current_time host
    updated' ← current_time host
    let cancelled : Run = record requested {
      lifecycle = lifecycle';
      finished_at = some finished;
      updated_at = updated';
    }
    save_run host cancelled
    append_event host (record {
      run_id = cancelled.id;
      type = "run.cancelled";
      payload = obj end;
      actor_type = none;
      actor_id = none;
      correlation_id = none;
    })
    return (Outcome.run cancelled)

  -- A cancelled run is returned as it is.
  cancel_unless_done : CancelRunInput → Run → Exec Outcome
  cancel_unless_done input run =
      if run.state == RunState.cancelled then return (Outcome.run run) else do
        throw_if (not (is_cancellable_run_state run.state)) (run_cannot_be_cancelled run.state)
        cancel_now input run

  -- The `execute` of the command.
  unfoldable pub cancel_run_body : CancelRunInput → Exec Outcome
  unfolding cancel_unless_done
  cancel_run_body input = do
    run ← get_run input.run_id
    throw_if (run.workspace_id != input.workspace_id) unauthorized
    cancel_unless_done input run

  unfoldable pub cancel_run : WorkspaceAuthorizer → CancelRunInput → Exec Outcome
  cancel_run assert_can_access input = do
    from_result (assert_can_access input.workspace_id input.user_id)
    execute_idempotent host (cancel_run_request input) (cancel_run_body input)
