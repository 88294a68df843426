-- ===== src/Forge/Commands/NextIteration.antt =====
-- packages/forge-application/src/runs/create-next-iteration.ts.
use cyclewarden.Prelude.{
  not, none, some, String, ◌!=◌, string_eq, length, pos, num, str, obj, end, field,
}
use cyclewarden.Domain.Contracts.{Run, RunLifecycleSnapshot, user}
use cyclewarden.Domain.Schemas.{run_schema}
use cyclewarden.Domain.RunLifecycle.{create_next_iteration}
use cyclewarden.Domain.Errors.{unauthorized, schema_error}
use cyclewarden.Forge.Store.{Host, Outcome}
use cyclewarden.Forge.Exec.{Exec, return, from_result, gets, throw_if, ◌>>=◌, ◌>>◌}
use cyclewarden.Forge.Queries.{get_run, list_active_runs}
use cyclewarden.Forge.Methods.{
  Request, random_uuid, current_time, save_run, append_event, execute_idempotent,
}
use cyclewarden.Forge.Commands.Authorizer.{WorkspaceAuthorizer}

pub record NextIterationInput : Type 0 where
  pub workspace_id : String
  pub user_id : String
  pub previous_run_id : String
  pub instruction : String
  pub idempotency_key : String

abbrev pub next_iteration_request : NextIterationInput → Request
next_iteration_request input = record {
  workspace_id = input.workspace_id;
  operation = "create-iteration";
  idempotency_key = input.idempotency_key;
  body = obj (
      field "previousRunId" (str input.previous_run_id)
        (field "instruction" (str input.instruction) end));
}

-- The previous run with the fields of the new iteration.
abbrev pub iterated : Run → RunLifecycleSnapshot → String → Run
iterated previous lifecycle now = record previous {
  lifecycle = lifecycle;
  working_branch = none;
  started_at = none;
  finished_at = none;
  failure_code = none;
  failure_summary = none;
  created_at = now;
  updated_at = now;
}

module _ (host : Host) where
  -- The `execute` of the command.
  unfoldable pub next_iteration_body : NextIterationInput → Exec Outcome
  next_iteration_body input = do
    previous ← get_run input.previous_run_id
    throw_if (previous.workspace_id != input.workspace_id) unauthorized
    id ← random_uuid host
    active ← gets (list_active_runs input.workspace_id)
    lifecycle ← from_result (create_next_iteration previous.lifecycle id (pos (length active)))
    now ← current_time host
    let next : Run = iterated previous lifecycle now
    throw_if (not (run_schema host.formats next)) schema_error
    save_run host next
    append_event host (record {
      run_id = next.id;
      type = "run.iteration_created";
      payload = obj (
          field "previousRunId" (str previous.id) (
            field "iteration" (num (pos next.iteration))
              (field "instruction" (str input.instruction) end)));
      actor_type = some user;
      actor_id = some input.user_id;
      correlation_id = none;
    })
    return (Outcome.run next)

  unfoldable pub create_next_run_iteration : WorkspaceAuthorizer → NextIterationInput → Exec Outcome
  create_next_run_iteration assert_can_access input = do
    from_result (assert_can_access input.workspace_id input.user_id)
    execute_idempotent host (next_iteration_request input) (next_iteration_body input)
