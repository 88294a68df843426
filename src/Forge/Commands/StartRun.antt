-- ===== src/Forge/Commands/StartRun.antt =====
-- packages/forge-application/src/runs/start-run.ts.
use cyclewarden.Prelude.{
  ℕ, ◌+◌, not, none, some, String, List, map, ◌!=◌, string_eq, length, pos, Json, num, str, obj,
  end, field,
}
use cyclewarden.Domain.Contracts.{Run, RunState, user}
use cyclewarden.Domain.Schemas.{run_schema}
use cyclewarden.Domain.RunLifecycle.{
  RunAdmissionResult, admitted, active_run_exists, evaluate_run_admission,
}
use cyclewarden.Domain.Errors.{ForgeError, unauthorized, schema_error}
use cyclewarden.Forge.Store.{Host, Outcome}
use cyclewarden.Forge.Exec.{Exec, return, fail, from_result, gets, throw_if, ◌>>=◌, ◌>>◌}
use cyclewarden.Forge.Queries.{get_task, get_task_workspace, list_active_runs, list_runs_for_task}
use cyclewarden.Forge.Methods.{
  Request, random_uuid, current_time, save_run, append_event, execute_idempotent,
}
use cyclewarden.Forge.Commands.Authorizer.{WorkspaceAuthorizer}

pub record StartRunInput : Type 0 where
  pub workspace_id : String
  pub user_id : String
  pub task_id : String
  pub idempotency_key : String
  pub base_branch : String
  pub agent_provider : String
  pub sandbox_provider : String
  pub budget_policy : Json
  pub permission_policy : Json

-- The admission's answer, as an exception.
abbrev pub require_admission : List Run → RunAdmissionResult → Exec (Unit {0})
require_admission active admitted = return tt
require_admission active (active_run_exists n) =
    fail (ForgeError.active_run_exists (map (λ (r : Run). r.id) active))

-- The run that the command creates.
abbrev pub fresh_run : StartRunInput → String → String → ℕ → String → Run
fresh_run input task_id run_id iteration now = record {
  lifecycle = record {
    id = run_id;
    task_id = task_id;
    workspace_id = input.workspace_id;
    iteration = iteration;
    state = RunState.queued;
    review_outcome = none;
    version = 0;
  };
  base_branch = input.base_branch;
  base_commit_sha = none;
  working_branch = none;
  agent_provider = input.agent_provider;
  sandbox_provider = input.sandbox_provider;
  budget_policy = input.budget_policy;
  permission_policy = input.permission_policy;
  started_at = none;
  finished_at = none;
  failure_code = none;
  failure_summary = none;
  created_at = now;
  updated_at = now;
}

abbrev pub start_run_request : StartRunInput → Request
start_run_request input = record {
  workspace_id = input.workspace_id;
  operation = "start-run";
  idempotency_key = input.idempotency_key;
  body = obj (
      field "taskId" (str input.task_id) (
        field "baseBranch" (str input.base_branch) (
          field "agentProvider" (str input.agent_provider) (
            field "sandboxProvider" (str input.sandbox_provider) (
              field "budgetPolicy" input.budget_policy
                (field "permissionPolicy" input.permission_policy end))))));
}

module _ (host : Host) where
  -- The `execute` of the command.
  unfoldable pub start_run_body : StartRunInput → Exec Outcome
  start_run_body input = do
    task ← get_task input.task_id
    workspace ← get_task_workspace task.id
    throw_if (workspace != input.workspace_id) unauthorized
    active ← gets (list_active_runs input.workspace_id)
    admission ← from_result (evaluate_run_admission (pos (length active)) none)
    require_admission active admission
    now ← current_time host
    id ← random_uuid host
    earlier ← gets (list_runs_for_task task.id)
    let run : Run = fresh_run input task.id id (length earlier + 1) now
    throw_if (not (run_schema host.formats run)) schema_error
    save_run host run
    append_event host (record {
      run_id = run.id;
      type = "run.created";
      payload =
          obj (field "taskId" (str task.id) (field "iteration" (num (pos run.iteration)) end));
      actor_type = some user;
      actor_id = some input.user_id;
      correlation_id = none;
    })
    return (Outcome.run run)

  unfoldable pub start_run : WorkspaceAuthorizer → StartRunInput → Exec Outcome
  start_run assert_can_access input = do
    from_result (assert_can_access input.workspace_id input.user_id)
    execute_idempotent host (start_run_request input) (start_run_body input)
