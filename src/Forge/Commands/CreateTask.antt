-- ===== src/Forge/Commands/CreateTask.antt =====
-- packages/forge-application/src/tasks/create-task.ts: `createTask`, over any `TaskNormalizer`.
use cyclewarden.Prelude.{String, List}
use cyclewarden.Domain.Contracts.{Locale, AcceptanceCriterion, Task, TaskStatus}
use cyclewarden.Domain.Schemas.{parse_task}
use cyclewarden.Domain.Errors.{Result, schema_error}
use cyclewarden.Forge.Store.{Host}
use cyclewarden.Forge.Exec.{Exec, from_result, ◌>>=◌, ◌>>◌}
use cyclewarden.Forge.Queries.{found}
use cyclewarden.Forge.Methods.{random_uuid, current_time, save_task}
use cyclewarden.Forge.Commands.Authorizer.{WorkspaceAuthorizer}

pub record NormalizedTaskInput : Type 0 where
  pub title : String
  pub normalized_objective : String
  pub scope : List String
  pub acceptance_criteria : List AcceptanceCriterion
  pub constraints : List String

-- `normalize` of the instruction and its two languages.
abbrev pub TaskNormalizer : Type 0
TaskNormalizer = String → Locale → Locale → Result NormalizedTaskInput

pub record CreateTaskInput : Type 0 where
  pub workspace_id : String
  pub project_id : String
  pub user_id : String
  pub instruction : String
  pub instruction_language : Locale
  pub technical_output_language : Locale

-- The task that the command gives to the schema.
abbrev pub fresh_task : CreateTaskInput → NormalizedTaskInput → String → String → Task
fresh_task input normalized id now = record {
  id = id;
  project_id = input.project_id;
  created_by = input.user_id;
  title = normalized.title;
  original_instruction = input.instruction;
  instruction_language = input.instruction_language;
  normalized_objective = normalized.normalized_objective;
  scope = normalized.scope;
  acceptance_criteria = normalized.acceptance_criteria;
  constraints = normalized.constraints;
  technical_output_language = input.technical_output_language;
  status = TaskStatus.ready;
  version = 0;
  created_at = now;
  updated_at = now;
}

unfoldable pub create_task :
    Host → WorkspaceAuthorizer → TaskNormalizer → CreateTaskInput → Exec Task
create_task host assert_can_access normalize input = do
  from_result (assert_can_access input.workspace_id input.user_id)
  normalized ←
      from_result
        (normalize input.instruction input.instruction_language input.technical_output_language)
  now ← current_time host
  id ← random_uuid host
  task ← found schema_error (parse_task host.formats (fresh_task input normalized id now))
  save_task host input.workspace_id task
