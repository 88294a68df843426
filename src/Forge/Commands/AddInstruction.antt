-- ===== src/Forge/Commands/AddInstruction.antt =====
-- packages/forge-application/src/runs/add-instruction.ts.
use cyclewarden.Prelude.{◌&&◌, none, some, String, ◌!=◌, string_eq, str, obj, end, field}
use cyclewarden.Domain.Contracts.{RunState, state_eq, user}
use cyclewarden.Domain.Errors.{unauthorized, instruction_not_allowed}
use cyclewarden.Forge.Store.{Host}
use cyclewarden.Forge.Exec.{Exec, return, from_result, throw_if, ◌>>=◌, ◌>>◌}
use cyclewarden.Forge.Queries.{get_run}
use cyclewarden.Forge.Methods.{append_event}
use cyclewarden.Forge.Commands.Authorizer.{WorkspaceAuthorizer}

pub record AddInstructionInput : Type 0 where
  pub workspace_id : String
  pub user_id : String
  pub run_id : String
  pub instruction : String

unfoldable pub add_instruction : Host → WorkspaceAuthorizer → AddInstructionInput → Exec (Unit {0})
add_instruction host assert_can_access input = do
  from_result (assert_can_access input.workspace_id input.user_id)
  run ← get_run input.run_id
  throw_if (run.workspace_id != input.workspace_id) unauthorized
  throw_if (run.state != RunState.running && run.state != RunState.awaiting_approval)
      (instruction_not_allowed run.state)
  append_event host (record {
    run_id = run.id;
    type = "agent.instruction_added";
    payload = obj (field "instruction" (str input.instruction) end);
    actor_type = some user;
    actor_id = some input.user_id;
    correlation_id = none;
  })
  return tt
