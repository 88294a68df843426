-- ===== src/Forge/Commands/ResolveApproval.antt =====
-- packages/forge-application/src/approvals/resolve-approval.ts.
use cyclewarden.Prelude.{
  ◌+◌, Bool, true, false, not, none, some, String, ◌!=◌, string_eq, str, obj, end, field,
}
use cyclewarden.Domain.Contracts.{ApprovalRequest, ApprovalStatus, user}
use cyclewarden.Domain.Errors.{unauthorized, approval_already_resolved}
use cyclewarden.Forge.Store.{Host, Outcome}
use cyclewarden.Forge.Exec.{Exec, return, from_result, throw_if, ◌>>=◌, ◌>>◌}
use cyclewarden.Forge.Queries.{get_run, get_approval}
use cyclewarden.Forge.Methods.{
  Request, current_time, save_approval, append_event, execute_idempotent,
}
use cyclewarden.Forge.Commands.Authorizer.{WorkspaceAuthorizer}

pub data Decision : Type 0 where
  approved rejected : Decision

abbrev pub decision_status : Decision → ApprovalStatus
decision_status approved = ApprovalStatus.approved
decision_status rejected = ApprovalStatus.rejected

abbrev pub decision_text : Decision → String
decision_text approved = "approved"
decision_text rejected = "rejected"

abbrev pub is_pending : ApprovalStatus → Bool
is_pending ApprovalStatus.pending = true
is_pending _ = false

pub record ResolveApprovalInput : Type 0 where
  pub workspace_id : String
  pub user_id : String
  pub approval_id : String
  pub idempotency_key : String
  pub decision : Decision
  pub reason : String

abbrev pub resolve_approval_request : ResolveApprovalInput → Request
resolve_approval_request input = record {
  workspace_id = input.workspace_id;
  operation = "resolve-approval";
  idempotency_key = input.idempotency_key;
  body = obj (
      field "approvalId" (str input.approval_id) (
        field "decision" (str (decision_text input.decision))
          (field "reason" (str input.reason) end)));
}

-- The approval request with its resolution.
abbrev pub resolved : ResolveApprovalInput → ApprovalRequest → String → ApprovalRequest
resolved input approval now = record approval {
  status = decision_status input.decision;
  resolved_by = some input.user_id;
  resolved_at = some now;
  reason = some input.reason;
  version = approval.version + 1;
}

module _ (host : Host) where
  -- The `execute` of the command.
  unfoldable pub resolve_approval_body : ResolveApprovalInput → Exec Outcome
  resolve_approval_body input = do
    approval ← get_approval input.approval_id
    run ← get_run approval.run_id
    throw_if (run.workspace_id != input.workspace_id) unauthorized
    throw_if (not (is_pending approval.status)) approval_already_resolved
    now ← current_time host
    saved ← save_approval host (resolved input approval now)
    append_event host (record {
      run_id = run.id;
      type = "approval.resolved";
      payload = obj (
          field "approvalId" (str approval.id)
            (field "decision" (str (decision_text input.decision)) end));
      actor_type = some user;
      actor_id = some input.user_id;
      correlation_id = none;
    })
    return (Outcome.approval saved)

  unfoldable pub resolve_approval : WorkspaceAuthorizer → ResolveApprovalInput → Exec Outcome
  resolve_approval assert_can_access input = do
    from_result (assert_can_access input.workspace_id input.user_id)
    execute_idempotent host (resolve_approval_request input) (resolve_approval_body input)
