-- ===== src/Forge/Commands/ResolveReview.antt =====
-- packages/forge-application/src/reviews/resolve-review.ts.
use cyclewarden.Prelude.{
  ℕ, not, Option, none, some, List, [], ◌∷◌, String, ◌!=◌, string_eq, map, or_else, str, str?, arr,
  obj, Items, nil, cons, end, field, strs, if◌then◌else◌,
}
use cyclewarden.Domain.Contracts.{
  Run, RunState, state_eq, ReviewOutcome, ReviewDecision, AdvisoryWaiver, ValidationResult,
  AcceptanceEvidence, user,
}
use cyclewarden.Domain.Schemas.{review_schema}
use cyclewarden.Domain.CompletionGate.{
  CompletionBlocker, CompletionGateResult, is_approved, evaluate_completion_gate,
}
use cyclewarden.Domain.RunLifecycle.{finalize_rejected_review, transition_run}
use cyclewarden.Domain.Errors.{unauthorized, run_not_awaiting_review, gate_blocked, schema_error}
use cyclewarden.Forge.Store.{Host, Outcome}
use cyclewarden.Forge.Exec.{Exec, return, from_result, gets, throw_if, ◌>>=◌, ◌>>◌}
use cyclewarden.Forge.Queries.{get_run, get_evidence_version, get_validations, get_evidence}
use cyclewarden.Forge.Methods.{
  Request, random_uuid, current_time, save_run, save_review, append_event, execute_idempotent,
}
use cyclewarden.Forge.Commands.Authorizer.{WorkspaceAuthorizer}

-- A waiver as the reviewer gives it, with no time.
pub record WaiverInput : Type 0 where
  pub evidence_key : String
  pub reason : String
  pub scope : String

pub record ResolveReviewInput : Type 0 where
  pub workspace_id : String
  pub user_id : String
  pub run_id : String
  pub idempotency_key : String
  pub decision : ReviewOutcome
  pub rationale : Option String
  pub advisory_waivers : Option (List WaiverInput)

abbrev pub outcome_text : ReviewOutcome → String
outcome_text ReviewOutcome.approved = "approved"
outcome_text ReviewOutcome.rejected = "rejected"
outcome_text ReviewOutcome.cancelled = "cancelled"

abbrev pub waiver_items : List WaiverInput → Items
waiver_items [] = nil
waiver_items (w ∷ ws) =
    cons
      (obj (
        field "evidenceKey" (str w.evidence_key)
          (field "reason" (str w.reason) (field "scope" (str w.scope) end))))
      (waiver_items ws)

abbrev pub resolve_review_request : ResolveReviewInput → Request
resolve_review_request input = record {
  workspace_id = input.workspace_id;
  operation = "review";
  idempotency_key = input.idempotency_key;
  body = obj (
      field "runId" (str input.run_id) (
        field "decision" (str (outcome_text input.decision)) (
          field "rationale" (str? input.rationale) (
            field "advisoryWaivers" (arr (waiver_items (or_else input.advisory_waivers [])))
              end))));
}

abbrev pub timed_waiver : String → WaiverInput → AdvisoryWaiver
timed_waiver now w = record {
  evidence_key = w.evidence_key;
  reason = w.reason;
  scope = w.scope;
  waived_at = now;
}

-- The decision that is saved.
abbrev pub decided :
    ResolveReviewInput
    → Run
    → ℕ
    → List ValidationResult
    → List AcceptanceEvidence
    → String
    → String
    → ReviewDecision
decided input run evidence_version validations evidence id now = record {
  id = id;
  run_id = run.id;
  decision = input.decision;
  decided_by = input.user_id;
  rationale = input.rationale;
  evidence_snapshot_version = evidence_version;
  evidence_snapshot = obj (
      field "validationIds" (arr (strs (map (λ (v : ValidationResult). v.id) validations)))
        (field "evidenceIds" (arr (strs (map (λ (e : AcceptanceEvidence). e.id) evidence))) end));
  advisory_waivers = map (timed_waiver now) (or_else input.advisory_waivers []);
  created_at = now;
}

-- The gate of an approval.
abbrev pub require_gate : CompletionGateResult → Exec (Unit {0})
require_gate gate =
    throw_if (not gate.eligible_for_approval)
      (gate_blocked (map (λ (b : CompletionBlocker). b.code) gate.blockers))

module _ (host : Host) where
  unfoldable pub check_gate : ReviewOutcome → Run → Exec (Unit {0})
  check_gate decision run =
      if is_approved decision
      then (do
        version ← gets (get_evidence_version run.id)
        validations ← gets (get_validations run.id)
        evidence ← gets (get_evidence run.id)
        require_gate (evaluate_completion_gate version validations evidence none))
      else return tt

  -- The transition that a decision makes: an approved run waits to be published.
  unfoldable pub conclude : ReviewOutcome → Run → String → Exec Run
  conclude ReviewOutcome.approved run now = return run
  conclude ReviewOutcome.rejected run now = do
    lifecycle ← from_result (finalize_rejected_review run.lifecycle)
    save_run host (record run { lifecycle = lifecycle; finished_at = some now; updated_at = now })
  conclude ReviewOutcome.cancelled run now = do
    lifecycle ← from_result (transition_run run.lifecycle RunState.completed)
    save_run host (record run {
      lifecycle = record lifecycle { review_outcome = some ReviewOutcome.cancelled };
      finished_at = some now;
      updated_at = now;
    })

  -- The `execute` of the command.
  unfoldable pub resolve_review_body : ResolveReviewInput → Exec Outcome
  resolve_review_body input = do
    run ← get_run input.run_id
    throw_if (run.workspace_id != input.workspace_id) unauthorized
    throw_if (run.state != RunState.awaiting_review) (run_not_awaiting_review run.state)
    evidence_version ← gets (get_evidence_version run.id)
    check_gate input.decision run
    now ← current_time host
    id ← random_uuid host
    validations ← gets (get_validations run.id)
    evidence ← gets (get_evidence run.id)
    let review : ReviewDecision = decided input run evidence_version validations evidence id now
    throw_if (not (review_schema host.formats review)) schema_error
    save_review host review
    concluded ← conclude input.decision run now
    append_event host (record {
      run_id = concluded.id;
      type = "review.resolved";
      payload = obj (field "decision" (str (outcome_text input.decision)) end);
      actor_type = some user;
      actor_id = some input.user_id;
      correlation_id = none;
    })
    return (Outcome.review review concluded)

  unfoldable pub resolve_review : WorkspaceAuthorizer → ResolveReviewInput → Exec Outcome
  resolve_review assert_can_access input = do
    from_result (assert_can_access input.workspace_id input.user_id)
    execute_idempotent host (resolve_review_request input) (resolve_review_body input)
