-- ===== src/Examples/Domain.antt =====
-- The domain's rules on single runs, actions and reviews.
use cyclewarden.Prelude.{
  is_empty, not, ◌≤◌, ◌≡◌, ◌↔◌, ◌⊎◌, refl, true, some, none, Option, List, [], ◌∷◌, pos, contains,
  All,
}
use cyclewarden.Domain.Contracts.{
  RunState, state_eq, ReviewOutcome, RunLifecycleSnapshot, RiskLevel, ValidationResult,
  ValidationKind, ValidationStatus, AcceptanceEvidence, EvidenceStatus, EvidenceRequirement,
  ReviewDecision,
}
use cyclewarden.Domain.Contracts.RunState.{
  provisioning, running, validating, awaiting_review, completed,
}
use cyclewarden.Domain.Errors.{ok}
use cyclewarden.Domain.CompletionGate.{evaluate_completion_gate}
use cyclewarden.Domain.CompletionGate.Eligibility.{
  IsClear, IsSupported, Approves, eligible_for_approval_iff, eligible_for_publication_iff,
}
use cyclewarden.Domain.RunLifecycle.{
  can_transition, transition_run, create_next_iteration, next_run,
}
use cyclewarden.Domain.RunLifecycle.Diagram.{run_through, completion_needs_review}
use cyclewarden.Domain.RunLifecycle.Iteration.{create_next_iteration_iff}
use cyclewarden.Domain.Approval.{
  SensitiveActionReason, RequestedAction, classify_requested_action, risk_score, is_true,
}
use cyclewarden.Domain.Approval.Classification.{flag, risk_of, reason_eq, classification_exact}
use cyclewarden.Examples.World.{run, review}

abbrev pub validation : ValidationResult
validation = record {
  id = "v";
  run_id = "uu";
  kind = ValidationKind.test;
  command = "npm test";
  requirement = EvidenceRequirement.task_mandatory;
  status = ValidationStatus.passed;
  exit_code = some (pos 0);
  duration_ms = none;
  output_summary = none;
  artifact_ref = none;
}

abbrev pub evidence : AcceptanceEvidence
evidence = record {
  id = "e";
  run_id = "uu";
  criterion_key = "k";
  requirement = EvidenceRequirement.task_mandatory;
  status = EvidenceStatus.satisfied;
  evidence_type = "test";
  evidence_ref = none;
  explanation = "passes";
  waived_by = none;
  waived_reason = none;
  waived_at = none;
}

eligible_for_approval_iff_example :
    ((evaluate_completion_gate 2 (validation ∷ []) (evidence ∷ []) none).eligible_for_approval
      ≡ true)
    ↔ (All IsClear (validation ∷ []) × All IsSupported (evidence ∷ []))
eligible_for_approval_iff_example =
    eligible_for_approval_iff 2 (validation ∷ []) (evidence ∷ []) none

eligible_for_publication_iff_example :
    ((evaluate_completion_gate 2
        (validation ∷ [])
        (evidence ∷ [])
        (some review)).eligible_for_publication
      ≡ true)
    ↔ (All IsClear (validation ∷ [])
        × All IsSupported (evidence ∷ [])
        × ((r : ReviewDecision) × (◌≡◌ {A = Option ReviewDecision} (some review) (some r))
            × Approves 2 r))
eligible_for_publication_iff_example =
    eligible_for_publication_iff 2 (validation ∷ []) (evidence ∷ []) (some review)

abbrev path : List RunState
path = provisioning ∷ running ∷ validating ∷ awaiting_review ∷ completed ∷ []

abbrev done : RunLifecycleSnapshot
done = record (run.lifecycle) { state = completed; version = 5 }

path_legal : run_through run.lifecycle path ≡ ok done
unfolding run_through transition_run can_transition
path_legal = refl

completion_needs_review_example : contains awaiting_review path ≡ true
completion_needs_review_example =
    completion_needs_review run.lifecycle path done refl path_legal refl

-- A rejected run may be iterated where nothing else is active.
iterated_once :
    create_next_iteration
      (record (run.lifecycle) {
        state = completed;
        review_outcome = some ReviewOutcome.rejected;
        version = 1;
      })
      "next"
      (pos 0)
    ≡ ok (next_run run.lifecycle "next")
iterated_once =
    (create_next_iteration_iff _ "next" 0 (next_run run.lifecycle "next")).1
      (refl, refl, refl, refl)

abbrev deploy : RequestedAction
deploy = record {
  operation = "deploy";
  production_deployment = some true;
  destructive_data_change = none;
  protected_branch_write = none;
  secret_access = some true;
  unrestricted_network_access = none;
  privilege_expansion = none;
  budget_increase = none;
}

classification_exact_example :
    ((r : SensitiveActionReason)
      → contains r (classify_requested_action deploy).reasons ≡ is_true (flag r deploy))
    × ((classify_requested_action deploy).requires_approval
        ≡ not (is_empty (classify_requested_action deploy).reasons))
    × All
        (λ r. risk_score (risk_of r) ≤ risk_score (classify_requested_action deploy).risk_level)
        (classify_requested_action deploy).reasons
    × (((classify_requested_action deploy).risk_level ≡ RiskLevel.low)
        ⊎ ((r : SensitiveActionReason) × (is_true (flag r deploy) ≡ true)
            × ((classify_requested_action deploy).risk_level ≡ risk_of r)))
classification_exact_example = classification_exact deploy
