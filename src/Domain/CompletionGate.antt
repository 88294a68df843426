-- ===== src/Domain/CompletionGate.antt =====
-- packages/forge-domain/src/review/completion-gate.ts: what blocks an approval or a publication.
-- The texts of `message` are left out.
pub mod Eligibility
use cyclewarden.Prelude.{
  ℕ, Bool, true, false, not, ◌&&◌, Option, none, some, List, [], ◌∷◌, ◌++◌, String, ◌!=◌, nat_eq,
  is_blank, is_empty, is_some, if◌then◌else◌,
}
use cyclewarden.Domain.Contracts.{
  EvidenceRequirement, constitution, task_mandatory, advisory, ValidationResult, ValidationStatus,
  AcceptanceEvidence, EvidenceStatus, satisfied, waived, ReviewDecision, ReviewOutcome,
}

pub data CompletionBlockerCode : Type 0 where
  stale_evidence_snapshot mandatory_validation_failed : CompletionBlockerCode
  mandatory_evidence_missing invalid_evidence_waiver review_not_approved : CompletionBlockerCode

pub record CompletionBlocker : Type 0 where
  pub code : CompletionBlockerCode
  pub key : String

pub record CompletionGateResult : Type 0 where
  pub eligible_for_approval : Bool
  pub eligible_for_publication : Bool
  pub blockers : List CompletionBlocker

abbrev pub is_mandatory : EvidenceRequirement → Bool
is_mandatory constitution = true
is_mandatory task_mandatory = true
is_mandatory advisory = false

-- `value` is truthy: present and not empty.
abbrev pub truthy : Option String → Bool
truthy none = false
truthy (some s) = not (is_blank s)

pub has_complete_advisory_waiver : AcceptanceEvidence → Bool
has_complete_advisory_waiver e = truthy e.waived_by && truthy e.waived_reason && truthy e.waived_at

abbrev pub is_passed : ValidationStatus → Bool
is_passed ValidationStatus.passed = true
is_passed _ = false

abbrev pub is_satisfied : EvidenceStatus → Bool
is_satisfied satisfied = true
is_satisfied _ = false

abbrev pub is_waived : EvidenceStatus → Bool
is_waived waived = true
is_waived _ = false

abbrev pub is_approved : ReviewOutcome → Bool
is_approved ReviewOutcome.approved = true
is_approved _ = false

pub is_evidence_snapshot_stale : ℕ → ℕ → Bool
is_evidence_snapshot_stale evidence_version current_version = evidence_version != current_version

-- The body of the loop over the validations.
validation_blockers : ValidationResult → List CompletionBlocker
validation_blockers v =
    if is_mandatory v.requirement && not (is_passed v.status)
    then record { code = CompletionBlockerCode.mandatory_validation_failed; key = v.id } ∷ []
    else []

-- The body of the loop over the acceptance evidence.
evidence_blockers : AcceptanceEvidence → List CompletionBlocker
unfolding has_complete_advisory_waiver
evidence_blockers e =
    if is_mandatory e.requirement
    then (if is_satisfied e.status
        then []
        else record {
          code =
              if is_waived e.status
              then CompletionBlockerCode.invalid_evidence_waiver
              else CompletionBlockerCode.mandatory_evidence_missing;
          key = e.criterion_key;
        }
          ∷ [])
    else if is_waived e.status && not (has_complete_advisory_waiver e)
    then record { code = CompletionBlockerCode.invalid_evidence_waiver; key = e.criterion_key } ∷ []
    else []

each_validation : List ValidationResult → List CompletionBlocker
unfolding validation_blockers
each_validation [] = []
each_validation (v ∷ vs) = validation_blockers v ++ each_validation vs

each_evidence : List AcceptanceEvidence → List CompletionBlocker
unfolding evidence_blockers
each_evidence [] = []
each_evidence (e ∷ es) = evidence_blockers e ++ each_evidence es

-- The part of the gate that reads the review decision, if there is one.
review_blockers : ℕ → Option ReviewDecision → List CompletionBlocker
unfolding is_evidence_snapshot_stale
review_blockers current none = []
review_blockers current (some r) =
    (if is_evidence_snapshot_stale r.evidence_snapshot_version current
      then record { code = CompletionBlockerCode.stale_evidence_snapshot; key = r.id } ∷ []
      else [])
    ++ (if is_approved r.decision
        then []
        else record { code = CompletionBlockerCode.review_not_approved; key = r.id } ∷ [])

unfoldable pub evaluate_completion_gate :
    ℕ
    → List ValidationResult
    → List AcceptanceEvidence
    → Option ReviewDecision
    → CompletionGateResult
unfolding each_validation each_evidence review_blockers
evaluate_completion_gate current validations evidence review =
    let before_review = each_validation validations ++ each_evidence evidence in
    let blockers = before_review ++ review_blockers current review in
    record {
      eligible_for_approval = is_empty before_review;
      eligible_for_publication = is_empty before_review && is_some review && is_empty blockers;
      blockers = blockers;
    }
