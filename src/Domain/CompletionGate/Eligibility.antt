-- ===== src/Domain/CompletionGate/Eligibility.antt =====
-- When the completion gate lets a run be approved, and when it lets it be published.
use cyclewarden.Prelude.{
  ℕ, ◌≡◌, refl, ◌↔◌, true, false, ◌&&◌, Option, none, some, List, [], ◌∷◌, ◌++◌, arith, All,
  is_empty, is_some,
}
use cyclewarden.Domain.Contracts.{
  ValidationResult, ValidationStatus, AcceptanceEvidence, satisfied, waived, ReviewDecision,
  ReviewOutcome,
}
use cyclewarden.Domain.CompletionGate.{
  CompletionBlocker, is_mandatory, truthy, has_complete_advisory_waiver, validation_blockers,
  evidence_blockers, each_validation, each_evidence, review_blockers, is_evidence_snapshot_stale,
  evaluate_completion_gate,
}

-- A mandatory validation has passed.
abbrev pub IsClear : ValidationResult → Type 0
IsClear v = is_mandatory v.requirement ≡ true → v.status ≡ ValidationStatus.passed

-- Mandatory evidence is satisfied; advisory evidence that is waived says who waived it, why and when.
abbrev pub IsSupported : AcceptanceEvidence → Type 0
IsSupported e =
    (is_mandatory e.requirement ≡ true → e.status ≡ satisfied)
    × (is_mandatory e.requirement ≡ false
        → e.status ≡ waived
        → (truthy e.waived_by ≡ true)
          × (truthy e.waived_reason ≡ true)
          × (truthy e.waived_at ≡ true))

-- The decision approves the evidence as it stands.
abbrev pub Approves : ℕ → ReviewDecision → Type 0
Approves current r = (r.decision ≡ ReviewOutcome.approved) × (r.evidence_snapshot_version ≡ current)

is_empty-append :
    (xs ys : List CompletionBlocker) → is_empty (xs ++ ys) ≡ (is_empty xs && is_empty ys)
is_empty-append [] ys = refl
is_empty-append (x ∷ xs) ys = refl

one-validation : (v : ValidationResult) → (is_empty (validation_blockers v) ≡ true) ↔ IsClear v
unfolding validation_blockers
one-validation v = (λ h m. ground arith, λ h. ground arith)

one-evidence : (e : AcceptanceEvidence) → (is_empty (evidence_blockers e) ≡ true) ↔ IsSupported e
unfolding evidence_blockers has_complete_advisory_waiver
one-evidence e = (λ h. (λ m. ground arith, λ m w. ground arith), λ h. ground (arith, h.0, h.1))

each_validation_lem :
    (vs : List ValidationResult) → (is_empty (each_validation vs) ≡ true) ↔ All IsClear vs
unfolding each_validation
each_validation_lem [] = (λ h. tt, λ h. refl)
each_validation_lem (v ∷ vs) = (
  λ h.
      let both = (rw is_empty-append at h) in
      ((one-validation v).0 (ground arith), (each_validation_lem vs).0 (ground arith)),
  λ h. rw (is_empty-append, (one-validation v).1 h.0, (each_validation_lem vs).1 h.1),
)

each_evidence_lem :
    (es : List AcceptanceEvidence) → (is_empty (each_evidence es) ≡ true) ↔ All IsSupported es
unfolding each_evidence
each_evidence_lem [] = (λ h. tt, λ h. refl)
each_evidence_lem (e ∷ es) = (
  λ h.
      let both = (rw is_empty-append at h) in
      ((one-evidence e).0 (ground arith), (each_evidence_lem es).0 (ground arith)),
  λ h. rw (is_empty-append, (one-evidence e).1 h.0, (each_evidence_lem es).1 h.1),
)

review_clear :
    (current : ℕ) (r : ReviewDecision)
    → (is_empty (review_blockers current (some r)) ≡ true) ↔ Approves current r
unfolding review_blockers is_evidence_snapshot_stale
review_clear current r = (λ h. (ground arith, ground arith), λ h. ground arith)

-- A run may be approved exactly when every mandatory validation has passed, all mandatory evidence
-- is satisfied, and every waiver of advisory evidence is complete. The version and the review
-- decision make no difference.
pub eligible_for_approval_iff :
    (current : ℕ) (vs : List ValidationResult) (es : List AcceptanceEvidence)
    (review : Option ReviewDecision)
    → ((evaluate_completion_gate current vs es review).eligible_for_approval ≡ true)
      ↔ (All IsClear vs × All IsSupported es)
unfolding evaluate_completion_gate
eligible_for_approval_iff current vs es review = (
  λ h.
      let both = (rw is_empty-append at h) in
      ((each_validation_lem vs).0 (ground arith), (each_evidence_lem es).0 (ground arith)),
  λ h. rw (is_empty-append, (each_validation_lem vs).1 h.0, (each_evidence_lem es).1 h.1),
)

publication_parts :
    (current : ℕ) (vs : List ValidationResult) (es : List AcceptanceEvidence)
    (review : Option ReviewDecision)
    → (evaluate_completion_gate current vs es review).eligible_for_publication ≡ (
        is_empty (each_validation vs)
        && is_empty (each_evidence es)
        && is_some review
        && is_empty (review_blockers current review))
unfolding evaluate_completion_gate
publication_parts current vs es review = simp is_empty-append (ground arith)

-- A run may be published exactly when it may be approved and there is a review decision that
-- approves it, taken on the current version of the evidence.
pub eligible_for_publication_iff :
    (current : ℕ) (vs : List ValidationResult) (es : List AcceptanceEvidence)
    (review : Option ReviewDecision)
    → ((evaluate_completion_gate current vs es review).eligible_for_publication ≡ true) ↔ (
        All IsClear vs
        × All IsSupported es
        × ((r : ReviewDecision) × (review ≡ some r) × Approves current r))
eligible_for_publication_iff current vs es none =
    (λ h. absurd (ground (arith, publication_parts current vs es none)), λ h. absurd (ground arith))
eligible_for_publication_iff current vs es (some r) = (
  λ h.
      let parts = rw publication_parts at h in
      (
        (each_validation_lem vs).0 (ground arith),
        (each_evidence_lem es).0 (ground arith),
        (r, refl, (review_clear current r).0 (ground arith)),
      ),
  λ h.
      rw (publication_parts, (each_validation_lem vs).1 h.0, (each_evidence_lem es).1 h.1)
        (approve h.2),
)
  where
    approve :
        ((x : ReviewDecision) × (◌≡◌ {A = Option ReviewDecision} (some r) (some x))
          × Approves current x)
        → is_empty (review_blockers current (some r)) ≡ true
    approve (x, e, a) = (review_clear current r).1 (ground arith)
