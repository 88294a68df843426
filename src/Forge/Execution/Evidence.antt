-- ===== src/Forge/Execution/Evidence.antt =====
-- What an execution records as evidence (packages/forge-application/src/runs/execute-run.ts), before the
-- completion gate (packages/forge-domain/src/review/completion-gate.ts).
use cyclewarden.Prelude.{
  ◌+◌, ◌≡◌, ◌↔◌, refl, sym, subst, ap, ◌∙◌, none, List, [], ◌∷◌, ◌++◌, String, put, get-put_self,
  arith, true, Bool-cases, inl, inr, All, All-append,
}
use cyclewarden.Domain.Contracts.{
  Task, AcceptanceCriterion, Run, ValidationResult, AcceptanceEvidence, ValidationStatus,
}
use cyclewarden.Domain.Schemas.{validation_schema, evidence_schema}
use cyclewarden.Domain.CompletionGate.Eligibility.{IsClear, IsSupported, eligible_for_approval_iff}
use cyclewarden.Domain.Errors.{Result, ok, throw}
use cyclewarden.Forge.Store.{Store, Host}
use cyclewarden.Forge.Exec.{Exec, then_do, ◌>>=◌}
use cyclewarden.Forge.Queries.{get_validations, get_evidence, get_evidence_version}
use cyclewarden.Forge.Methods.{random_uuid, save_validation, save_evidence}
use cyclewarden.Forge.Steps.{GateOpen}
use cyclewarden.Forge.Execution.Providers.{SandboxExecResult}
use cyclewarden.Forge.Execution.Requests.{
  is_success, validation_of, evidence_of, save_all_evidence, record_validation,
}

-- A property of the store that the first part gives and the rest keeps.
after_case :
    {A B : Type 0} (P : Store → Type 0) (r : Result A × Store) (k : A → Exec B)
    → P r.1
    → ((a : A) (t : Store) → P t → P (k a t).1)
    → P (then_do r k).1
after_case P (ok a, t) k p q = q a t p
after_case P (throw e, t) k p q = p

module _ (host : Host) (run : Run) (result : SandboxExecResult) where
  -- The evidence of a successful execution supports its criterion, whatever that requires.
  supports :
      (criterion : AcceptanceCriterion) (id : String)
      → is_success result.exit_code ≡ true
      → IsSupported (evidence_of run result criterion id)
  supports criterion id success = rw success (λ mandatory. refl, λ optional waived. absurd (cc))

  -- The run has these validations, and all its evidence supports it.
  Supported : List ValidationResult → Store → Type 0
  Supported vs s = (get_validations run.id s ≡ vs) × All IsSupported (get_evidence run.id s)

  saved_case :
      (vs : List ValidationResult) (criterion : AcceptanceCriterion) (id : String) (s : Store)
      → is_success result.exit_code ≡ true
      → Supported vs s
      → Supported vs (save_evidence host (evidence_of run result criterion id) s).1
  unfolding Supported save_evidence ◌>>=◌ get_validations get_evidence
  saved_case vs criterion id s success h =
      elim (Bool-cases (evidence_schema host.formats (evidence_of run result criterion id))) [
        | inl good ↦
            rw (good, get-put_self)
              (h.0, All-append IsSupported _ _ h.1 (supports criterion id success, tt))
        | inr bad ↦ rw bad h
      ]

  drawn_lem :
      (s : Store) (vs : List ValidationResult)
      → Supported vs s
      → Supported vs (record s { uuids_drawn = s.uuids_drawn + 1 })
  unfolding Supported get_validations get_evidence
  drawn_lem s vs h = h

  all-Supported :
      (vs : List ValidationResult) (criteria : List AcceptanceCriterion) (s : Store)
      → is_success result.exit_code ≡ true
      → Supported vs s
      → Supported vs (save_all_evidence host run result criteria s).1
  unfolding save_all_evidence ◌>>=◌ random_uuid
  all-Supported vs [] s success h = h
  all-Supported vs (criterion ∷ criteria) s success h =
      let drawn : Store = record s { uuids_drawn = s.uuids_drawn + 1 } in
      let id : String = host.uuid s.uuids_drawn in
      after_case (Supported vs) (save_evidence host (evidence_of run result criterion id) drawn) _
        (saved_case vs criterion id drawn success (drawn_lem s vs h))
        λ item t p. all-Supported vs criteria t success p

  Has : List ValidationResult → Store → Type 0
  Has vs s = get_validations run.id s ≡ vs

  one_kept :
      (vs : List ValidationResult) (item : AcceptanceEvidence) (s : Store)
      → Has vs s
      → Has vs (save_evidence host item s).1
  unfolding Has save_evidence ◌>>=◌ get_validations
  one_kept vs item s h = elim (Bool-cases (evidence_schema host.formats item)) [
    | inl good ↦ rw good h
    | inr bad ↦ rw bad h
  ]

  -- The validations stay whatever the evidence says.
  kept_validations :
      (vs : List ValidationResult) (criteria : List AcceptanceCriterion) (s : Store)
      → Has vs s
      → Has vs (save_all_evidence host run result criteria s).1
  unfolding save_all_evidence ◌>>=◌ random_uuid Has get_validations
  kept_validations vs [] s h = h
  kept_validations vs (criterion ∷ criteria) s h =
      let drawn : Store = record s { uuids_drawn = s.uuids_drawn + 1 } in
      let item : AcceptanceEvidence = evidence_of run result criterion (host.uuid s.uuids_drawn) in
      after_case (Has vs) (save_evidence host item drawn) _ (one_kept vs item drawn h)
        λ saved t p. kept_validations vs criteria t p

  module _ (task : Task) (command : String) (s : Store) where
    abbrev recorded : Store
    recorded = (record_validation host run task command result s).1

    abbrev first : ValidationResult
    first = validation_of run command result (host.uuid s.uuids_drawn)

    -- The store with the validation alone.
    abbrev validated : Store
    validated = record s {
      uuids_drawn = s.uuids_drawn + 1;
      validations = put s.validations run.id (get_validations run.id s ++ first ∷ []);
      evidence_versions = put s.evidence_versions run.id (get_evidence_version run.id s + 1);
    }

    recorded_is :
        (record_validation host run task command result s).0 ≡ ok tt
        → recorded ≡ (save_all_evidence host run result task.acceptance_criteria validated).1
    unfolding record_validation save_validation ◌>>=◌ random_uuid
    recorded_is done = elim (Bool-cases (validation_schema host.formats first)) [
      | inl good ↦ rw (recorded, good) refl
      | inr bad ↦ absurd (cc (rw bad at done))
    ]

    recorded_validations :
        (record_validation host run task command result s).0 ≡ ok tt
        → get_validations run.id s ≡ []
        → get_validations run.id recorded ≡ first ∷ []
    unfolding Has get_validations
    recorded_validations done none_yet =
        ap (get_validations run.id) (recorded_is done)
        ∙ kept_validations (first ∷ []) task.acceptance_criteria validated
            (rw get-put_self (ap (λ vs. vs ++ first ∷ []) none_yet))

    recorded_evidence :
        (record_validation host run task command result s).0 ≡ ok tt
        → get_validations run.id s ≡ []
        → get_evidence run.id s ≡ []
        → is_success result.exit_code ≡ true
        → All IsSupported (get_evidence run.id recorded)
    unfolding Supported get_validations get_evidence
    recorded_evidence done no_validations no_evidence success =
        subst (λ t. All IsSupported (get_evidence run.id t)) (sym (recorded_is done))
          ((all-Supported (first ∷ []) task.acceptance_criteria validated success
            (rw get-put_self (ap (λ vs. vs ++ first ∷ []) no_validations), rw no_evidence tt)).1)

    passed_means : first.status ≡ ValidationStatus.passed → is_success result.exit_code ≡ true
    passed_means h = ground arith

    success_passes : is_success result.exit_code ≡ true → first.status ≡ ValidationStatus.passed
    success_passes h = ground arith

    -- A first execution's evidence is what the completion gate asks for exactly when its command
    -- has exited with 0: if a run has no validations and no evidence, and those of the execution
    -- are recorded, then the run may be approved exactly when the command has succeeded.
    pub first_validation_decides :
        (record_validation host run task command result s).0 ≡ ok tt
        → get_validations run.id s ≡ []
        → get_evidence run.id s ≡ []
        → GateOpen recorded run.id ↔ (is_success result.exit_code ≡ true)
    first_validation_decides done no_validations no_evidence = (
      λ approvable.
          let clear : All IsClear (first ∷ []) =
            subst (All IsClear) (recorded_validations done no_validations)
              ((eligible_for_approval_iff _ (get_validations run.id recorded) _ none).0
                approvable).0 in
          passed_means (clear.0 refl),
      λ success. (eligible_for_approval_iff _ _ _ none).1 (
        subst (All IsClear) (sym (recorded_validations done no_validations))
            ((λ mandatory. success_passes success), tt),
        recorded_evidence done no_validations no_evidence success,
      ),
    )
