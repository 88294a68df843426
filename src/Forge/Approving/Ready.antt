-- ===== src/Forge/Approving/Ready.antt =====
-- A run that is ready to be published, and that an approval makes it so
-- (packages/forge-application/src/reviews/resolve-review.ts).
use cyclewarden.Prelude.{
  ◌≡◌, refl, ◌!=◌, Bool-cases, inl, inr, true, false, none, some, String, get, put, get-put_self,
  arith, ℕ, List, Dict,
}
use cyclewarden.Domain.Contracts.{Run, RunState, state_eq, ReviewOutcome, ReviewDecision, RunEvent}
use cyclewarden.Domain.CompletionGate.{CompletionGateResult, evaluate_completion_gate}
use cyclewarden.Domain.CompletionGate.Eligibility.{
  eligible_for_approval_iff, eligible_for_publication_iff,
}
use cyclewarden.Domain.Errors.{ForgeError, ok}
use cyclewarden.Forge.Store.{Store, Host, Outcome}
use cyclewarden.Forge.Exec.{◌>>=◌}
use cyclewarden.Forge.Queries.{
  get_run, get_validations, get_evidence, get_evidence_version, get_review,
}
use cyclewarden.Forge.Commands.ResolveReview.{
  ResolveReviewInput, resolve_review_body, check_gate, conclude,
}
use cyclewarden.Forge.Refinement.Coherence.{same_text}
use cyclewarden.Forge.Ensures.{
  Ensures, Ensures-known, Ensures-test, Ensures-found, Ensures-gets, Ensures-throw_if,
}
use cyclewarden.Forge.Ensures.Methods.{
  Ensures-random_uuid, Ensures-current_time, Ensures-save_review, Ensures-append_event,
}

-- The gate as it stands for a run.
abbrev pub gate_of : String → Store → CompletionGateResult
gate_of run_id t =
    evaluate_completion_gate (get_evidence_version run_id t) (get_validations run_id t)
      (get_evidence run_id t) (get_review run_id t)

-- The run stands in the workspace, waits for its review, and the gate lets it be published.
abbrev pub IsReady : String → String → Run → Store → Type 0
IsReady workspace_id run_id run t =
    (get t.runs run_id ≡ some run)
    × (run.workspace_id ≡ workspace_id)
    × (run.state ≡ RunState.awaiting_review)
    × ((gate_of run.id t).eligible_for_publication ≡ true)

abbrev pub Any : ForgeError → Store → Type 0
Any e t = Unit {0}

awaiting : (s : RunState) → (s != RunState.awaiting_review) ≡ false → s ≡ RunState.awaiting_review
awaiting s h = ground arith

module _ (host : Host) (s : Store) where
  abbrev MayBeApproved : Run → Type 0
  MayBeApproved run =
      (evaluate_completion_gate (get_evidence_version run.id s) (get_validations run.id s)
        (get_evidence run.id s) none).eligible_for_approval
      ≡ true

  -- The gate of an approval lets it pass only if the run may be approved.
  gate_passed :
      (run : Run) (decision : ReviewOutcome)
      → decision ≡ ReviewOutcome.approved
      → Ensures Any (λ _ t. (t ≡ s) × MayBeApproved run) (check_gate host decision run s)
  unfolding check_gate ◌>>=◌
  gate_passed run ReviewOutcome.rejected e = absurd (cc)
  gate_passed run ReviewOutcome.cancelled e = absurd (cc)
  gate_passed run ReviewOutcome.approved e =
      elim (Bool-cases
        (evaluate_completion_gate (get_evidence_version run.id s) (get_validations run.id s)
          (get_evidence run.id s) none).eligible_for_approval) [
            | inl good ↦ rw good (refl, refl)
            | inr bad ↦ rw bad tt
          ]

  -- An approval does not move its run.
  not_moved :
      (run : Run) (decision : ReviewOutcome) (now : String)
      → decision ≡ ReviewOutcome.approved
      → conclude host decision run now s ≡ (ok run, s)
  unfolding conclude
  not_moved run ReviewOutcome.approved now e = refl
  not_moved run ReviewOutcome.rejected now e = cc
  not_moved run ReviewOutcome.cancelled now e = cc

  -- An approval on the current evidence is what the gate of a publication asks for.
  ready_after :
      (run : Run) (review : ReviewDecision) (events : Dict (List RunEvent)) (drawn read : ℕ)
      → MayBeApproved run
      → review.decision ≡ ReviewOutcome.approved
      → review.evidence_snapshot_version ≡ get_evidence_version run.id s
      → (gate_of run.id (record s {
        reviews = put s.reviews run.id review;
        events = events;
        uuids_drawn = drawn;
        times_read = read;
      })).eligible_for_publication
        ≡ true
  unfolding get_evidence_version get_validations get_evidence get_review
  ready_after run review events drawn read may approves current =
      let (clear, supported) = (eligible_for_approval_iff _ _ _ none).0 may in
      (eligible_for_publication_iff _ _ _ _).1
        (clear, supported, (review, get-put_self s.reviews run.id review, (approves, current)))

module _ (input : ResolveReviewInput) where
  abbrev pub Approved : Outcome → Store → Type 0
  Approved outcome t = (run : Run) × IsReady input.workspace_id input.run_id run t

  pub approval-Ensures :
      (host : Host) (s : Store)
      → input.decision ≡ ReviewOutcome.approved
      → Ensures Any Approved (resolve_review_body host input s)
  unfolding resolve_review_body get_run
  approval-Ensures host s approves =
      Ensures-found Any Approved _ _ _ s (λ _. tt)
        λ run stored.
          Ensures-throw_if Any Approved _ _ _ s (λ _. tt)
            λ own.
              Ensures-throw_if Any Approved _ _ _ s (λ _. tt)
                λ waits. Ensures-gets Any Approved _ _ s (
                  Ensures-test Any Approved (MayBeApproved host s run) _ _ s
                    (gate_passed host s run input.decision approves)
                    λ may. Ensures-current_time Any host Approved _ _ (
                      Ensures-random_uuid Any host Approved _ _ (
                        Ensures-gets Any Approved _ _ _ (
                          Ensures-gets Any Approved _ _ _ (
                            Ensures-throw_if Any Approved _ _ _ _ (λ _. tt)
                              λ valid. Ensures-save_review Any host Approved _ _ _ tt tt (
                                Ensures-known Any Approved _ _ _ run _
                                  (not_moved host _ run input.decision _ approves)
                                  (Ensures-append_event Any host Approved _ _ _ tt (
                                    run,
                                    (
                                      stored,
                                      same_text _ _ own,
                                      awaiting run.state waits,
                                      ready_after host s run _ _ _ _ may approves refl,
                                    ),
                                  ))))))))
