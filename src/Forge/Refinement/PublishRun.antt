-- ===== src/Forge/Refinement/PublishRun.antt =====
-- `publishRun` keeps to the steps of its workspace, before and after it waits for the provider.
use cyclewarden.Prelude.{
  ℕ, not, ◌≡◌, refl, ◌∙◌, sym, subst, true, false, Option, some, List, String, get, get-put_self,
  arith,
}
use cyclewarden.Domain.Contracts.{
  Run, RunState, ReviewOutcome, ReviewDecision, RunLifecycleSnapshot, ValidationResult,
  AcceptanceEvidence,
}
use cyclewarden.Domain.CompletionGate.{evaluate_completion_gate}
use cyclewarden.Domain.CompletionGate.Eligibility.{eligible_for_publication_iff}
use cyclewarden.Domain.RunLifecycle.{is_active_run_state, transition_run, can_transition}
use cyclewarden.Domain.Errors.{ok}
use cyclewarden.Forge.Store.{Store, Host}
use cyclewarden.Forge.Exec.{Exec, ◌>>=◌}
use cyclewarden.Forge.Queries.{get_run, get_review}
use cyclewarden.Forge.Commands.PublishRun.{
  PublishRunInput, SourceChangeRequestResult, SourceProvider, begin_publication, finish_publication,
  publish_run_body,
}
use cyclewarden.Forge.Steps.{Step, Reach, here}
use cyclewarden.Forge.Steps.Rules.{
  Keeps, keeps_found, keeps_gets, keeps_throw_if, keeps_result, keeps_current_time,
  keeps_random_uuid, keeps_save_run, keeps_append_event,
}
use cyclewarden.Forge.Steps.Saves.{keeps_save_publication, keeps_assoc, keeps_return}
use cyclewarden.Forge.Refinement.Coherence.{
  IsCoherent, at_own_id, same_text, transition_same, moving,
}

active_before_publishing :
    (old new : RunLifecycleSnapshot)
    → transition_run old RunState.publishing ≡ ok new
    → is_active_run_state old.state ≡ true
unfolding transition_run can_transition is_active_run_state
active_before_publishing old new h = ground arith

active_before_completed :
    (old new : RunLifecycleSnapshot)
    → transition_run old RunState.completed ≡ ok new
    → is_active_run_state old.state ≡ true
unfolding transition_run can_transition is_active_run_state
active_before_completed old new h = ground arith

module _ (host : Host) (workspace : String) (start : Store) where
  -- The part after the provider's answer keeps to the steps, where the run is still stored as it was
  -- and its review approves it.
  pub finish_publication_keeps :
      (run : Run) (review : ReviewDecision) (result : SourceChangeRequestResult) (s : Store)
      → Reach host workspace start s
      → get s.runs run.id ≡ some run
      → run.workspace_id ≡ workspace
      → get s.reviews run.id ≡ some review
      → review.decision ≡ ReviewOutcome.approved
      → Keeps host workspace start (finish_publication host run result s)
  unfolding finish_publication
  finish_publication_keeps run review result s r stored own reviewed approves =
      keeps_current_time host workspace start _ s r λ r1.
        keeps_random_uuid host workspace start _ _ r1 λ r2.
          keeps_throw_if host workspace start _ _ _ _ r2 λ valid.
            keeps_save_publication host workspace start _ _ _ r2
              (Step.publish _ _ review (run, stored, own) reviewed approves)
              λ r3. keeps_result host workspace start _ _ _ r3 λ lifecycle moved.
                keeps_save_run host workspace start _ _ _ r3
                  (moving host workspace _ run _ RunState.completed lifecycle
                    (some ReviewOutcome.approved) stored moved refl own
                    (active_before_completed run.lifecycle lifecycle moved))
                  λ r4.
                    keeps_append_event host workspace start _ _ _ r4
                      (
                        _,
                        get-put_self s.runs _ _,
                        (transition_same run.lifecycle RunState.completed lifecycle moved).1 ∙ own,
                      )
                      λ r5. r5

module _ (host : Host) (input : PublishRunInput) (s : Store) (coherent : IsCoherent host s) where
  -- What holds when the provider is asked: the run is stored as being published, in the caller's
  -- workspace, and its review approves it.
  abbrev pub IsPublishing : Run → Store → Type 0
  IsPublishing run t =
      (get t.runs run.id ≡ some run)
      × (run.workspace_id ≡ input.workspace_id)
      × ((review : ReviewDecision) × (get t.reviews run.id ≡ some review)
          × (review.decision ≡ ReviewOutcome.approved))

  gate_facts :
      (current : ℕ) (vs : List ValidationResult) (es : List AcceptanceEvidence)
      (review : Option ReviewDecision)
      → not (evaluate_completion_gate current vs es review).eligible_for_publication ≡ false
      → (r : ReviewDecision) × (review ≡ some r) × (r.decision ≡ ReviewOutcome.approved)
  gate_facts current vs es review h =
      let facts = (eligible_for_publication_iff current vs es review).0 (ground arith) in
      (facts.2.0, facts.2.1, facts.2.2.0)

  step :
      {A B : Type 0} (f : Run → Exec B) (t : Store) (m : Exec A) (g : A → Exec Run)
      → Keeps host input.workspace_id s ((m >>= (λ a. g a >>= f)) t)
      → Keeps host input.workspace_id s (((m >>= g) >>= f) t)
  step f t m g k = keeps_assoc host input.workspace_id s m g f t k

  pub begin_publication_keeps :
      {B : Type 0} (f : Run → Exec B)
      → ((run : Run) (t : Store)
          → Reach host input.workspace_id s t
          → IsPublishing run t
          → Keeps host input.workspace_id s (f run t))
      → Keeps host input.workspace_id s ((begin_publication host input >>= f) s)
  unfolding begin_publication get_run get_review
  begin_publication_keeps f k = step f _ _ _ (
      keeps_found host input.workspace_id s _ _ _ s here λ run stored. step f _ _ _ (
        keeps_throw_if host input.workspace_id s _ _ _ s here λ own. step f _ _ _ (
          keeps_gets host input.workspace_id s _ _ s (
            step f _ _ _ (
              keeps_gets host input.workspace_id s _ _ s (
                step f _ _ _ (
                  keeps_gets host input.workspace_id s _ _ s (
                    step f _ _ _ (
                      keeps_gets host input.workspace_id s _ _ s (
                        step f _ _ _ (
                          keeps_throw_if host input.workspace_id s _ _ _ s here λ gate.
                            step f _ _ _ (
                              keeps_result host input.workspace_id s _ _ s here λ lifecycle moved.
                                step f _ _ _ (
                                  keeps_current_time host input.workspace_id s _ s here λ r1.
                                    step f _ _ _ (
                                      keeps_save_run host input.workspace_id s _ _ _ r1
                                        (moving host input.workspace_id _ run _ RunState.publishing
                                          lifecycle _
                                          (at_own_id host s input.run_id run coherent stored) moved
                                          refl (same_text _ _ own)
                                          (active_before_publishing run.lifecycle lifecycle moved))
                                        λ r2. step f _ _ _ (
                                          keeps_append_event host input.workspace_id s _ _ _ r2
                                            (
                                              _,
                                              get-put_self s.runs lifecycle.id _,
                                              (transition_same run.lifecycle RunState.publishing
                                                    lifecycle moved).1
                                                  ∙ same_text _ _ own,
                                            )
                                            λ r3.
                                              let same =
                                                transition_same run.lifecycle RunState.publishing
                                                  lifecycle moved in
                                              let (review, is_review, approves) =
                                                gate_facts _ _ _ _ gate in
                                              keeps_return host input.workspace_id s _ f _ (
                                                k _ _ r3 (
                                                  get-put_self s.runs lifecycle.id _,
                                                  same.1 ∙ same_text _ _ own,
                                                  (
                                                    review,
                                                    subst (λ j. get s.reviews j ≡ some review)
                                                        (sym same.0) is_review,
                                                    approves,
                                                  ),
                                                )))))))))))))))))

  -- Whatever `publishRun` does to the store is a sequence of the workspace's steps, whatever the
  -- source provider answers.
  pub publish_run_body_keeps :
      (provider : SourceProvider)
      → Keeps host input.workspace_id s (publish_run_body host provider input s)
  unfolding publish_run_body
  publish_run_body_keeps provider =
      begin_publication_keeps _ λ run t reached (stored, own, (review, reviewed, approves)).
        keeps_result host input.workspace_id s _ _ t reached λ result answered.
          finish_publication_keeps host input.workspace_id s run review result t reached stored own
            reviewed approves
