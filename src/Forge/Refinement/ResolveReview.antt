-- ===== src/Forge/Refinement/ResolveReview.antt =====
-- `resolveReview` keeps to the steps of its workspace.
use cyclewarden.Prelude.{
  ◌+◌, ◌≡◌, refl, sym, ap, subst, ◌∙◌, true, none, some, String, get, Bool-cases, inl, inr, arith,
}
use cyclewarden.Domain.Contracts.{Run, RunState, ReviewOutcome}
use cyclewarden.Domain.CompletionGate.{evaluate_completion_gate}
use cyclewarden.Domain.RunLifecycle.{is_active_run_state}
use cyclewarden.Domain.RunLifecycle.Iteration.{transition_run-finalize}
use cyclewarden.Forge.Store.{Store, Host}
use cyclewarden.Forge.Exec.{Exec, from_result, ◌>>=◌, ◌>>◌}
use cyclewarden.Forge.Queries.{get_run, get_evidence_version, get_validations, get_evidence}
use cyclewarden.Forge.Commands.ResolveReview.{
  ResolveReviewInput, check_gate, conclude, resolve_review_body,
}
use cyclewarden.Forge.Methods.{save_run}
use cyclewarden.Domain.Errors.{Result, ok}
use cyclewarden.Forge.Ensures.{Ensures, Fails, Ensures-result, Ensures-weaker}
use cyclewarden.Forge.Steps.{Step, Reach, here, GateOpen, Owns}
use cyclewarden.Forge.Steps.Rules.{
  Keeps, Reach-Owns, keeps_found, keeps_gets, keeps_bind, keeps_throw_if, keeps_current_time,
  keeps_random_uuid, keeps_append_event,
}
use cyclewarden.Forge.Steps.Saves.{keeps_save_review, keeps_save_run_last}
use cyclewarden.Forge.Refinement.Coherence.{
  IsCoherent, at_own_id, same_text, transition_same, moving,
}

awaiting_active : (s : RunState) → s ≡ RunState.awaiting_review → is_active_run_state s ≡ true
unfolding is_active_run_state
awaiting_active s h = ground arith

module _ (host : Host) (workspace : String) (start : Store) where
  -- The gate is open where an approval passes it.
  keeps_check_gate :
      {B : Type 0} (decision : ReviewOutcome) (run : Run) (m : Exec B) (s : Store)
      → Reach host workspace start s
      → ((decision ≡ ReviewOutcome.approved → GateOpen s run.id) → Keeps host workspace start (m s))
      → Keeps host workspace start ((check_gate host decision run >> m) s)
  unfolding ◌>>=◌ check_gate
  keeps_check_gate ReviewOutcome.approved run m s r k =
      elim (Bool-cases
        (evaluate_completion_gate (get_evidence_version run.id s) (get_validations run.id s)
          (get_evidence run.id s) none).eligible_for_approval) [
            | inl open_gate ↦ rw open_gate (k (λ _. open_gate))
            | inr shut ↦ rw shut r
          ]
  keeps_check_gate ReviewOutcome.rejected run m s r k = k (λ e. absurd (cc))
  keeps_check_gate ReviewOutcome.cancelled run m s r k = k (λ e. absurd (cc))

  -- The run that is left after the decision has the same identifier.
  abbrev Concluded : Run → Run → Store → Type 0
  Concluded run concluded t = Reach host workspace start t × (concluded.id ≡ run.id)

  concluding :
      {A : Type 0} (run : Run) (m : Result A) (f : A → Exec Run) (s : Store)
      → Reach host workspace start s
      → ((a : A) → m ≡ ok a → Ensures (Fails (Reach host workspace start)) (Concluded run) (f a s))
      → Ensures (Fails (Reach host workspace start)) (Concluded run) ((from_result m >>= f) s)
  concluding run m f s r k =
      Ensures-result (Fails (Reach host workspace start)) (Concluded run) m f s (λ e h. r) k

  saved_as :
      (run saved : Run) (s : Store)
      → saved.id ≡ run.id
      → Ensures
          (Fails (Reach host workspace start))
          (λ a t. Reach host workspace start t × (a ≡ saved))
          (save_run host saved s)
      → Ensures (Fails (Reach host workspace start)) (Concluded run) (save_run host saved s)
  saved_as run saved s id h =
      Ensures-weaker (Fails (Reach host workspace start)) _ _ (save_run host saved s) h
        λ a t (r, same). (r, ap (λ (x : Run). x.id) same ∙ id)

  conclude_keeps :
      (decision : ReviewOutcome) (run : Run) (now : String) (s : Store)
      → Reach host workspace start s
      → get s.runs run.id ≡ some run
      → run.workspace_id ≡ workspace
      → is_active_run_state run.state ≡ true
      → Ensures
          (Fails (Reach host workspace start))
          (Concluded run)
          (conclude host decision run now s)
  unfolding conclude
  conclude_keeps ReviewOutcome.approved run now s r stored own active = (r, refl)
  conclude_keeps ReviewOutcome.rejected run now s r stored own active =
      concluding run _ _ s r λ lifecycle made.
        saved_as run _ s
          (transition_same run.lifecycle RunState.completed _
            (transition_run-finalize run.lifecycle lifecycle made)).0
          (keeps_save_run_last host workspace start _ s r (
            moving host workspace s run _ RunState.completed
              (record lifecycle { review_outcome = run.review_outcome }) lifecycle.review_outcome
              stored (transition_run-finalize run.lifecycle lifecycle made) refl own active))
  conclude_keeps ReviewOutcome.cancelled run now s r stored own active =
      concluding run _ _ s r λ lifecycle made.
        saved_as run _ s (transition_same run.lifecycle RunState.completed lifecycle made).0 (
          keeps_save_run_last host workspace start _ s r (
            moving host workspace s run _ RunState.completed lifecycle
              (some ReviewOutcome.cancelled) stored made refl own active))

module _ (host : Host) (input : ResolveReviewInput) (s : Store) (coherent : IsCoherent host s) where
  -- Whatever `resolveReview` does to the store is a sequence of the workspace's steps.
  pub resolve_review_body_keeps : Keeps host input.workspace_id s (resolve_review_body host input s)
  unfolding resolve_review_body get_run get_evidence_version get_validations get_evidence
  resolve_review_body_keeps = keeps_found host input.workspace_id s _ _ _ s here λ run stored.
      keeps_throw_if host input.workspace_id s _ _ _ s here λ own.
        let owned : Owns input.workspace_id s run.id =
          (run, at_own_id host s input.run_id run coherent stored, same_text _ _ own) in
        keeps_throw_if host input.workspace_id s _ _ _ s here λ awaiting.
          keeps_gets host input.workspace_id s _ _ _ (
            keeps_check_gate host input.workspace_id s input.decision run _ s here λ gate.
              keeps_current_time host input.workspace_id s _ s here λ r1.
                keeps_random_uuid host input.workspace_id s _ _ r1 λ r2.
                  keeps_gets host input.workspace_id s _ _ _ (
                    keeps_gets host input.workspace_id s _ _ _ (
                      keeps_throw_if host input.workspace_id s _ _ _ _ r2 λ valid.
                        keeps_save_review host input.workspace_id s _ _ _ r2
                          (λ absent.
                            Step.decide
                              (record s {
                                uuids_drawn = s.uuids_drawn + 1;
                                times_read = s.times_read + 1;
                              })
                              _ owned absent gate refl)
                          λ r3.
                            keeps_bind host input.workspace_id s
                              (Concluded host input.workspace_id s run) _ _ _
                              (conclude_keeps host input.workspace_id s input.decision run _ _ r3
                                (at_own_id host s input.run_id run coherent stored)
                                (same_text _ _ own) (awaiting_active run.state (ground arith)))
                              λ concluded s' (r4, same).
                                keeps_append_event host input.workspace_id s _ _ _ r4
                                  (subst (Owns input.workspace_id s') (sym same)
                                    (Reach-Owns host input.workspace_id run.id r4 owned))
                                  λ r5. r5)))
