-- ===== src/Forge/Publishing/Closing.antt =====
-- A review and a publication change other runs than one that is being published
-- (packages/forge-application/src/reviews/resolve-review.ts, publications/publish-run.ts).
use cyclewarden.Prelude.{◌≡◌, ◌≢◌, refl, sym, subst, String, string_eq, arith}
use cyclewarden.Domain.Contracts.{Run, RunState, state_eq, ReviewOutcome, RunLifecycleSnapshot}
use cyclewarden.Domain.RunLifecycle.{transition_run, can_transition}
use cyclewarden.Domain.RunLifecycle.Iteration.{transition_run-finalize}
use cyclewarden.Domain.Errors.{ForgeError, ok}
use cyclewarden.Forge.Store.{Store, Host}
use cyclewarden.Forge.Queries.{get_run}
use cyclewarden.Forge.Commands.ResolveReview.{
  ResolveReviewInput, resolve_review_body, check_gate, conclude,
}
use cyclewarden.Forge.Commands.PublishRun.{
  PublishRunInput, SourceProvider, SourceChangeRequestResult, publish_run_body, begin_publication,
  finish_publication,
}
use cyclewarden.Forge.Refinement.Coherence.{IsCoherent, transition_same}
use cyclewarden.Forge.Ensures.{
  Fails, Returns, Ensures, Ensures-bind, Ensures-found, Ensures-gets, Ensures-result, Ensures-test,
  Ensures-throw_if, Ensures-throw_if_last,
}
use cyclewarden.Forge.Ensures.Methods.{
  Ensures-random_uuid, Ensures-current_time, Ensures-save_run, Ensures-save_publication,
  Ensures-save_run_last, Ensures-append_event, Ensures-save_review,
}
use cyclewarden.Forge.Publishing.Spared.{Stands, Stands-beside, found_is_other}

-- A run that is being published is not published once more.
not_twice :
    (old new : RunLifecycleSnapshot)
    → transition_run old RunState.publishing ≡ ok new
    → old.state ≢ RunState.publishing
unfolding transition_run can_transition
not_twice old new h same = ground arith

module _ (k : String) (r : Run) (host : Host) (s : Store) (coherent : IsCoherent host s)
    (stands : Stands k r s) where
  -- The run stands where the command throws, and where it returns.
  abbrev Bad : ForgeError → Store → Type 0
  Bad = Fails (Stands k r)

  abbrev Good : {A : Type 0} → A → Store → Type 0
  Good = Returns (Stands k r)

  -- A test that has passed changes nothing.
  abbrev Tested : Unit {0} → Store → Type 0
  Tested _ t = (t ≡ s) × Unit {0}

  module _ (publishing : r.state ≡ RunState.publishing) where
    conclude-Ensures :
        (decision : ReviewOutcome) (run : Run) (now : String) (t : Store)
        → run.id ≢ k
        → Stands k r t
        → Ensures Bad Good (conclude host decision run now t)
    unfolding conclude
    conclude-Ensures ReviewOutcome.approved run now t other kept = kept
    conclude-Ensures ReviewOutcome.rejected run now t other kept =
        Ensures-result Bad Good _ _ t (λ e h. kept)
          λ lifecycle made.
            let other' : lifecycle.id ≢ k =
              subst (λ i. i ≢ k)
                (sym (transition_same _ _ _ (transition_run-finalize _ lifecycle made)).0) other in
            Ensures-save_run_last Bad host Good _ t kept (Stands-beside k r _ _ other' kept)
    conclude-Ensures ReviewOutcome.cancelled run now t other kept =
        Ensures-result Bad Good _ _ t (λ e h. kept)
          λ lifecycle moved.
            let other' : lifecycle.id ≢ k =
              subst (λ i. i ≢ k) (sym (transition_same _ _ lifecycle moved).0) other in
            Ensures-save_run_last Bad host Good _ t kept (Stands-beside k r _ _ other' kept)

    check_gate-Ensures :
        (decision : ReviewOutcome) (run : Run) → Ensures Bad Tested (check_gate host decision run s)
    unfolding check_gate
    check_gate-Ensures ReviewOutcome.rejected run = (refl, tt)
    check_gate-Ensures ReviewOutcome.cancelled run = (refl, tt)
    check_gate-Ensures ReviewOutcome.approved run = Ensures-gets Bad Tested _ _ s (
        Ensures-gets Bad Tested _ _ s (
          Ensures-gets Bad Tested _ _ s
            (Ensures-throw_if_last Bad Tested _ _ s (λ _. stands) λ _. (refl, tt))))

    pub resolve_review_body-Ensures :
        (input : ResolveReviewInput) → Ensures Bad Good (resolve_review_body host input s)
    unfolding resolve_review_body get_run
    resolve_review_body-Ensures input =
        Ensures-found Bad Good _ _ _ s (λ _. stands)
          λ run found.
            Ensures-throw_if Bad Good _ _ _ s (λ _. stands)
              λ own.
                Ensures-throw_if Bad Good _ _ _ s (λ _. stands)
                  λ waits.
                    let other =
                      found_is_other k r host s coherent stands _ run publishing found
                        (λ same. ground arith) in
                    Ensures-gets Bad Good _ _ s (
                      Ensures-test Bad Good (Unit {0}) _ _ s (check_gate-Ensures input.decision run)
                        λ _. Ensures-current_time Bad host Good _ s (
                          Ensures-random_uuid Bad host Good _ _ (
                            Ensures-gets Bad Good _ _ _ (
                              Ensures-gets Bad Good _ _ _ (
                                Ensures-throw_if Bad Good _ _ _ _ (λ _. stands)
                                  λ valid. Ensures-save_review Bad host Good _ _ _ stands stands (
                                    Ensures-bind Bad Good Good _ _ _
                                      (conclude-Ensures input.decision run _ _ other stands)
                                      λ concluded t kept.
                                        Ensures-append_event Bad host Good _ _ t kept kept))))))

    -- A publication of another run, before and after it asks the provider.
    abbrev Other : Run → Store → Type 0
    Other q t = Stands k r t × (q.id ≢ k)

    begin_publication-Ensures :
        (input : PublishRunInput) → Ensures Bad Other (begin_publication host input s)
    unfolding begin_publication get_run
    begin_publication-Ensures input =
        Ensures-found Bad Other _ _ _ s (λ _. stands)
          λ run found.
            Ensures-throw_if Bad Other _ _ _ s (λ _. stands)
              λ own. Ensures-gets Bad Other _ _ s (
                Ensures-gets Bad Other _ _ s (
                  Ensures-gets Bad Other _ _ s (
                    Ensures-gets Bad Other _ _ s (
                      Ensures-throw_if Bad Other _ _ _ s (λ _. stands)
                        λ gate.
                          Ensures-result Bad Other _ _ s (λ e h. stands)
                            λ lifecycle moved.
                              let other =
                                found_is_other k r host s coherent stands _ run publishing found
                                  (not_twice run.lifecycle lifecycle moved) in
                              let other' : lifecycle.id ≢ k =
                                subst (λ i. i ≢ k) (sym (transition_same _ _ lifecycle moved).0)
                                  other in
                              Ensures-current_time Bad host Other _ s (
                                Ensures-save_run Bad host Other _ _ _ stands (
                                  let kept = Stands-beside k r _ _ other' stands in
                                  Ensures-append_event Bad host Other _ _ _ kept
                                    (kept, other')))))))

    finish_publication-Ensures :
        (run : Run) (result : SourceChangeRequestResult) (t : Store)
        → run.id ≢ k
        → Stands k r t
        → Ensures Bad Good (finish_publication host run result t)
    unfolding finish_publication
    finish_publication-Ensures run result t other kept = Ensures-current_time Bad host Good _ t (
        Ensures-random_uuid Bad host Good _ _ (
          Ensures-throw_if Bad Good _ _ _ _ (λ _. kept)
            λ valid. Ensures-save_publication Bad host Good _ _ _ kept (
              Ensures-result Bad Good _ _ _ (λ e h. kept)
                λ lifecycle moved.
                  let other' : lifecycle.id ≢ k =
                    subst (λ i. i ≢ k) (sym (transition_same _ _ lifecycle moved).0) other in
                  Ensures-save_run Bad host Good _ _ _ kept (
                    let kept' = Stands-beside k r _ _ other' kept in
                    Ensures-append_event Bad host Good _ _ _ kept' kept'))))

    pub publish_run_body-Ensures :
        (provider : SourceProvider) (input : PublishRunInput)
        → Ensures Bad Good (publish_run_body host provider input s)
    unfolding publish_run_body
    publish_run_body-Ensures provider input =
        Ensures-bind Bad Other Good _ _ s (begin_publication-Ensures input) λ q t both.
          Ensures-result Bad Good _ _ t (λ e h. both.0)
            λ result answered. finish_publication-Ensures q result t both.1 both.0
