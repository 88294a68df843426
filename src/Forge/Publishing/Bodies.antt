-- ===== src/Forge/Publishing/Bodies.antt =====
-- Starts, iterations, approvals and cancellations change other runs than one that is being published
-- (packages/forge-application/src).
use cyclewarden.Prelude.{
  ℕ, ◌≡◌, ◌≢◌, refl, sym, ap, subst, List, String, string_eq, pos, arith, Bool-cases, inl, inr,
  ◌==◌,
}
use cyclewarden.Domain.Contracts.{Run, RunState, state_eq, RunLifecycleSnapshot}
use cyclewarden.Domain.RunLifecycle.{
  is_cancellable_run_state, RunAdmissionResult, admitted, active_run_exists, create_next_iteration,
}
use cyclewarden.Domain.RunLifecycle.Iteration.{create_next_iteration_iff}
use cyclewarden.Domain.Errors.{ForgeError, ok}
use cyclewarden.Forge.Store.{Store, Host}
use cyclewarden.Forge.Queries.{get_run, get_task, get_task_workspace, get_approval}
use cyclewarden.Forge.Commands.StartRun.{StartRunInput, start_run_body, require_admission}
use cyclewarden.Forge.Commands.NextIteration.{NextIterationInput, next_iteration_body}
use cyclewarden.Forge.Commands.ResolveApproval.{ResolveApprovalInput, resolve_approval_body}
use cyclewarden.Forge.Commands.CancelRun.{CancelRunInput, cancel_run_body, cancel_now}
use cyclewarden.Forge.Refinement.Coherence.{IsCoherent, transition_same}
use cyclewarden.Forge.Ensures.{
  Fails, Returns, Ensures, Ensures-found, Ensures-gets, Ensures-result, Ensures-test,
  Ensures-throw_if,
}
use cyclewarden.Forge.Ensures.Methods.{
  Ensures-random_uuid, Ensures-current_time, Ensures-save_run, Ensures-save_approval,
  Ensures-append_event,
}
use cyclewarden.Forge.Publishing.Spared.{Stands, Stands-beside, drawn_is_other, found_is_other}

drawn_id :
    (previous : Run) (id : String) (count : ℕ) (next : RunLifecycleSnapshot)
    → create_next_iteration previous.lifecycle id (pos count) ≡ ok next
    → next.id ≡ id
drawn_id previous id count next made =
    ap (λ (l : RunLifecycleSnapshot). l.id)
      ((create_next_iteration_iff previous.lifecycle id count next).0 made).3

module _ (k : String) (r : Run) (host : Host) (s : Store) (coherent : IsCoherent host s)
    (stands : Stands k r s) where
  -- The run stands where the command throws, and where it returns.
  abbrev Bad : ForgeError → Store → Type 0
  Bad = Fails (Stands k r)

  abbrev Good : {A : Type 0} → A → Store → Type 0
  Good = Returns (Stands k r)

  -- A test that has passed changes nothing.
  abbrev Tested : Unit {0} → Store → Type 0
  Tested _ t = (t ≡ s) × Unit {0}

  admission_tests :
      (active : List Run) (a : RunAdmissionResult)
      → Ensures Bad Tested (require_admission active a s)
  admission_tests active admitted = (refl, tt)
  admission_tests active (active_run_exists n) = stands

  pub start_run_body-Ensures :
      (input : StartRunInput) → Ensures Bad Good (start_run_body host input s)
  unfolding start_run_body get_task get_task_workspace
  start_run_body-Ensures input =
      Ensures-found Bad Good _ _ _ s (λ _. stands)
        λ task has_task.
          Ensures-found Bad Good _ _ _ s (λ _. stands)
            λ workspace has_workspace.
              Ensures-throw_if Bad Good _ _ _ s (λ _. stands)
                λ own. Ensures-gets Bad Good _ _ s (
                  Ensures-result Bad Good _ _ s (λ e h. stands)
                    λ admission admission_is.
                      Ensures-test Bad Good (Unit {0}) _ _ s (admission_tests _ admission) λ _.
                        Ensures-current_time Bad host Good _ s (
                          Ensures-random_uuid Bad host Good _ _ (
                            Ensures-gets Bad Good _ _ _ (
                              Ensures-throw_if Bad Good _ _ _ _ (λ _. stands)
                                λ valid. Ensures-save_run Bad host Good _ _ _ stands (
                                  let kept =
                                    Stands-beside k r _ _
                                      (drawn_is_other k r host s coherent stands) stands in
                                  Ensures-append_event Bad host Good _ _ _ kept kept)))))

  pub next_iteration_body-Ensures :
      (input : NextIterationInput) → Ensures Bad Good (next_iteration_body host input s)
  unfolding next_iteration_body get_run
  next_iteration_body-Ensures input =
      Ensures-found Bad Good _ _ _ s (λ _. stands)
        λ previous found.
          Ensures-throw_if Bad Good _ _ _ s (λ _. stands)
            λ own. Ensures-random_uuid Bad host Good _ s (
              Ensures-gets Bad Good _ _ _ (
                Ensures-result Bad Good _ _ _ (λ e h. stands)
                  λ lifecycle made. Ensures-current_time Bad host Good _ _ (
                    Ensures-throw_if Bad Good _ _ _ _ (λ _. stands)
                      λ valid. Ensures-save_run Bad host Good _ _ _ stands (
                        let other : lifecycle.id ≢ k =
                          subst (λ i. i ≢ k) (sym (drawn_id previous _ _ lifecycle made))
                            (drawn_is_other k r host s coherent stands) in
                        let kept = Stands-beside k r _ _ other stands in
                        Ensures-append_event Bad host Good _ _ _ kept kept))))

  pub resolve_approval_body-Ensures :
      (input : ResolveApprovalInput) → Ensures Bad Good (resolve_approval_body host input s)
  unfolding resolve_approval_body get_run get_approval
  resolve_approval_body-Ensures input =
      Ensures-found Bad Good _ _ _ s (λ _. stands)
        λ approval asked.
          Ensures-found Bad Good _ _ _ s (λ _. stands)
            λ run found.
              Ensures-throw_if Bad Good _ _ _ s (λ _. stands)
                λ own.
                  Ensures-throw_if Bad Good _ _ _ s (λ _. stands)
                    λ pending. Ensures-current_time Bad host Good _ s (
                      Ensures-save_approval Bad host Good _ _ _ stands
                        (Ensures-append_event Bad host Good _ _ _ stands stands))

  module _ (publishing : r.state ≡ RunState.publishing) where
    cancel_now-Ensures :
        (input : CancelRunInput) (run : Run)
        → run.id ≢ k
        → Ensures Bad Good (cancel_now host input run s)
    unfolding cancel_now
    cancel_now-Ensures input run other =
        Ensures-result Bad Good _ _ s (λ e h. stands)
          λ lifecycle moved. Ensures-current_time Bad host Good _ s (
            Ensures-save_run Bad host Good _ _ _ stands (
              let other' : lifecycle.id ≢ k =
                subst (λ i. i ≢ k) (sym (transition_same _ _ lifecycle moved).0) other in
              let kept = Stands-beside k r _ _ other' stands in
              Ensures-append_event Bad host Good _ _ _ kept (
                Ensures-result Bad Good _ _ _ (λ e h. kept)
                  λ lifecycle' moved'. Ensures-current_time Bad host Good _ _ (
                    Ensures-current_time Bad host Good _ _ (
                      Ensures-save_run Bad host Good _ _ _ kept (
                        let other'' : lifecycle'.id ≢ k =
                          subst (λ i. i ≢ k) (sym (transition_same _ _ lifecycle' moved').0)
                            other' in
                        let kept' = Stands-beside k r _ _ other'' kept in
                        Ensures-append_event Bad host Good _ _ _ kept' kept'))))))

    pub cancel_run_body-Ensures :
        (input : CancelRunInput) → Ensures Bad Good (cancel_run_body host input s)
    unfolding cancel_run_body get_run is_cancellable_run_state
    cancel_run_body-Ensures input =
        Ensures-found Bad Good _ _ _ s (λ _. stands)
          λ run found.
            Ensures-throw_if Bad Good _ _ _ s (λ _. stands)
              λ own. elim (Bool-cases (run.state == RunState.cancelled)) [
                | inl done ↦ rw done stands
                | inr open_still ↦ rw open_still (
                    Ensures-throw_if Bad Good _ _ _ s (λ _. stands)
                      λ cancellable. cancel_now-Ensures input run (
                        found_is_other k r host s coherent stands _ run publishing found
                          (λ same. ground arith)))
              ]
