-- ===== src/Forge/Refinement/CancelRun.antt =====
-- `cancelRun` keeps to the steps of its workspace.
use cyclewarden.Prelude.{
  ◌≡◌, refl, ◌∙◌, true, some, get, get-put_self, string_eq, ◌==◌, arith, Bool-cases, inl, inr,
}
use cyclewarden.Domain.Contracts.{Run, RunState, state_eq}
use cyclewarden.Domain.RunLifecycle.{is_active_run_state, is_cancellable_run_state}
use cyclewarden.Forge.Store.{Store, Host}
use cyclewarden.Forge.Queries.{get_run}
use cyclewarden.Forge.Commands.CancelRun.{CancelRunInput, cancel_run_body, cancel_now}
use cyclewarden.Forge.Steps.{here}
use cyclewarden.Forge.Steps.Rules.{
  Keeps, keeps_found, keeps_throw_if, keeps_result, keeps_current_time, keeps_save_run,
  keeps_append_event,
}
use cyclewarden.Forge.Refinement.Coherence.{
  IsCoherent, at_own_id, same_text, transition_same, moving,
}

cancellable_active :
    (s : RunState) → is_cancellable_run_state s ≡ true → is_active_run_state s ≡ true
unfolding is_cancellable_run_state is_active_run_state
cancellable_active s h = ground arith

cancelling_active : is_active_run_state RunState.cancelling ≡ true
unfolding is_active_run_state
cancelling_active = refl

module _ (host : Host) (input : CancelRunInput) (s : Store) (coherent : IsCoherent host s) where
  now_keeps :
      (run : Run)
      → get s.runs run.id ≡ some run
      → run.workspace_id ≡ input.workspace_id
      → is_active_run_state run.state ≡ true
      → Keeps host input.workspace_id s (cancel_now host input run s)
  unfolding cancel_now
  now_keeps run stored own active =
      keeps_result host input.workspace_id s _ _ s here λ lifecycle moved.
        let same = transition_same run.lifecycle RunState.cancelling lifecycle moved in
        keeps_current_time host input.workspace_id s _ s here λ r1.
          keeps_save_run host input.workspace_id s _ _ _ r1
            (moving host input.workspace_id _ run _ RunState.cancelling lifecycle _ stored moved
              refl own active)
            λ r2.
              keeps_append_event host input.workspace_id s _ _ _ r2
                (_, get-put_self s.runs lifecycle.id _, same.1 ∙ own)
                λ r3. keeps_result host input.workspace_id s _ _ _ r3 λ lifecycle' moved'.
                  keeps_current_time host input.workspace_id s _ _ r3 λ r4.
                    keeps_current_time host input.workspace_id s _ _ r4 λ r5.
                      keeps_save_run host input.workspace_id s _ _ _ r5
                        (moving host input.workspace_id _ _ _ RunState.cancelled lifecycle' _
                          (get-put_self s.runs lifecycle.id _) moved' refl (same.1 ∙ own)
                          (rw same.2 cancelling_active))
                        λ r6.
                          keeps_append_event host input.workspace_id s _ _ _ r6
                            (
                              _,
                              get-put_self _ _ _,
                              (transition_same lifecycle RunState.cancelled lifecycle' moved').1
                                  ∙ same.1
                                  ∙ own,
                            )
                            λ r7. r7

  -- Whatever `cancelRun` does to the store is a sequence of the workspace's steps.
  pub cancel_run_body_keeps : Keeps host input.workspace_id s (cancel_run_body host input s)
  unfolding cancel_run_body get_run
  cancel_run_body_keeps = keeps_found host input.workspace_id s _ _ _ s here λ run stored.
      keeps_throw_if host input.workspace_id s _ _ _ s here λ own.
        elim (Bool-cases (run.state == RunState.cancelled)) [
          | inl done ↦ rw done here
          | inr going ↦ rw going (
              keeps_throw_if host input.workspace_id s _ _ _ s here λ allowed.
                now_keeps run (at_own_id host s input.run_id run coherent stored)
                  (same_text _ _ own) (cancellable_active run.state (ground arith)))
        ]
