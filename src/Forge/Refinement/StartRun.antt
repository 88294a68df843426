-- ===== src/Forge/Refinement/StartRun.antt =====
-- `startRun` keeps to the steps of its workspace.
use cyclewarden.Prelude.{
  ℕ, ◌≡◌, refl, ap, inl, Option, some, ◌∙◌, get-put_self, none, List, pos, String, length,
  count_values, count_values-filter, arith,
}
use cyclewarden.Domain.Contracts.{Run}
use cyclewarden.Domain.RunLifecycle.{
  RunAdmissionResult, admitted, active_run_exists, evaluate_run_admission,
}
use cyclewarden.Domain.Errors.{ok}
use cyclewarden.Forge.Store.{Store, Host}
use cyclewarden.Forge.Exec.{Exec, ◌>>=◌, ◌>>◌}
use cyclewarden.Forge.Queries.{
  get_task, get_task_workspace, non_blank, list_active_runs, is_active_in,
}
use cyclewarden.Forge.Commands.StartRun.{StartRunInput, start_run_body, require_admission}
use cyclewarden.Forge.Steps.{create_run, Reach, here}
use cyclewarden.Forge.Steps.Rules.{
  Keeps, keeps_found, keeps_gets, keeps_throw_if, keeps_result, keeps_current_time,
  keeps_random_uuid, keeps_save_run, keeps_append_event,
}
use cyclewarden.Forge.Refinement.Coherence.{IsCoherent, same_text}

stored_workspace :
    (o : Option String) (workspace : String) → non_blank o ≡ some workspace → o ≡ some workspace
stored_workspace none workspace h = absurd (cc)
stored_workspace (some w) workspace h = ground arith

admission_empty :
    (n : ℕ) (a : RunAdmissionResult)
    → evaluate_run_admission (pos n) none ≡ ok a
    → a ≡ admitted
    → n ≡ 0
unfolding evaluate_run_admission
admission_empty n a h e = ground arith

module _ (host : Host) (workspace : String) (start : Store) where
  -- A refused admission has changed nothing.
  pub keeps_admission :
      {B : Type 0} (active : List Run) (a : RunAdmissionResult) (m : Exec B) (s : Store)
      → Reach host workspace start s
      → (a ≡ admitted → Keeps host workspace start (m s))
      → Keeps host workspace start ((require_admission active a >> m) s)
  unfolding ◌>>=◌
  keeps_admission active admitted m s r k = k refl
  keeps_admission active (active_run_exists n) m s r k = r

module _ (host : Host) (input : StartRunInput) (s : Store) (coherent : IsCoherent host s) where
  none_active :
      (a : RunAdmissionResult)
      → evaluate_run_admission (pos (length (list_active_runs input.workspace_id s))) none ≡ ok a
      → a ≡ admitted
      → count_values (is_active_in input.workspace_id) s.runs ≡ 0
  unfolding list_active_runs
  none_active a h e =
      count_values-filter (is_active_in input.workspace_id) s.runs ∙ admission_empty _ a h e

  -- Whatever `startRun` does to the store is a sequence of the workspace's steps.
  pub start_run_body_keeps : Keeps host input.workspace_id s (start_run_body host input s)
  unfolding start_run_body get_task get_task_workspace
  start_run_body_keeps = keeps_found host input.workspace_id s _ _ _ s here λ task has_task.
      keeps_found host input.workspace_id s _ _ _ s here λ workspace has_workspace.
        keeps_throw_if host input.workspace_id s _ _ _ s here λ own.
          keeps_gets host input.workspace_id s _ _ _ (
            keeps_result host input.workspace_id s _ _ s here λ admission admission_is.
              keeps_admission host input.workspace_id s _ _ _ s here λ admitted_is.
                keeps_current_time host input.workspace_id s _ s here λ r1.
                  keeps_random_uuid host input.workspace_id s _ _ r1 λ r2.
                    keeps_gets host input.workspace_id s _ _ _ (
                      keeps_throw_if host input.workspace_id s _ _ _ _ r2 λ valid.
                        keeps_save_run host input.workspace_id s _ _ _ r2
                          (λ good.
                            create_run _ _ s.uuids_drawn refl
                              (inl
                                (stored_workspace _ _ has_workspace ∙ ap some (same_text _ _ own)))
                              refl refl refl (omega arith)
                              (coherent.fresh s.uuids_drawn (omega arith))
                              (none_active admission admission_is admitted_is) good)
                          λ r3.
                            keeps_append_event host input.workspace_id s _ _ _ r3
                              (_, get-put_self s.runs _ _, refl) λ r4. r4))
