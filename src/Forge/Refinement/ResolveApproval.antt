-- ===== src/Forge/Refinement/ResolveApproval.antt =====
-- `resolveApproval` keeps to the steps of its workspace.
use cyclewarden.Prelude.{refl, arith}
use cyclewarden.Forge.Store.{Store, Host}
use cyclewarden.Forge.Queries.{get_run, get_approval}
use cyclewarden.Forge.Commands.ResolveApproval.{ResolveApprovalInput, resolve_approval_body}
use cyclewarden.Forge.Steps.{Step, here}
use cyclewarden.Forge.Steps.Rules.{
  Keeps, keeps_found, keeps_throw_if, keeps_current_time, keeps_append_event,
}
use cyclewarden.Forge.Refinement.Coherence.{IsCoherent, at_own_id, same_text}
use cyclewarden.Forge.Steps.Saves.{keeps_save_approval}

module _ (host : Host) (input : ResolveApprovalInput) (s : Store)
    (coherent : IsCoherent host s) where
  -- Whatever `resolveApproval` does to the store is a sequence of the workspace's steps.
  pub resolve_approval_body_keeps :
      Keeps host input.workspace_id s (resolve_approval_body host input s)
  unfolding resolve_approval_body get_run get_approval
  resolve_approval_body_keeps =
      keeps_found host input.workspace_id s _ _ _ s here λ approval has_approval.
        keeps_found host input.workspace_id s _ _ _ s here λ run has_run.
          keeps_throw_if host input.workspace_id s _ _ _ s here λ own.
            keeps_throw_if host input.workspace_id s _ _ _ s here λ pending.
              keeps_current_time host input.workspace_id s _ s here λ r1.
                keeps_save_approval host input.workspace_id s _ _ _ r1
                  (Step.resolve _ input.approval_id approval _ has_approval
                    (run, has_run, same_text _ _ own) refl (ground arith) refl refl)
                  λ r2.
                    keeps_append_event host input.workspace_id s _ _ _ r2
                      (
                        run,
                        at_own_id host s approval.run_id run coherent has_run,
                        same_text _ _ own,
                      )
                      λ r3. r3
