-- ===== src/Forge/Refinement/NextIteration.antt =====
-- `createNextRunIteration` keeps to the steps of its workspace.
use cyclewarden.Prelude.{
  ◌+◌, ◌≡◌, ◌∙◌, inr, sym, ap, subst, none, get, get-put_self, length, count_values,
  count_values-filter, arith,
}
use cyclewarden.Domain.Contracts.{RunLifecycleSnapshot}
use cyclewarden.Domain.RunLifecycle.Iteration.{create_next_iteration_iff}
use cyclewarden.Forge.Store.{Store, Host}
use cyclewarden.Forge.Queries.{get_run, list_active_runs, is_active_in}
use cyclewarden.Forge.Commands.NextIteration.{NextIterationInput, next_iteration_body}
use cyclewarden.Forge.Steps.{create_run, here}
use cyclewarden.Forge.Steps.Rules.{
  Keeps, keeps_found, keeps_gets, keeps_throw_if, keeps_result, keeps_current_time,
  keeps_random_uuid, keeps_save_run, keeps_append_event,
}
use cyclewarden.Forge.Refinement.Coherence.{IsCoherent, same_text}

module _ (host : Host) (input : NextIterationInput) (s : Store) (coherent : IsCoherent host s) where
  none_active_here :
      length (list_active_runs input.workspace_id (record s { uuids_drawn = s.uuids_drawn + 1 }))
        ≡ 0
      → count_values (is_active_in input.workspace_id) s.runs ≡ 0
  unfolding list_active_runs
  none_active_here e = count_values-filter (is_active_in input.workspace_id) s.runs ∙ e

  -- Whatever `createNextRunIteration` does to the store is a sequence of the workspace's steps.
  pub next_iteration_body_keeps : Keeps host input.workspace_id s (next_iteration_body host input s)
  unfolding next_iteration_body get_run
  next_iteration_body_keeps = keeps_found host input.workspace_id s _ _ _ s here λ previous stored.
      keeps_throw_if host input.workspace_id s _ _ _ s here λ own.
        keeps_random_uuid host input.workspace_id s _ s here λ r1.
          keeps_gets host input.workspace_id s _ _ _ (
            keeps_result host input.workspace_id s _ _ _ r1 λ lifecycle made.
              let facts =
                (create_next_iteration_iff previous.lifecycle (host.uuid s.uuids_drawn) _
                    lifecycle).0
                  made in
              keeps_current_time host input.workspace_id s _ _ r1 λ r2.
                keeps_throw_if host input.workspace_id s _ _ _ _ r2 λ valid.
                  keeps_save_run host input.workspace_id s _ _ _ r2
                    (λ good.
                      create_run _ _ s.uuids_drawn
                        (ap (λ (l : RunLifecycleSnapshot). l.workspace_id) facts.3
                          ∙ same_text _ _ own)
                        (inr (
                          input.previous_run_id,
                          previous,
                          stored,
                          same_text _ _ own,
                          sym (ap (λ (l : RunLifecycleSnapshot). l.task_id) facts.3),
                        ))
                        (ap (λ (l : RunLifecycleSnapshot). l.state) facts.3)
                        (ap (λ (l : RunLifecycleSnapshot). l.version) facts.3)
                        (ap (λ (l : RunLifecycleSnapshot). l.id) facts.3) (omega arith)
                        (subst (λ j. get s.runs j ≡ none)
                          (sym (ap (λ (l : RunLifecycleSnapshot). l.id) facts.3))
                          (coherent.fresh s.uuids_drawn (omega arith)))
                        (none_active_here facts.2) good)
                    λ r3.
                      keeps_append_event host input.workspace_id s _ _ _ r3
                        (
                          _,
                          get-put_self s.runs _ _,
                          (ap (λ (l : RunLifecycleSnapshot). l.workspace_id) facts.3
                              ∙ same_text _ _ own),
                        )
                        λ r4. r4)
