-- ===== src/Domain/RunLifecycle/Iteration.antt =====
-- Rejected reviews and the iterations that follow them.
use cyclewarden.Prelude.{ℕ, ◌≡◌, ◌↔◌, some, String, pos, arith}
use cyclewarden.Domain.Contracts.{rejected, RunLifecycleSnapshot}
use cyclewarden.Domain.Contracts.RunState.{completed}
use cyclewarden.Domain.Errors.{ok}
use cyclewarden.Domain.RunLifecycle.{
  transition_run, can_transition, finalize_rejected_review, create_next_iteration, next_run,
  next_run,
}

-- `createNextIteration` returns a run exactly when the previous run was completed by a rejection
-- and the workspace has no active run, and then it returns the next, queued iteration of the same
-- task.
pub create_next_iteration_iff :
    (previous : RunLifecycleSnapshot) (id : String) (count : ℕ) (next : RunLifecycleSnapshot)
    → (create_next_iteration previous id (pos count) ≡ ok next) ↔ (
        (previous.state ≡ completed)
        × (previous.review_outcome ≡ some rejected)
        × (count ≡ 0)
        × (next ≡ next_run previous id))
unfolding create_next_iteration
create_next_iteration_iff previous id count next = (λ h. ground arith, λ h. ground arith)

-- A rejected review is a legal transition, which also records the outcome.
pub transition_run-finalize :
    (run done : RunLifecycleSnapshot)
    → finalize_rejected_review run ≡ ok done
    → transition_run run completed ≡ ok (record done { review_outcome = run.review_outcome })
unfolding finalize_rejected_review transition_run can_transition
transition_run-finalize run done h = ground arith
