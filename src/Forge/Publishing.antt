-- ===== src/Forge/Publishing.antt =====
-- A run that is stored as being published (packages/forge-application/src/publications/publish-run.ts):
-- what a failure of the source provider leaves, and what can follow.
pub mod Spared
pub mod Bodies
pub mod Closing
pub mod Requests
pub mod Undisturbed
use cyclewarden.Prelude.{◌≡◌, some, get, arith}
use cyclewarden.Domain.Contracts.{Run, RunState}
use cyclewarden.Domain.RunLifecycle.{transition_run, can_transition, is_cancellable_run_state}
use cyclewarden.Forge.Store.{Store, Host}
use cyclewarden.Forge.Exec.{◌>>=◌}
use cyclewarden.Forge.Queries.{get_run, get_review}
use cyclewarden.Forge.Commands.CancelRun.{CancelRunInput, cancel_run_body}
use cyclewarden.Forge.Commands.PublishRun.{
  PublishRunInput, SourceProvider, publish_run_body, begin_publication,
}

module _ (host : Host) where
  publish_changes_nothing :
      (provider : SourceProvider) (input : PublishRunInput) (s : Store) (run : Run)
      → get s.runs input.run_id ≡ some run
      → run.state ≡ RunState.publishing
      → (publish_run_body host provider input s).1 ≡ s
  unfolding publish_run_body begin_publication get_run get_review ◌>>=◌ transition_run
      can_transition
  publish_changes_nothing provider input s run stored publishing = rw stored (ground arith)

  cancel_changes_nothing :
      (input : CancelRunInput) (s : Store) (run : Run)
      → get s.runs input.run_id ≡ some run
      → run.state ≡ RunState.publishing
      → (cancel_run_body host input s).1 ≡ s
  unfolding cancel_run_body get_run ◌>>=◌ is_cancellable_run_state
  cancel_changes_nothing input s run stored publishing = rw stored (ground arith)

  -- Neither another publication nor a cancellation of a run that is stored as being published does
  -- anything: the bodies of both commands leave the store as it is.
  pub publishing_is_stuck :
      (provider : SourceProvider) (publication : PublishRunInput) (cancellation : CancelRunInput)
      (s : Store) (run : Run)
      → get s.runs publication.run_id ≡ some run
      → get s.runs cancellation.run_id ≡ some run
      → run.state ≡ RunState.publishing
      → ((publish_run_body host provider publication s).1 ≡ s)
        × ((cancel_run_body host cancellation s).1 ≡ s)
  publishing_is_stuck provider publication cancellation s run stored stored' publishing = (
    publish_changes_nothing provider publication s run stored publishing,
    cancel_changes_nothing cancellation s run stored' publishing,
  )
