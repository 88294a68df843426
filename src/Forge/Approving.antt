-- ===== src/Forge/Approving.antt =====
-- The two commands that end a run well, one after the other: `resolveReview` and `publishRun`
-- (packages/forge-application/src/reviews/resolve-review.ts and publications/publish-run.ts).
pub mod Ready
pub mod Published
use cyclewarden.Prelude.{◌≡◌}
use cyclewarden.Domain.Contracts.{Run, ReviewOutcome}
use cyclewarden.Domain.Errors.{Result, ok}
use cyclewarden.Forge.Store.{Store, Host, Outcome}
use cyclewarden.Forge.Commands.ResolveReview.{ResolveReviewInput, resolve_review_body}
use cyclewarden.Forge.Commands.PublishRun.{PublishRunInput, SourceProvider, publish_run_body}
use cyclewarden.Forge.Ensures.{Ensures}
use cyclewarden.Forge.Approving.Ready.{Any, IsReady, Approved, approval-Ensures}
use cyclewarden.Forge.Approving.Published.{FailsBy, IsPublished, publication-Ensures}

returned :
    (input : ResolveReviewInput) (r : Result Outcome × Store) (outcome : Outcome) (t : Store)
    → r ≡ (ok outcome, t)
    → Ensures Any (Approved input) r
    → Approved input outcome t
returned input r outcome t same h = (rw same at h)

module _ (host : Host) where
  -- An approval opens the way to the publication: when the body of `resolveReview` has approved a
  -- run and returns, the run stands in the workspace, awaits its review, and passes the gate of a
  -- publication. A publication of it that follows at once, in the same workspace, throws only
  -- because a schema refuses what is to be stored or because the source provider fails; otherwise
  -- it returns the publication, which is stored, and the run is completed as an approved one.
  pub approval_opens_publication :
      (provider : SourceProvider) (approval : ResolveReviewInput) (publication : PublishRunInput)
      (s t : Store) (outcome : Outcome)
      → approval.decision ≡ ReviewOutcome.approved
      → resolve_review_body host approval s ≡ (ok outcome, t)
      → publication.workspace_id ≡ approval.workspace_id
      → publication.run_id ≡ approval.run_id
      → (run : Run) × IsReady publication.workspace_id publication.run_id run t
        × Ensures
            (FailsBy provider)
            (IsPublished run.id)
            (publish_run_body host provider publication t)
  approval_opens_publication provider approval publication s t outcome approves reviewed
        same_workspace same_run =
      let (run, ready) =
        returned approval _ outcome t reviewed (approval-Ensures approval host s approves) in
      let ready' : IsReady publication.workspace_id publication.run_id run t =
        (rw (same_workspace, same_run) ready) in
      (run, ready', publication-Ensures host provider publication run t ready')
