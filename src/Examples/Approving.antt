-- ===== src/Examples/Approving.antt =====
-- The approval of a run and the publication that follows, on a run without evidence.
use cyclewarden.Prelude.{◌≡◌, refl, none, some, [], get, put, empty}
use cyclewarden.Domain.Contracts.{Run, RunState, ReviewOutcome}
use cyclewarden.Domain.CompletionGate.{evaluate_completion_gate}
use cyclewarden.Domain.Schemas.{review_schema, event_schema}
use cyclewarden.Domain.Errors.{ok}
use cyclewarden.Forge.Store.{Store, Outcome, init}
use cyclewarden.Forge.Exec.{◌>>=◌}
use cyclewarden.Forge.Queries.{
  get_run, get_validations, get_evidence, get_evidence_version, get_events,
}
use cyclewarden.Forge.Methods.{random_uuid, current_time, save_review, append_event}
use cyclewarden.Forge.Commands.ResolveReview.{
  ResolveReviewInput, resolve_review_body, check_gate, conclude, decided,
}
use cyclewarden.Forge.Commands.PublishRun.{
  SourceProvider, SourceChangeRequestStatus, publish_run_body,
}
use cyclewarden.Forge.Approving.{approval_opens_publication}
use cyclewarden.Forge.Ensures.{Ensures}
use cyclewarden.Forge.Approving.Ready.{IsReady}
use cyclewarden.Forge.Approving.Published.{FailsBy, IsPublished}
use cyclewarden.Examples.World.{host, run_in, publish_input}

abbrev approving : ResolveReviewInput
approving = record {
  workspace_id = "w";
  user_id = "me";
  run_id = "uu";
  idempotency_key = "four";
  decision = ReviewOutcome.approved;
  rationale = none;
  advisory_waivers = none;
}

abbrev waiting_store : Store
waiting_store = record init { runs = put empty "uu" (run_in RunState.awaiting_review) }

-- A source provider that opens the draft.
abbrev opening : SourceProvider
opening input = ok (record {
  provider = "source";
  external_repository_id = "1";
  branch_name = input.branch_name;
  commit_sha = "0";
  change_request_id = some "1";
  change_request_url = none;
  status = SourceChangeRequestStatus.pr_created;
  failure_code = none;
})

abbrev outcome : Outcome
outcome =
    Outcome.review (decided approving (run_in RunState.awaiting_review) 0 [] [] "u" "u")
      (run_in RunState.awaiting_review)

abbrev approved_store : Store
approved_store = (resolve_review_body host approving waiting_store).1

approved_first : resolve_review_body host approving waiting_store ≡ (ok outcome, approved_store)
unfolding resolve_review_body check_gate conclude get_run get_validations get_evidence
    get_evidence_version random_uuid current_time save_review append_event get_events ◌>>=◌ get put
    empty review_schema event_schema evaluate_completion_gate
approved_first = refl

approval_opens_publication_example :
    (run : Run) × IsReady "w" "uu" run approved_store
    × Ensures
        (FailsBy opening)
        (IsPublished run.id)
        (publish_run_body host opening publish_input approved_store)
approval_opens_publication_example =
    approval_opens_publication host opening approving publish_input waiting_store approved_store
      outcome refl approved_first refl refl
