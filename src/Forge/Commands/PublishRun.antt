-- ===== src/Forge/Commands/PublishRun.antt =====
-- packages/forge-application/src/publications/publish-run.ts. The body has two parts, before and
-- after it waits for the source provider.
use cyclewarden.Prelude.{
  Bool, true, not, Option, none, some, String, ◌!=◌, string_eq, map, str, str?, obj, end, field,
}
use cyclewarden.Domain.Contracts.{
  Run, RunState, ReviewOutcome, Publication, PublicationStatus, user, provider,
}
use cyclewarden.Domain.Schemas.{publication_schema}
use cyclewarden.Domain.CompletionGate.{
  CompletionBlocker, CompletionGateResult, evaluate_completion_gate,
}
use cyclewarden.Domain.RunLifecycle.{transition_run}
use cyclewarden.Domain.Errors.{Result, unauthorized, gate_blocked, schema_error}
use cyclewarden.Forge.Store.{Host, Outcome}
use cyclewarden.Forge.Exec.{Exec, return, from_result, gets, throw_if, ◌>>=◌, ◌>>◌}
use cyclewarden.Forge.Queries.{
  get_run, get_review, get_evidence_version, get_validations, get_evidence,
}
use cyclewarden.Forge.Methods.{
  Request, random_uuid, current_time, save_run, save_publication, append_event, execute_idempotent,
}
use cyclewarden.Forge.Commands.Authorizer.{WorkspaceAuthorizer}

-- packages/forge-domain/src/providers/source-provider.ts
pub record SourceRepositoryRef : Type 0 where
  pub provider : String
  pub external_repository_id : String
  pub namespace : String
  pub repository_name : String
  pub default_branch : String
  pub archived : Bool

pub record SourceChangeRequestInput : Type 0 where
  pub repository : SourceRepositoryRef
  pub base_branch : String
  pub branch_name : String
  pub commit_message : String
  pub title : String
  pub body : String
  pub draft : Bool
  pub expected_head_sha : String

pub data SourceChangeRequestStatus : Type 0 where
  pushed pr_created : SourceChangeRequestStatus

pub record SourceChangeRequestResult : Type 0 where
  pub provider : String
  pub external_repository_id : String
  pub branch_name : String
  pub commit_sha : String
  pub change_request_id : Option String
  pub change_request_url : Option String
  pub status : SourceChangeRequestStatus
  pub failure_code : Option String

-- `sourceProvider.createDraftChangeRequest`: its answer or its failure.
abbrev pub SourceProvider : Type 0
SourceProvider = SourceChangeRequestInput → Result SourceChangeRequestResult

pub record PublishRunInput : Type 0 where
  pub workspace_id : String
  pub user_id : String
  pub run_id : String
  pub idempotency_key : String
  pub repository : SourceRepositoryRef
  pub branch_name : String
  pub commit_message : String
  pub title : String
  pub body : String
  pub expected_head_sha : String

abbrev pub publish_run_request : PublishRunInput → Request
publish_run_request input = record {
  workspace_id = input.workspace_id;
  operation = "publish";
  idempotency_key = input.idempotency_key;
  body = obj (
      field "runId" (str input.run_id) (
        field "branchName" (str input.branch_name)
          (field "expectedHeadSha" (str input.expected_head_sha) end)));
}

abbrev pub publication_status : SourceChangeRequestStatus → PublicationStatus
publication_status pushed = PublicationStatus.pushed
publication_status pr_created = PublicationStatus.pr_created

-- What the source provider is asked for: always a draft.
abbrev pub change_request : PublishRunInput → Run → SourceChangeRequestInput
change_request input run = record {
  repository = input.repository;
  base_branch = run.base_branch;
  branch_name = input.branch_name;
  commit_message = input.commit_message;
  title = input.title;
  body = input.body;
  draft = true;
  expected_head_sha = input.expected_head_sha;
}

abbrev pub published : SourceChangeRequestResult → Run → String → String → Publication
published result run id now = record {
  id = id;
  run_id = run.id;
  provider = result.provider;
  external_repository_id = result.external_repository_id;
  branch_name = result.branch_name;
  commit_sha = result.commit_sha;
  change_request_id = result.change_request_id;
  change_request_url = result.change_request_url;
  status = publication_status result.status;
  failure_code = result.failure_code;
  created_at = now;
  updated_at = now;
}

abbrev pub require_publication_gate : CompletionGateResult → Exec (Unit {0})
require_publication_gate gate =
    throw_if (not gate.eligible_for_publication)
      (gate_blocked (map (λ (b : CompletionBlocker). b.code) gate.blockers))

module _ (host : Host) where
  -- Up to the request: the gate, and the run marked as being published.
  unfoldable pub begin_publication : PublishRunInput → Exec Run
  begin_publication input = do
    run ← get_run input.run_id
    throw_if (run.workspace_id != input.workspace_id) unauthorized
    review ← gets (get_review run.id)
    version ← gets (get_evidence_version run.id)
    validations ← gets (get_validations run.id)
    evidence ← gets (get_evidence run.id)
    require_publication_gate (evaluate_completion_gate version validations evidence review)
    lifecycle ← from_result (transition_run run.lifecycle RunState.publishing)
    updated ← current_time host
    let publishing : Run = record run {
      lifecycle = lifecycle;
      working_branch = some input.branch_name;
      updated_at = updated;
    }
    save_run host publishing
    append_event host (record {
      run_id = publishing.id;
      type = "publication.started";
      payload = obj (field "branchName" (str input.branch_name) end);
      actor_type = some user;
      actor_id = some input.user_id;
      correlation_id = none;
    })
    return publishing

  -- After the provider's answer, on the run as it was before the request.
  unfoldable pub finish_publication : Run → SourceChangeRequestResult → Exec Outcome
  finish_publication run result = do
    now ← current_time host
    id ← random_uuid host
    let publication : Publication = published result run id now
    throw_if (not (publication_schema host.formats publication)) schema_error
    save_publication host publication
    lifecycle ← from_result (transition_run run.lifecycle RunState.completed)
    let completed : Run = record run {
      lifecycle = record lifecycle { review_outcome = some ReviewOutcome.approved };
      finished_at = some now;
      updated_at = now;
    }
    save_run host completed
    append_event host (record {
      run_id = completed.id;
      type = "publication.completed";
      payload = obj (
          field "changeRequestId" (str? publication.change_request_id)
            (field "changeRequestUrl" (str? publication.change_request_url) end));
      actor_type = some provider;
      actor_id = none;
      correlation_id = none;
    })
    return (Outcome.publication publication)

  -- The `execute` of the command, where nothing else happens while it waits.
  unfoldable pub publish_run_body : SourceProvider → PublishRunInput → Exec Outcome
  publish_run_body create_draft_change_request input = do
    run ← begin_publication input
    result ← from_result (create_draft_change_request (change_request input run))
    finish_publication run result

  unfoldable pub publish_run : WorkspaceAuthorizer → SourceProvider → PublishRunInput → Exec Outcome
  publish_run assert_can_access create_draft_change_request input = do
    from_result (assert_can_access input.workspace_id input.user_id)
    execute_idempotent host (publish_run_request input)
        (publish_run_body create_draft_change_request input)
