-- ===== src/Examples/World.antt =====
-- A host with a countable supply of identifiers, and commands for it.
use cyclewarden.Prelude.{
  ℕ, zero, suc, ◌≡◌, refl, ap, true, false, none, some, String, List, [], ◌∷◌, obj, end, arith,
  ◌++ₛ◌, get, put, empty, get-put_self,
}
use cyclewarden.Domain.Contracts.{
  Publication, PublicationStatus, ApprovalRequest, ApprovalStatus, RiskLevel, Locale,
  EvidenceRequirement, Run, RunState, ReviewDecision, ReviewOutcome,
}
use cyclewarden.Domain.Schemas.{Formats}
use cyclewarden.Domain.Errors.{ok, throw, provider_error}
use cyclewarden.Forge.Store.{Host, Store, init}
use cyclewarden.Forge.Commands.Authorizer.{WorkspaceAuthorizer}
use cyclewarden.Forge.Commands.CreateTask.{TaskNormalizer, CreateTaskInput}
use cyclewarden.Forge.Commands.StartRun.{StartRunInput, fresh_run}
use cyclewarden.Forge.Commands.CancelRun.{CancelRunInput}
use cyclewarden.Forge.Commands.PublishRun.{PublishRunInput, SourceProvider, SourceRepositoryRef}
use cyclewarden.Forge.Service.{Command}
use cyclewarden.Forge.Invariant.Parts.{UniqueUuids}

-- The n-th identifier.
abbrev pub tally : ℕ → String
tally zero = "u"
tally (suc n) = "u" ++ₛ tally n

abbrev size : String → ℕ
size String.[] = zero
size (String.◌∷◌ c s) = suc (size s)

size-tally : (n : ℕ) → size (tally n) ≡ suc n
size-tally zero = refl
size-tally (suc n) = ap suc (size-tally n)

abbrev pub formats : Formats
formats = record { uuid = λ s. true; datetime = λ s. true; url = λ s. true }

abbrev pub host : Host
host = record {
  uuid = tally;
  now = tally;
  sha256 = λ s. s;
  locale_le = λ a b. true;
  formats = formats;
}

pub host-UniqueUuids : UniqueUuids host
host-UniqueUuids i j same = omega (arith, size-tally i, size-tally j, ap size same)

abbrev pub everyone : WorkspaceAuthorizer
everyone workspace user = ok tt

abbrev pub normalizer : TaskNormalizer
normalizer instruction language output = ok (record {
  title = "Title";
  normalized_objective = "Objective";
  scope = "repository" ∷ [];
  acceptance_criteria =
      record { key = "k"; description = "d"; requirement = EvidenceRequirement.task_mandatory }
      ∷ [];
  constraints = [];
})

abbrev pub create_input : CreateTaskInput
create_input = record {
  workspace_id = "w";
  project_id = "p";
  user_id = "me";
  instruction = "Do it";
  instruction_language = Locale.en;
  technical_output_language = Locale.en;
}

-- The task has the identifier "u".
abbrev pub start_input : StartRunInput
start_input = record {
  workspace_id = "w";
  user_id = "me";
  task_id = "u";
  idempotency_key = "one";
  base_branch = "main";
  agent_provider = "agent";
  sandbox_provider = "sandbox";
  budget_policy = obj end;
  permission_policy = obj end;
}

-- The run has the identifier "uu".
abbrev pub cancel_input : CancelRunInput
cancel_input = record {
  workspace_id = "w";
  user_id = "me";
  run_id = "uu";
  idempotency_key = "two";
  reason = "Changed my mind";
}

abbrev pub requests : List Command
requests =
    Command.create normalizer create_input
    ∷ Command.start start_input
    ∷ Command.cancel cancel_input
    ∷ []

abbrev pub run : Run
run = fresh_run start_input "u" "uu" 1 "now"

abbrev pub run_in : RunState → Run
run_in state = record run { lifecycle = record (run.lifecycle) { state = state } }

abbrev pub review : ReviewDecision
review = record {
  id = "r";
  run_id = "uu";
  decision = ReviewOutcome.approved;
  decided_by = "me";
  rationale = none;
  evidence_snapshot_version = 2;
  evidence_snapshot = obj end;
  advisory_waivers = [];
  created_at = "now";
}

abbrev pub repository : SourceRepositoryRef
repository = record {
  provider = "source";
  external_repository_id = "1";
  namespace = "n";
  repository_name = "r";
  default_branch = "main";
  archived = false;
}

abbrev pub publish_input : PublishRunInput
publish_input = record {
  workspace_id = "w";
  user_id = "me";
  run_id = "uu";
  idempotency_key = "three";
  repository = repository;
  branch_name = "b";
  commit_message = "m";
  title = "t";
  body = "b";
  expected_head_sha = "0";
}

-- A source provider that cannot be reached.
abbrev pub unreachable : SourceProvider
unreachable input = throw (provider_error "source" "unreachable")

abbrev pub publishing_store : Store
publishing_store = record init { runs = put empty "uu" (run_in RunState.publishing) }

pub publishing_stored : get publishing_store.runs "uu" ≡ some (run_in RunState.publishing)
publishing_stored = get-put_self empty "uu" (run_in RunState.publishing)

abbrev pub publication : Publication
publication = record {
  id = "p";
  run_id = "uu";
  provider = "source";
  external_repository_id = "1";
  branch_name = "b";
  commit_sha = "0";
  change_request_id = none;
  change_request_url = none;
  status = PublicationStatus.pushed;
  failure_code = none;
  created_at = "now";
  updated_at = "now";
}

abbrev pub pending_approval : ApprovalRequest
pending_approval = record {
  id = "a";
  run_id = "uu";
  request_key = "k";
  action_type = "deploy";
  summary = "Deploy it";
  scope = obj end;
  risk_level = RiskLevel.high;
  status = ApprovalStatus.pending;
  requested_at = "now";
  expires_at = none;
  resolved_by = none;
  resolved_at = none;
  reason = none;
  version = 0;
}
