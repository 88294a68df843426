-- ===== src/Forge/Execution/Requests.antt =====
-- packages/forge-application/src/runs/execute-run.ts: what `executeRun` asks of the providers, and what
-- it records in the store.
use cyclewarden.Prelude.{
  ℕ, Bool, false, Option, none, some, List, [], ◌∷◌, String, map, nat_beq, ℤ, pos, negsuc, Json,
  if◌then◌else◌, is_blank,
}
use cyclewarden.Domain.Contracts.{
  Task, AcceptanceCriterion, Run, RunState, ValidationResult, ValidationKind, ValidationStatus,
  AcceptanceEvidence, EvidenceRequirement, EvidenceStatus,
}
use cyclewarden.Domain.RunLifecycle.{transition_run}
use cyclewarden.Domain.Errors.{
  ForgeError, illegal_run_transition, range_error, schema_error, idempotency_conflict,
  active_run_exists, approval_already_resolved, invalid_event, non_json_payload, invalid_input,
  payload_limit_exceeded, provider_error,
}
use cyclewarden.Events.Provider.{Platform, LiveProviderEventInput}
use cyclewarden.Events.Normalizer.{normalize_live_provider_event}
use cyclewarden.Forge.Store.{Host}
use cyclewarden.Forge.Exec.{Exec, return, from_result, ◌>>=◌, ◌>>◌}
use cyclewarden.Forge.Queries.{non_blank}
use cyclewarden.Forge.Methods.{
  EventInput, random_uuid, current_time, save_validation, save_evidence, append_event,
}
use cyclewarden.Forge.Execution.Providers.{
  SandboxCreateInput, SandboxExecResult, SandboxProvider, CodingAgentStartInput,
  CodingAgentProvider,
}

pub record ExecuteRunInput : Type 0 where
  pub run_id : String
  pub sandbox_provider : SandboxProvider
  pub coding_agent_provider : CodingAgentProvider
  pub repository_url : String
  pub repository_credential_handle : String
  pub validation_command : Option String

-- The places where `executeRun` waits. An item of the agent is counted from 0.
pub data Pause : Type 0 where
  creating starting validating destroying cleaning : Pause
  reading : ℕ → Pause

-- `error.name`. What a provider throws has a name of its own; what is not an `Error` counts as one named
-- `EXECUTION_FAILED`.
abbrev pub error_name : ForgeError → String
error_name (illegal_run_transition a b) = "IllegalRunTransitionError"
error_name range_error = "RangeError"
error_name schema_error = "ZodError"
error_name idempotency_conflict = "IdempotencyConflictError"
error_name (active_run_exists ids) = "ActiveRunExistsError"
error_name approval_already_resolved = "ApprovalAlreadyResolvedError"
error_name invalid_event = "LiveProviderEventNormalizationError"
error_name non_json_payload = "LiveProviderEventNormalizationError"
error_name invalid_input = "LiveProviderEventNormalizationError"
error_name payload_limit_exceeded = "LiveProviderEventNormalizationError"
error_name (provider_error name message) = name
error_name _ = "Error"

abbrev pub recoverable_states : List RunState
recoverable_states =
    RunState.queued ∷ RunState.provisioning ∷ RunState.running ∷ RunState.awaiting_approval
    ∷ RunState.validating ∷ RunState.awaiting_review ∷ RunState.publishing ∷ []

-- `exitCode === 0`
abbrev pub is_success : ℤ → Bool
is_success (pos n) = nat_beq n 0
is_success (negsuc n) = false

abbrev pub sandbox_request : ExecuteRunInput → Run → SandboxCreateInput
sandbox_request input run = record {
  run_id = run.id;
  repository_url = input.repository_url;
  repository_credential_handle = input.repository_credential_handle;
  base_branch = run.base_branch;
  limits = record {
    timeout_ms = 300000;
    cpu_millis = 60000;
    memory_mb = 2048;
    storage_mb = 4096;
    allowed_hosts = [];
  };
}

abbrev pub agent_request : Run → Task → String → CodingAgentStartInput
agent_request run task sandbox_id = record {
  run_id = run.id;
  sandbox_id = sandbox_id;
  objective = task.normalized_objective;
  acceptance_criteria = map (λ (c : AcceptanceCriterion). c.description) task.acceptance_criteria;
  constraints = task.constraints;
  technical_output_language = task.technical_output_language;
}

abbrev pub event_of_system : String → String → Json → EventInput
event_of_system run_id type payload = record {
  run_id = run_id;
  type = type;
  payload = payload;
  actor_type = none;
  actor_id = none;
  correlation_id = none;
}

abbrev pub validation_of : Run → String → SandboxExecResult → String → ValidationResult
validation_of run command result id = record {
  id = id;
  run_id = run.id;
  kind = ValidationKind.test;
  command = command;
  requirement = EvidenceRequirement.constitution;
  status = if is_success result.exit_code then ValidationStatus.passed else ValidationStatus.failed;
  exit_code = some result.exit_code;
  duration_ms = some result.duration_ms;
  output_summary =
      if is_blank result.stdout then non_blank (some result.stderr) else some result.stdout;
  artifact_ref = none;
}

abbrev pub evidence_of : Run → SandboxExecResult → AcceptanceCriterion → String → AcceptanceEvidence
evidence_of run result criterion id = record {
  id = id;
  run_id = run.id;
  criterion_key = criterion.key;
  requirement = criterion.requirement;
  status =
      if is_success result.exit_code
      then EvidenceStatus.satisfied
      else EvidenceStatus.not_satisfied;
  evidence_type = "validation";
  evidence_ref = none;
  explanation =
      if is_success result.exit_code
      then "Deterministic validation passed"
      else "Deterministic validation failed";
  waived_by = none;
  waived_reason = none;
  waived_at = none;
}

module _ (host : Host) where
  -- The run after a transition, where it is legal.
  unfoldable pub move : Run → RunState → Exec Run
  move run next_state = do
    lifecycle ← from_result (transition_run run.lifecycle next_state)
    updated ← current_time host
    return (record run { lifecycle = lifecycle; updated_at = updated })

  -- One piece of evidence for each criterion.
  unfoldable pub save_all_evidence :
      Run → SandboxExecResult → List AcceptanceCriterion → Exec (Unit {0})
  save_all_evidence run result [] = return tt
  save_all_evidence run result (criterion ∷ criteria) = do
    id ← random_uuid host
    save_evidence host (evidence_of run result criterion id)
    save_all_evidence run result criteria

  -- The validation and the evidence that one execution of the command gives.
  unfoldable pub record_validation : Run → Task → String → SandboxExecResult → Exec (Unit {0})
  unfolding save_all_evidence
  record_validation run task command result = do
    id ← random_uuid host
    save_validation host (validation_of run command result id)
    save_all_evidence run result task.acceptance_criteria

  module _ (platform : Platform) where
    unfoldable pub append_normalized_provider_event :
        String → LiveProviderEventInput → Exec (Unit {0})
    append_normalized_provider_event run_id input = do
      event ← from_result (normalize_live_provider_event platform input)
      append_event host (record {
        run_id = run_id;
        type = event.type;
        payload = event.payload;
        actor_type = some event.actor_type;
        actor_id = some event.actor_id;
        correlation_id = some event.correlation_id;
      })
      return tt
