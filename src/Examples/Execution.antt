-- ===== src/Examples/Execution.antt =====
-- An execution whose agent says one thing and completes, and one that is cancelled meanwhile.
use cyclewarden.Prelude.{
  ◌≡◌, ◌↔◌, refl, sym, ap, ◌∙◌, Bool, map, false, true, some, none, List, [], ◌∷◌, String, get, put,
  remove, values, empty, trim, utf16_length, pos, contains, string_eq,
}
use cyclewarden.Domain.Contracts.{
  Run, RunEvent, RunState, Task, TaskStatus, Locale, EvidenceRequirement,
}
use cyclewarden.Domain.Schemas.{
  is_record, parse_task, run_schema, event_schema, validation_schema, evidence_schema, non_empty,
}
use cyclewarden.Domain.RunLifecycle.{
  transition_run, can_transition, is_active_run_state, is_cancellable_run_state,
  evaluate_run_admission,
}
use cyclewarden.Domain.Errors.{ForgeError, Result, ok, throw}
use cyclewarden.Events.Redaction.{redact_secrets, is_secret_key}
use cyclewarden.Events.Json.{normalize_text, normalize_json_value}
use cyclewarden.Events.Provider.{Platform, message, completed}
use cyclewarden.Events.Normalizer.{normalize_event, normalize_live_provider_event}
use cyclewarden.Forge.Serialize.{stable_serialize}
use cyclewarden.Forge.Store.{Store, init}
use cyclewarden.Forge.Exec
use cyclewarden.Forge.Queries.{
  get_task, get_task_workspace, get_run, list_active_runs, list_runs_for_task, get_events,
  get_evidence_version, get_validations, get_evidence,
}
use cyclewarden.Forge.Methods.{
  save_task, save_run, save_validation, save_evidence, append_event, random_uuid, current_time,
  request_hash, settle, replay, start_or_replay, execute_idempotent,
}
use cyclewarden.Forge.Commands.CreateTask.{create_task}
use cyclewarden.Forge.Commands.StartRun.{fresh_run, start_run, start_run_body}
use cyclewarden.Forge.Commands.CancelRun.{cancel_run, cancel_run_body, cancel_now}
use cyclewarden.Forge.Service.{Command, handle, serve}
use cyclewarden.Forge.Invariant.Parts.{IsValid}
use cyclewarden.Forge.Invariant.Preserved.{serve-IsValid, init-IsValid}
use cyclewarden.Forge.Execution.Providers.{
  SandboxProvider, SandboxExecResult, CodingAgentProvider, item, ended,
}
use cyclewarden.Forge.Execution.Frame.{Frame, call, ◌>>=◌}
use cyclewarden.Forge.Execution.Requests.{
  is_success, ExecuteRunInput, Pause, validating, error_name, move, save_all_evidence,
  record_validation, append_normalized_provider_event,
}
use cyclewarden.Forge.Execution.Attempt.{
  Runtime, advance, start_running, append_sandbox_event, provision, follow, run_agent, validate,
  announce, hand_over, attempt,
}
use cyclewarden.Forge.Execution.Body.{
  execute_found, frame_of, fail_run, recover, caught, execute_queued, execute_run,
}
use cyclewarden.Forge.Execution.Created.{sandbox_is_destroyed}
use cyclewarden.Forge.Execution.Overwriting.{execution_overwrites}
use cyclewarden.Forge.Execution.Evidence.{first_validation_decides}
use cyclewarden.Forge.Steps.{GateOpen}
use cyclewarden.Forge.Execution.Ending.{Ended}
use cyclewarden.Forge.Execution.Service.{serving, execution_ends}
use cyclewarden.Examples.World.{
  tally, host, host-UniqueUuids, everyone, normalizer, create_input, start_input, cancel_input,
}

abbrev platform : Platform
platform = record { iso_date = λ s. some s; parse_url = λ s. none; sha256 = λ s. s }

abbrev sandbox_provider : SandboxProvider
sandbox_provider = record {
  key = "sandbox";
  create = λ i. ok (record { sandbox_id = "box"; expires_at = "later" });
  execute =
      λ i. ok (record { exit_code = pos 0; stdout = "passed"; stderr = ""; duration_ms = pos 25 });
  destroy = λ id. ok tt;
}

abbrev agent_provider : CodingAgentProvider
agent_provider = record {
  key = "agent";
  start = λ i. ok "agent-run";
  events = λ id. item "1" (message "Working") (item "2" (completed "Done") ended);
}

abbrev input : ExecuteRunInput
input = record {
  run_id = "uu";
  sandbox_provider = sandbox_provider;
  coding_agent_provider = agent_provider;
  repository_url = "https://example.test/r";
  repository_credential_handle = "handle";
  validation_command = none;
}

abbrev runtime : Runtime
runtime = record {
  host = host;
  platform = platform;
  error_message = λ e. "failed";
  meanwhile = λ p s. s;
}

abbrev started : Store
started =
    serve host everyone (Command.create normalizer create_input ∷ Command.start start_input ∷ [])
      init

started-IsValid : IsValid host started
started-IsValid =
    serve-IsValid host everyone host-UniqueUuids
      (Command.create normalizer create_input ∷ Command.start start_input ∷ []) init
      (init-IsValid host)

-- One more task is created in another workspace at each pause.
abbrev elsewhere : Pause → List Command
elsewhere p = Command.create normalizer (record create_input { workspace_id = "other" }) ∷ []

abbrev beside : Runtime
beside = serving runtime everyone elsewhere

abbrev queued : Run
queued = fresh_run start_input "u" "uu" 1 (tally 1)

abbrev is_ok : Result Run → Bool
is_ok (ok r) = true
is_ok (throw e) = false

-- The run is cancelled while its validation runs.
abbrev cancelling : Pause → Store → Store
cancelling validating s = serve host everyone (Command.cancel cancel_input ∷ []) s
cancelling _ s = s

abbrev cancelled : Runtime
cancelled = record runtime { meanwhile = cancelling }

abbrev overwritten : Result Run × Frame
overwritten = execute_queued cancelled input started queued

abbrev answer : Result Run → Run
answer (ok r) = r
answer (throw e) = queued

abbrev types : List RunEvent → List String
types es = map (λ (e : RunEvent). e.type) es

answered : (r : Result Run × Frame) → is_ok r.0 ≡ true → r ≡ (ok (answer r.0), r.1)
answered (ok run, f) h = refl
answered (throw e, f) h = absurd (cc)

-- The run is found queued, the execution beside other work and the one that is cancelled both return,
-- and the cancellation has taken place.
runs :
    (get started.runs "uu" ≡ some queued)
    × (is_ok (attempt beside input (frame_of beside started queued)).0 ≡ true)
    × (contains "box" (execute_queued runtime input started queued).1.created ≡ true)
    × (is_ok overwritten.0 ≡ true)
    × (contains "run.cancelled" (types (get_events "uu" overwritten.1.store)) ≡ true)
unfolding empty get put remove values trim utf16_length parse_task run_schema is_record event_schema
    validation_schema evidence_schema transition_run can_transition is_active_run_state
    is_cancellable_run_state evaluate_run_admission stable_serialize get_task get_task_workspace
    get_run list_active_runs list_runs_for_task get_events get_evidence_version get_validations
    get_evidence save_task save_run save_validation save_evidence append_event random_uuid
    current_time request_hash settle replay start_or_replay execute_idempotent create_task start_run
    start_run_body cancel_run cancel_run_body cancel_now handle serve Exec.◌>>=◌ ◌>>=◌ call
    redact_secrets is_secret_key normalize_text normalize_json_value normalize_event
    normalize_live_provider_event move save_all_evidence record_validation
    append_normalized_provider_event advance start_running append_sandbox_event provision follow
    run_agent validate announce hand_over attempt fail_run recover caught execute_queued execute_run
    execute_found
runs = (refl, refl, refl, refl, refl)

named :
    (e : ForgeError)
    → (attempt beside input (frame_of beside started queued)).0 ≡ throw e
    → non_empty (error_name e) ≡ true
named e h = absurd (cc (sym (runs.1) ∙ ap is_ok h))

execution_ends_example : Ended host "uu" (execute_run beside input started)
execution_ends_example =
    execution_ends runtime host-UniqueUuids (λ i. refl) everyone elsewhere input started queued
      (λ p. ((λ same. absurd (cc same)), tt)) started-IsValid runs.0 refl named

sandbox_is_destroyed_example :
    contains "box" (execute_queued runtime input started queued).1.destroy_calls ≡ true
sandbox_is_destroyed_example = sandbox_is_destroyed runtime input started queued "box" runs.2 refl

execution_overwrites_example :
    ((answer overwritten.0).state ≡ RunState.awaiting_review)
    × ((answer overwritten.0).version ≡ 4)
    × (get overwritten.1.store.runs (answer overwritten.0).id ≡ some (answer overwritten.0))
execution_overwrites_example =
    execution_overwrites cancelled input started queued (answer overwritten.0) overwritten.1
      (λ s. refl) (answered overwritten runs.3)

abbrev task : Task
task = record {
  id = "u";
  project_id = "p";
  created_by = "me";
  title = "Title";
  original_instruction = "Do it";
  instruction_language = Locale.en;
  normalized_objective = "Objective";
  scope = [];
  acceptance_criteria =
      record { key = "k"; description = "d"; requirement = EvidenceRequirement.task_mandatory }
      ∷ [];
  constraints = [];
  technical_output_language = Locale.en;
  status = TaskStatus.ready;
  version = 0;
  created_at = "now";
  updated_at = "now";
}

abbrev unsuccessful : SandboxExecResult
unsuccessful = record { exit_code = pos 1; stdout = ""; stderr = "1 failed"; duration_ms = pos 25 }

nothing_yet :
    ((record_validation host queued task "pnpm test" unsuccessful init).0 ≡ ok tt)
    × (get_validations "uu" init ≡ [])
    × (get_evidence "uu" init ≡ [])
unfolding record_validation save_all_evidence save_validation save_evidence random_uuid Exec.◌>>=◌
    validation_schema evidence_schema get_validations get_evidence get empty
nothing_yet = (refl, refl, refl)

first_validation_decides_example :
    GateOpen (record_validation host queued task "pnpm test" unsuccessful init).1 "uu"
    ↔ (is_success unsuccessful.exit_code ≡ true)
first_validation_decides_example =
    first_validation_decides host queued unsuccessful task "pnpm test" init nothing_yet.0
      nothing_yet.1 nothing_yet.2
