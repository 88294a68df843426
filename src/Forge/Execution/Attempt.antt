-- ===== src/Forge/Execution/Attempt.antt =====
-- The `try` block of `executeRun` (packages/forge-application/src/runs/execute-run.ts).
use cyclewarden.Prelude.{
  ℕ, suc, none, some, [], String, ◌++ₛ◌, pos, num, str, obj, end, field, or_else,
}
use cyclewarden.Domain.Contracts.{Run, RunState, state_eq, Task, ActorType}
use cyclewarden.Domain.Errors.{ForgeError, ok, throw, provider_error}
use cyclewarden.Events.Provider.{
  Platform, CodingAgentEvent, created, command_completed, destroyed, failed, sandbox, agent,
  LiveSandboxProviderEvent,
}
use cyclewarden.Forge.Store.{Store, Host}
use cyclewarden.Forge.Queries.{get_task, get_evidence_version}
use cyclewarden.Forge.Methods.{current_time, save_run, append_event}
use cyclewarden.Forge.Execution.Providers.{AgentStream, ended, broken, item}
use cyclewarden.Forge.Execution.Frame.{
  Body, return, return_result, call, reads, ◌>>=◌, ◌>>◌, assign_run, assign_sandbox, note_create,
  note_destroy,
}
use cyclewarden.Forge.Execution.Requests.{
  ExecuteRunInput, Pause, creating, starting, validating, destroying, reading, sandbox_request,
  agent_request, event_of_system, move, record_validation, append_normalized_provider_event,
}

-- What an execution needs beside its input: the host, the platform of the event normalizer, the
-- messages of errors, and what the rest of the application does at each pause.
pub record Runtime : Type 0 where
  pub host : Host
  pub platform : Platform
  pub error_message : ForgeError → String
  pub meanwhile : Pause → Store → Store

-- `if (item.event.type === "failed") throw new Error(item.event.code);`
abbrev pub check_event : CodingAgentEvent → Body (Unit {0})
check_event (failed code summary) = return_result (throw (provider_error "Error" code))
check_event _ = return tt

module _ (runtime : Runtime) where
  open runtime use {host, platform, error_message, meanwhile}

  -- `await`
  abbrev pub wait : Pause → Body (Unit {0})
  wait pause f = (ok tt, record f { store = meanwhile pause f.store })

  -- `run = move(run, next); store.saveRun(run);`
  unfoldable pub advance : RunState → Body (Unit {0})
  advance next_state = do
    run ← reads (λ f. f.run)
    moved ← call (move host run next_state)
    assign_run moved
    call (save_run host moved)
    return tt

  -- The move to `running` also records when the run started.
  unfoldable pub start_running : Body (Unit {0})
  start_running = do
    run ← reads (λ f. f.run)
    moved ← call (move host run RunState.running)
    started ← call (current_time host)
    let running : Run = record moved { started_at = some started }
    assign_run running
    call (save_run host running)
    return tt

  module _ (input : ExecuteRunInput) where
    unfoldable pub append_sandbox_event :
        String → String → LiveSandboxProviderEvent → Body (Unit {0})
    append_sandbox_event sandbox_id cursor event = do
      run ← reads (λ f. f.run)
      call (
          append_normalized_provider_event host platform run.id (record {
            provider_key = input.sandbox_provider.key;
            external_run_id = sandbox_id;
            cursor = cursor;
            event = sandbox event;
          }))

    -- Until the sandbox is ready.
    unfoldable pub provision : Body String
    unfolding advance start_running append_sandbox_event
    provision = do
      advance RunState.provisioning
      run ← reads (λ f. f.run)
      call (append_event host (event_of_system run.id "sandbox.provisioning_started" (obj end)))
      wait creating
      sandbox' ← return_result (input.sandbox_provider.create (sandbox_request input run))
      note_create sandbox'.sandbox_id
      assign_sandbox sandbox'.sandbox_id
      start_running
      append_sandbox_event sandbox'.sandbox_id ("created:" ++ₛ sandbox'.sandbox_id)
          (created sandbox'.expires_at)
      return sandbox'.sandbox_id

    -- The loop over the agent's events.
    unfoldable pub follow : String → ℕ → AgentStream → Body (Unit {0})
    follow external_run_id n ended = wait (reading n)
    follow external_run_id n (broken e) = wait (reading n) >> return_result (throw e)
    follow external_run_id n (item cursor event rest) = do
      wait (reading n)
      run ← reads (λ f. f.run)
      call (
          append_normalized_provider_event host platform run.id (record {
            provider_key = input.coding_agent_provider.key;
            external_run_id = external_run_id;
            cursor = cursor;
            event = agent event;
          }))
      check_event event
      follow external_run_id (suc n) rest

    -- The agent's work, from its start to its last event.
    unfoldable pub run_agent : String → Body Task
    unfolding follow
    run_agent sandbox_id = do
      run ← reads (λ f. f.run)
      task ← call (get_task run.task_id)
      wait starting
      external_run_id ←
          return_result (input.coding_agent_provider.start (agent_request run task sandbox_id))
      call (
          append_event host (record {
            run_id = run.id;
            type = "agent.started";
            payload = obj (field "externalRunId" (str external_run_id) end);
            actor_type = some ActorType.provider;
            actor_id = some input.coding_agent_provider.key;
            correlation_id = none;
          }))
      follow external_run_id 0 (input.coding_agent_provider.events external_run_id)
      return task

    -- The validation command, with the evidence that it gives.
    unfoldable pub validate : String → Task → Body (Unit {0})
    unfolding advance append_sandbox_event
    validate sandbox_id task = do
      advance RunState.validating
      run ← reads (λ f. f.run)
      let command : String = or_else input.validation_command "pnpm test"
      wait validating
      result ← return_result (
          input.sandbox_provider.execute
            (record { sandbox_id = sandbox_id; command = command; args = []; timeout_ms = 120000 }))
      append_sandbox_event sandbox_id ("validation:" ++ₛ run.id)
          (command_completed command result.exit_code result.duration_ms)
      call (record_validation host run task command result)

    -- The run is ready for its review, and the sandbox is destroyed.
    unfoldable pub announce : String → Run → Body Run
    unfolding append_sandbox_event
    announce sandbox_id run = do
      version ← reads (λ f. get_evidence_version run.id f.store)
      call (
          append_event host (
            event_of_system run.id "review.ready"
              (obj (field "evidenceVersion" (num (pos version)) end))))
      note_destroy sandbox_id
      wait destroying
      return_result (input.sandbox_provider.destroy sandbox_id)
      append_sandbox_event sandbox_id ("destroyed:" ++ₛ sandbox_id) destroyed
      return run

    unfoldable pub hand_over : String → Body Run
    unfolding advance announce
    hand_over sandbox_id = do
      advance RunState.awaiting_review
      run ← reads (λ f. f.run)
      announce sandbox_id run

    -- The `try` block.
    unfoldable pub attempt : Body Run
    unfolding provision run_agent validate hand_over
    attempt = do
      sandbox_id ← provision
      task ← run_agent sandbox_id
      validate sandbox_id task
      hand_over sandbox_id
