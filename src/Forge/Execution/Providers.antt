-- ===== src/Forge/Execution/Providers.antt =====
-- packages/forge-domain/src/providers/sandbox-provider.ts and coding-agent-provider.ts: what an
-- execution asks of the providers, whose answers are parameters.
use cyclewarden.Prelude.{ℕ, List, String, ℤ}
use cyclewarden.Domain.Contracts.{Locale}
use cyclewarden.Domain.Errors.{ForgeError, Result}
use cyclewarden.Events.Provider.{CodingAgentEvent}

pub record SandboxLimits : Type 0 where
  pub timeout_ms : ℕ
  pub cpu_millis : ℕ
  pub memory_mb : ℕ
  pub storage_mb : ℕ
  pub allowed_hosts : List String

pub record SandboxCreateInput : Type 0 where
  pub run_id : String
  pub repository_url : String
  pub repository_credential_handle : String
  pub base_branch : String
  pub limits : SandboxLimits

pub record CreatedSandbox : Type 0 where
  pub sandbox_id : String
  pub expires_at : String

pub record SandboxExecInput : Type 0 where
  pub sandbox_id : String
  pub command : String
  pub args : List String
  pub timeout_ms : ℕ

pub record SandboxExecResult : Type 0 where
  pub exit_code : ℤ
  pub stdout : String
  pub stderr : String
  pub duration_ms : ℤ

-- Each operation answers or fails.
pub record SandboxProvider : Type 0 where
  pub key : String
  pub create : SandboxCreateInput → Result CreatedSandbox
  pub execute : SandboxExecInput → Result SandboxExecResult
  pub destroy : String → Result (Unit {0})

pub record CodingAgentStartInput : Type 0 where
  pub run_id : String
  pub sandbox_id : String
  pub objective : String
  pub acceptance_criteria : List String
  pub constraints : List String
  pub technical_output_language : Locale

-- What the agent's `AsyncIterable` yields: items with their cursors, until it ends or fails.
pub data AgentStream : Type 0 where
  ended : AgentStream
  broken : ForgeError → AgentStream
  item : String → CodingAgentEvent → AgentStream → AgentStream

pub record CodingAgentProvider : Type 0 where
  pub key : String
  pub start : CodingAgentStartInput → Result String
  pub events : String → AgentStream
