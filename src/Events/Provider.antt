-- ===== src/Events/Provider.antt =====
-- The events of live providers: the types of
-- packages/forge-application/src/events/live-provider-event-normalizer.ts, and `CodingAgentEvent` of
-- packages/forge-domain/src/providers/coding-agent-provider.ts.
use cyclewarden.Prelude.{Bool, ℕ, ℤ, Option, String, Json}
use cyclewarden.Domain.Contracts.{ActorType}

pub data InstallationStatus : Type 0 where
  active suspended deleted : InstallationStatus

abbrev pub installation_status_text : InstallationStatus → String
installation_status_text active = "active"
installation_status_text suspended = "suspended"
installation_status_text deleted = "deleted"

pub data LiveSourceProviderEvent : Type 0 where
  -- The identifier, the status and the number of repositories.
  installation_reconciled : String → InstallationStatus → ℤ → LiveSourceProviderEvent
  -- The identifier, the namespace, the name, the default branch, and whether it is archived.
  repository_resolved : String → String → String → String → Bool → LiveSourceProviderEvent
  -- The repository, the branch, the commit, and the identifier and URL of the change request.
  publication_created : String → String → String → String → String → LiveSourceProviderEvent

pub data LiveSandboxProviderEvent : Type 0 where
  created : String → LiveSandboxProviderEvent
  -- The command, its exit code and its duration.
  command_completed : String → ℤ → ℤ → LiveSandboxProviderEvent
  exposed : ℤ → String → LiveSandboxProviderEvent
  stopped : String → LiveSandboxProviderEvent
  destroyed : LiveSandboxProviderEvent

pub data CodingAgentEvent : Type 0 where
  message : String → CodingAgentEvent
  -- The request's key, the tool and its input.
  tool_requested : String → String → Json → CodingAgentEvent
  -- The input tokens and the output tokens.
  usage : ℤ → ℤ → CodingAgentEvent
  completed : String → CodingAgentEvent
  -- The code and the summary.
  failed : String → String → CodingAgentEvent

pub data ProviderEvent : Type 0 where
  source : LiveSourceProviderEvent → ProviderEvent
  sandbox : LiveSandboxProviderEvent → ProviderEvent
  agent : CodingAgentEvent → ProviderEvent

abbrev pub source_text : ProviderEvent → String
source_text (source e) = "source"
source_text (sandbox e) = "sandbox"
source_text (agent e) = "agent"

abbrev pub actor_of : ProviderEvent → ActorType
actor_of (source e) = ActorType.provider
actor_of (sandbox e) = ActorType.provider
actor_of (agent e) = ActorType.agent

pub record LiveProviderEventInput : Type 0 where
  pub provider_key : String
  pub external_run_id : String
  pub cursor : String
  pub event : ProviderEvent

pub record NormalizedLiveProviderRunEvent : Type 0 where
  pub type : String
  pub actor_type : ActorType
  pub actor_id : String
  pub correlation_id : String
  pub payload : Json
  pub schema_version : ℕ

-- What the constructor of `URL` reads from a text.
pub record Url : Type 0 where
  pub protocol : String
  pub username : String
  pub password : String
  pub hostname : String
  pub href : String

-- What the language supplies: `new Date(Date.parse(text)).toISOString()` where the text is a date, `new URL(text)` where
-- it does not throw, and SHA-256 in hexadecimal.
pub record Platform : Type 0 where
  pub iso_date : String → Option String
  pub parse_url : String → Option Url
  pub sha256 : String → String
