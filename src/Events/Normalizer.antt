-- ===== src/Events/Normalizer.antt =====
-- packages/forge-application/src/events/live-provider-event-normalizer.ts: `normalizeLiveProviderEvent`.
pub mod Results
use Prim.Native.Char.{code, nul}
use cyclewarden.Prelude.{
  ℕ, ◌+◌, ◌-◌, Bool, true, not, ◌&&◌, ◌||◌, Option, none, some, String, leb, is_blank, utf16_length,
  char_at, ◌++ₛ◌, ◌!=◌, string_eq, pos, Json, bool, num, str, obj, end, field, if◌then◌else◌,
}
use cyclewarden.Domain.Errors.{Result, ok, throw, invalid_event, ◌>>=◌}
use cyclewarden.Events.Redaction.{redact_secrets}
use cyclewarden.Events.Provider.{
  installation_status_text, LiveSourceProviderEvent, installation_reconciled, repository_resolved,
  publication_created, LiveSandboxProviderEvent, created, command_completed, exposed, stopped,
  destroyed, CodingAgentEvent, message, tool_requested, usage, completed, failed, ProviderEvent,
  source, sandbox, agent, source_text, actor_of, LiveProviderEventInput,
  NormalizedLiveProviderRunEvent, Url, Platform,
}
use cyclewarden.Events.Json.{
  max_identifier_length, max_text_length, normalize_text, normalize_integer_from,
  normalize_json_value,
}

-- `[0-9a-f]` under the flag `i`
abbrev pub is_hex : ℕ → Bool
is_hex c = (leb 48 c && leb c 57) || (leb 97 c && leb c 102) || (leb 65 c && leb c 70)

abbrev pub all_hex : String → Bool
all_hex String.[] = true
all_hex (String.◌∷◌ c s) = is_hex (code c) && all_hex s

-- `GIT_SHA_PATTERN.test(sha)`
abbrev pub is_git_sha : String → Bool
is_git_sha sha = all_hex sha && leb 40 (utf16_length sha) && leb (utf16_length sha) 64

-- `toLowerCase()` of hexadecimal digits
abbrev pub lower_hex : String → String
lower_hex String.[] = ""
lower_hex (String.◌∷◌ c s) =
    let rest = lower_hex s in
    if leb 65 (code c) && leb (code c) 70
    then char_at (code c - 65) "abcdef" ++ₛ rest
    else String.◌∷◌ c rest

-- The type of an event, and its data.
abbrev pub Typed : Type 0
Typed = String × Json

abbrev pub count : ℕ → Json
count n = num (pos n)

module _ (platform : Platform) where
  open platform use {iso_date, parse_url, sha256}

  abbrev pub dated : Option String → Result String
  dated none = throw invalid_event
  dated (some text) = ok text

  abbrev pub normalize_timestamp : String → Result String
  normalize_timestamp value = dated (iso_date value)

  abbrev pub https_only : Option Url → Result String
  https_only none = throw invalid_event
  https_only (some url) =
      if url.protocol != "https:"
        || not (is_blank url.username)
        || not (is_blank url.password)
        || is_blank url.hostname
      then throw invalid_event
      else ok url.href

  abbrev pub normalize_https_url : String → Result String
  normalize_https_url value = https_only (parse_url value)

  pub normalize_source_event : LiveSourceProviderEvent → Result Typed
  unfolding normalize_text
  normalize_source_event (installation_reconciled id status repositories) = do
    installation_id ← normalize_text id max_identifier_length
    repository_count ← normalize_integer_from 0 repositories
    ok (
      "source.installation_reconciled",
      obj (
          field "installationId" (str installation_id) (
            field "status" (str (installation_status_text status))
              (field "repositoryCount" (count repository_count) end))),
    )
  normalize_source_event (repository_resolved id namespace name branch archived) = do
    repository_id ← normalize_text id max_identifier_length
    normalized_namespace ← normalize_text namespace 256
    repository_name ← normalize_text name 256
    default_branch ← normalize_text branch 256
    ok (
      "source.repository_resolved",
      obj (
          field "repositoryId" (str repository_id) (
            field "namespace" (str normalized_namespace) (
              field "repositoryName" (str repository_name) (
                field "defaultBranch" (str default_branch)
                  (field "archived" (bool archived) end))))),
    )
  normalize_source_event (publication_created id branch sha request url) =
      if not (is_git_sha sha) then throw invalid_event else do
        repository_id ← normalize_text id max_identifier_length
        branch_name ← normalize_text branch 256
        change_request_id ← normalize_text request max_identifier_length
        change_request_url ← normalize_https_url url
        ok (
          "source.publication_created",
          obj (
              field "repositoryId" (str repository_id) (
                field "branchName" (str branch_name) (
                  field "commitSha" (str (lower_hex sha)) (
                    field "changeRequestId" (str change_request_id)
                      (field "changeRequestUrl" (str change_request_url) end))))),
        )

  pub normalize_sandbox_event : LiveSandboxProviderEvent → Result Typed
  unfolding normalize_text
  normalize_sandbox_event (created expires) = do
    expires_at ← normalize_timestamp expires
    ok ("sandbox.ready", obj (field "expiresAt" (str expires_at) end))
  normalize_sandbox_event (command_completed text code duration) = do
    command ← normalize_text text 4096
    exit_code ← normalize_integer_from 0 code
    duration_ms ← normalize_integer_from 0 duration
    ok (
      "sandbox.command_completed",
      obj (
          field "command" (str command)
            (field "exitCode" (count exit_code) (field "durationMs" (count duration_ms) end))),
    )
  normalize_sandbox_event (exposed port address) = do
    normalized_port ← normalize_integer_from 1 port
    url ← normalize_https_url address
    ok ("sandbox.exposed", obj (field "port" (count normalized_port) (field "url" (str url) end)))
  normalize_sandbox_event (stopped text) = do
    reason ← normalize_text text 2000
    ok ("sandbox.stopped", obj (field "reason" (str reason) end))
  normalize_sandbox_event destroyed = ok ("sandbox.destroyed", obj end)

  pub normalize_agent_event : CodingAgentEvent → Result Typed
  unfolding normalize_text normalize_json_value
  normalize_agent_event (message text) = do
    normalized_text ← normalize_text text max_text_length
    ok ("agent.message", obj (field "text" (str normalized_text) end))
  normalize_agent_event (tool_requested key name value) = do
    request_key ← normalize_text key max_identifier_length
    tool ← normalize_text name 256
    input ← normalize_json_value value 0 0
    ok (
      "agent.tool_requested",
      obj (
          field "requestKey" (str request_key)
            (field "tool" (str tool) (field "input" (input.0) end))),
    )
  normalize_agent_event (usage input output) = do
    input_tokens ← normalize_integer_from 0 input
    output_tokens ← normalize_integer_from 0 output
    ok (
      "agent.usage",
      obj (
          field "inputTokens" (count input_tokens)
            (field "outputTokens" (count output_tokens) end)),
    )
  normalize_agent_event (completed text) = do
    summary ← normalize_text text max_text_length
    ok ("agent.completed", obj (field "summary" (str summary) end))
  normalize_agent_event (failed name text) = do
    code' ← normalize_text name 256
    summary ← normalize_text text max_text_length
    ok ("agent.failed", obj (field "code" (str code') (field "summary" (str summary) end)))

  unfoldable pub normalize_event : ProviderEvent → Result Typed
  unfolding normalize_source_event normalize_sandbox_event normalize_agent_event
  normalize_event (source e) = normalize_source_event e
  normalize_event (sandbox e) = normalize_sandbox_event e
  normalize_event (agent e) = normalize_agent_event e

  abbrev zero_byte : String
  zero_byte = String.◌∷◌ nul ""

  -- `correlationId`
  abbrev pub correlation_id_of : String → String → String → String → String
  correlation_id_of origin key run_id cursor =
      origin
      ++ₛ ":"
      ++ₛ sha256 (origin ++ₛ zero_byte ++ₛ key ++ₛ zero_byte ++ₛ run_id ++ₛ zero_byte ++ₛ cursor)

  -- The payload of a normalized event.
  abbrev pub event_payload : String → String → String → String → ℕ → Json → Json
  event_payload origin key run_id cursor redactions data' = obj (
      field "provider"
        (obj (
          field "source" (str origin) (
            field "key" (str key) (
              field "externalRunId" (str run_id)
                (field "cursor" (str cursor) (field "payloadVersion" (count 1) end))))))
        (field "redactionCount" (count redactions) (field "data" data' end)))

  -- The event that a normalization returns, from the trimmed identity, the type and the redacted data.
  abbrev pub normalized_event :
      ProviderEvent → String → String → String → String → ℕ → Json → NormalizedLiveProviderRunEvent
  normalized_event event key run_id cursor type redactions data' = record {
    type = type;
    actor_type = actor_of event;
    actor_id = key;
    correlation_id = correlation_id_of (source_text event) key run_id cursor;
    payload = event_payload (source_text event) key run_id cursor redactions data';
    schema_version = 1;
  }

  unfoldable pub normalize_live_provider_event :
      LiveProviderEventInput → Result NormalizedLiveProviderRunEvent
  normalize_live_provider_event input = do
    provider_key ← normalize_text input.provider_key max_identifier_length
    external_run_id ← normalize_text input.external_run_id max_identifier_length
    cursor ← normalize_text input.cursor max_identifier_length
    normalized ← normalize_event input.event
    let redacted = redact_secrets (normalized.1)
    checked ← normalize_json_value (redacted.0) 0 0
    ok (
        normalized_event input.event provider_key external_run_id cursor (normalized.0) (redacted.1)
          (checked.0))
