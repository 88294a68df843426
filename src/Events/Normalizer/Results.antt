-- ===== src/Events/Normalizer/Results.antt =====
-- What redaction does to the events of an agent.
use cyclewarden.Prelude.{ℕ, ◌≤◌, ◌≡◌, refl, pos, arith, Json, obj, field, end}
use cyclewarden.Domain.Errors.{ok}
use cyclewarden.Events.Redaction.{redact_secrets, is_secret_key, secret_field}
use cyclewarden.Events.Json.{max_safe_integer}
use cyclewarden.Events.Provider.{LiveProviderEventInput, Platform, agent, usage}
use cyclewarden.Events.Normalizer.{normalize_live_provider_event, normalize_event, count}

module _ (platform : Platform) where
  -- The input of a report of used tokens.
  abbrev pub reporting : LiveProviderEventInput → ℕ → ℕ → LiveProviderEventInput
  reporting input tokens_in tokens_out = record input {
    event = agent (usage (pos tokens_in) (pos tokens_out));
  }

  abbrev counts : ℕ → ℕ → Json
  counts i o = obj (field "inputTokens" (count i) (field "outputTokens" (count o) end))

  usage_typed :
      (i o : ℕ)
      → i ≤ max_safe_integer
      → o ≤ max_safe_integer
      → normalize_event platform (agent (usage (pos i) (pos o))) ≡ ok ("agent.usage", counts i o)
  unfolding normalize_event
  usage_typed i o h k = ground arith

  usage_redacted :
      (i o : ℕ)
      → redact_secrets (counts i o)
        ≡ (obj (field "inputTokens" secret_field (field "outputTokens" secret_field end)), 2)
  unfolding redact_secrets is_secret_key
  usage_redacted i o = refl

  -- The numbers of tokens that an agent reports as used are not in the event: whatever valid
  -- numbers it reports, the normalized event is the same, since redaction takes `inputTokens` and
  -- `outputTokens` for secrets.
  pub usage_counts_are_redacted :
      (input : LiveProviderEventInput) (i o i' o' : ℕ)
      → i ≤ max_safe_integer
      → o ≤ max_safe_integer
      → i' ≤ max_safe_integer
      → o' ≤ max_safe_integer
      → normalize_live_provider_event platform (reporting input i o)
        ≡ normalize_live_provider_event platform (reporting input i' o')
  unfolding normalize_live_provider_event
  usage_counts_are_redacted input i o i' o' h k h' k' =
      rw (usage_typed i o h k, usage_typed i' o' h' k', usage_redacted i o, usage_redacted i' o')
        refl
