-- ===== src/Events/Redaction.antt =====
-- packages/forge-domain/src/security/redaction.ts: `redactSecrets`.
pub mod Regex
pub mod Patterns
pub mod Matching
pub mod Consuming
pub mod Leftmost
pub mod Secrets
use Prim.Native.Char.{code}
use cyclewarden.Events.Redaction.Patterns.{lower, redact_string}
use cyclewarden.Prelude.{
  ℕ, ◌+◌, ◌-◌, Bool, true, false, ◌&&◌, ◌||◌, List, [], ◌∷◌, String, nat_beq, any, if◌then◌else◌,
  Json, null, bool, num, str, arr, obj, Items, nil, cons, Fields, end, field,
}

-- `[_-]`
abbrev pub is_separator : ℕ → Bool
is_separator c = nat_beq c 95 || nat_beq c 45

-- A text begins with a lower-case word, under the flag `i`. A space in the word stands for `[_-]?`.
abbrev pub begins : String → String → Bool
begins String.[] s = true
begins (String.◌∷◌ w ws) String.[] = nat_beq (code w) 32 && begins ws String.[]
begins (String.◌∷◌ w ws) (String.◌∷◌ c s) =
    if nat_beq (code w) 32
    then (is_separator (code c) && begins ws s) || begins ws (String.◌∷◌ c s)
    else nat_beq (code w) (lower (code c)) && begins ws s

abbrev pub occurs : String → String → Bool
occurs w String.[] = begins w String.[]
occurs w (String.◌∷◌ c s) = begins w (String.◌∷◌ c s) || occurs w s

-- The alternatives of `SECRET_KEY_PATTERN`.
abbrev pub secret_words : List String
secret_words =
    "secret" ∷ "token" ∷ "password" ∷ "passwd" ∷ "private key" ∷ "api key" ∷ "access key"
    ∷ "authorization" ∷ []

-- `SECRET_KEY_PATTERN.test(key)`
unfoldable pub is_secret_key : String → Bool
is_secret_key key = any (λ w. occurs w key) secret_words

abbrev pub secret_field : Json
secret_field = str "[REDACTED:secret-field]"

-- `SECRET_KEY_PATTERN.test(key) && item != null`
abbrev pub is_hidden : String → Json → Bool
is_hidden key null = false
is_hidden key _ = is_secret_key key

unfoldable mutual
  pub redact_secrets : Json → Json × ℕ
  redact_secrets null = (null, 0)
  redact_secrets (bool b) = (bool b, 0)
  redact_secrets (num n) = (num n, 0)
  redact_secrets (str s) = (str (redact_string s).0, (redact_string s).1)
  redact_secrets (arr xs) = (arr (redact_items xs).0, (redact_items xs).1)
  redact_secrets (obj fs) = (obj (redact_fields fs).0, (redact_fields fs).1)

  pub redact_items : Items → Items × ℕ
  redact_items nil = (nil, 0)
  redact_items (cons x xs) =
      let first = redact_secrets x in
      let rest = redact_items xs in (cons first.0 rest.0, first.1 + rest.1)

  pub redact_fields : Fields → Fields × ℕ
  redact_fields end = (end, 0)
  redact_fields (field key item fs) =
      let redacted = redact_secrets item in
      let rest = redact_fields fs in
      if is_hidden key item
      then (field key secret_field rest.0, 1 + rest.1)
      else (field key redacted.0 rest.0, redacted.1 + rest.1)
