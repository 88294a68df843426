-- ===== src/Events/Redaction/Patterns.antt =====
-- packages/forge-domain/src/security/redaction.ts: `STRING_PATTERNS` and `redactString`.
use Prim.Native.Char.{code}
use cyclewarden.Prelude.{
  ℕ, zero, suc, ◌+◌, true, false, not, ◌&&◌, ◌||◌, List, [], ◌∷◌, ◌++◌, map, String, is_space, leb,
  nat_beq, if◌then◌else◌, ◌++ₛ◌,
}
use cyclewarden.Events.Redaction.Regex.{
  Class, Part, boundary, one, many, lazily, optional, is_word, match_any, scan,
}

-- The code of an ASCII letter in lower case; every other code stays.
abbrev pub lower : ℕ → ℕ
lower c = if leb 65 c && leb c 90 then c + 32 else c

-- `[A-Z]`, `[0-9A-Z]`, `[A-Za-z0-9]`, `[A-Za-z0-9_-]`
abbrev pub is_upper : Class
is_upper c = leb 65 c && leb c 90

abbrev pub is_upper_or_digit : Class
is_upper_or_digit c = is_upper c || (leb 48 c && leb c 57)

abbrev pub is_letter_or_digit : Class
is_letter_or_digit c = is_upper_or_digit c || (leb 97 c && leb c 122)

abbrev pub is_name : Class
is_name c = is_word c || nat_beq c 45

-- `[A-Za-z0-9._~+\/-]`
abbrev pub is_token68 : Class
is_token68 c =
    is_letter_or_digit c
    || nat_beq c 46
    || nat_beq c 95
    || nat_beq c 126
    || nat_beq c 43
    || nat_beq c 47
    || nat_beq c 45

-- `[pousr]`
abbrev pub is_token_kind : Class
is_token_kind c = nat_beq c 112 || nat_beq c 111 || nat_beq c 117 || nat_beq c 115 || nat_beq c 114

-- `[^\s'\"]`
unfoldable pub is_unquoted : Class
unfolding is_space
is_unquoted c = not (is_space c || nat_beq c 39 || nat_beq c 34)

-- `[\s\S]`
abbrev pub is_any : Class
is_any c = true

-- A text as it stands, and under the flag `i`.
abbrev pub exactly : String → List Part
exactly String.[] = []
exactly (String.◌∷◌ x s) = one (nat_beq (code x)) ∷ exactly s

abbrev pub ignoring_case : String → List Part
ignoring_case String.[] = []
ignoring_case (String.◌∷◌ x s) = one (λ c. nat_beq (lower (code x)) (lower c)) ∷ ignoring_case s

-- `c{n}`
abbrev pub times : ℕ → Class → List Part
times zero c = []
times (suc n) c = one c ∷ times n c

pub record StringPattern : Type 0 where
  pub name : String
  pub alternatives : List (List Part)

abbrev pub marker : Part
marker = optional (nat_beq 32) is_upper

-- `\b(?:NAME)\s*=\s*[^\s'\"]+` under the flag `i`.
unfoldable pub assignment_to : String → List Part
unfolding is_space is_unquoted
assignment_to name =
    boundary ∷ ignoring_case name
    ++ many is_space 0 ∷ one (nat_beq 61) ∷ many is_space 0 ∷ many is_unquoted 1 ∷ []

abbrev pub pattern_of : String → List (List Part) → StringPattern
pattern_of name alternatives = record { name = name; alternatives = alternatives }

-- `STRING_PATTERNS`
unfoldable pub string_patterns : List StringPattern
unfolding is_space assignment_to
string_patterns =
    pattern_of "private-key" (
      (exactly "-----BEGIN"
        ++ marker ∷ exactly " PRIVATE KEY-----"
        ++ lazily is_any ∷ exactly "-----END"
        ++ marker ∷ exactly " PRIVATE KEY-----")
      ∷ [])
    ∷ pattern_of "github-token" (
        (boundary ∷ exactly "github_pat_" ++ many is_word 20 ∷ boundary ∷ [])
        ∷ (boundary ∷ exactly "gh"
            ++ one is_token_kind ∷ one (nat_beq 95) ∷ many is_letter_or_digit 20 ∷ boundary ∷ [])
        ∷ [])
    ∷ pattern_of "openai-key" ((boundary ∷ exactly "sk-" ++ many is_name 20 ∷ boundary ∷ []) ∷ [])
    ∷ pattern_of "aws-access-key"
        ((boundary ∷ exactly "AKIA" ++ times 16 is_upper_or_digit ++ boundary ∷ []) ∷ [])
    ∷ pattern_of "bearer-token" (
        (boundary ∷ ignoring_case "Bearer"
          ++ many is_space 1 ∷ many is_token68 1 ∷ many (nat_beq 61) 0 ∷ boundary ∷ [])
        ∷ [])
    ∷ pattern_of "jwt" (
        (boundary ∷ exactly "eyJ"
          ++ many is_name 1
            ∷ one (nat_beq 46)
            ∷ many is_name 1
            ∷ one (nat_beq 46)
            ∷ many is_name 1
            ∷ boundary
            ∷ [])
        ∷ [])
    ∷ pattern_of "assignment" (
        map assignment_to
          ("API_KEY" ∷ "ACCESS_TOKEN" ∷ "AUTH_TOKEN" ∷ "PASSWORD" ∷ "SECRET" ∷ "PRIVATE_KEY" ∷ []))
    ∷ []

-- `value.replace(pattern, ...)`, with the number of replacements.
unfoldable pub replace : StringPattern → String → String × ℕ
unfolding scan match_any
replace p s = scan ("[REDACTED:" ++ₛ p.name ++ₛ "]") (match_any p.alternatives) 0 false s

unfoldable pub replace_each : List StringPattern → String → String × ℕ
unfolding replace
replace_each [] s = (s, 0)
replace_each (p ∷ ps) s =
    let first = replace p s in
    let others = replace_each ps (first.0) in (others.0, first.1 + others.1)

-- `redactString`
unfoldable pub redact_string : String → String × ℕ
unfolding replace_each string_patterns
redact_string s = replace_each string_patterns s
