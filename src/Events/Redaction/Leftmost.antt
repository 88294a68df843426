-- ===== src/Events/Redaction/Leftmost.antt =====
-- What `redactString` does to a text (packages/forge-domain/src/security/redaction.ts), in terms of what its
-- patterns match.
use Prim.Native.Char.{Char, code}
use cyclewarden.Prelude.{
  ℕ, zero, suc, ◌+◌, ◌<◌, ◌≡◌, refl, ap, subst, ◌∙◌, Bool, true, false, Option, none, some, List,
  [], ◌∷◌, String, ◌++ₛ◌, all, All, arith,
}
use cyclewarden.Events.Redaction.Regex.{
  is_word, Language, MatchesAny, Matcher, taken_beside, emit, scan, match_any,
}
use cyclewarden.Events.Redaction.Patterns.{
  StringPattern, string_patterns, replace, replace_each, redact_string,
}
use cyclewarden.Events.Redaction.Matching.{Found, Decides, match_any-Decides}
use cyclewarden.Events.Redaction.Consuming.{consumes, MatchesAny-pos}

-- What follows the next `n` characters, and whether a word character stands before it.
abbrev pub dropped : ℕ → String → String
dropped zero s = s
dropped (suc n) String.[] = ""
dropped (suc n) (String.◌∷◌ x s) = dropped n s

abbrev pub word_after : Bool → String → ℕ → Bool
word_after w s zero = w
word_after w String.[] (suc n) = w
word_after w (String.◌∷◌ x s) (suc n) = word_after (is_word (code x)) s n

-- A text, the result of replacing, and the number of replacements: from left to right a match is replaced by
-- the mark, and a character is kept where no match begins.
pub data Replaced (mark : String) (language : Language) : Bool → String → String → ℕ → Type 0 where
  finished : (w : Bool) → Replaced mark language w "" "" 0
  kept :
      (w : Bool) (x : Char) (s t : String) (k : ℕ)
      → ((n : ℕ) → ¬ language w (String.◌∷◌ x s) n)
      → Replaced mark language (is_word (code x)) s t k
      → Replaced mark language w (String.◌∷◌ x s) (String.◌∷◌ x t) k
  marked :
      (w : Bool) (s t : String) (n k : ℕ)
      → language w s n
      → 0 < n
      → Replaced mark language (word_after w s n) (dropped n s) t k
      → Replaced mark language w s (mark ++ₛ t) (1 + k)

-- No match begins anywhere in a text.
abbrev pub NoMatch : Language → Bool → String → Type 0
NoMatch language w String.[] = Unit
NoMatch language w (String.◌∷◌ x s) =
    ((n : ℕ) → ¬ language w (String.◌∷◌ x s) n) × NoMatch language (is_word (code x)) s

module _ (mark : String) (language : Language) (matcher : Matcher)
    (decides : Decides language matcher) where
  module _ (takes : (w : Bool) (s : String) (n : ℕ) → language w s n → 0 < n) where
    emit-Replaced :
        (w : Bool) (x : Char) (s : String) (m : Option ℕ) (rest : String × ℕ)
        → Found (language w (String.◌∷◌ x s)) m
        → Replaced mark language
            (word_after (is_word (code x)) s (taken_beside m))
            (dropped (taken_beside m) s)
            rest.0
            rest.1
        → Replaced mark language w
            (String.◌∷◌ x s)
            (emit mark (String.◌∷◌ x "") m rest).0
            (emit mark (String.◌∷◌ x "") m rest).1
    emit-Replaced w x s none rest f r = kept w x s (rest.0) (rest.1) f r
    emit-Replaced w x s (some zero) rest f r = absurd (omega (arith, takes w (String.◌∷◌ x s) 0 f))
    emit-Replaced w x s (some (suc n)) rest f r =
        marked w (String.◌∷◌ x s) (rest.0) (suc n) (rest.1) f (omega arith) r

    scan-Replaced :
        (skipped : ℕ) (w : Bool) (s : String)
        → Replaced mark language
            (word_after w s skipped)
            (dropped skipped s)
            (scan mark matcher skipped w s).0
            (scan mark matcher skipped w s).1
    unfolding scan
    scan-Replaced zero w String.[] = finished w
    scan-Replaced (suc k) w String.[] = finished w
    scan-Replaced (suc k) w (String.◌∷◌ x s) = scan-Replaced k (is_word (code x)) s
    scan-Replaced zero w (String.◌∷◌ x s) =
        emit-Replaced w x s (matcher w (String.◌∷◌ x s))
          (scan mark matcher (taken_beside (matcher w (String.◌∷◌ x s))) (is_word (code x)) s)
          (decides w (String.◌∷◌ x s))
          (scan-Replaced (taken_beside (matcher w (String.◌∷◌ x s))) (is_word (code x)) s)

  quiet_character :
      (w : Bool) (x : Char) (s : String) (m : Option ℕ)
      → Found (language w (String.◌∷◌ x s)) m
      → ((scan mark matcher 0 (is_word (code x)) s).1 ≡ 0
          → ((scan mark matcher 0 (is_word (code x)) s).0 ≡ s)
            × NoMatch language (is_word (code x)) s)
      → (emit mark (String.◌∷◌ x "") m (scan mark matcher (taken_beside m) (is_word (code x)) s)).1
        ≡ 0
      → ((emit mark (String.◌∷◌ x "") m (scan mark matcher (taken_beside m) (is_word (code x)) s)).0
          ≡ String.◌∷◌ x s)
        × NoMatch language w (String.◌∷◌ x s)
  quiet_character w x s none f ih h =
      let (same, free) = ih h in (ap (λ t. String.◌∷◌ x t) same, (f, free))
  quiet_character w x s (some n) f ih h = absurd (omega arith)

  quiet_scan :
      (w : Bool) (s : String)
      → (scan mark matcher 0 w s).1 ≡ 0
      → ((scan mark matcher 0 w s).0 ≡ s) × NoMatch language w s
  unfolding scan
  quiet_scan w String.[] h = (refl, tt)
  quiet_scan w (String.◌∷◌ x s) h =
      quiet_character w x s (matcher w (String.◌∷◌ x s)) (decides w (String.◌∷◌ x s))
        (quiet_scan (is_word (code x)) s) h

-- Some part of a pattern takes exactly one character.

abbrev pub mark_of : StringPattern → String
mark_of p = "[REDACTED:" ++ₛ p.name ++ₛ "]"

-- Each pattern in its turn replaces the matches in what the ones before have left.
abbrev pub RedactedBy : List StringPattern → String → String → ℕ → Type 0
RedactedBy [] s out n = (s ≡ out) × (n ≡ 0)
RedactedBy (p ∷ ps) s out n =
    (t : String) × (k : ℕ) × (m : ℕ) × Replaced (mark_of p) (MatchesAny p.alternatives) false s t k
    × RedactedBy ps t out m
    × (n ≡ k + m)

abbrev Consuming : StringPattern → Type 0
Consuming p = all consumes p.alternatives ≡ true

replace_each-RedactedBy :
    (ps : List StringPattern) (s : String)
    → All Consuming ps
    → RedactedBy ps s (replace_each ps s).0 (replace_each ps s).1
unfolding replace_each replace
replace_each-RedactedBy [] s h = (refl, refl)
replace_each-RedactedBy (p ∷ ps) s (h, hs) = (
  (replace p s).0,
  (replace p s).1,
  (replace_each ps ((replace p s).0)).1,
  scan-Replaced (mark_of p) (MatchesAny p.alternatives) (match_any p.alternatives)
      (match_any-Decides p.alternatives) (MatchesAny-pos p.alternatives h) 0 false s,
  replace_each-RedactedBy ps ((replace p s).0) hs,
  refl,
)

patterns_consume : All Consuming string_patterns
unfolding string_patterns
patterns_consume = (refl, (refl, (refl, (refl, (refl, (refl, (refl, tt)))))))

-- Redaction of a text does what its patterns say: each in its turn, from left to right in what the
-- ones before have left, replaces a match by its mark where one begins, keeps a character where
-- none does, and counts its replacements.
pub redact_string_lem :
    (s : String) → RedactedBy string_patterns s (redact_string s).0 (redact_string s).1
unfolding redact_string
redact_string_lem s = replace_each-RedactedBy string_patterns s patterns_consume

-- No pattern matches anywhere in a text.
abbrev pub HasNoSecret : String → List StringPattern → Type 0
HasNoSecret s ps = All (λ (p : StringPattern). NoMatch (MatchesAny p.alternatives) false s) ps

quiet_each :
    (ps : List StringPattern) (s : String)
    → (replace_each ps s).1 ≡ 0
    → ((replace_each ps s).0 ≡ s) × HasNoSecret s ps
unfolding replace_each replace
quiet_each [] s h = (refl, tt)
quiet_each (p ∷ ps) s h =
    let (same, free) =
      quiet_scan (mark_of p) (MatchesAny p.alternatives) (match_any p.alternatives)
        (match_any-Decides p.alternatives) false s (omega arith) in
    let (same', frees) = quiet_each ps ((replace p s).0) (omega arith) in
    (same' ∙ same, (free, subst (λ t. HasNoSecret t ps) same frees))

pub quiet_redaction :
    (s : String)
    → (redact_string s).1 ≡ 0
    → ((redact_string s).0 ≡ s) × HasNoSecret s string_patterns
unfolding redact_string
quiet_redaction s h = quiet_each string_patterns s h
