-- ===== src/Events/Redaction/Regex.antt =====
-- The regular expressions that packages/forge-domain/src/security/redaction.ts uses, after ECMAScript: what
-- they match, the matcher that takes the alternatives and the lengths in their order, and `replace` under the
-- flag `g`.
use Prim.Native.Char.{code}
use cyclewarden.Prelude.{
  ℕ, zero, suc, ◌+◌, ◌-◌, ◌≡◌, ◌⊎◌, Bool, true, false, not, ◌&&◌, ◌||◌, Option, none, some, List,
  [], ◌∷◌, String, leb, nat_beq, if◌then◌else◌, ◌++ₛ◌,
}

abbrev pub Class : Type 0
Class = ℕ → Bool

-- `\b`, one character, `c{n,}`, `c*?`, and `(?:ab+)?`.
pub data Part : Type 0 where
  boundary : Part
  one : Class → Part
  many : Class → ℕ → Part
  lazily : Class → Part
  optional : Class → Class → Part

-- `\w`
abbrev pub is_word : Class
is_word c =
    (leb 48 c && leb c 57) || (leb 65 c && leb c 90) || nat_beq c 95 || (leb 97 c && leb c 122)

abbrev pub starts_word : String → Bool
starts_word String.[] = false
starts_word (String.◌∷◌ x s) = is_word (code x)

-- One of the two, and not both.
abbrev pub differ : Bool → Bool → Bool
differ true b = not b
differ false b = b

-- What is matched: whether a word character stands before, the text from there on, and how many of its
-- characters are taken.
abbrev pub Language : Type 1
Language = Bool → String → ℕ → Type 0

abbrev pub Step : Class → Language → Language
Step c after w String.[] n = ⊥
Step c after w (String.◌∷◌ x s) zero = ⊥
Step c after w (String.◌∷◌ x s) (suc n) = (c (code x) ≡ true) × after (is_word (code x)) s n

-- At least `least` characters of a class.
abbrev pub Repeated : Class → ℕ → Language → Language
Repeated c least after w String.[] n = (least ≡ 0) × after w "" n
Repeated c least after w (String.◌∷◌ x s) zero = (least ≡ 0) × after w (String.◌∷◌ x s) 0
Repeated c least after w (String.◌∷◌ x s) (suc n) =
    ((least ≡ 0) × after w (String.◌∷◌ x s) (suc n))
    ⊎ ((c (code x) ≡ true) × Repeated c (least - 1) after (is_word (code x)) s n)

abbrev pub Matches : List Part → Language
Matches [] w s n = n ≡ 0
Matches (boundary ∷ ps) w s n = (differ w (starts_word s) ≡ true) × Matches ps w s n
Matches (one c ∷ ps) w s n = Step c (Matches ps) w s n
Matches (many c least ∷ ps) w s n = Repeated c least (Matches ps) w s n
Matches (lazily c ∷ ps) w s n = Repeated c 0 (Matches ps) w s n
Matches (optional a c ∷ ps) w s n = Step a (Repeated c 1 (Matches ps)) w s n ⊎ Matches ps w s n

-- One of the alternatives matches.
abbrev pub MatchesAny : List (List Part) → Language
MatchesAny [] w s n = ⊥
MatchesAny (ps ∷ pss) w s n = Matches ps w s n ⊎ MatchesAny pss w s n

-- A matcher gives how many characters are taken.
abbrev pub Matcher : Type 0
Matcher = Bool → String → Option ℕ

abbrev pub further : Option ℕ → Option ℕ
further none = none
further (some n) = some (suc n)

abbrev pub otherwise : Option ℕ → Option ℕ → Option ℕ
otherwise none second = second
otherwise (some n) second = some n

abbrev pub enough : ℕ → Option ℕ → Option ℕ
enough zero found = found
enough (suc least) found = none

unfoldable pub step : Class → Matcher → Matcher
step c after w String.[] = none
step c after w (String.◌∷◌ x s) = if c (code x) then further (after (is_word (code x)) s) else none

unfoldable pub greedy : Class → ℕ → Matcher → Matcher
greedy c least after w String.[] = enough least (after w "")
greedy c least after w (String.◌∷◌ x s) =
    let more = further (greedy c (least - 1) after (is_word (code x)) s) in
    let stop = enough least (after w (String.◌∷◌ x s)) in
    if c (code x) then otherwise more stop else stop

unfoldable pub lazy : Class → Matcher → Matcher
lazy c after w String.[] = after w ""
lazy c after w (String.◌∷◌ x s) =
    let more = further (lazy c after (is_word (code x)) s) in
    otherwise (after w (String.◌∷◌ x s)) (if c (code x) then more else none)

unfoldable pub match_parts : List Part → Matcher
unfolding step greedy lazy
match_parts [] w s = some 0
match_parts (boundary ∷ ps) w s = if differ w (starts_word s) then match_parts ps w s else none
match_parts (one c ∷ ps) w s = step c (match_parts ps) w s
match_parts (many c least ∷ ps) w s = greedy c least (match_parts ps) w s
match_parts (lazily c ∷ ps) w s = lazy c (match_parts ps) w s
match_parts (optional a c ∷ ps) w s =
    otherwise (step a (greedy c 1 (match_parts ps)) w s) (match_parts ps w s)

unfoldable pub match_any : List (List Part) → Matcher
unfolding match_parts
match_any [] w s = none
match_any (ps ∷ pss) w s = otherwise (match_parts ps w s) (match_any pss w s)

-- How many of the following characters a match takes beside its first one.
abbrev pub taken_beside : Option ℕ → ℕ
taken_beside none = 0
taken_beside (some zero) = 0
taken_beside (some (suc n)) = n

module _ (mark : String) where
  -- What becomes of the character at hand.
  abbrev pub emit : String → Option ℕ → String × ℕ → String × ℕ
  emit kept none rest = (kept ++ₛ rest.0, rest.1)
  emit kept (some n) rest = (mark ++ₛ rest.0, 1 + rest.1)

  module _ (matcher : Matcher) where
    -- From left to right, where the next `skipped` characters belong to the last match. No pattern of the
    -- program matches the empty text.
    unfoldable pub scan : ℕ → Bool → String → String × ℕ
    scan skipped w String.[] = ("", 0)
    scan (suc skipped) w (String.◌∷◌ x s) = scan skipped (is_word (code x)) s
    scan zero w (String.◌∷◌ x s) =
        let found = matcher w (String.◌∷◌ x s) in
        let rest = scan (taken_beside found) (is_word (code x)) s in
        emit (String.◌∷◌ x "") found rest
