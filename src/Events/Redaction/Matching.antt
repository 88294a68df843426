-- ===== src/Events/Redaction/Matching.antt =====
-- The matcher of regular expressions finds a match exactly where there is one.
use Prim.Native.Char.{Char, code}
use cyclewarden.Prelude.{
  ℕ, zero, suc, ◌-◌, ◌≡◌, refl, ◌⊎◌, inl, inr, Bool, true, false, Option, none, some, List, [], ◌∷◌,
  String, Bool-cases, arith,
}
use cyclewarden.Events.Redaction.Regex.{
  Class, Part, boundary, one, many, lazily, optional, is_word, starts_word, differ, Language, Step,
  Repeated, Matches, MatchesAny, Matcher, further, otherwise, enough, step, greedy, lazy,
  match_parts, match_any,
}

-- What is found is there, and where nothing is found, nothing is.
abbrev pub Found : (ℕ → Type 0) → Option ℕ → Type 0
Found P none = (n : ℕ) → ¬ P n
Found P (some n) = P n

abbrev pub Decides : Language → Matcher → Type 0
Decides language matcher = (w : Bool) (s : String) → Found (language w s) (matcher w s)

Found-same :
    {P Q : ℕ → Type 0} (m : Option ℕ)
    → ((n : ℕ) → P n → Q n)
    → ((n : ℕ) → Q n → P n)
    → Found P m
    → Found Q m
Found-same none to from h = λ n q. h n (from n q)
Found-same (some n) to from h = to n h

Found-otherwise :
    (P Q : ℕ → Type 0) (m k : Option ℕ)
    → Found P m
    → Found Q k
    → Found (λ n. P n ⊎ Q n) (otherwise m k)
Found-otherwise P Q none none h j = λ n. elim [ inl p ↦ h n p | inr q ↦ j n q ]
Found-otherwise P Q none (some n) h j = inr j
Found-otherwise P Q (some n) k h j = inl h

Found-enough :
    (P : ℕ → Type 0) (least : ℕ) (m : Option ℕ)
    → Found P m
    → Found (λ n. (least ≡ 0) × P n) (enough least m)
Found-enough P zero none h = λ n p. h n p.1
Found-enough P zero (some n) h = (refl, h)
Found-enough P (suc least) m h = λ n p. absurd (omega arith)

module _ (c : Class) (after : Language) where
  Found-further :
      (w : Bool) (x : Char) (s : String) (m : Option ℕ)
      → c (code x) ≡ true
      → Found (after (is_word (code x)) s) m
      → Found (Step c after w (String.◌∷◌ x s)) (further m)
  Found-further w x s none fits h = none_further
    where
      none_further : (n : ℕ) → ¬ Step c after w (String.◌∷◌ x s) n
      none_further zero k = k
      none_further (suc n) k = h n k.1
  Found-further w x s (some n) fits h = (fits, h)

  Found-blocked :
      (w : Bool) (x : Char) (s : String) (n : ℕ)
      → c (code x) ≡ false
      → ¬ Step c after w (String.◌∷◌ x s) n
  Found-blocked w x s zero h k = k
  Found-blocked w x s (suc n) h k = cc (h, k.0)

  Step-Decides :
      (matcher : Matcher) → Decides after matcher → Decides (Step c after) (step c matcher)
  unfolding step
  Step-Decides matcher h w String.[] = λ n k. k
  Step-Decides matcher h w (String.◌∷◌ x s) = elim (Bool-cases (c (code x))) [
    | inl fits ↦
        rw fits (Found-further w x s (matcher (is_word (code x)) s) fits (h (is_word (code x)) s))
    | inr other ↦ rw other (λ n. Found-blocked w x s n other)
  ]

-- A repetition takes one more character or stops.
module _ (c : Class) (least : ℕ) (after : Language) (w : Bool) (x : Char) (s : String) where
  abbrev Stops : ℕ → Type 0
  Stops n = (least ≡ 0) × after w (String.◌∷◌ x s) n

  abbrev Goes : ℕ → Type 0
  Goes n = Step c (Repeated c (least - 1) after) w (String.◌∷◌ x s) n

  opened : (n : ℕ) → Repeated c least after w (String.◌∷◌ x s) n → Stops n ⊎ Goes n
  opened zero h = inl h
  opened (suc n) h = h

  closed : (n : ℕ) → Stops n ⊎ Goes n → Repeated c least after w (String.◌∷◌ x s) n
  closed zero (inl h) = h
  closed zero (inr h) = absurd h
  closed (suc n) h = h

  swapped : (n : ℕ) → Goes n ⊎ Stops n → Repeated c least after w (String.◌∷◌ x s) n
  swapped n (inl h) = closed n (inr h)
  swapped n (inr h) = closed n (inl h)

  swapped_back : (n : ℕ) → Repeated c least after w (String.◌∷◌ x s) n → Goes n ⊎ Stops n
  swapped_back n h = elim (opened n h) [ inl stop ↦ inr stop | inr go ↦ inl go ]

  only-Stops : c (code x) ≡ false → (n : ℕ) → Repeated c least after w (String.◌∷◌ x s) n → Stops n
  only-Stops other n h = elim (opened n h) [
    | inl stop ↦ stop
    | inr go ↦ absurd (Found-blocked c (Repeated c (least - 1) after) w x s n other go)
  ]

module _ (c : Class) (after : Language) (matcher : Matcher) (h : Decides after matcher) where
  greedy-Decides : (least : ℕ) → Decides (Repeated c least after) (greedy c least matcher)
  unfolding greedy
  greedy-Decides least w String.[] = Found-enough (after w "") least (matcher w "") (h w "")
  greedy-Decides least w (String.◌∷◌ x s) = elim (Bool-cases (c (code x))) [
    | inl fits ↦ rw fits (
        Found-same
          (otherwise (further (greedy c (least - 1) matcher (is_word (code x)) s))
            (enough least (matcher w (String.◌∷◌ x s))))
          (swapped c least after w x s) (swapped_back c least after w x s)
          (Found-otherwise (Goes c least after w x s) (Stops c least after w x s)
            (further (greedy c (least - 1) matcher (is_word (code x)) s))
            (enough least (matcher w (String.◌∷◌ x s)))
            (Found-further c (Repeated c (least - 1) after) w x s
              (greedy c (least - 1) matcher (is_word (code x)) s) fits
              (greedy-Decides (least - 1) (is_word (code x)) s))
            (Found-enough (after w (String.◌∷◌ x s)) least (matcher w (String.◌∷◌ x s))
              (h w (String.◌∷◌ x s)))))
    | inr other ↦ rw other (
        Found-same (enough least (matcher w (String.◌∷◌ x s)))
          (λ n stop. closed c least after w x s n (inl stop)) (only-Stops c least after w x s other)
          (Found-enough (after w (String.◌∷◌ x s)) least (matcher w (String.◌∷◌ x s))
            (h w (String.◌∷◌ x s))))
  ]

  lazy-Decides : Decides (Repeated c 0 after) (lazy c matcher)
  unfolding lazy
  lazy-Decides w String.[] = Found-enough (after w "") 0 (matcher w "") (h w "")
  lazy-Decides w (String.◌∷◌ x s) = elim (Bool-cases (c (code x))) [
    | inl fits ↦ rw fits (
        Found-same
          (otherwise (matcher w (String.◌∷◌ x s)) (further (lazy c matcher (is_word (code x)) s)))
          (closed c 0 after w x s) (opened c 0 after w x s)
          (Found-otherwise (Stops c 0 after w x s) (Goes c 0 after w x s)
            (matcher w (String.◌∷◌ x s)) (further (lazy c matcher (is_word (code x)) s))
            (Found-enough (after w (String.◌∷◌ x s)) 0 (matcher w (String.◌∷◌ x s))
              (h w (String.◌∷◌ x s)))
            (Found-further c (Repeated c 0 after) w x s (lazy c matcher (is_word (code x)) s) fits
              (lazy-Decides (is_word (code x)) s))))
    | inr other ↦ rw other (
        Found-same (otherwise (matcher w (String.◌∷◌ x s)) none) (closed c 0 after w x s)
          (opened c 0 after w x s)
          (Found-otherwise (Stops c 0 after w x s) (Goes c 0 after w x s)
            (matcher w (String.◌∷◌ x s)) none
            (Found-enough (after w (String.◌∷◌ x s)) 0 (matcher w (String.◌∷◌ x s))
              (h w (String.◌∷◌ x s)))
            (λ n. Found-blocked c (Repeated c 0 after) w x s n other)))
  ]

pub match_parts-Decides : (ps : List Part) → Decides (Matches ps) (match_parts ps)
unfolding match_parts
match_parts-Decides [] w s = refl
match_parts-Decides (boundary ∷ ps) w s = elim (Bool-cases (differ w (starts_word s))) [
  | inl here ↦
      rw here (
        Found-same (match_parts ps w s) (λ n k. (here, k)) (λ n k. k.1)
          (match_parts-Decides ps w s))
  | inr inside ↦ rw inside (λ n k. cc (k.0, inside))
]
match_parts-Decides (one c ∷ ps) w s =
    Step-Decides c (Matches ps) (match_parts ps) (match_parts-Decides ps) w s
match_parts-Decides (many c least ∷ ps) w s =
    greedy-Decides c (Matches ps) (match_parts ps) (match_parts-Decides ps) least w s
match_parts-Decides (lazily c ∷ ps) w s =
    lazy-Decides c (Matches ps) (match_parts ps) (match_parts-Decides ps) w s
match_parts-Decides (optional a c ∷ ps) w s =
    Found-otherwise (Step a (Repeated c 1 (Matches ps)) w s) (Matches ps w s)
      (step a (greedy c 1 (match_parts ps)) w s) (match_parts ps w s)
      (Step-Decides a (Repeated c 1 (Matches ps)) (greedy c 1 (match_parts ps))
        (greedy-Decides c (Matches ps) (match_parts ps) (match_parts-Decides ps) 1) w s)
      (match_parts-Decides ps w s)

-- The matcher of a pattern finds a match exactly where there is one.
pub match_any-Decides : (pss : List (List Part)) → Decides (MatchesAny pss) (match_any pss)
unfolding match_any
match_any-Decides [] w s = λ n k. k
match_any-Decides (ps ∷ pss) w s =
    Found-otherwise (Matches ps w s) (MatchesAny pss w s) (match_parts ps w s) (match_any pss w s)
      (match_parts-Decides ps w s) (match_any-Decides pss w s)
