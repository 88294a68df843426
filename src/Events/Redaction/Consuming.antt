-- ===== src/Events/Redaction/Consuming.antt =====
-- Patterns whose matches are not empty (packages/forge-domain/src/security/redaction.ts).
use cyclewarden.Prelude.{
  ℕ, zero, suc, ◌<◌, ◌≡◌, inl, inr, Bool, true, false, ◌&&◌, List, [], ◌∷◌, String, all, arith,
}
use cyclewarden.Events.Redaction.Regex.{
  Class, Part, boundary, one, many, lazily, optional, Language, Step, Repeated, Matches, MatchesAny,
}

abbrev pub consumes : List Part → Bool
consumes [] = false
consumes (boundary ∷ ps) = consumes ps
consumes (one c ∷ ps) = true
consumes (many c least ∷ ps) = consumes ps
consumes (lazily c ∷ ps) = consumes ps
consumes (optional a c ∷ ps) = consumes ps

Step-pos :
    (c : Class) (after : Language) (w : Bool) (s : String) (n : ℕ) → Step c after w s n → 0 < n
Step-pos c after w String.[] n h = absurd h
Step-pos c after w (String.◌∷◌ x s) zero h = absurd h
Step-pos c after w (String.◌∷◌ x s) (suc n) h = omega arith

Repeated-pos :
    (c : Class) (least : ℕ) (after : Language) (w : Bool) (s : String) (n : ℕ)
    → ((w : Bool) (s : String) (n : ℕ) → after w s n → 0 < n)
    → Repeated c least after w s n
    → 0 < n
Repeated-pos c least after w String.[] n takes h = takes w "" n h.1
Repeated-pos c least after w (String.◌∷◌ x s) zero takes h = takes w (String.◌∷◌ x s) 0 h.1
Repeated-pos c least after w (String.◌∷◌ x s) (suc n) takes h = omega arith

Matches-pos :
    (ps : List Part)
    → consumes ps ≡ true
    → (w : Bool) (s : String) (n : ℕ) → Matches ps w s n
    → 0 < n
Matches-pos [] e w s n h = absurd (cc)
Matches-pos (boundary ∷ ps) e w s n h = Matches-pos ps e w s n h.1
Matches-pos (one c ∷ ps) e w s n h = Step-pos c (Matches ps) w s n h
Matches-pos (many c least ∷ ps) e w s n h =
    Repeated-pos c least (Matches ps) w s n (Matches-pos ps e) h
Matches-pos (lazily c ∷ ps) e w s n h = Repeated-pos c 0 (Matches ps) w s n (Matches-pos ps e) h
Matches-pos (optional a c ∷ ps) e w s n (inl h) = Step-pos a (Repeated c 1 (Matches ps)) w s n h
Matches-pos (optional a c ∷ ps) e w s n (inr h) = Matches-pos ps e w s n h

both_hold : (a b : Bool) → (a && b) ≡ true → (a ≡ true) × (b ≡ true)
both_hold a b h = (ground arith, ground arith)

pub MatchesAny-pos :
    (pss : List (List Part))
    → all consumes pss ≡ true
    → (w : Bool) (s : String) (n : ℕ) → MatchesAny pss w s n
    → 0 < n
MatchesAny-pos [] e w s n h = absurd h
MatchesAny-pos (ps ∷ pss) e w s n (inl h) =
    Matches-pos ps (both_hold (consumes ps) (all consumes pss) e).0 w s n h
MatchesAny-pos (ps ∷ pss) e w s n (inr h) =
    MatchesAny-pos pss (both_hold (consumes ps) (all consumes pss) e).1 w s n h
