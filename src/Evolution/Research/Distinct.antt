-- ===== src/Evolution/Research/Distinct.antt =====
-- Identifiers of research records that are distinct (packages/evolution-core/src/research-records.ts).
use cyclewarden.Prelude.{
  ℕ, ◌+◌, ◌≤◌, ◌≡◌, refl, ap, true, false, List, [], ◌∷◌, ◌++◌, String, ◌==◌, string_eq, str_iff,
  bit, contains, Bool-cases, inl, inr, arith,
}
use cyclewarden.Evolution.Research.{research_eq}

-- How often a text stands in a list.
abbrev pub occurrences : String → List String → ℕ
occurrences id [] = 0
occurrences id (x ∷ xs) = bit (x == id) + occurrences id xs

pub occurrences-append :
    (id : String) (xs ys : List String)
    → occurrences id (xs ++ ys) ≡ occurrences id xs + occurrences id ys
occurrences-append id [] ys = omega arith
occurrences-append id (x ∷ xs) ys = omega (arith, occurrences-append id xs ys)

occurrences-absent :
    (id : String) (xs : List String) → contains id xs ≡ false → occurrences id xs ≡ 0
occurrences-absent id [] h = refl
occurrences-absent id (x ∷ xs) h = ground (arith, occurrences-absent id xs)

pub occurrences-present :
    (id : String) (xs : List String) → contains id xs ≡ true → 1 ≤ occurrences id xs
occurrences-present id [] h = absurd (cc)
occurrences-present id (x ∷ xs) h = ground (arith, occurrences-present id xs)

-- Every identifier is seen at most once.
abbrev pub AreDistinct : List String → Type 0
AreDistinct ids = (id : String) → occurrences id ids ≤ 1

pub AreDistinct-snoc :
    (id : String) (ids : List String)
    → AreDistinct ids
    → contains id ids ≡ false
    → AreDistinct (ids ++ id ∷ [])
AreDistinct-snoc id ids d h j = elim (Bool-cases (id == j)) [
  | inl same ↦ rw occurrences-append (
      ground (
        arith,
        str_iff id j,
        ap (λ k. occurrences k ids) {x = id} {y = j},
        occurrences-absent id ids h,
      ))
  | inr other ↦ rw occurrences-append (ground (arith, d j))
]
