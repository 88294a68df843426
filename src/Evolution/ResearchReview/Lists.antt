-- ===== src/Evolution/ResearchReview/Lists.antt =====
-- Lists that are filtered and mapped, as a review does it (packages/evolution-core/src/research-review.ts).
use cyclewarden.Prelude.{
  ◌≡◌, refl, sym, subst, ◌∙◌, Bool, true, false, not, ◌&&◌, ◌||◌, List, [], ◌∷◌, map, String, all,
  ◌++◌, filter, contains, is_empty, ◌==◌, string_eq, str_iff, arith, Bool-cases, inl, inr,
  all-append,
}
use cyclewarden.Evolution.Stages.{add_all}

pub all_where :
    {A : Type 0} (p q : A → Bool) (xs : List A)
    → ((x : A) → p x ≡ false → q x ≡ true)
    → is_empty (filter p xs) ≡ true
    → all q xs ≡ true
all_where p q [] f h = refl
all_where p q (x ∷ xs) f h = elim (Bool-cases (p x)) [
  | inl kept ↦ absurd (cc (rw kept at h))
  | inr dropped ↦ rw (f x dropped) (all_where p q xs f (rw dropped at h))
]

pub is_empty-map : {A : Type 0} (f : A → String) (xs : List A) → is_empty (map f xs) ≡ is_empty xs
is_empty-map f [] = refl
is_empty-map f (x ∷ xs) = refl

-- What is in a list has what all of it have.
contains-all :
    (q : String → Bool) (v : String) (xs : List String)
    → contains v xs ≡ true
    → all q xs ≡ true
    → q v ≡ true
contains-all q v [] h k = absurd (cc)
contains-all q v (x ∷ xs) h k = elim (Bool-cases (x == v)) [
  | inl same ↦ subst (λ t. q t ≡ true) ((str_iff x v).0 same) (first_of (q x) (all q xs) k)
  | inr other ↦ contains-all q v xs (rw other at h) (second_of (q x) (all q xs) k)
]
  where
    first_of : (a b : Bool) → (a && b) ≡ true → a ≡ true
    first_of a b h = ground arith

    second_of : (a b : Bool) → (a && b) ≡ true → b ≡ true
    second_of a b h = ground arith

pub both_of : (a b : Bool) → (a && b) ≡ true → (a ≡ true) × (b ≡ true)
both_of a b h = (ground arith, ground arith)

-- A set has what was added to it.
pub all-add_all :
    (q : String → Bool) (set xs : List String)
    → all q (add_all set xs) ≡ true
    → (all q set ≡ true) × (all q xs ≡ true)
all-add_all q set [] h = (h, refl)
all-add_all q set (v ∷ vs) h = elim (Bool-cases (contains v set)) [
  | inl old ↦
      let (in_set, in_rest) = all-add_all q set vs (rw old at h) in
      (in_set, rw (contains-all q v set old in_set) in_rest)
  | inr new ↦
      let (in_set, in_rest) = all-add_all q (set ++ v ∷ []) vs (rw new at h) in
      let (old, added) =
        both_of (all q set) (all q (v ∷ [])) (sym (all-append q set (v ∷ [])) ∙ in_set) in
      (old, rw ((both_of (q v) true added).0) in_rest)
]

-- A test of the names of those that another test keeps.
pub all-map-filter :
    {A : Type 0} (name : A → String) (p : A → Bool) (q : String → Bool) (xs : List A)
    → all q (map name (filter p xs)) ≡ true
    → all (λ x. not (p x) || q (name x)) xs ≡ true
all-map-filter name p q [] h = refl
all-map-filter name p q (x ∷ xs) h = elim (Bool-cases (p x)) [
  | inl kept ↦
      let (first, rest) = both_of (q (name x)) (all q (map name (filter p xs))) (rw kept at h) in
      rw (kept, first) (all-map-filter name p q xs rest)
  | inr dropped ↦ rw dropped (all-map-filter name p q xs (rw dropped at h))
]

pub all-filter-map :
    {A : Type 0} (name : A → String) (p q : String → Bool) (xs : List A)
    → all q (filter p (map name xs)) ≡ true
    → all (λ x. not (p (name x)) || q (name x)) xs ≡ true
all-filter-map name p q [] h = refl
all-filter-map name p q (x ∷ xs) h = elim (Bool-cases (p (name x))) [
  | inl kept ↦
      let (first, rest) = both_of (q (name x)) (all q (filter p (map name xs))) (rw kept at h) in
      rw (kept, first) (all-filter-map name p q xs rest)
  | inr dropped ↦ rw dropped (all-filter-map name p q xs (rw dropped at h))
]
