-- ===== src/Prelude/Assoc.antt =====
-- JavaScript's `Map` with text keys: entries in the order of their first insertion, and `set` on
-- a present key keeps its place. Clients have the laws.
use Prim.Native.Nat.{ℕ, ◌+◌}
use Prim.Native.String.{String}
use mathlib.Core.Path.{◌≡◌, refl}
use mathlib.Core.Bool.{Bool}
use mathlib.Core.Option.{Option, none, some}
use mathlib.Core.List.{List, [], ◌∷◌}
use native.Mathlib.Omega.{arith}
use cyclewarden.Prelude.Tests.{◌==◌, string_eq, str_iff, if◌then◌else◌}
use cyclewarden.Prelude.Lists.{filter, length}

pub record Dict {ℓ} (V : Type ℓ) : Type ℓ where
  entries : List (String × V)

abbrev pub bit : Bool → ℕ
bit b = if b then 1 else 0

module _ {ℓ} {V : Type ℓ} where
  lookup : String → List (String × V) → Option V
  lookup k [] = none
  lookup k ((j, v) ∷ l) = if j == k then some v else lookup k l

  insert : String → V → List (String × V) → List (String × V)
  insert k v [] = (k, v) ∷ []
  insert k v ((j, w) ∷ l) = if j == k then (k, v) ∷ l else (j, w) ∷ insert k v l

  without : String → List (String × V) → List (String × V)
  without k [] = []
  without k ((j, v) ∷ l) = let rest = without k l in if j == k then rest else (j, v) ∷ rest

  abbrev snds : List (String × V) → List V
  snds [] = []
  snds ((j, v) ∷ l) = v ∷ snds l

  lookup-insert :
      (k j : String) (v : V) (l : List (String × V))
      → lookup j (insert k v l) ≡ (if k == j then some v else lookup j l)
  unfolding lookup insert
  lookup-insert k j v [] = refl
  lookup-insert k j v ((i, w) ∷ l) =
      ground (arith, str_iff k j, str_iff i k, str_iff i j, lookup-insert k j v l)

  lookup-without :
      (k j : String) (l : List (String × V))
      → lookup j (without k l) ≡ (if k == j then none else lookup j l)
  unfolding lookup without
  lookup-without k j [] = ground arith
  lookup-without k j ((i, w) ∷ l) =
      ground (arith, str_iff k j, str_iff i k, str_iff i j, lookup-without k j l)

  count_old : (V → Bool) → Option V → ℕ
  count_old p none = 0
  count_old p (some v) = bit (p v)

  count-insert :
      (p : V → Bool) (k : String) (v : V) (l : List (String × V))
      → length (filter p (snds (insert k v l))) + count_old p (lookup k l)
        ≡ length (filter p (snds l)) + bit (p v)
  unfolding lookup insert count_old
  count-insert p k v [] = ground arith
  count-insert p k v ((i, w) ∷ l) = ground (arith, str_iff i k, count-insert p k v l)

  unfoldable pub empty : Dict V
  empty = record { entries = [] }

  -- `m.get(k)`
  unfoldable pub get : Dict V → String → Option V
  unfolding lookup
  get d k = lookup k d.entries

  -- `m.set(k, v)`
  unfoldable pub put : Dict V → String → V → Dict V
  unfolding insert
  put d k v = record { entries = insert k v d.entries }

  -- `m.delete(k)`
  unfoldable pub remove : Dict V → String → Dict V
  unfolding without
  remove d k = record { entries = without k d.entries }

  -- `[...m.values()]`
  unfoldable pub values : Dict V → List V
  values d = snds d.entries

  -- How many values pass a test.
  pub count_values : (V → Bool) → Dict V → ℕ
  unfolding values
  count_values p d = length (filter p (values d))

  pub count_values-filter :
      (p : V → Bool) (d : Dict V) → count_values p d ≡ length (filter p (values d))
  unfolding count_values
  count_values-filter p d = refl

  pub get-put :
      (d : Dict V) (k j : String) (v : V) → get (put d k v) j ≡ (if k == j then some v else get d j)
  unfolding get put
  get-put d k j v = lookup-insert k j v d.entries

  pub get-remove :
      (dict : Dict V) (gone key : String)
      → get (remove dict gone) key ≡ (if gone == key then none else get dict key)
  unfolding remove get
  get-remove dict gone key = lookup-without gone key dict.entries

  pub get-put_self : (d : Dict V) (k : String) (v : V) → get (put d k v) k ≡ some v
  get-put_self d k v = ground (arith, get-put d k k v, str_iff k k)

  -- A new key adds its value to a count.
  pub count_values-put_new :
      (p : V → Bool) (d : Dict V) (k : String) (v : V)
      → get d k ≡ none
      → count_values p (put d k v) ≡ count_values p d + bit (p v)
  unfolding count_values get put count_old
  count_values-put_new p d k v h = ground (arith, count-insert p k v d.entries)

  -- A present key replaces its old value in a count.
  pub count_values-put_old :
      (p : V → Bool) (d : Dict V) (k : String) (v old : V)
      → get d k ≡ some old
      → count_values p (put d k v) + bit (p old) ≡ count_values p d + bit (p v)
  unfolding count_values get put count_old
  count_values-put_old p d k v old h = ground (arith, count-insert p k v d.entries)

pub count_values-empty {ℓ} : {V : Type ℓ} (p : V → Bool) → count_values p (empty {V = V}) ≡ 0
unfolding count_values empty
count_values-empty p = refl

pub get-empty {ℓ} : {V : Type ℓ} (key : String) → get (empty {V = V}) key ≡ none
unfolding empty get
get-empty key = refl

pub ruleset dict_laws = (get-put, get-remove, get-empty)
