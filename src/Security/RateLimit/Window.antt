-- ===== src/Security/RateLimit/Window.antt =====
-- How many requests of one key succeed in one window.
use cyclewarden.Prelude.{
  ℕ, ◌+◌, ◌-◌, ◌≤◌, ◌≡◌, refl, sym, ◌∙◌, true, false, Option, none, some, List, [], ◌∷◌, String,
  ltb, ◌==◌, string_eq, str_iff, Bool-cases, inl, inr, arith, bit, if◌then◌else◌, ◌&&◌, subst,
}
use cyclewarden.Security.RateLimit.{
  KeyWindow, Limiter, unless_stale, sweep, sweep_ms, check_entry, check_swept, check, add_one,
}

-- How many requests of a key succeed.
abbrev pub successes : String → List (String × ℕ) → Limiter → ℕ
successes key [] l = 0
successes key ((k, now) ∷ rest) l =
    let (result, l') = check k now l in bit (k == key && result.success) + successes key rest l'

-- The times of the requests are at most `reset`.
abbrev pub Until : ℕ → List (String × ℕ) → Type 0
Until reset [] = Unit
Until reset ((k, now) ∷ rest) = (now ≤ reset) × Until reset rest

current : (now : ℕ) (w : KeyWindow) → now ≤ w.reset_time → unless_stale now (some w) ≡ some w
current now w h = ground arith

module _ (key : String) (w : KeyWindow) where
  -- A sweep within a key's window keeps its entry.
  sweep_keeps :
      (now : ℕ) (l : Limiter)
      → l.cache key ≡ some w
      → now ≤ w.reset_time
      → ((sweep now l).cache key ≡ some w) × ((sweep now l).limit ≡ l.limit)
  unfolding sweep
  sweep_keeps now l h t = elim (Bool-cases (ltb sweep_ms (now - l.last_sweep))) [
    | inl due ↦ rw (due, h) (current now w t, refl)
    | inr early ↦ rw early (h, refl)
  ]

  -- A request of another key leaves the entry.
  other_entry :
      (k : String) (now : ℕ) (o : Option KeyWindow) (l : Limiter)
      → (k == key) ≡ false
      → ((check_entry k now o l).1.cache key ≡ l.cache key)
        × ((check_entry k now o l).1.limit ≡ l.limit)
  other_entry k now none l h = rw h (refl, refl)
  other_entry k now (some v) l h = rw h (refl, refl)

  own_check :
      (now : ℕ) (l : Limiter)
      → l.cache key ≡ some w
      → now ≤ w.reset_time
      → ((check key now l).0.success ≡ (if ltb l.limit (w.count + 1) then false else true))
        × ((check key now l).1.cache key ≡ some (add_one w))
        × ((check key now l).1.limit ≡ l.limit)
  unfolding check check_swept
  own_check now l h t =
      let (kept, limit) = sweep_keeps now l h t in
      rw (kept, current now w t, limit) (refl, ground (arith, str_iff key key), refl)

  other_check :
      (k : String) (now : ℕ) (l : Limiter)
      → (k == key) ≡ false
      → l.cache key ≡ some w
      → now ≤ w.reset_time
      → ((check k now l).1.cache key ≡ some w) × ((check k now l).1.limit ≡ l.limit)
  unfolding check check_swept
  other_check k now l miss h t =
      let (kept, limit) = sweep_keeps now l h t in
      let (same, limit') =
        other_entry k now (unless_stale now ((sweep now l).cache k)) (sweep now l) miss in
      (same ∙ kept, limit' ∙ limit)

-- From an entry with a number of requests on, at most as many more succeed within its window as the limit
-- leaves.
successes-le :
    (key : String) (requests : List (String × ℕ)) (w : KeyWindow) (l : Limiter)
    → l.cache key ≡ some w
    → Until w.reset_time requests
    → successes key requests l ≤ l.limit - w.count
successes-le key [] w l h u = omega arith
successes-le key ((k, now) ∷ rest) w l h u = elim (Bool-cases (k == key)) [
  | inl hit ↦
      subst (λ j. successes key ((j, now) ∷ rest) l ≤ l.limit - w.count)
        (sym ((str_iff k key).0 hit))
        (let (success, entry, limit) = own_check key w now l h u.0 in
          ground (
            arith,
            success,
            limit,
            str_iff key key,
            successes-le key rest (add_one w) (check key now l).1 entry u.1,
          ))
  | inr miss ↦
      let (entry, limit) = other_check key w k now l miss h u.0 in
      ground (arith, miss, limit, successes-le key rest w (check k now l).1 entry u.1)
]

opened :
    (key : String) (now : ℕ) (l : Limiter)
    → unless_stale now (l.cache key) ≡ none
    → ((check key now l).1.cache key ≡ some (record { count = 1; reset_time = now + l.window_ms }))
      × ((check key now l).1.limit ≡ l.limit)
unfolding check check_swept sweep
opened key now l h = elim (Bool-cases (ltb sweep_ms (now - l.last_sweep))) [
  | inl due ↦ rw (due, h) (ground (arith, str_iff key key), refl)
  | inr early ↦ rw (early, h) (ground (arith, str_iff key key), refl)
]

-- No window lets through more than its limit: when a key has no current window at its first
-- request and the limit is at least 1, then of that request and of those that follow it until
-- `windowMs` later, whatever other keys ask meanwhile, at most `limit` succeed.
pub window_lets_limit_through :
    (key : String) (now : ℕ) (requests : List (String × ℕ)) (l : Limiter)
    → unless_stale now (l.cache key) ≡ none
    → 1 ≤ l.limit
    → Until (now + l.window_ms) requests
    → successes key ((key, now) ∷ requests) l ≤ l.limit
window_lets_limit_through key now requests l fresh positive u =
    let (entry, limit) = opened key now l fresh in
    let rest =
      successes-le key requests (record { count = 1; reset_time = now + l.window_ms })
        (check key now l).1 entry u in
    ground (arith, rest, limit)
