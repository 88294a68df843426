-- ===== src/Security/RateLimit/Sweep.antt =====
-- The sweep of packages/security/src/rate-limit.ts, against a limiter without one.
use cyclewarden.Prelude.{
  ℕ, ◌+◌, ◌-◌, ◌≤◌, ◌≡◌, refl, ap, sym, subst, ◌∙◌, Option, none, some, List, [], ◌∷◌, String, ltb,
  ◌==◌, string_eq, Bool-cases, inl, inr, arith,
}
use cyclewarden.Security.RateLimit.{
  RateLimitResult, KeyWindow, Limiter, unless_stale, sweep, sweep_ms, check_entry, check_swept,
  check, check_all, set_window, counted, add_one,
}

-- The limiter without its sweep.
abbrev pub check_all_unswept : List (String × ℕ) → Limiter → List RateLimitResult
check_all_unswept [] l = []
check_all_unswept ((key, now) ∷ rest) l =
    let (result, l') = check_swept key now l in result ∷ check_all_unswept rest l'

-- The times of the requests do not decrease from `now` on.
abbrev pub Ascending : ℕ → List (String × ℕ) → Type 0
Ascending now [] = Unit
Ascending now ((key, t) ∷ rest) = (now ≤ t) × Ascending t rest

-- Two limiters that cannot be told apart from `now` on.
record Same (now : ℕ) (a b : Limiter) : Type 0 where
  limit : a.limit ≡ b.limit
  window_ms : a.window_ms ≡ b.window_ms
  cache : (k : String) → unless_stale now (a.cache k) ≡ unless_stale now (b.cache k)

stale_later :
    (now t : ℕ) (o : Option KeyWindow)
    → now ≤ t
    → unless_stale t (unless_stale now o) ≡ unless_stale t o
stale_later now t none h = refl
stale_later now t (some w) h = ground arith

Same-later : (now t : ℕ) (a b : Limiter) → now ≤ t → Same now a b → Same t a b
Same-later now t a b h s = record {
  limit = s.limit;
  window_ms = s.window_ms;
  cache = λ k.
      sym (stale_later now t (a.cache k) h)
      ∙ ap (unless_stale t) (s.cache k)
      ∙ stale_later now t (b.cache k) h;
}

Same-sweep : (now : ℕ) (a b : Limiter) → Same now a b → Same now (sweep now a) b
unfolding sweep
Same-sweep now a b s = elim (Bool-cases (ltb sweep_ms (now - a.last_sweep))) [
  | inl due ↦ rw due (record {
    limit = s.limit;
    window_ms = s.window_ms;
    cache = λ k. stale_later now now (a.cache k) (omega arith) ∙ s.cache k;
  })
  | inr early ↦ rw early s
]

Same-set :
    (key : String) (now : ℕ) (w : KeyWindow) (a b : Limiter)
    → Same now a b
    → Same now (set_window key w a) (set_window key w b)
Same-set key now w a b s = record {
  limit = s.limit;
  window_ms = s.window_ms;
  cache =
      λ k. elim (Bool-cases (key == k)) [ inl hit ↦ rw hit refl | inr miss ↦ rw miss (s.cache k) ];
}

-- The same entry leads to the same answer and to limiters that cannot be told apart.
Same-entry :
    (key : String) (now : ℕ) (o : Option KeyWindow) (a b : Limiter)
    → Same now a b
    → ((check_entry key now o a).0 ≡ (check_entry key now o b).0)
      × Same now (check_entry key now o a).1 (check_entry key now o b).1
Same-entry key now none a b s =
    let w : ℕ → KeyWindow = λ window_ms. record { count = 1; reset_time = now + window_ms } in
    (
      cc (s.limit, s.window_ms),
      subst
          (λ window_ms.
            Same now (set_window key (w a.window_ms) a) (set_window key (w window_ms) b))
          s.window_ms (Same-set key now (w a.window_ms) a b s),
    )
Same-entry key now (some w) a b s =
    (ap (λ limit. counted limit (add_one w)) s.limit, Same-set key now (add_one w) a b s)

Same-check :
    (key : String) (now : ℕ) (a b : Limiter)
    → Same now a b
    → ((check key now a).0 ≡ (check_swept key now b).0)
      × Same now (check key now a).1 (check_swept key now b).1
unfolding check check_swept
Same-check key now a b s =
    let swept = Same-sweep now a b s in
    rw (swept.cache key) (Same-entry key now (unless_stale now (b.cache key)) (sweep now a) b swept)

sweep_hidden :
    (now : ℕ) (requests : List (String × ℕ)) (a b : Limiter)
    → Ascending now requests
    → Same now a b
    → check_all requests a ≡ check_all_unswept requests b
sweep_hidden now [] a b h s = refl
sweep_hidden now ((key, t) ∷ rest) a b h s =
    let (same, later) = Same-check key t a b (Same-later now t a b h.0 s) in
    cc (same, sweep_hidden t rest (check key t a).1 (check_swept key t b).1 h.1 later)

-- Deleting the stale entries makes no difference: while the clock does not go back, each request
-- is told what it would be told by a limiter that never deletes an entry.
pub sweep_is_unobservable :
    (now : ℕ) (requests : List (String × ℕ)) (l : Limiter)
    → Ascending now requests
    → check_all requests l ≡ check_all_unswept requests l
sweep_is_unobservable now requests l h =
    sweep_hidden now requests l l h (record { limit = refl; window_ms = refl; cache = λ k. refl })
