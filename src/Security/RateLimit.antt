-- ===== src/Security/RateLimit.antt =====
-- packages/security/src/rate-limit.ts: `InMemoryRateLimiter`. Times are milliseconds.
pub mod Window
pub mod Sweep
use cyclewarden.Prelude.{
  ℕ, zero, suc, ◌+◌, ◌-◌, Bool, true, false, Option, none, some, List, [], ◌∷◌, String, ℤ, pos,
  negsuc, ltb, ◌==◌, string_eq, if◌then◌else◌,
}

pub record RateLimitResult : Type 0 where
  pub success : Bool
  pub limit : ℕ
  pub remaining : ℤ
  pub reset_time : ℕ

-- `Record_`: a key's requests in its window.
pub record KeyWindow : Type 0 where
  pub count : ℕ
  pub reset_time : ℕ

abbrev pub sweep_ms : ℕ
sweep_ms = 60000

-- The cache is a `Map` of which only `get`, `set` and `delete` are used: a function from its keys.
pub record Limiter : Type 0 where
  pub limit : ℕ
  pub window_ms : ℕ
  pub cache : String → Option KeyWindow
  pub last_sweep : ℕ

-- `new InMemoryRateLimiter(limit, windowMs)`
abbrev pub new_limiter : ℕ → ℕ → ℕ → Limiter
new_limiter limit window_ms now = record {
  limit = limit;
  window_ms = window_ms;
  cache = λ key. none;
  last_sweep = now;
}

-- `limit - 1`
abbrev pub one_less : ℕ → ℤ
one_less zero = negsuc 0
one_less (suc n) = pos n

-- An entry that `now > v.resetTime` has not made stale.
abbrev pub unless_stale : ℕ → Option KeyWindow → Option KeyWindow
unless_stale now none = none
unless_stale now (some w) = if ltb w.reset_time now then none else some w

-- Every minute the stale entries are deleted.
unfoldable pub sweep : ℕ → Limiter → Limiter
sweep now l =
    if ltb sweep_ms (now - l.last_sweep)
    then record l { cache = λ key. unless_stale now (l.cache key); last_sweep = now }
    else l

-- `this.cache.set(key, w)`
abbrev pub set_window : String → KeyWindow → Limiter → Limiter
set_window key w l = record l { cache = λ k. if key == k then some w else l.cache k }

-- A key's first request in a window.
abbrev pub open_window : String → ℕ → Limiter → RateLimitResult × Limiter
open_window key now l = (
  record {
    success = true;
    limit = l.limit;
    remaining = one_less l.limit;
    reset_time = now + l.window_ms;
  },
  set_window key (record { count = 1; reset_time = now + l.window_ms }) l,
)

-- `Math.max(0, limit - count)` is the subtraction of `ℕ`.
abbrev pub counted : ℕ → KeyWindow → RateLimitResult
counted limit w = record {
  success = if ltb limit w.count then false else true;
  limit = limit;
  remaining = if ltb limit w.count then pos 0 else pos (limit - w.count);
  reset_time = w.reset_time;
}

abbrev pub add_one : KeyWindow → KeyWindow
add_one w = record w { count = w.count + 1 }

-- A further request.
abbrev pub count_request : String → KeyWindow → Limiter → RateLimitResult × Limiter
count_request key w l = (counted l.limit (add_one w), set_window key (add_one w) l)

-- `check` after the sweep: by the key's entry, where it is not stale.
abbrev pub check_entry : String → ℕ → Option KeyWindow → Limiter → RateLimitResult × Limiter
check_entry key now none l = open_window key now l
check_entry key now (some w) l = count_request key w l

unfoldable pub check_swept : String → ℕ → Limiter → RateLimitResult × Limiter
check_swept key now l = check_entry key now (unless_stale now (l.cache key)) l

unfoldable pub check : String → ℕ → Limiter → RateLimitResult × Limiter
unfolding sweep check_swept
check key now l = check_swept key now (sweep now l)

-- Requests one after the other, each a key and a time: what each is told.
abbrev pub check_all : List (String × ℕ) → Limiter → List RateLimitResult
check_all [] l = []
check_all ((key, now) ∷ rest) l = let (result, l') = check key now l in result ∷ check_all rest l'
