-- ===== src/Examples/RateLimit.antt =====
-- Three requests of one key, and one of another, against a limit of two.
use cyclewarden.Prelude.{ℕ, ◌≤◌, ◌≡◌, refl, List, [], ◌∷◌, String, arith}
use cyclewarden.Security.RateLimit.{Limiter, new_limiter, check_all, check, check_swept, sweep}
use cyclewarden.Security.RateLimit.Window.{successes, window_lets_limit_through}
use cyclewarden.Security.RateLimit.Sweep.{check_all_unswept, sweep_is_unobservable}

abbrev limiter : Limiter
limiter = new_limiter 2 100 0

abbrev later : List (String × ℕ)
later = ("k", 20) ∷ ("j", 30) ∷ ("k", 110) ∷ []

two_succeed : successes "k" (("k", 10) ∷ later) limiter ≡ 2
unfolding check check_swept sweep
two_succeed = refl

window_lets_limit_through_example : successes "k" (("k", 10) ∷ later) limiter ≤ 2
window_lets_limit_through_example =
    window_lets_limit_through "k" 10 later limiter refl (omega arith)
      (omega arith, (omega arith, (omega arith, tt)))

sweep_is_unobservable_example :
    check_all (("k", 10) ∷ later) limiter ≡ check_all_unswept (("k", 10) ∷ later) limiter
sweep_is_unobservable_example =
    sweep_is_unobservable 0 (("k", 10) ∷ later) limiter
      (omega arith, (omega arith, (omega arith, (omega arith, tt))))
