-- ===== src/Forge/Exec.antt =====
-- Computations on a store that may throw. What was written before a throw stays written.
use cyclewarden.Prelude.{Bool, if◌then◌else◌}
use cyclewarden.Domain.Errors.{ForgeError, Result, ok, throw}
use cyclewarden.Forge.Store.{Store}

abbrev pub Exec : Type 0 → Type 0
Exec A = Store → Result A × Store

module _ {A : Type 0} where
  abbrev pub return : A → Exec A
  return a s = (ok a, s)

  abbrev pub fail : ForgeError → Exec A
  fail e s = (throw e, s)

  -- A result that is known without the store.
  abbrev pub from_result : Result A → Exec A
  from_result r s = (r, s)

  abbrev pub gets : (Store → A) → Exec A
  gets f s = (ok (f s), s)

abbrev pub modify : (Store → Store) → Exec (Unit {0})
modify f s = (ok tt, f s)

module _ {A B : Type 0} where
  abbrev pub then_do : Result A × Store → (A → Exec B) → Result B × Store
  then_do (ok a, s) f = f a s
  then_do (throw e, s) f = (throw e, s)

  infixl 5 ◌>>=◌ ◌>>◌
  unfoldable pub ◌>>=◌ : Exec A → (A → Exec B) → Exec B
  ◌>>=◌ m f s = then_do (m s) f

  abbrev pub ◌>>◌ : Exec A → Exec B → Exec B
  m >> n = m >>= λ _. n

-- `if (b) throw e;`
abbrev pub throw_if : Bool → ForgeError → Exec (Unit {0})
throw_if b e s = if b then (throw e, s) else (ok tt, s)
