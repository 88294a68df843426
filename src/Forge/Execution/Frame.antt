-- ===== src/Forge/Execution/Frame.antt =====
-- The local variables of `executeRun` beside the store, with the sandboxes that the provider has
-- created and those that it was asked to destroy, and computations on them. What was assigned or written before a throw stays so.
use cyclewarden.Prelude.{Option, some, List, [], ◌∷◌, ◌++◌, String}
use cyclewarden.Domain.Contracts.{Run}
use cyclewarden.Domain.Errors.{Result, ok, throw}
use cyclewarden.Forge.Store.{Store}
use cyclewarden.Forge.Exec.{Exec}

pub record Frame : Type 0 where
  pub store : Store
  pub run : Run
  pub sandbox_id : Option String
  pub created : List String
  pub destroy_calls : List String

abbrev pub Body : Type 0 → Type 0
Body A = Frame → Result A × Frame

module _ {A : Type 0} where
  abbrev pub return : A → Body A
  return a f = (ok a, f)

  abbrev pub return_result : Result A → Body A
  return_result r f = (r, f)

  -- A computation on the store alone.
  unfoldable pub call : Exec A → Body A
  call m f = ((m f.store).0, record f { store = (m f.store).1 })

  abbrev pub reads : (Frame → A) → Body A
  reads g f = (ok (g f), f)

module _ {A B : Type 0} where
  abbrev pub then_do : Result A × Frame → (A → Body B) → Result B × Frame
  then_do (ok a, f) k = k a f
  then_do (throw e, f) k = (throw e, f)

  infixl 5 ◌>>=◌ ◌>>◌
  unfoldable pub ◌>>=◌ : Body A → (A → Body B) → Body B
  ◌>>=◌ m k f = then_do (m f) k

  abbrev pub ◌>>◌ : Body A → Body B → Body B
  m >> n = m >>= λ _. n

-- `run = ...`
abbrev pub assign_run : Run → Body (Unit {0})
assign_run run f = (ok tt, record f { run = run })

-- `sandboxId = ...`
abbrev pub assign_sandbox : String → Body (Unit {0})
assign_sandbox id f = (ok tt, record f { sandbox_id = some id })

-- The provider has answered with a new sandbox.
abbrev pub note_create : String → Body (Unit {0})
note_create id f = (ok tt, record f { created = f.created ++ id ∷ [] })

abbrev pub note_destroy : String → Body (Unit {0})
note_destroy id f = (ok tt, record f { destroy_calls = f.destroy_calls ++ id ∷ [] })

-- What a computation leaves of its frame when it is over.
abbrev pub outcome : {A : Type 0} → Result A × Frame → Result A × Store
outcome r = (r.0, r.1.store)
