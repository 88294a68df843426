-- ===== src/Domain/Errors.antt =====
-- The errors that Forge throws, as values, and computations that may throw one.
use cyclewarden.Prelude.{◌≡◌, refl, List, String}
use cyclewarden.Domain.Contracts.{RunState}
use cyclewarden.Domain.CompletionGate.{CompletionBlockerCode}

pub data ForgeError : Type 0 where
  illegal_run_transition : RunState → RunState → ForgeError
  range_error next_iteration_requires_rejection admission_refused : ForgeError
  unauthorized schema_error idempotency_conflict : ForgeError
  task_not_found task_workspace_not_found run_not_found approval_not_found : String → ForgeError
  active_run_exists : List String → ForgeError
  -- Only of the model: a call that would wait for another one.
  still_pending : ForgeError
  approval_already_resolved : ForgeError
  run_cannot_be_cancelled instruction_not_allowed : RunState → ForgeError
  run_not_awaiting_review run_must_be_queued : RunState → ForgeError
  review_already_resolved : String → ForgeError
  gate_blocked : List CompletionBlockerCode → ForgeError
  invalid_event non_json_payload invalid_input payload_limit_exceeded : ForgeError
  provider_error : String → String → ForgeError

pub data Result {ℓ} (A : Type ℓ) : Type ℓ where
  ok : A → Result A
  throw : ForgeError → Result A

module _ {ℓ κ} {A : Type ℓ} {B : Type κ} where
  infixl 5 ◌>>=◌ ◌>>◌
  abbrev pub ◌>>=◌ : Result A → (A → Result B) → Result B
  ok a >>= f = f a
  throw e >>= f = throw e

  abbrev pub ◌>>◌ : Result A → Result B → Result B
  m >> n = m >>= λ _. n

  -- A sequence returns when each of its parts does.
  pub bind-ok :
      (m : Result A) (f : A → Result B) (b : B)
      → (m >>= f) ≡ ok b
      → (a : A) × (m ≡ ok a) × (f a ≡ ok b)
  bind-ok (ok a) f b h = (a, refl, h)
  bind-ok (throw e) f b h = absurd (cc)
