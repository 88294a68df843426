-- ===== src/Evolution/Errors.antt =====
-- The errors that packages/evolution-core/src throws, as values: each by the template of its message.
use cyclewarden.Prelude.{◌≡◌, refl, ◌⊎◌, inl, inr, String, Bool, if◌then◌else◌}
use cyclewarden.Evolution.Types.{EvolutionStage, ArtifactBucket}
use cyclewarden.Evolution.Policy.{DecisionReason}

pub data EvolutionError : Type 0 where
  invalid_cycle_id vague_objective : EvolutionError
  cycle_is_terminal : EvolutionStage → EvolutionError
  invalid_transition : EvolutionStage → EvolutionStage → EvolutionError
  requires_actor_and_reason requires_passing_verification : EvolutionError
  not_authorized : DecisionReason → EvolutionError
  requires_artifact : EvolutionStage → ArtifactBucket → EvolutionError
  wrong_record_kind : String → EvolutionError
  invalid_record_id : EvolutionError
  record_of_another_cycle record_requires_actor record_has_invalid_date : String → EvolutionError
  duplicate_record_id : String → EvolutionError

pub data Checked {ℓ} (A : Type ℓ) : Type ℓ where
  accepted : A → Checked A
  refused : EvolutionError → Checked A

module _ {ℓ κ} {A : Type ℓ} {B : Type κ} where
  infixl 5 ◌>>=◌ ◌>>◌
  abbrev pub ◌>>=◌ : Checked A → (A → Checked B) → Checked B
  accepted a >>= f = f a
  refused e >>= f = refused e

  abbrev pub ◌>>◌ : Checked A → Checked B → Checked B
  m >> n = m >>= λ _. n

  -- A sequence is accepted when each of its parts is.
  pub bind-accepted :
      (m : Checked A) (f : A → Checked B) (b : B)
      → (m >>= f) ≡ accepted b
      → (a : A) × (m ≡ accepted a) × (f a ≡ accepted b)
  bind-accepted (accepted a) f b h = (a, refl, h)
  bind-accepted (refused e) f b h = absurd (cc)

  -- A sequence is refused by its first part, or by what follows.
  pub bind-refused :
      (m : Checked A) (f : A → Checked B) (e : EvolutionError)
      → (m >>= f) ≡ refused e
      → (m ≡ refused e) ⊎ ((a : A) × (m ≡ accepted a) × (f a ≡ refused e))
  bind-refused (accepted a) f e h = inr (a, refl, h)
  bind-refused (refused e') f e h = inl (cc)

-- `if (b) throw e;`
abbrev pub refuse_if : Bool → EvolutionError → Checked (Unit {0})
refuse_if b e = if b then refused e else accepted tt
