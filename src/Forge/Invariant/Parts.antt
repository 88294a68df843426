-- ===== src/Forge/Invariant/Parts.antt =====
-- The parts of the store's invariant.
use cyclewarden.Prelude.{
  ℕ, suc, ◌+◌, ◌≤◌, ◌≡◌, true, none, some, List, [], ◌∷◌, ◌++◌, String, get, count_values, length,
  arith,
}
use cyclewarden.Domain.Contracts.{Run, RunEvent, ReviewDecision, ReviewOutcome, Publication}
use cyclewarden.Domain.Schemas.{run_schema}
use cyclewarden.Forge.Store.{Store, Host}
use cyclewarden.Forge.Queries.{is_active_in, get_events}

-- The events of a run, from the n-th on: they carry the run's identifier and consecutive numbers.
abbrev pub Numbered : String → ℕ → List RunEvent → Type 0
Numbered run_id n [] = Unit
Numbered run_id n (e ∷ es) = (e.run_id ≡ run_id) × (e.sequence ≡ n) × Numbered run_id (suc n) es

pub Numbered-snoc :
    (run_id : String) (n : ℕ) (es : List RunEvent) (e : RunEvent)
    → Numbered run_id n es
    → e.run_id ≡ run_id
    → e.sequence ≡ n + length es
    → Numbered run_id n (es ++ e ∷ [])
Numbered-snoc run_id n [] e h i q = (i, omega arith, tt)
Numbered-snoc run_id n (x ∷ xs) e h i q =
    (h.0, h.1, Numbered-snoc run_id (suc n) xs e h.2 i (omega arith))

-- The host never gives one identifier twice.
abbrev pub UniqueUuids : Host → Type 0
UniqueUuids host = (i j : ℕ) → host.uuid i ≡ host.uuid j → i ≡ j

pub record IsValid (host : Host) (s : Store) : Type 0 where
  -- Runs stand under their identifiers.
  pub keyed : (k : String) (r : Run) → get s.runs k ≡ some r → r.id ≡ k
  -- Identifiers that are yet to be drawn are unused.
  pub fresh : (i : ℕ) → s.uuids_drawn ≤ i → get s.runs (host.uuid i) ≡ none
  -- Stored runs satisfy their schema.
  pub accepted : (k : String) (r : Run) → get s.runs k ≡ some r → run_schema host.formats r ≡ true
  -- A workspace has at most one active run.
  pub single : (w : String) → count_values (is_active_in w) s.runs ≤ 1
  -- The events of a run are numbered 1, 2, 3 and so on.
  pub numbered : (k : String) → Numbered k 1 (get_events k s)
  -- What is published has a review that approves it.
  pub reviewed :
      (k : String) (p : Publication)
      → get s.publications k ≡ some p
      → (r : ReviewDecision) × (get s.reviews k ≡ some r) × (r.decision ≡ ReviewOutcome.approved)
