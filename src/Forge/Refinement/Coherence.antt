-- ===== src/Forge/Refinement/Coherence.antt =====
-- What a store has before a command: runs stand under their identifiers, and identifiers that the
-- host has yet to draw are unused. Also how a transition of a stored run is a step.
use cyclewarden.Prelude.{
  ℕ, ◌≤◌, ◌≡◌, sym, subst, true, false, Option, none, some, String, get, put, ◌!=◌, string_eq,
  str_iff, arith,
}
use cyclewarden.Domain.Contracts.{Run, RunState, ReviewOutcome, RunLifecycleSnapshot}
use cyclewarden.Domain.Schemas.{run_schema}
use cyclewarden.Domain.Errors.{ok}
use cyclewarden.Domain.RunLifecycle.{transition_run, is_active_run_state}
use cyclewarden.Forge.Store.{Store, Host}
use cyclewarden.Forge.Steps.{Step, move_run}

pub record IsCoherent (host : Host) (s : Store) : Type 0 where
  pub keyed : (k : String) (r : Run) → get s.runs k ≡ some r → r.id ≡ k
  pub fresh : (i : ℕ) → s.uuids_drawn ≤ i → get s.runs (host.uuid i) ≡ none

-- A run that is found stands under its own identifier.
pub at_own_id :
    (host : Host) (s : Store) (k : String) (r : Run)
    → IsCoherent host s
    → get s.runs k ≡ some r
    → get s.runs r.id ≡ some r
at_own_id host s k r c e = subst (λ j. get s.runs j ≡ some r) (sym (c.keyed k r e)) e

-- Two texts that `!==` does not tell apart are one.
pub same_text : (a b : String) → (a != b) ≡ false → a ≡ b
same_text a b h = (str_iff a b).0 (ground arith)

pub transition_same :
    (old : RunLifecycleSnapshot) (state : RunState) (new : RunLifecycleSnapshot)
    → transition_run old state ≡ ok new
    → (new.id ≡ old.id) × (new.workspace_id ≡ old.workspace_id) × (new.state ≡ state)
unfolding transition_run
transition_same old state new h = ground arith

module _ (host : Host) (workspace : String) where
  -- A legal transition of a stored, active run is a step, whatever outcome is recorded with it.
  pub moving :
      (s : Store) (old run : Run) (state : RunState) (new : RunLifecycleSnapshot)
      (outcome : Option ReviewOutcome)
      → get s.runs old.id ≡ some old
      → transition_run old.lifecycle state ≡ ok new
      → run.lifecycle ≡ record new { review_outcome = outcome }
      → old.workspace_id ≡ workspace
      → is_active_run_state old.state ≡ true
      → run_schema host.formats run ≡ true
      → Step host workspace s (record s { runs = put s.runs run.id run })
  unfolding transition_run
  moving s old run state new outcome stored moved e own active good =
      move_run s old run (ground arith) own (ground arith) (ground arith) good
