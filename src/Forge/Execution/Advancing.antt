-- ===== src/Forge/Execution/Advancing.antt =====
-- What a move of the local run leaves, if it returns (packages/forge-application/src/runs/execute-run.ts).
use cyclewarden.Prelude.{ℕ, ◌+◌, ◌≡◌, refl, some, get, get-put_self, Bool-cases, inl, inr}
use cyclewarden.Domain.Contracts.{Run, RunState, RunLifecycleSnapshot}
use cyclewarden.Domain.Schemas.{run_schema}
use cyclewarden.Domain.RunLifecycle.{can_transition, transition_run}
use cyclewarden.Forge.Exec
use cyclewarden.Forge.Exec.{Exec}
use cyclewarden.Forge.Methods.{current_time, save_run}
use cyclewarden.Forge.Execution.Frame.{Frame, call, ◌>>=◌}
use cyclewarden.Forge.Execution.Requests.{move}
use cyclewarden.Forge.Execution.Attempt.{Runtime, advance, start_running}
use cyclewarden.Forge.Execution.Local.{Returns}

-- The local run, in a state and of a version.
abbrev pub Reached : RunState → ℕ → Run → Type 0
Reached state version run = (run.state ≡ state) × (run.version ≡ version)

-- It is also stored so.
abbrev pub Moved : RunState → ℕ → {A : Type 0} → A → Frame → Type 0
Moved state version a f = Reached state version f.run × (get f.store.runs f.run.id ≡ some f.run)

abbrev pub Known : RunState → ℕ → {A : Type 0} → A → Frame → Type 0
Known state version a f = Reached state version f.run

module _ (runtime : Runtime) where
  open runtime use {host}

  -- A move that returns is made to the local run, and is stored.
  pub advance-Returns :
      (next : RunState) (f : Frame)
      → Returns (Moved next (f.run.version + 1)) (advance runtime next f)
  unfolding advance ◌>>=◌ call move Exec.◌>>=◌ current_time save_run transition_run
  advance-Returns next f = elim (Bool-cases (can_transition f.run.state next)) [
    | inl legal ↦
        let lifecycle : RunLifecycleSnapshot = record (f.run.lifecycle) {
          state = next;
          version = f.run.version + 1;
        } in
        let run : Run = record (f.run) {
          lifecycle = lifecycle;
          updated_at = host.now f.store.times_read;
        } in
        elim (Bool-cases (run_schema host.formats run)) [
          | inl good ↦ rw (legal, good) ((refl, refl), get-put_self f.store.runs run.id run)
          | inr bad ↦ rw (legal, bad) tt
        ]
    | inr illegal ↦ rw illegal tt
  ]

  pub start-Returns :
      (f : Frame)
      → Returns
          (λ a g. Reached RunState.running (f.run.version + 1) g.run)
          (start_running runtime f)
  unfolding start_running ◌>>=◌ call move Exec.◌>>=◌ current_time save_run transition_run
  start-Returns f = elim (Bool-cases (can_transition f.run.state RunState.running)) [
    | inl legal ↦
        let lifecycle : RunLifecycleSnapshot = record (f.run.lifecycle) {
          state = RunState.running;
          version = f.run.version + 1;
        } in
        let run : Run = record (f.run) {
          lifecycle = lifecycle;
          updated_at = host.now f.store.times_read;
          started_at = some (host.now (f.store.times_read + 1));
        } in
        elim (Bool-cases (run_schema host.formats run)) [
          | inl good ↦ rw (legal, good) (refl, refl)
          | inr bad ↦ rw (legal, bad) tt
        ]
    | inr illegal ↦ rw illegal tt
  ]
