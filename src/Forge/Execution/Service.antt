-- ===== src/Forge/Execution/Service.antt =====
-- An execution (packages/forge-application/src/runs/execute-run.ts) beside the commands that the
-- application serves while it waits.
use cyclewarden.Prelude.{
  ◌≡◌, ◌≢◌, true, some, List, [], ◌∷◌, String, get, All, inl, string_eq, subst, sym, ◌∙◌,
}
use cyclewarden.Domain.Contracts.{Run, RunState, state_eq}
use cyclewarden.Domain.Schemas.{non_empty}
use cyclewarden.Domain.Errors.{ForgeError, throw}
use cyclewarden.Forge.Store.{Store}
use cyclewarden.Forge.Commands.Authorizer.{WorkspaceAuthorizer}
use cyclewarden.Forge.Service.{Command, workspace_of, serve}
use cyclewarden.Forge.Invariant.Parts.{UniqueUuids, IsValid}
use cyclewarden.Forge.Invariant.Preserved.{serve-IsValid}
use cyclewarden.Forge.Invariant.History.{IsClosedTo}
use cyclewarden.Forge.Invariant.Isolation.{closed_runs_kept}
use cyclewarden.Forge.Execution.Requests.{ExecuteRunInput, Pause, error_name}
use cyclewarden.Forge.Execution.Attempt.{Runtime, attempt}
use cyclewarden.Forge.Execution.Body.{frame_of, execute_queued, execute_run, execute_run-queued}
use cyclewarden.Forge.Execution.Frame.{outcome}
use cyclewarden.Forge.Execution.Held.{ClockIsValid}
use cyclewarden.Forge.Execution.Parts.{Elsewhere}
use cyclewarden.Forge.Execution.Ending.{Ended, execute_queued_lem}

-- At each pause the application serves some commands.
abbrev pub serving : Runtime → WorkspaceAuthorizer → (Pause → List Command) → Runtime
serving runtime authorizer requests = record runtime {
  meanwhile = λ p. serve runtime.host authorizer (requests p);
}

-- None of the commands acts in the workspace.
abbrev pub AreElsewhere : String → List Command → Type 0
AreElsewhere workspace cs = All (λ c. workspace ≢ workspace_of c) cs

closed_to :
    (workspace : String) (r : Run) (cs : List Command)
    → r.workspace_id ≡ workspace
    → AreElsewhere workspace cs
    → All (λ c. IsClosedTo (workspace_of c) r) cs
closed_to workspace r [] own h = tt
closed_to workspace r (c ∷ cs) own h =
    (inl (λ same. h.0 (sym own ∙ same)), closed_to workspace r cs own h.1)

module _ (runtime : Runtime) (unique : UniqueUuids runtime.host) (clock : ClockIsValid runtime.host)
    (authorizer : WorkspaceAuthorizer) (requests : Pause → List Command) where
  open runtime use {host}

  serving-Elsewhere :
      (old : Run)
      → ((p : Pause) → AreElsewhere old.workspace_id (requests p))
      → Elsewhere (serving runtime authorizer requests) old
  serving-Elsewhere old h = record {
    valid = λ p s v. serve-IsValid host authorizer unique (requests p) s v;
    stored = λ p s r v own stored.
        closed_runs_kept host authorizer unique (requests p) s old.id r v
          (closed_to old.workspace_id r (requests p) own (h p)) stored;
  }

  -- Every execution of a queued run ends the run's work: while the application serves other
  -- workspaces' commands, whatever the providers answer, it either returns the run as it is
  -- stored, awaiting its review, or throws, and then the run is stored as failed. The store stays
  -- valid. The clock is assumed to give valid timestamps, what the execution throws to have a
  -- name, and identifiers to be unique.
  pub execution_ends :
      (input : ExecuteRunInput) (s : Store) (run : Run)
      → ((p : Pause) → AreElsewhere run.workspace_id (requests p))
      → IsValid host s
      → get s.runs input.run_id ≡ some run
      → run.state ≡ RunState.queued
      → ((e : ForgeError)
          → (attempt
              (serving runtime authorizer requests)
              input
              (frame_of (serving runtime authorizer requests) s run)).0
            ≡ throw e
          → non_empty (error_name e) ≡ true)
      → Ended host input.run_id (execute_run (serving runtime authorizer requests) input s)
  execution_ends input s run others v stored queued named =
      let same : run.id ≡ input.run_id = v.keyed input.run_id run stored in
      rw (execute_run-queued (serving runtime authorizer requests) input s run stored queued) (
        subst
          (λ k.
            Ended host k
              (outcome (execute_queued (serving runtime authorizer requests) input s run)))
          same
          (execute_queued_lem (serving runtime authorizer requests) run unique clock
            (serving-Elsewhere run others) input s v
            (subst (λ k. get s.runs k ≡ some run) (sym same) stored) queued named))
