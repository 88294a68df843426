-- ===== src/Forge/Queries.antt =====
-- The methods of `InMemoryForgeStore` that only read (packages/forge-application/src/store/in-memory-store.ts).
use cyclewarden.Prelude.{
  ℕ, Bool, ◌&&◌, Option, none, some, List, [], ◌∷◌, String, ◌==◌, string_eq, or_else, is_blank, leb,
  filter, get, values, if◌then◌else◌,
}
use cyclewarden.Domain.Contracts.{
  Task, Run, RunEvent, ApprovalRequest, ValidationResult, AcceptanceEvidence, ReviewDecision,
  Publication,
}
use cyclewarden.Domain.RunLifecycle.{is_active_run_state}
use cyclewarden.Domain.Errors.{
  ForgeError, ok, throw, task_not_found, task_workspace_not_found, run_not_found,
  approval_not_found,
}
use cyclewarden.Forge.Store.{Store}
use cyclewarden.Forge.Exec.{Exec}

abbrev pub found : {A : Type 0} → ForgeError → Option A → Exec A
found e none s = (throw e, s)
found e (some a) s = (ok a, s)

unfoldable pub get_task : String → Exec Task
get_task task_id s = found (task_not_found task_id) (get s.tasks task_id) s

-- An empty text counts as absent under `!value`.
abbrev pub non_blank : Option String → Option String
non_blank none = none
non_blank (some t) = if is_blank t then none else some t

unfoldable pub get_task_workspace : String → Exec String
get_task_workspace task_id s =
    found (task_workspace_not_found task_id) (non_blank (get s.task_workspaces task_id)) s

unfoldable pub get_run : String → Exec Run
get_run run_id s = found (run_not_found run_id) (get s.runs run_id) s

unfoldable pub get_approval : String → Exec ApprovalRequest
get_approval approval_id s = found (approval_not_found approval_id) (get s.approvals approval_id) s

abbrev pub is_active_in : String → Run → Bool
is_active_in workspace_id run = run.workspace_id == workspace_id && is_active_run_state run.state

unfoldable pub list_active_runs : String → Store → List Run
list_active_runs workspace_id s = filter (is_active_in workspace_id) (values s.runs)

-- The stable sort of runs by iteration.
insert_run : Run → List Run → List Run
insert_run r [] = r ∷ []
insert_run r (q ∷ qs) =
    let rest = insert_run r qs in if leb r.iteration q.iteration then r ∷ q ∷ qs else q ∷ rest

sort_runs : List Run → List Run
unfolding insert_run
sort_runs [] = []
sort_runs (r ∷ rs) = insert_run r (sort_runs rs)

unfoldable pub list_runs_for_task : String → Store → List Run
unfolding sort_runs
list_runs_for_task task_id s = sort_runs (filter (λ r. r.task_id == task_id) (values s.runs))

unfoldable pub get_events : String → Store → List RunEvent
get_events run_id s = or_else (get s.events run_id) []

unfoldable pub get_validations : String → Store → List ValidationResult
get_validations run_id s = or_else (get s.validations run_id) []

unfoldable pub get_evidence : String → Store → List AcceptanceEvidence
get_evidence run_id s = or_else (get s.evidence run_id) []

unfoldable pub get_evidence_version : String → Store → ℕ
get_evidence_version run_id s = or_else (get s.evidence_versions run_id) 0

unfoldable pub get_review : String → Store → Option ReviewDecision
get_review run_id s = get s.reviews run_id

unfoldable pub get_publication : String → Store → Option Publication
get_publication run_id s = get s.publications run_id
