-- ===== src/Forge/Steps.antt =====
-- What the commands of one workspace may do to the store: an abstract specification as a step
-- relation, with the condition of each write, among which is that what is written belongs to the
-- workspace.
pub mod Rules
pub mod Saves
use cyclewarden.Prelude.{
  ℕ, ◌+◌, ◌<◌, ◌≡◌, ◌≢◌, ◌⊎◌, true, none, some, [], ◌∷◌, ◌++◌, String, Dict, get, put, count_values,
  length,
}
use cyclewarden.Domain.Contracts.{
  Task, Run, RunState, RunEvent, ApprovalRequest, ApprovalStatus, ReviewDecision, ReviewOutcome,
  Publication, ValidationResult, AcceptanceEvidence,
}
use cyclewarden.Domain.Schemas.{run_schema, event_schema, validation_schema, evidence_schema}
use cyclewarden.Domain.RunLifecycle.{is_active_run_state, can_transition}
use cyclewarden.Domain.CompletionGate.{evaluate_completion_gate}
use cyclewarden.Forge.Store.{Store, Host, IdempotencyEntry}
use cyclewarden.Forge.Methods.{Request, entry_key}
use cyclewarden.Forge.Queries.{
  is_active_in, get_events, get_validations, get_evidence, get_evidence_version,
}

-- A saved run follows its stored version by one legal transition from an active state.
pub record Moves (old run : Run) : Type 0 where
  pub same_task : run.task_id ≡ old.task_id
  pub same_iteration : run.iteration ≡ old.iteration
  pub legal : can_transition old.state run.state ≡ true
  pub was_active : is_active_run_state old.state ≡ true
  pub versioned : run.version ≡ old.version + 1

-- The completion gate lets the run be approved as the store stands.
abbrev pub GateOpen : Store → String → Type 0
GateOpen s run_id =
    (evaluate_completion_gate (get_evidence_version run_id s) (get_validations run_id s)
      (get_evidence run_id s) none).eligible_for_approval
    ≡ true

-- The run stands in the store, in the workspace.
abbrev pub Owns : String → Store → String → Type 0
Owns workspace s run_id =
    (run : Run) × (get s.runs run_id ≡ some run) × (run.workspace_id ≡ workspace)

-- The task is one of the workspace, or a run of the workspace has it.
abbrev pub OwnsTask : String → Store → String → Type 0
OwnsTask workspace s task_id =
    (get s.task_workspaces task_id ≡ some workspace)
    ⊎ ((id : String) × (run : Run) × (get s.runs id ≡ some run)
        × (run.workspace_id ≡ workspace)
        × (run.task_id ≡ task_id))

pub data Step (host : Host) (workspace : String) : Store → Store → Type 0 where
  draw_uuid : (s : Store) → Step host workspace s (record s { uuids_drawn = s.uuids_drawn + 1 })
  read_clock : (s : Store) → Step host workspace s (record s { times_read = s.times_read + 1 })
  remember :
      (s : Store) (request : Request) (entries : Dict IdempotencyEntry)
      → request.workspace_id ≡ workspace
      → ((k : String) → k ≢ entry_key request → get entries k ≡ get s.idempotency k)
      → Step host workspace s (record s { idempotency = entries })
  store_task :
      (s : Store) (task : Task) (i : ℕ)
      → task.id ≡ host.uuid i
      → i < s.uuids_drawn
      → Step host workspace s (record s {
        tasks = put s.tasks task.id task;
        task_workspaces = put s.task_workspaces task.id workspace;
      })
  create_run :
      (s : Store) (run : Run) (i : ℕ)
      → run.workspace_id ≡ workspace
      → OwnsTask workspace s run.task_id
      → run.state ≡ RunState.queued
      → run.version ≡ 0
      → run.id ≡ host.uuid i
      → i < s.uuids_drawn
      → get s.runs run.id ≡ none
      → count_values (is_active_in workspace) s.runs ≡ 0
      → run_schema host.formats run ≡ true
      → Step host workspace s (record s { runs = put s.runs run.id run })
  move_run :
      (s : Store) (old run : Run)
      → get s.runs run.id ≡ some old
      → old.workspace_id ≡ workspace
      → run.workspace_id ≡ workspace
      → Moves old run
      → run_schema host.formats run ≡ true
      → Step host workspace s (record s { runs = put s.runs run.id run })
  append :
      (s : Store) (run_id : String) (event : RunEvent)
      → Owns workspace s run_id
      → event.run_id ≡ run_id
      → event.sequence ≡ length (get_events run_id s) + 1
      → event_schema host.formats event ≡ true
      → Step host workspace s
          (record s { events = put s.events run_id (get_events run_id s ++ event ∷ []) })
  resolve :
      (s : Store) (id : String) (old approval : ApprovalRequest)
      → get s.approvals id ≡ some old
      → Owns workspace s old.run_id
      → approval.id ≡ old.id
      → old.status ≡ ApprovalStatus.pending
      → approval.run_id ≡ old.run_id
      → approval.version ≡ old.version + 1
      → Step host workspace s (record s { approvals = put s.approvals approval.id approval })
  add_validation :
      (s : Store) (result : ValidationResult)
      → Owns workspace s result.run_id
      → validation_schema host.formats result ≡ true
      → Step host workspace s (record s {
        validations =
            put s.validations result.run_id (get_validations result.run_id s ++ result ∷ []);
        evidence_versions =
            put s.evidence_versions result.run_id (get_evidence_version result.run_id s + 1);
      })
  add_evidence :
      (s : Store) (item : AcceptanceEvidence)
      → Owns workspace s item.run_id
      → evidence_schema host.formats item ≡ true
      → Step host workspace s (record s {
        evidence = put s.evidence item.run_id (get_evidence item.run_id s ++ item ∷ []);
        evidence_versions =
            put s.evidence_versions item.run_id (get_evidence_version item.run_id s + 1);
      })
  decide :
      (s : Store) (review : ReviewDecision)
      → Owns workspace s review.run_id
      → get s.reviews review.run_id ≡ none
      → (review.decision ≡ ReviewOutcome.approved → GateOpen s review.run_id)
      → review.evidence_snapshot_version ≡ get_evidence_version review.run_id s
      → Step host workspace s (record s { reviews = put s.reviews review.run_id review })
  publish :
      (s : Store) (publication : Publication) (review : ReviewDecision)
      → Owns workspace s publication.run_id
      → get s.reviews publication.run_id ≡ some review
      → review.decision ≡ ReviewOutcome.approved
      → Step host workspace s
          (record s { publications = put s.publications publication.run_id publication })

pub data Reach (host : Host) (workspace : String) (start : Store) : Store → Type 0 where
  here : Reach host workspace start start
  next :
      {s t : Store}
      → Reach host workspace start s
      → Step host workspace s t
      → Reach host workspace start t
