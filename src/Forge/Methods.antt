-- ===== src/Forge/Methods.antt =====
-- The methods of `InMemoryForgeStore` (packages/forge-application/src/store/in-memory-store.ts).
use cyclewarden.Prelude.{
  ◌+◌, not, Option, none, some, [], ◌∷◌, ◌++◌, String, ◌!=◌, string_eq, or_else, is_some, length,
  get, put, remove, Json, if◌then◌else◌, ◌++ₛ◌,
}
use cyclewarden.Domain.Contracts.{
  Task, Run, RunEvent, ActorType, system, ApprovalRequest, ValidationResult, AcceptanceEvidence,
  ReviewDecision, Publication,
}
use cyclewarden.Domain.Schemas.{
  parse_task, run_schema, event_schema, approval_schema, validation_schema, evidence_schema,
  review_schema, publication_schema,
}
use cyclewarden.Domain.Errors.{
  Result, ok, throw, schema_error, idempotency_conflict, still_pending, review_already_resolved,
}
use cyclewarden.Forge.Serialize.{stable_serialize}
use cyclewarden.Forge.Store.{Store, Host, Outcome, IdempotencyEntry}
use cyclewarden.Forge.Exec.{Exec, return, fail, gets, modify, throw_if, ◌>>=◌, ◌>>◌}
use cyclewarden.Forge.Queries.{
  found, get_events, get_validations, get_evidence, get_evidence_version,
}

-- The value of an entry, or the error that its absence throws.

bump_evidence_version : String → Store → Store
unfolding get_evidence_version
bump_evidence_version run_id s = record s {
  evidence_versions = put s.evidence_versions run_id (get_evidence_version run_id s + 1);
}

-- A command's arguments to `executeIdempotent`.
pub record Request : Type 0 where
  pub workspace_id : String
  pub operation : String
  pub idempotency_key : String
  pub body : Json

abbrev pub entry_key : Request → String
entry_key r = r.workspace_id ++ₛ ":" ++ₛ r.operation ++ₛ ":" ++ₛ r.idempotency_key

-- What an event is made of, before it has an identifier, a sequence number and a time.
pub record EventInput : Type 0 where
  pub run_id : String
  pub type : String
  pub payload : Json
  pub actor_type : Option ActorType
  pub actor_id : Option String
  pub correlation_id : Option String

module _ (host : Host) where
  open host use {uuid, now, sha256, locale_le, formats}

  -- `randomUUID()`
  unfoldable pub random_uuid : Exec String
  random_uuid s = (ok (uuid s.uuids_drawn), record s { uuids_drawn = s.uuids_drawn + 1 })

  -- `new Date().toISOString()`
  unfoldable pub current_time : Exec String
  current_time s = (ok (now s.times_read), record s { times_read = s.times_read + 1 })

  unfoldable pub save_task : String → Task → Exec Task
  save_task workspace_id task = do
    parsed ← found schema_error (parse_task formats task)
    modify λ s. record s {
      tasks = put s.tasks parsed.id parsed;
      task_workspaces = put s.task_workspaces parsed.id workspace_id;
    }
    return parsed

  unfoldable pub save_run : Run → Exec Run
  save_run run = do
    throw_if (not (run_schema formats run)) schema_error
    modify (λ s. record s { runs = put s.runs run.id run })
    return run

  unfoldable pub append_event : EventInput → Exec RunEvent
  unfolding random_uuid current_time get_events
  append_event input = do
    current ← gets (get_events input.run_id)
    id ← random_uuid
    created ← current_time
    let event : RunEvent = record {
      id = id;
      run_id = input.run_id;
      sequence = length current + 1;
      type = input.type;
      actor_type = or_else input.actor_type system;
      actor_id = input.actor_id;
      correlation_id = input.correlation_id;
      payload = input.payload;
      schema_version = 1;
      created_at = created;
    }
    throw_if (not (event_schema formats event)) schema_error
    modify (λ s. record s { events = put s.events input.run_id (current ++ event ∷ []) })
    return event

  unfoldable pub save_approval : ApprovalRequest → Exec ApprovalRequest
  save_approval approval = do
    throw_if (not (approval_schema formats approval)) schema_error
    modify (λ s. record s { approvals = put s.approvals approval.id approval })
    return approval

  unfoldable pub save_validation : ValidationResult → Exec ValidationResult
  unfolding bump_evidence_version get_validations
  save_validation result = do
    throw_if (not (validation_schema formats result)) schema_error
    modify λ s. record s {
      validations =
          put s.validations result.run_id (get_validations result.run_id s ++ result ∷ []);
    }
    modify (bump_evidence_version result.run_id)
    return result

  unfoldable pub save_evidence : AcceptanceEvidence → Exec AcceptanceEvidence
  unfolding bump_evidence_version get_evidence
  save_evidence item = do
    throw_if (not (evidence_schema formats item)) schema_error
    modify λ s. record s {
      evidence = put s.evidence item.run_id (get_evidence item.run_id s ++ item ∷ []);
    }
    modify (bump_evidence_version item.run_id)
    return item

  unfoldable pub save_review : ReviewDecision → Exec ReviewDecision
  save_review review = do
    throw_if (not (review_schema formats review)) schema_error
    existing ← gets (λ s. get s.reviews review.run_id)
    throw_if (is_some existing) (review_already_resolved review.run_id)
    modify (λ s. record s { reviews = put s.reviews review.run_id review })
    return review

  unfoldable pub save_publication : Publication → Exec Publication
  save_publication publication = do
    throw_if (not (publication_schema formats publication)) schema_error
    modify (λ s. record s { publications = put s.publications publication.run_id publication })
    return publication

  unfoldable pub request_hash : Json → String
  request_hash value = sha256 (stable_serialize locale_le value)

  unfoldable pub set_entry : String → String → Option Outcome → Store → Store
  set_entry key hash result s = record s {
    idempotency = put s.idempotency key (record { request_hash = hash; result = result });
  }

  -- The promise settles: its value stays in the entry, and a failure takes the entry away.
  unfoldable pub settle : String → String → Result Outcome × Store → Result Outcome × Store
  unfolding set_entry
  settle key hash (ok outcome, s) = (ok outcome, set_entry key hash (some outcome) s)
  settle key hash (throw e, s) = (throw e, record s { idempotency = remove s.idempotency key })

  -- A call that finds an entry.
  unfoldable pub replay : String → IdempotencyEntry → Exec Outcome
  replay hash existing =
      if existing.request_hash != hash
      then fail idempotency_conflict
      else found still_pending existing.result

  unfoldable pub start_or_replay :
      String → String → Exec Outcome → Option IdempotencyEntry → Exec Outcome
  unfolding settle replay
  start_or_replay key hash execute none s = settle key hash (execute (set_entry key hash none s))
  start_or_replay key hash execute (some existing) s = replay hash existing s

  unfoldable pub execute_idempotent : Request → Exec Outcome → Exec Outcome
  unfolding start_or_replay
  execute_idempotent request execute s =
      start_or_replay (entry_key request) (request_hash request.body) execute
        (get s.idempotency (entry_key request)) s
