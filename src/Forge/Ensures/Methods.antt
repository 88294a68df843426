-- ===== src/Forge/Ensures/Methods.antt =====
-- The rules for the methods of the store: what each leaves, and how it may fail
-- (packages/forge-application/src/store/in-memory-store.ts).
use cyclewarden.Prelude.{
  ◌+◌, String, get, put, Bool-cases, Option-cases, inl, inr, length, or_else, [], ◌∷◌, ◌++◌,
}
use cyclewarden.Domain.Contracts.{
  Run, RunEvent, ReviewDecision, Publication, ApprovalRequest, system,
}
use cyclewarden.Domain.Schemas.{
  run_schema, event_schema, review_schema, publication_schema, approval_schema,
}
use cyclewarden.Domain.Errors.{ForgeError, schema_error, review_already_resolved}
use cyclewarden.Forge.Store.{Store, Host}
use cyclewarden.Forge.Exec.{Exec, ◌>>=◌}
use cyclewarden.Forge.Queries.{get_events}
use cyclewarden.Forge.Methods.{
  random_uuid, current_time, save_run, save_review, save_publication, save_approval, append_event,
  EventInput,
}
use cyclewarden.Forge.Ensures.{Ensures}

module _ (host : Host) where
  -- The event that `append_event` makes at a store.
  abbrev pub event_at : EventInput → Store → RunEvent
  event_at input s = record {
    id = host.uuid s.uuids_drawn;
    run_id = input.run_id;
    sequence = length (get_events input.run_id s) + 1;
    type = input.type;
    actor_type = or_else input.actor_type system;
    actor_id = input.actor_id;
    correlation_id = input.correlation_id;
    payload = input.payload;
    schema_version = 1;
    created_at = host.now s.times_read;
  }

  -- The store after it, where the schema accepts the event.
  abbrev pub appended : EventInput → Store → Store
  appended input s = record s {
    events = put s.events input.run_id (get_events input.run_id s ++ event_at input s ∷ []);
    uuids_drawn = s.uuids_drawn + 1;
    times_read = s.times_read + 1;
  }

module _ (E : ForgeError → Store → Type 0) where
  module _ (host : Host) {B : Type 0} (P : B → Store → Type 0) where
    pub Ensures-random_uuid :
        (f : String → Exec B) (s : Store)
        → Ensures E P (f (host.uuid s.uuids_drawn) (record s { uuids_drawn = s.uuids_drawn + 1 }))
        → Ensures E P ((random_uuid host >>= f) s)
    unfolding ◌>>=◌ random_uuid
    Ensures-random_uuid f s k = k

    pub Ensures-current_time :
        (f : String → Exec B) (s : Store)
        → Ensures E P (f (host.now s.times_read) (record s { times_read = s.times_read + 1 }))
        → Ensures E P ((current_time host >>= f) s)
    unfolding ◌>>=◌ current_time
    Ensures-current_time f s k = k

    -- The saves fail by the schema, and a second review of a run by the first one.
    pub Ensures-save_run :
        (run : Run) (f : Run → Exec B) (s : Store)
        → E schema_error s
        → Ensures E P (f run (record s { runs = put s.runs run.id run }))
        → Ensures E P ((save_run host run >>= f) s)
    unfolding ◌>>=◌ save_run
    Ensures-save_run run f s refused k = elim (Bool-cases (run_schema host.formats run)) [
      | inl good ↦ rw good k
      | inr bad ↦ rw bad refused
    ]

    pub Ensures-save_publication :
        (publication : Publication) (f : Publication → Exec B) (s : Store)
        → E schema_error s
        → Ensures E P (
            f publication
              (record s { publications = put s.publications publication.run_id publication }))
        → Ensures E P ((save_publication host publication >>= f) s)
    unfolding ◌>>=◌ save_publication
    Ensures-save_publication p f s refused k =
        elim (Bool-cases (publication_schema host.formats p)) [
          | inl good ↦ rw good k
          | inr bad ↦ rw bad refused
        ]

    pub Ensures-save_review :
        (review : ReviewDecision) (f : ReviewDecision → Exec B) (s : Store)
        → E schema_error s
        → E (review_already_resolved review.run_id) s
        → Ensures E P (f review (record s { reviews = put s.reviews review.run_id review }))
        → Ensures E P ((save_review host review >>= f) s)
    unfolding ◌>>=◌ save_review
    Ensures-save_review v f s refused again k = elim (Bool-cases (review_schema host.formats v)) [
      | inl good ↦ elim (Option-cases (get s.reviews v.run_id)) [
        | inl absent ↦ rw (good, absent) k
        | inr (old, present) ↦ rw (good, present) again
      ]
      | inr bad ↦ rw bad refused
    ]

    pub Ensures-append_event :
        (input : EventInput) (f : RunEvent → Exec B) (s : Store)
        → E schema_error
            (record s { uuids_drawn = s.uuids_drawn + 1; times_read = s.times_read + 1 })
        → Ensures E P (f (event_at host input s) (appended host input s))
        → Ensures E P ((append_event host input >>= f) s)
    unfolding ◌>>=◌ append_event
    Ensures-append_event input f s refused k =
        elim (Bool-cases (event_schema host.formats (event_at host input s))) [
          | inl good ↦ rw good k
          | inr bad ↦ rw bad refused
        ]

    pub Ensures-save_approval :
        (approval : ApprovalRequest) (f : ApprovalRequest → Exec B) (s : Store)
        → E schema_error s
        → Ensures E P (f approval (record s { approvals = put s.approvals approval.id approval }))
        → Ensures E P ((save_approval host approval >>= f) s)
    unfolding ◌>>=◌ save_approval
    Ensures-save_approval a f s refused k = elim (Bool-cases (approval_schema host.formats a)) [
      | inl good ↦ rw good k
      | inr bad ↦ rw bad refused
    ]

  -- A save of a run at the end.
  pub Ensures-save_run_last :
      (host : Host) (P : Run → Store → Type 0) (run : Run) (s : Store)
      → E schema_error s
      → P run (record s { runs = put s.runs run.id run })
      → Ensures E P (save_run host run s)
  unfolding save_run ◌>>=◌
  Ensures-save_run_last host P run s refused k = elim (Bool-cases (run_schema host.formats run)) [
    | inl good ↦ rw good k
    | inr bad ↦ rw bad refused
  ]
