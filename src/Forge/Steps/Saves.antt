-- ===== src/Forge/Steps/Saves.antt =====
-- Rules for the saves of approvals, reviews and publications.
use cyclewarden.Prelude.{
  ◌≡◌, refl, ◌∙◌, ◌<◌, ℕ, arith, some, true, none, get, put, Bool-cases, Option-cases, inl, inr,
}
use cyclewarden.Domain.Contracts.{Task, Run, ApprovalRequest, ReviewDecision, Publication}
use cyclewarden.Domain.Schemas.{
  Formats, parse_task, run_schema, approval_schema, review_schema, publication_schema,
}
use cyclewarden.Forge.Store.{Store, Host}
use cyclewarden.Domain.Errors.{Result, ok, throw}
use cyclewarden.Forge.Exec.{Exec, return, then_do, ◌>>=◌}
use cyclewarden.Forge.Methods.{save_task, save_run, save_approval, save_review, save_publication}
use cyclewarden.Forge.Steps.{Step, store_task, Reach, next}
use cyclewarden.Forge.Ensures.{Ensures, Fails}
use cyclewarden.Forge.Steps.Rules.{Keeps}
use cyclewarden.Prelude.{String}

-- The schema of a task keeps its identifier.
pub parse_task-id :
    (formats : Formats) (task parsed : Task)
    → parse_task formats task ≡ some parsed
    → parsed.id ≡ task.id
unfolding parse_task
parse_task-id formats task parsed h = ground arith

module _ (host : Host) (workspace : String) (start : Store) where
  module _ {B : Type 0} where
    pub keeps_save_approval :
        (approval : ApprovalRequest) (f : ApprovalRequest → Exec B) (s : Store)
        → Reach host workspace start s
        → Step host workspace s (record s { approvals = put s.approvals approval.id approval })
        → (Reach host workspace start
              (record s { approvals = put s.approvals approval.id approval })
            → Keeps host workspace start
                (f approval (record s { approvals = put s.approvals approval.id approval })))
        → Keeps host workspace start ((save_approval host approval >>= f) s)
    unfolding ◌>>=◌ save_approval
    keeps_save_approval a f s r st k = elim (Bool-cases (approval_schema host.formats a)) [
      | inl good ↦ rw good (k (next r st))
      | inr bad ↦ rw bad r
    ]

    -- A second review of the run is refused before anything is written.
    pub keeps_save_review :
        (review : ReviewDecision) (f : ReviewDecision → Exec B) (s : Store)
        → Reach host workspace start s
        → (get s.reviews review.run_id ≡ none
            → Step host workspace s (record s { reviews = put s.reviews review.run_id review }))
        → (Reach host workspace start (record s { reviews = put s.reviews review.run_id review })
            → Keeps host workspace start
                (f review (record s { reviews = put s.reviews review.run_id review })))
        → Keeps host workspace start ((save_review host review >>= f) s)
    unfolding ◌>>=◌ save_review
    keeps_save_review v f s r st k = elim (Bool-cases (review_schema host.formats v)) [
      | inl good ↦ elim (Option-cases (get s.reviews v.run_id)) [
        | inl absent ↦ rw (good, absent) (k (next r (st absent)))
        | inr (old, present) ↦ rw (good, present) r
      ]
      | inr bad ↦ rw bad r
    ]

    pub keeps_save_publication :
        (publication : Publication) (f : Publication → Exec B) (s : Store)
        → Reach host workspace start s
        → Step host workspace s
            (record s { publications = put s.publications publication.run_id publication })
        → (Reach host workspace start
              (record s { publications = put s.publications publication.run_id publication })
            → Keeps host workspace start (
                f publication
                  (record s { publications = put s.publications publication.run_id publication })))
        → Keeps host workspace start ((save_publication host publication >>= f) s)
    unfolding ◌>>=◌ save_publication
    keeps_save_publication p f s r st k = elim (Bool-cases (publication_schema host.formats p)) [
      | inl good ↦ rw good (k (next r st))
      | inr bad ↦ rw bad r
    ]

  pub keeps_save_task :
      (task : Task) (s : Store) (i : ℕ)
      → Reach host workspace start s
      → task.id ≡ host.uuid i
      → i < s.uuids_drawn
      → Keeps host workspace start (save_task host workspace task s)
  unfolding ◌>>=◌ save_task
  keeps_save_task task s i r id drawn = elim (Option-cases (parse_task host.formats task)) [
    | inl bad ↦ rw bad r
    | inr (parsed, good) ↦
        rw good
          (next r (store_task s parsed i (parse_task-id host.formats task parsed good ∙ id) drawn))
  ]

  -- The save of a run as the last thing that is done.
  pub keeps_save_run_last :
      (run : Run) (s : Store)
      → Reach host workspace start s
      → (run_schema host.formats run ≡ true
          → Step host workspace s (record s { runs = put s.runs run.id run }))
      → Ensures
          (Fails (Reach host workspace start))
          (λ saved t. Reach host workspace start t × (saved ≡ run))
          (save_run host run s)
  unfolding ◌>>=◌ save_run
  keeps_save_run_last run s r st = elim (Bool-cases (run_schema host.formats run)) [
    | inl good ↦ rw good (next r (st good), refl)
    | inr bad ↦ rw bad r
  ]

  pub keeps_return :
      {A B : Type 0} (a : A) (f : A → Exec B) (s : Store)
      → Keeps host workspace start (f a s)
      → Keeps host workspace start ((return a >>= f) s)
  unfolding ◌>>=◌
  keeps_return a f s k = k

  module _ {A B C : Type 0} where
    assoc_case :
        (r : Result A × Store) (g : A → Exec B) (f : B → Exec C)
        → Keeps host workspace start (then_do r (λ a s. then_do (g a s) f))
        → Keeps host workspace start (then_do (then_do r g) f)
    assoc_case (ok a, s) g f k = k
    assoc_case (throw e, s) g f k = k

    -- A sequence inside a sequence, one after the other.
    pub keeps_assoc :
        (m : Exec A) (g : A → Exec B) (f : B → Exec C) (s : Store)
        → Keeps host workspace start ((m >>= (λ a. g a >>= f)) s)
        → Keeps host workspace start (((m >>= g) >>= f) s)
    unfolding ◌>>=◌
    keeps_assoc m g f s k = assoc_case (m s) g f k
