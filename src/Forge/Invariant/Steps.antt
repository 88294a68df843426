-- ===== src/Forge/Invariant/Steps.antt =====
-- Each step of a workspace keeps the store valid (packages/forge-application/src/store/in-memory-store.ts).
use cyclewarden.Prelude.{
  ℕ, ◌+◌, ◌≤◌, ◌<◌, ◌≡◌, sym, subst, true, false, none, some, [], ◌∷◌, ◌++◌, String, get, put,
  get-put, count_values, count_values-put_new, count_values-put_old, length, arith, str_iff, ◌==◌,
  string_eq, or_else, Bool-cases, inl, inr, ap,
}
use cyclewarden.Domain.Contracts.{
  Run, state_eq, RunEvent, ReviewDecision, ReviewOutcome, Publication,
}
use cyclewarden.Domain.Schemas.{run_schema}
use cyclewarden.Domain.RunLifecycle.{is_active_run_state}
use cyclewarden.Forge.Store.{Store, Host}
use cyclewarden.Forge.Queries.{is_active_in, get_events}
use cyclewarden.Forge.Steps.{
  Step, draw_uuid, create_run, move_run, append, decide, publish, Reach, here, next,
}
use cyclewarden.Forge.Invariant.Parts.{Numbered, Numbered-snoc, UniqueUuids, IsValid}

module _ (host : Host) (workspace : String) (unique : UniqueUuids host) where
  module _ (s : Store) (v : IsValid host s) where
    single_create :
        (run : Run) (w : String)
        → run.workspace_id ≡ workspace
        → get s.runs run.id ≡ none
        → count_values (is_active_in workspace) s.runs ≡ 0
        → count_values (is_active_in w) (put s.runs run.id run) ≤ 1
    single_create run w own absent quiet = elim (Bool-cases (workspace == w)) [
      | inl same ↦
          subst (λ x. count_values (is_active_in x) (put s.runs run.id run) ≤ 1)
            ((str_iff workspace w).0 same)
            (ground (arith, count_values-put_new (is_active_in workspace) s.runs run.id run absent))
      | inr other ↦
          let elsewhere : (run.workspace_id == w) ≡ false =
            subst (λ x. (x == w) ≡ false) (sym own) other in
          ground (arith, v.single w, count_values-put_new (is_active_in w) s.runs run.id run absent)
    ]

    single_move :
        (old run : Run) (w : String)
        → get s.runs run.id ≡ some old
        → old.workspace_id ≡ workspace
        → run.workspace_id ≡ workspace
        → is_active_run_state old.state ≡ true
        → count_values (is_active_in w) (put s.runs run.id run) ≤ 1
    single_move old run w stored own own' active =
        ground
          (arith, v.single w, count_values-put_old (is_active_in w) s.runs run.id run old stored)

    -- A run is saved, new or not.
    keyed_put :
        (run : Run) (k : String) (r : Run) → get (put s.runs run.id run) k ≡ some r → r.id ≡ k
    keyed_put run k r h = ground (arith, get-put s.runs run.id k run, str_iff run.id k, v.keyed k r)

    accepted_put :
        (run : Run) (k : String) (r : Run)
        → run_schema host.formats run ≡ true
        → get (put s.runs run.id run) k ≡ some r
        → run_schema host.formats r ≡ true
    accepted_put run k r good h = ground (arith, get-put s.runs run.id k run, v.accepted k r)

    fresh_create :
        (run : Run) (i j : ℕ)
        → run.id ≡ host.uuid i
        → i < s.uuids_drawn
        → s.uuids_drawn ≤ j
        → get (put s.runs run.id run) (host.uuid j) ≡ none
    fresh_create run i j e lt le = ground (
      arith,
      get-put s.runs run.id (host.uuid j) run,
      str_iff run.id (host.uuid j),
      v.fresh j,
      unique i j,
    )

    fresh_move :
        (old run : Run) (j : ℕ)
        → get s.runs run.id ≡ some old
        → s.uuids_drawn ≤ j
        → get (put s.runs run.id run) (host.uuid j) ≡ none
    fresh_move old run j stored le = ground (
      arith,
      get-put s.runs run.id (host.uuid j) run,
      str_iff run.id (host.uuid j),
      v.fresh j,
      ap (get s.runs) {x = run.id} {y = host.uuid j},
    )

    Numbered-append :
        (run_id : String) (e : RunEvent) (k : String)
        → e.run_id ≡ run_id
        → e.sequence ≡ length (get_events run_id s) + 1
        → Numbered k 1 (or_else (get (put s.events run_id (get_events run_id s ++ e ∷ [])) k) [])
    unfolding get_events
    Numbered-append run_id e k i q = elim (Bool-cases (run_id == k)) [
      | inl same ↦
          rw (get-put, same)
            (subst (λ j. Numbered j 1 (get_events run_id s ++ e ∷ [])) ((str_iff run_id k).0 same)
              (Numbered-snoc run_id 1 (get_events run_id s) e (v.numbered run_id) i (omega arith)))
      | inr other ↦ rw (get-put, other) (v.numbered k)
    ]

    reviewed_decide :
        (review : ReviewDecision) (k : String) (p : Publication)
        → get s.reviews review.run_id ≡ none
        → get s.publications k ≡ some p
        → (r : ReviewDecision) × (get (put s.reviews review.run_id review) k ≡ some r)
          × (r.decision ≡ ReviewOutcome.approved)
    reviewed_decide review k p absent h =
        let (r, is_r, approves) = v.reviewed k p h in
        (
          r,
          ground (
            arith,
            get-put s.reviews review.run_id k review,
            str_iff review.run_id k,
            ap (get s.reviews) {x = review.run_id} {y = k},
          ),
          approves,
        )

    reviewed_publish :
        (publication : Publication) (review : ReviewDecision) (k : String) (p : Publication)
        → get s.reviews publication.run_id ≡ some review
        → review.decision ≡ ReviewOutcome.approved
        → get (put s.publications publication.run_id publication) k ≡ some p
        → (r : ReviewDecision) × (get s.reviews k ≡ some r) × (r.decision ≡ ReviewOutcome.approved)
    reviewed_publish publication review k p is_review approves h =
        elim (Bool-cases (publication.run_id == k)) [
          | inl same ↦ (
            review,
            subst (λ j. get s.reviews j ≡ some review) ((str_iff publication.run_id k).0 same)
                is_review,
            approves,
          )
          | inr other ↦
              v.reviewed k p
                (ground (arith, get-put s.publications publication.run_id k publication))
        ]

  -- Each step keeps the invariant.
  pub Step-IsValid : {s t : Store} → Step host workspace s t → IsValid host s → IsValid host t
  unfolding get_events
  Step-IsValid (draw_uuid s) v = record {
    keyed = v.keyed;
    fresh = λ i h. v.fresh i (omega arith);
    accepted = v.accepted;
    single = v.single;
    numbered = v.numbered;
    reviewed = v.reviewed;
  }
  Step-IsValid (create_run s run i own owned queued new id drawn absent quiet good) v = record {
    keyed = keyed_put s v run;
    fresh = λ j h. fresh_create s v run i j id drawn h;
    accepted = λ k r. accepted_put s v run k r good;
    single = λ w. single_create s v run w own absent quiet;
    numbered = v.numbered;
    reviewed = v.reviewed;
  }
  Step-IsValid (move_run s old run stored own own' moves good) v = record {
    keyed = keyed_put s v run;
    fresh = λ j h. fresh_move s v old run j stored h;
    accepted = λ k r. accepted_put s v run k r good;
    single = λ w. single_move s v old run w stored own own' moves.was_active;
    numbered = v.numbered;
    reviewed = v.reviewed;
  }
  Step-IsValid (append s run_id event owned id sequence good) v = record {
    keyed = v.keyed;
    fresh = v.fresh;
    accepted = v.accepted;
    single = v.single;
    numbered = λ k. Numbered-append s v run_id event k id sequence;
    reviewed = v.reviewed;
  }
  Step-IsValid (decide s review owned absent gate version) v = record {
    keyed = v.keyed;
    fresh = v.fresh;
    accepted = v.accepted;
    single = v.single;
    numbered = v.numbered;
    reviewed = λ k p. reviewed_decide s v review k p absent;
  }
  Step-IsValid (publish s publication review owned is_review approves) v = record {
    keyed = v.keyed;
    fresh = v.fresh;
    accepted = v.accepted;
    single = v.single;
    numbered = v.numbered;
    reviewed = λ k p. reviewed_publish s v publication review k p is_review approves;
  }
  Step-IsValid _ v = record {
    keyed = v.keyed;
    fresh = v.fresh;
    accepted = v.accepted;
    single = v.single;
    numbered = v.numbered;
    reviewed = v.reviewed;
  }

  pub Reach-IsValid : {s t : Store} → IsValid host s → Reach host workspace s t → IsValid host t
  Reach-IsValid v here = v
  Reach-IsValid v (next r st) = Step-IsValid st (Reach-IsValid v r)
