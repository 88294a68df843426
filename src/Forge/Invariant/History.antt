-- ===== src/Forge/Invariant/History.antt =====
-- Runs, reviews and events from a store to a later one (packages/forge-application/src/store).
use mathlib.Core.List.{append-nil}
use cyclewarden.Prelude.{
  ◌≡◌, ◌≢◌, ◌⊎◌, sym, ap, true, false, none, some, List, [], ◌∷◌, ◌++◌, String, get, put, get-put,
  arith, str_iff, ◌==◌, string_eq, or_else, Bool-cases, inl, inr,
}
use cyclewarden.Domain.Contracts.{Run, RunEvent, ReviewDecision}
use cyclewarden.Domain.RunLifecycle.{is_active_run_state}
use cyclewarden.Forge.Store.{Store, Host}
use cyclewarden.Forge.Queries.{get_events}
use cyclewarden.Forge.Steps.{Step, create_run, move_run, append, decide}

-- A run that has ended, or that belongs to another workspace.
abbrev pub IsClosedTo : String → Run → Type 0
IsClosedTo workspace r = (r.workspace_id ≢ workspace) ⊎ (is_active_run_state r.state ≡ false)

-- From a store to a later one: runs closed to the workspace stand unchanged, and so do reviews; the
-- events of a run are only added to.
pub record Extends (workspace : String) (s t : Store) : Type 0 where
  pub closed_runs :
      (k : String) (r : Run)
      → IsClosedTo workspace r
      → get s.runs k ≡ some r
      → get t.runs k ≡ some r
  pub reviews :
      (k : String) (r : ReviewDecision) → get s.reviews k ≡ some r → get t.reviews k ≡ some r
  pub events : (k : String) → (later : List RunEvent) × (get_events k t ≡ get_events k s ++ later)

module _ (host : Host) (workspace : String) where
  closed_create :
      (s : Store) (run : Run) (k : String) (r : Run)
      → get s.runs run.id ≡ none
      → get s.runs k ≡ some r
      → get (put s.runs run.id run) k ≡ some r
  closed_create s run k r absent h =
      ground
        (arith, get-put s.runs run.id k run, str_iff run.id k, ap (get s.runs) {x = run.id} {y = k})

  closed_move :
      (s : Store) (old run : Run) (k : String) (r : Run)
      → get s.runs run.id ≡ some old
      → old.workspace_id ≡ workspace
      → is_active_run_state old.state ≡ true
      → IsClosedTo workspace r
      → get s.runs k ≡ some r
      → get (put s.runs run.id run) k ≡ some r
  closed_move s old run k r stored own active closed h = elim (Bool-cases (run.id == k)) [
    | inl same ↦
        let one : old ≡ r = cc (ap (get s.runs) ((str_iff run.id k).0 same)) in
        absurd (ground arith)
    | inr other ↦ ground (arith, get-put s.runs run.id k run)
  ]

  review_kept :
      (s : Store) (review : ReviewDecision) (k : String) (r : ReviewDecision)
      → get s.reviews review.run_id ≡ none
      → get s.reviews k ≡ some r
      → get (put s.reviews review.run_id review) k ≡ some r
  review_kept s review k r absent h = ground (
    arith,
    get-put s.reviews review.run_id k review,
    str_iff review.run_id k,
    ap (get s.reviews) {x = review.run_id} {y = k},
  )

  events_grow :
      (s : Store) (run_id : String) (e : RunEvent) (k : String)
      → (later : List RunEvent) × (or_else
            (get (put s.events run_id (get_events run_id s ++ e ∷ [])) k)
            []
          ≡ get_events k s ++ later)
  unfolding get_events
  events_grow s run_id e k = elim (Bool-cases (run_id == k)) [
    | inl same ↦ (
      e ∷ [],
      rw (get-put, same) (ap (λ j. get_events j s ++ e ∷ []) ((str_iff run_id k).0 same)),
    )
    | inr other ↦ ([], rw (get-put, other) (sym (append-nil _)))
  ]

  same_events :
      (s : Store) (k : String)
      → (later : List RunEvent) × (get_events k s ≡ get_events k s ++ later)
  same_events s k = ([], sym (append-nil _))

  pub Step-Extends : {s t : Store} → Step host workspace s t → Extends workspace s t
  unfolding get_events
  Step-Extends (create_run s run i own owned queued new id drawn absent quiet good) = record {
    closed_runs = λ k r c h. closed_create s run k r absent h;
    reviews = λ k r h. h;
    events = same_events s;
  }
  Step-Extends (move_run s old run stored own own' moves good) = record {
    closed_runs = λ k r c h. closed_move s old run k r stored own moves.was_active c h;
    reviews = λ k r h. h;
    events = same_events s;
  }
  Step-Extends (append s run_id event owned id sequence good) = record {
    closed_runs = λ k r c h. h;
    reviews = λ k r h. h;
    events = events_grow s run_id event;
  }
  Step-Extends (decide s review owned absent gate version) = record {
    closed_runs = λ k r c h. h;
    reviews = λ k r h. review_kept s review k r absent h;
    events = same_events s;
  }
  Step-Extends {s} _ = record {
    closed_runs = λ k r c h. h;
    reviews = λ k r h. h;
    events = same_events s;
  }
