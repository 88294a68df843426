-- ===== src/Forge/Invariant/Isolation.antt =====
-- What requests leave as it is (the commands of packages/forge-application/src).
use mathlib.Core.List.{append-nil, append_assoc}
use cyclewarden.Prelude.{◌≡◌, sym, ap, ◌∙◌, some, List, [], ◌∷◌, ◌++◌, String, get, All}
use cyclewarden.Domain.Contracts.{Run, RunEvent, ReviewDecision}
use cyclewarden.Forge.Store.{Store, Host}
use cyclewarden.Forge.Queries.{get_events}
use cyclewarden.Forge.Commands.Authorizer.{WorkspaceAuthorizer}
use cyclewarden.Forge.Service.{Command, workspace_of, handle, serve}
use cyclewarden.Forge.Steps.{Reach, here, next}
use cyclewarden.Forge.Refinement.Commands.{handle-Reach}
use cyclewarden.Forge.Invariant.Parts.{UniqueUuids, IsValid}
use cyclewarden.Forge.Invariant.Steps.{Reach-IsValid}
use cyclewarden.Forge.Invariant.Preserved.{IsValid-IsCoherent}
use cyclewarden.Forge.Invariant.History.{IsClosedTo, Extends, Step-Extends}

module _ (workspace : String) where
  Extends-refl : (s : Store) → Extends workspace s s
  Extends-refl s = record {
    closed_runs = λ k r c h. h;
    reviews = λ k r h. h;
    events = λ k. ([], sym (append-nil _));
  }

  Extends-trans :
      (s t u : Store) → Extends workspace s t → Extends workspace t u → Extends workspace s u
  Extends-trans s t u a b = record {
    closed_runs = λ k r c h. b.closed_runs k r c (a.closed_runs k r c h);
    reviews = λ k r h. b.reviews k r (a.reviews k r h);
    events = λ k.
        let (xs, p) = a.events k in
        let (ys, q) = b.events k in
        (xs ++ ys, q ∙ ap (λ es. es ++ ys) p ∙ append_assoc (get_events k s) xs ys);
  }

  Reach-Extends : {host : Host} {s t : Store} → Reach host workspace s t → Extends workspace s t
  Reach-Extends {s} here = Extends-refl s
  Reach-Extends {host} {s} (next {s = m} {t = t} r st) =
      Extends-trans s m t (Reach-Extends r) (Step-Extends host workspace st)

module _ (host : Host) (authorizer : WorkspaceAuthorizer) where
  -- A command, whether it succeeds or fails, leaves every run of another workspace and every ended run
  -- as it was, changes no review, and only adds to the events of a run.
  pub handle-Extends :
      (c : Command) (s : Store)
      → IsValid host s
      → Extends (workspace_of c) s (handle host authorizer c s)
  handle-Extends c s v =
      Reach-Extends (workspace_of c)
        (handle-Reach host authorizer c s (IsValid-IsCoherent host s v))

  -- Requests that reach from one store to another, each of them from a valid store.
  pub handle-IsValid :
      UniqueUuids host
      → (c : Command) (s : Store) → IsValid host s
      → IsValid host (handle host authorizer c s)
  handle-IsValid unique c s v =
      Reach-IsValid host (workspace_of c) unique v
        (handle-Reach host authorizer c s (IsValid-IsCoherent host s v))

  -- Requests leave a run as it is stored when it has ended, or when it belongs to none of the
  -- workspaces in whose names they act.
  pub closed_runs_kept :
      (unique : UniqueUuids host) (cs : List Command) (s : Store) (k : String) (r : Run)
      → IsValid host s
      → All (λ c. IsClosedTo (workspace_of c) r) cs
      → get s.runs k ≡ some r
      → get (serve host authorizer cs s).runs k ≡ some r
  unfolding serve
  closed_runs_kept unique [] s k r v closed h = h
  closed_runs_kept unique (c ∷ cs) s k r v closed h =
      closed_runs_kept unique cs (handle host authorizer c s) k r (handle-IsValid unique c s v)
        closed.1 ((handle-Extends c s v).closed_runs k r closed.0 h)

  -- A review that has been decided stands as it was decided, whatever is requested later.
  pub reviews_kept :
      (unique : UniqueUuids host) (cs : List Command) (s : Store) (k : String) (r : ReviewDecision)
      → IsValid host s
      → get s.reviews k ≡ some r
      → get (serve host authorizer cs s).reviews k ≡ some r
  unfolding serve
  reviews_kept unique [] s k r v h = h
  reviews_kept unique (c ∷ cs) s k r v h =
      reviews_kept unique cs (handle host authorizer c s) k r (handle-IsValid unique c s v)
        ((handle-Extends c s v).reviews k r h)

  -- The events of a run are only added to: after any requests, they continue what they were
  -- before.
  pub events_kept :
      (unique : UniqueUuids host) (cs : List Command) (s : Store) (k : String)
      → IsValid host s
      → (later : List RunEvent) × (get_events k (serve host authorizer cs s)
          ≡ get_events k s ++ later)
  unfolding serve
  events_kept unique [] s k v = ([], sym (append-nil _))
  events_kept unique (c ∷ cs) s k v =
      let (xs, p) = (handle-Extends c s v).events k in
      let (ys, q) =
        events_kept unique cs (handle host authorizer c s) k (handle-IsValid unique c s v) in
      (xs ++ ys, q ∙ ap (λ es. es ++ ys) p ∙ append_assoc (get_events k s) xs ys)
