-- ===== src/Forge/Approving/Published.antt =====
-- What the publication of a run that is ready for it comes to
-- (packages/forge-application/src/publications/publish-run.ts).
use cyclewarden.Prelude.{
  ◌+◌, ◌≡◌, refl, some, String, get, get-put_self, str_iff, subst, arith, ◌⊎◌, inl, inr,
}
use cyclewarden.Domain.Contracts.{Run, RunState, ReviewOutcome, RunLifecycleSnapshot, Publication}
use cyclewarden.Domain.RunLifecycle.{transition_run, can_transition}
use cyclewarden.Domain.Errors.{ForgeError, ok, throw, schema_error}
use cyclewarden.Forge.Store.{Store, Host, Outcome}
use cyclewarden.Forge.Queries.{get_run}
use cyclewarden.Forge.Commands.PublishRun.{
  PublishRunInput, SourceProvider, SourceChangeRequestInput, SourceChangeRequestResult,
  begin_publication, finish_publication, publish_run_body,
}
use cyclewarden.Forge.Approving.Ready.{IsReady}
use cyclewarden.Forge.Ensures.{
  Ensures, Ensures-bind, Ensures-ok, Ensures-some, Ensures-gets, Ensures-result, Ensures-throw_if,
}
use cyclewarden.Forge.Ensures.Methods.{
  Ensures-random_uuid, Ensures-current_time, Ensures-save_run, Ensures-save_publication,
  Ensures-append_event,
}

-- A schema refuses what is to be stored, or the source provider fails by the error.
abbrev pub FailsBy : SourceProvider → ForgeError → Store → Type 0
FailsBy provider e t =
    (e ≡ schema_error) ⊎ ((request : SourceChangeRequestInput) × (provider request ≡ throw e))

-- The publication is stored, and its run is completed as an approved one.
abbrev pub IsPublished : String → Outcome → Store → Type 0
IsPublished run_id outcome t =
    ((publication : Publication) × (outcome ≡ Outcome.publication publication)
      × (get t.publications run_id ≡ some publication))
    × ((run : Run) × (get t.runs run_id ≡ some run)
        × (run.state ≡ RunState.completed)
        × (run.review_outcome ≡ some ReviewOutcome.approved))

moved : RunLifecycleSnapshot → RunState → RunLifecycleSnapshot
moved old state = record old { state = state; version = old.version + 1 }

may_publish :
    (old : RunLifecycleSnapshot)
    → old.state ≡ RunState.awaiting_review
    → transition_run old RunState.publishing ≡ ok (moved old RunState.publishing)
unfolding transition_run can_transition moved
may_publish old h = ground arith

may_complete :
    (old : RunLifecycleSnapshot)
    → old.state ≡ RunState.publishing
    → transition_run old RunState.completed ≡ ok (moved old RunState.completed)
unfolding transition_run can_transition moved
may_complete old h = ground arith

module _ (host : Host) (E : ForgeError → Store → Type 0)
    (refused : (t : Store) → E schema_error t) where
  -- The part after the provider's answer, which fails only by a schema.
  pub finish-Ensures :
      (run : Run) (result : SourceChangeRequestResult) (s : Store)
      → run.state ≡ RunState.publishing
      → Ensures E (IsPublished run.id) (finish_publication host run result s)
  unfolding finish_publication moved
  finish-Ensures run result s publishing = Ensures-current_time E host (IsPublished run.id) _ s (
      Ensures-random_uuid E host (IsPublished run.id) _ _ (
        Ensures-throw_if E (IsPublished run.id) _ _ _ _ (λ _. refused _)
          λ valid. Ensures-save_publication E host (IsPublished run.id) _ _ _ (refused _) (
            Ensures-ok E (IsPublished run.id) _ _ _ (moved run.lifecycle RunState.completed)
              (may_complete run.lifecycle publishing)
              (Ensures-save_run E host (IsPublished run.id) _ _ _ (refused _) (
                Ensures-append_event E host (IsPublished run.id) _ _ _ (refused _) (
                  (_, refl, get-put_self s.publications run.id _),
                  (_, get-put_self s.runs run.id _, refl, refl),
                ))))))

module _ (host : Host) (provider : SourceProvider) where
  module _ (input : PublishRunInput) (run : Run) (s : Store) where
    abbrev Begun : Run → Store → Type 0
    Begun r t = (r.id ≡ run.id) × (r.state ≡ RunState.publishing)

    -- A run that is ready gets to the request of the source provider.
    begin-Ensures :
        IsReady input.workspace_id input.run_id run s
        → Ensures (FailsBy provider) Begun (begin_publication host input s)
    unfolding begin_publication get_run moved
    begin-Ensures (stored, own, waits, eligible) =
        Ensures-some (FailsBy provider) Begun _ _ _ s run stored (
          Ensures-throw_if (FailsBy provider) Begun _ _ _ s
            (λ other. absurd (ground (arith, str_iff run.workspace_id input.workspace_id)))
            λ _. Ensures-gets (FailsBy provider) Begun _ _ s (
              Ensures-gets (FailsBy provider) Begun _ _ s (
                Ensures-gets (FailsBy provider) Begun _ _ s (
                  Ensures-gets (FailsBy provider) Begun _ _ s (
                    Ensures-throw_if (FailsBy provider) Begun _ _ _ s
                      (λ blocked. absurd (ground arith))
                      λ _.
                        Ensures-ok (FailsBy provider) Begun _ _ s
                          (moved run.lifecycle RunState.publishing)
                          (may_publish run.lifecycle waits)
                          (Ensures-current_time (FailsBy provider) host Begun _ s (
                            Ensures-save_run (FailsBy provider) host Begun _ _ _ (inl refl) (
                              Ensures-append_event (FailsBy provider) host Begun _ _ _ (inl refl)
                                (refl, refl)))))))))

    -- It is published, unless a schema refuses what is to be stored or the source provider fails.
    pub publication-Ensures :
        IsReady input.workspace_id input.run_id run s
        → Ensures (FailsBy provider) (IsPublished run.id) (publish_run_body host provider input s)
    unfolding publish_run_body
    publication-Ensures ready =
        Ensures-bind (FailsBy provider) Begun (IsPublished run.id) _ _ s (begin-Ensures ready)
          λ r t (same, publishing).
            Ensures-result (FailsBy provider) (IsPublished run.id) _ _ t
              (λ e failed. inr (_, failed))
              λ result answered.
                subst
                  (λ id.
                    Ensures (FailsBy provider) (IsPublished id)
                      (finish_publication host r result t))
                  same
                  (finish-Ensures host (FailsBy provider) (λ _. inl refl) r result t publishing)
