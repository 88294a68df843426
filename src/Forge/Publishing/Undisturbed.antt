-- ===== src/Forge/Publishing/Undisturbed.antt =====
-- A publication while the source provider is asked, and other requests are served meanwhile
-- (packages/forge-application/src/publications/publish-run.ts).
use cyclewarden.Prelude.{◌≡◌, refl, some, List, get, get-put_self, string_eq}
use cyclewarden.Domain.Contracts.{Run, RunState}
use cyclewarden.Domain.Errors.{ForgeError, Result, ok, schema_error}
use cyclewarden.Forge.Store.{Store, Host}
use cyclewarden.Forge.Exec.{return, ◌>>=◌}
use cyclewarden.Forge.Queries.{get_run}
use cyclewarden.Forge.Commands.Authorizer.{WorkspaceAuthorizer}
use cyclewarden.Forge.Commands.PublishRun.{
  PublishRunInput, SourceChangeRequestResult, begin_publication, finish_publication,
}
use cyclewarden.Forge.Service.{Command, serve}
use cyclewarden.Forge.Steps.{Reach}
use cyclewarden.Forge.Steps.Rules.{Keeps}
use cyclewarden.Forge.Refinement.Coherence.{IsCoherent, transition_same}
use cyclewarden.Forge.Refinement.PublishRun.{begin_publication_keeps}
use cyclewarden.Forge.Invariant.Parts.{UniqueUuids, IsValid}
use cyclewarden.Forge.Invariant.Steps.{Reach-IsValid}
use cyclewarden.Forge.Invariant.Preserved.{IsValid-IsCoherent, serve-IsValid}
use cyclewarden.Forge.Ensures.{
  Ensures, Ensures-found, Ensures-gets, Ensures-result, Ensures-throw_if,
}
use cyclewarden.Forge.Ensures.Methods.{Ensures-current_time, Ensures-save_run, Ensures-append_event}
use cyclewarden.Forge.Approving.Ready.{Any}
use cyclewarden.Forge.Approving.Published.{IsPublished, finish-Ensures}
use cyclewarden.Forge.Publishing.Requests.{serve-Stands}

-- Only a schema has refused what was to be stored.
abbrev pub BySchema : ForgeError → Store → Type 0
BySchema e t = e ≡ schema_error

-- The run is stored as being published.
abbrev Marked : Run → Store → Type 0
Marked q t = (get t.runs q.id ≡ some q) × (q.state ≡ RunState.publishing)

module _ (host : Host) (input : PublishRunInput) (s : Store) where
  begin-Marked : Ensures Any Marked (begin_publication host input s)
  unfolding begin_publication get_run
  begin-Marked =
      Ensures-found Any Marked _ _ _ s (λ _. tt)
        λ run found.
          Ensures-throw_if Any Marked _ _ _ s (λ _. tt)
            λ own. Ensures-gets Any Marked _ _ s (
              Ensures-gets Any Marked _ _ s (
                Ensures-gets Any Marked _ _ s (
                  Ensures-gets Any Marked _ _ s (
                    Ensures-throw_if Any Marked _ _ _ s (λ _. tt)
                      λ gate.
                        Ensures-result Any Marked _ _ s (λ e h. tt)
                          λ lifecycle moved. Ensures-current_time Any host Marked _ s (
                            Ensures-save_run Any host Marked _ _ _ tt (
                              Ensures-append_event Any host Marked _ _ _ tt (
                                get-put_self s.runs lifecycle.id _,
                                (transition_same _ _ lifecycle moved).2,
                              )))))))

  begin-Reach :
      (run : Run) (t : Store)
      → IsCoherent host s
      → begin_publication host input s ≡ (ok run, t)
      → Reach host input.workspace_id s t
  unfolding ◌>>=◌
  begin-Reach run t c begun =
      let kept : Keeps host input.workspace_id s ((begin_publication host input >>= return) s) =
        begin_publication_keeps host input s c return (λ q u reached facts. reached) in
      (rw begun at kept)

marked :
    (r : Result Run × Store) (run : Run) (t : Store)
    → r ≡ (ok run, t)
    → Ensures Any Marked r
    → Marked run t
marked r run t same h = (rw same at h)

-- No request disturbs a publication: when `publishRun` has marked a run as being published and
-- waits for the source provider, then, whatever requests are served meanwhile, the run stands as
-- it was marked and the store stays valid. Once the provider has answered, the rest of the command
-- either throws because a schema refuses what is to be stored, or returns the publication, which
-- is stored, and the run is completed as an approved one. The store before is valid, and
-- identifiers are assumed to be unique.
pub publication_is_undisturbed :
    (host : Host) (authorizer : WorkspaceAuthorizer) (input : PublishRunInput)
    (result : SourceChangeRequestResult) (cs : List Command) (s t : Store) (run : Run)
    → UniqueUuids host
    → IsValid host s
    → begin_publication host input s ≡ (ok run, t)
    → (get (serve host authorizer cs t).runs run.id ≡ some run)
      × IsValid host (serve host authorizer cs t)
      × Ensures BySchema
          (IsPublished run.id)
          (finish_publication host run result (serve host authorizer cs t))
publication_is_undisturbed host authorizer input result cs s t run unique valid begun =
    let (stored, publishing) = marked _ run t begun (begin-Marked host input s) in
    let valid_then : IsValid host t =
      Reach-IsValid host input.workspace_id unique valid
        (begin-Reach host input s run t (IsValid-IsCoherent host s valid) begun) in
    (
      serve-Stands run.id run host authorizer publishing unique cs t valid_then stored,
      serve-IsValid host authorizer unique cs t valid_then,
      finish-Ensures host BySchema (λ _. refl) run result (serve host authorizer cs t) publishing,
    )
