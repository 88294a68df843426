-- ===== src/Forge/Invariant/Preserved.antt =====
-- The invariant of the store under commands and requests (packages/forge-application/src).
use cyclewarden.Prelude.{List, [], ◌∷◌, get-empty, count_values-empty, arith, string_eq}
use cyclewarden.Domain.Contracts.{Run, state_eq, Publication}
use cyclewarden.Forge.Store.{Store, Host, init}
use cyclewarden.Forge.Queries.{get_events}
use cyclewarden.Forge.Commands.Authorizer.{WorkspaceAuthorizer}
use cyclewarden.Forge.Service.{Command, workspace_of, handle, serve}
use cyclewarden.Forge.Refinement.Coherence.{IsCoherent}
use cyclewarden.Forge.Refinement.Commands.{handle-Reach}
use cyclewarden.Forge.Invariant.Parts.{UniqueUuids, IsValid}
use cyclewarden.Forge.Invariant.Steps.{Reach-IsValid}

pub IsValid-IsCoherent : (host : Host) (s : Store) → IsValid host s → IsCoherent host s
IsValid-IsCoherent host s v = record { keyed = v.keyed; fresh = v.fresh }

module _ (host : Host) (authorizer : WorkspaceAuthorizer) (unique : UniqueUuids host) where
  -- Any requests, whether they succeed or fail, keep the store valid: runs stand under their
  -- identifiers and satisfy their schema, identifiers yet to be drawn are unused, no workspace has
  -- two active runs, the events of each run are numbered from 1 on, and each publication belongs
  -- to a run whose review approved it. The host is assumed never to give one identifier twice.
  pub serve-IsValid :
      (cs : List Command) (s : Store) → IsValid host s → IsValid host (serve host authorizer cs s)
  unfolding serve
  serve-IsValid [] s v = v
  serve-IsValid (c ∷ cs) s v = serve-IsValid cs (handle host authorizer c s) (
      Reach-IsValid host (workspace_of c) unique v
        (handle-Reach host authorizer c s (IsValid-IsCoherent host s v)))

-- The empty store is valid.
pub init-IsValid : (host : Host) → IsValid host init
unfolding get_events
init-IsValid host = record {
  keyed = λ k r h. cc (get-empty {V = Run} k);
  fresh = λ i h. get-empty (host.uuid i);
  accepted = λ k r h. absurd (cc (get-empty {V = Run} k));
  single = λ w. rw count_values-empty (omega arith);
  numbered = λ k. rw get-empty tt;
  reviewed = λ k p h. absurd (cc (get-empty {V = Publication} k));
}
