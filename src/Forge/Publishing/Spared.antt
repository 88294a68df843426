-- ===== src/Forge/Publishing/Spared.antt =====
-- The commands leave a run alone that is being published (packages/forge-application/src).
use cyclewarden.Prelude.{
  ◌≡◌, ◌≢◌, sym, subst, ◌∙◌, Option, none, some, String, string_eq, str_iff, Dict, get, put,
  get-put, arith,
}
use cyclewarden.Domain.Contracts.{Run, RunState, state_eq}
use cyclewarden.Forge.Store.{Store, Host}
use cyclewarden.Forge.Refinement.Coherence.{IsCoherent}

-- The run that is being published, and where it stands.
module _ (k : String) (r : Run) where
  abbrev pub Stands : Store → Type 0
  Stands t = get t.runs k ≡ some r

  -- A save under another identifier.
  pub Stands-beside :
      (runs : Dict Run) (run : Run)
      → run.id ≢ k
      → get runs k ≡ some r
      → get (put runs run.id run) k ≡ some r
  Stands-beside runs run other stands = get-put runs run.id k run ∙ ground (arith, str_iff run.id k)

  module _ (host : Host) (s : Store) (coherent : IsCoherent host s) (stands : Stands s) where
    -- An identifier that is drawn.
    pub drawn_is_other : (host.uuid s.uuids_drawn) ≢ k
    drawn_is_other same =
        cc (
          stands,
          subst (λ j. get s.runs j ≡ none) same (coherent.fresh s.uuids_drawn (omega arith)),
        )

    -- A run that is found, and is not being published.
    pub found_is_other :
        (id : String) (run : Run)
        → r.state ≡ RunState.publishing
        → get s.runs id ≡ some run
        → run.state ≢ RunState.publishing
        → run.id ≢ k
    found_is_other id run publishing found elsewhere same =
        let at_k : id ≡ k = sym (coherent.keyed id run found) ∙ same in
        let is_r : ◌≡◌ {A = Option Run} (some run) (some r) =
          sym (subst (λ j. get s.runs j ≡ some run) at_k found) ∙ stands in
        elsewhere (cc (is_r, publishing))
