-- ===== src/Evolution/ResearchReview/Soundness.antt =====
-- What a passed review vouches for (packages/evolution-core/src/research-review.ts).
use cyclewarden.Prelude.{
  Json, ◌≡◌, sym, ap, ◌∙◌, Bool, true, false, not, ◌||◌, List, [], ◌∷◌, map, String, any, all,
  filter, contains, is_empty, is_blank, trim, ◌!=◌, string_eq, arith, Bool-cases, inl, inr, All,
}
use cyclewarden.Evolution.ResearchReview.Records.{
  PreparedResearchHandoff, ResearchReviewOptions, ResearchEvaluationRecord, Review, reviewed,
  failed, ResearchReviewCheck, ResearchRunRecord, ClaimRecord, OpportunityRecord, Verdict, revise,
}
use cyclewarden.Evolution.ResearchReview.Checks.{
  review_checks, failed_checks, verdict_of, is_unsupported, is_user_research,
  contradiction_claim_ids, contradicted_claim_ids,
}
use cyclewarden.Evolution.ResearchReview.Evaluating.{
  evaluate_prepared_research, assert_research_review_passed, is_pass_verdict,
}
use cyclewarden.Evolution.ResearchReview.Lists.{
  all_where, is_empty-map, both_of, all-add_all, all-map-filter, all-filter-map,
}

-- Where a test keeps nothing, all has what follows from not being kept.

none_failed :
    (cs : List ResearchReviewCheck)
    → is_empty (failed_checks cs) ≡ true
    → All (λ (c : ResearchReviewCheck). c.passed ≡ true) cs
none_failed [] h = tt
none_failed (c ∷ cs) h = elim (Bool-cases c.passed) [
  | inl good ↦ (good, none_failed cs (rw good at h))
  | inr bad ↦ absurd (cc (rw bad at h))
]

pass_means :
    (run : ResearchRunRecord) (cs : List ResearchReviewCheck)
    → is_pass_verdict (verdict_of run cs) ≡ true
    → is_empty (failed_checks cs) ≡ true
pass_means run cs h = ground arith

asserted :
    (e : ResearchEvaluationRecord)
    → assert_research_review_passed e ≡ reviewed tt
    → is_pass_verdict e.verdict ≡ true
unfolding assert_research_review_passed
asserted e h = elim (Bool-cases (is_pass_verdict e.verdict)) [
  | inl good ↦ good
  | inr bad ↦ absurd (cc (rw bad at h))
]

supported_lem :
    (p : PreparedResearchHandoff) (c : ClaimRecord)
    → is_unsupported p c ≡ false
    → (c.claim_type != "user-problem"
        || any (is_user_research p.sources false) c.supporting_source_ids)
      ≡ true
supported_lem p c h = ground arith

negated : (b : Bool) → b ≡ false → not b ≡ true
negated b h = ground arith

denied : (b : Bool) → not b ≡ false → b ≡ true
denied b h = ground arith

module _ (digest_json : Json → String) where
  evaluated :
      (p : PreparedResearchHandoff) (options : ResearchReviewOptions) (e : ResearchEvaluationRecord)
      → evaluate_prepared_research digest_json p options ≡ reviewed e
      → verdict_of options.run (review_checks p options) ≡ e.verdict
  unfolding evaluate_prepared_research
  evaluated p options e h = elim (Bool-cases (is_blank (trim options.reviewer_actor))) [
    | inl blank ↦ absurd (cc (rw blank at h))
    | inr given ↦ ap verdict_in (rw given at h)
  ]
    where
      verdict_in : Review ResearchEvaluationRecord → Verdict
      verdict_in (reviewed e) = e.verdict
      verdict_in (failed text) = revise

  -- A review that passes vouches for the research: the reviewer is another actor than the
  -- researcher, every claim of a user problem has a source of user research, every claim with
  -- contrary evidence is named by a contradiction, every opportunity is the selected or a rejected
  -- one, and no forbidden scope is allowed.
  pub passed_review_is_sound :
      (p : PreparedResearchHandoff) (options : ResearchReviewOptions) (e : ResearchEvaluationRecord)
      → evaluate_prepared_research digest_json p options ≡ reviewed e
      → assert_research_review_passed e ≡ reviewed tt
      → ((trim options.reviewer_actor != p.researcher) ≡ true)
        × (all
              (λ (c : ClaimRecord).
                c.claim_type != "user-problem"
                || any (is_user_research p.sources false) c.supporting_source_ids)
              p.claims
            ≡ true)
        × (all
              (λ (c : ClaimRecord).
                not (not (is_empty c.contradicting_source_ids))
                || contains c.record_id (contradiction_claim_ids p.contradictions))
              p.claims
            ≡ true)
        × (all
              (λ (o : OpportunityRecord).
                not (o.record_id != p.decision.selected_opportunity_id)
                || contains o.record_id p.decision.rejected_opportunity_ids)
              p.opportunities
            ≡ true)
        × (all
              (λ scope. not (contains scope p.execution_handoff.allowed_scope))
              p.execution_handoff.forbidden_scope
            ≡ true)
  passed_review_is_sound p options e h k =
      let cs : List ResearchReviewCheck = review_checks p options in
      let passes : is_pass_verdict (verdict_of options.run cs) ≡ true =
        ap is_pass_verdict (evaluated p options e h) ∙ asserted e k in
      let good : All (λ (c : ResearchReviewCheck). c.passed ≡ true) cs =
        none_failed cs (pass_means options.run cs passes) in
      let shown : String → Bool = λ id. contains id (contradiction_claim_ids p.contradictions) in
      let contradicted : List String =
        map (λ (c : ClaimRecord). c.record_id)
          (filter (λ (c : ClaimRecord). not (is_empty c.contradicting_source_ids)) p.claims) in
      let kept : String → Bool = λ id. contains id p.decision.rejected_opportunity_ids in
      let others : List String =
        filter (λ id. id != p.decision.selected_opportunity_id)
          (map (λ (o : OpportunityRecord). o.record_id) p.opportunities) in
      (
        good.0,
        all_where (is_unsupported p)
            (λ (c : ClaimRecord).
              c.claim_type != "user-problem"
              || any (is_user_research p.sources false) c.supporting_source_ids)
            p.claims (supported_lem p)
            (sym (
                is_empty-map (λ (c : ClaimRecord). c.record_id)
                  (filter (is_unsupported p) p.claims))
              ∙ good.1.1.1.0),
        all-map-filter (λ (c : ClaimRecord). c.record_id)
            (λ (c : ClaimRecord). not (is_empty c.contradicting_source_ids)) shown p.claims
            (all-add_all shown [] contradicted (
              all_where (λ id. not (shown id)) shown (contradicted_claim_ids p)
                (λ id. denied (shown id)) good.1.1.1.1.1.1.1.0)).1,
        all-filter-map (λ (o : OpportunityRecord). o.record_id)
            (λ id. id != p.decision.selected_opportunity_id) kept p.opportunities
            (both_of
              (contains p.decision.selected_opportunity_id
                (map (λ (o : OpportunityRecord). o.record_id) p.opportunities))
              (all kept others) good.1.1.1.1.1.0).1,
        all_where (λ scope. contains scope p.execution_handoff.allowed_scope)
            (λ scope. not (contains scope p.execution_handoff.allowed_scope))
            p.execution_handoff.forbidden_scope
            (λ scope. negated (contains scope p.execution_handoff.allowed_scope))
            good.1.1.1.1.1.1.0,
      )
