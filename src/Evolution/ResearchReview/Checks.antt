-- ===== src/Evolution/ResearchReview/Checks.antt =====
-- packages/evolution-core/src/research-review.ts: the checks of a research, the verdict and the limitations.
use Prim.Native.Nat.{◌/◌, ◌%◌}
use cyclewarden.Prelude.{
  digit, ℕ, Bool, true, false, not, ◌&&◌, List, [], ◌∷◌, ◌++◌, map, String, any, all, filter,
  contains, is_empty, is_blank, trim, ltb, length, decimal, nat_beq, ◌==◌, ◌!=◌, string_eq,
  if◌then◌else◌, ◌++ₛ◌,
}
use cyclewarden.Evolution.Stages.{add_all, unique}
use cyclewarden.Evolution.ResearchReview.Records.{
  SourceRecord, ClaimRecord, ContradictionRecord, OpportunityRecord, ExecutionHandoff,
  ResearchBudget, ResearchUsage, ResearchRunRecord, PreparedResearchHandoff, ResearchReviewOptions,
  ResearchReviewCheck, Verdict, pass, revise, inconclusive,
}

-- `check(id, passed, summary, evidenceRefs)`
abbrev pub review_check : String → Bool → String → List String → ResearchReviewCheck
review_check id passed summary evidence_refs = record {
  id = id;
  passed = passed;
  summary = summary;
  evidence_refs = unique evidence_refs;
}

abbrev pub source_ids : PreparedResearchHandoff → List String
source_ids p = map (λ (s : SourceRecord). s.record_id) p.sources

abbrev pub claim_ids_of : PreparedResearchHandoff → List String
claim_ids_of p = map (λ (c : ClaimRecord). c.record_id) p.claims

abbrev pub opportunity_ids : PreparedResearchHandoff → List String
opportunity_ids p = map (λ (o : OpportunityRecord). o.record_id) p.opportunities

-- `sourceById.get(id)?.sourceClass === "user-research"`, where a later source replaces an earlier one.
abbrev pub is_user_research : List SourceRecord → Bool → String → Bool
is_user_research [] before id = before
is_user_research (s ∷ ss) before id =
    is_user_research ss (if s.record_id == id then s.source_class == "user-research" else before) id

abbrev pub is_unsupported : PreparedResearchHandoff → ClaimRecord → Bool
is_unsupported p c =
    if is_empty c.supporting_source_ids
    then true
    else if c.claim_type != "user-problem"
    then false
    else not (any (is_user_research p.sources false) c.supporting_source_ids)

abbrev pub unsupported_claim_ids_of : PreparedResearchHandoff → List String
unsupported_claim_ids_of p =
    map (λ (c : ClaimRecord). c.record_id) (filter (is_unsupported p) p.claims)

abbrev pub contradicted_claim_ids : PreparedResearchHandoff → List String
contradicted_claim_ids p = add_all [] (
    map (λ (c : ClaimRecord). c.record_id)
      (filter (λ (c : ClaimRecord). not (is_empty c.contradicting_source_ids)) p.claims))

-- `contradictions.flatMap((item) => item.claimIds)`
abbrev pub contradiction_claim_ids : List ContradictionRecord → List String
contradiction_claim_ids [] = []
contradiction_claim_ids (c ∷ cs) = c.claim_ids ++ contradiction_claim_ids cs

abbrev pub hidden_contradictions : PreparedResearchHandoff → List String
hidden_contradictions p =
    filter (λ id. not (contains id (contradiction_claim_ids p.contradictions)))
      (contradicted_claim_ids p)

abbrev pub scope_overlap : ExecutionHandoff → List String
scope_overlap h = filter (λ scope. contains scope h.allowed_scope) h.forbidden_scope

abbrev pub expected_rejected : PreparedResearchHandoff → List String
expected_rejected p = filter (λ id. id != p.decision.selected_opportunity_id) (opportunity_ids p)

abbrev pub within_budget : ResearchUsage → ResearchBudget → Bool
within_budget u b =
    not (ltb b.max_queries u.queries)
    && not (ltb b.max_sources u.sources)
    && not (ltb b.max_minutes u.minutes)
    && not (ltb b.max_cost_usd u.cost_usd)

-- A list of links that is not empty and leads to what is there.
abbrev pub is_linked : List String → List String → Bool
is_linked there links = not (is_empty links) && all (λ id. contains id there) links

abbrev pub join_with : String → List String → String
join_with comma [] = ""
join_with comma (text ∷ []) = text
join_with comma (text ∷ texts) = text ++ₛ comma ++ₛ join_with comma texts

abbrev pub classes_of : PreparedResearchHandoff → List String
classes_of p = add_all [] (map (λ (s : SourceRecord). s.source_class) p.sources)

abbrev pub unresolved_ids : PreparedResearchHandoff → List String
unresolved_ids p =
    map (λ (c : ContradictionRecord). c.record_id)
      (filter (λ (c : ContradictionRecord). c.status == "open") p.contradictions)

abbrev pub limitations_of : PreparedResearchHandoff → List String
limitations_of p =
    (if contains "user-research" (classes_of p)
      then []
      else "No direct user-research source is present; repository evidence cannot establish user demand."
        ∷ [])
    ++ (if nat_beq (length (classes_of p)) 1 && contains "repository" (classes_of p)
        then "All sources are repository-derived and are not independent external corroboration."
          ∷ []
        else [])
    ++ (if is_empty (unresolved_ids p)
        then []
        else (decimal (length (unresolved_ids p)) ++ₛ " contradiction(s) remain open.") ∷ [])

abbrev pub failed_checks : List ResearchReviewCheck → List ResearchReviewCheck
failed_checks checks = filter (λ (c : ResearchReviewCheck). not c.passed) checks

abbrev pub verdict_of : ResearchRunRecord → List ResearchReviewCheck → Verdict
verdict_of run checks =
    if run.is_inconclusive
    then inconclusive
    else if is_empty (failed_checks checks)
    then pass
    else revise

-- `cents.toFixed(2)`, of an amount in cents.
abbrev pub dollars : ℕ → String
dollars cents = decimal (cents / 100) ++ₛ "." ++ₛ digit ((cents / 10) % 10) ++ₛ digit (cents % 10)

abbrev pub budget_summary : ResearchUsage → ResearchBudget → String
budget_summary u b =
    "Used "
    ++ₛ decimal u.queries
    ++ₛ "/"
    ++ₛ decimal b.max_queries
    ++ₛ " queries, "
    ++ₛ decimal u.sources
    ++ₛ "/"
    ++ₛ decimal b.max_sources
    ++ₛ " sources, "
    ++ₛ decimal u.minutes
    ++ₛ "/"
    ++ₛ decimal b.max_minutes
    ++ₛ " minutes, and $"
    ++ₛ dollars u.cost_usd
    ++ₛ "/$"
    ++ₛ dollars b.max_cost_usd
    ++ₛ "."

abbrev pub review_checks :
    PreparedResearchHandoff → ResearchReviewOptions → List ResearchReviewCheck
review_checks p options =
    review_check "separate-reviewer" (trim options.reviewer_actor != p.researcher)
      (if trim options.reviewer_actor != p.researcher
        then "Reviewer actor is distinct from the researcher actor."
        else "Reviewer actor must be distinct from the researcher actor.")
      []
    ∷ review_check "budget-compliance" (within_budget options.run.usage p.budget)
        (budget_summary options.run.usage p.budget) []
    ∷ review_check "source-support"
        (not (is_empty p.claims)
          && all (λ (c : ClaimRecord). is_linked (source_ids p) c.supporting_source_ids) p.claims)
        "Every claim must resolve to at least one persisted supporting source." []
    ∷ review_check "user-evidence" (is_empty (unsupported_claim_ids_of p))
        (if is_empty (unsupported_claim_ids_of p)
          then "No user-problem claim exceeds the available user-research evidence."
          else decimal (length (unsupported_claim_ids_of p))
            ++ₛ " user-problem or unsupported claim(s) require stronger evidence.")
        (unsupported_claim_ids_of p)
    ∷ review_check "opportunity-portfolio"
        (not (ltb (length p.opportunities) 3)
          && all (λ (o : OpportunityRecord). is_linked (claim_ids_of p) o.evidence_claim_ids)
              p.opportunities)
        "The portfolio must preserve at least three opportunities with valid claim links." []
    ∷ review_check "decision-preservation"
        (contains p.decision.selected_opportunity_id (opportunity_ids p)
          && all (λ id. contains id p.decision.rejected_opportunity_ids) (expected_rejected p))
        "The selected opportunity and rejected alternatives must remain inspectable." []
    ∷ review_check "scope-separation" (is_empty (scope_overlap p.execution_handoff))
        (if is_empty (scope_overlap p.execution_handoff)
          then "Allowed and forbidden execution scopes do not overlap."
          else "Overlapping execution scopes: "
            ++ₛ join_with ", " (scope_overlap p.execution_handoff)
            ++ₛ ".")
        []
    ∷ review_check "contradiction-visibility" (is_empty (hidden_contradictions p))
        (if is_empty (hidden_contradictions p)
          then "Claims with contrary evidence remain visible through contradiction records."
          else decimal (length (hidden_contradictions p))
            ++ₛ " contradicted claim(s) are missing contradiction records.")
        (hidden_contradictions p)
    ∷ review_check "stop-reason" (not (is_blank (trim options.run.stop_reason)))
        (if is_blank (trim options.run.stop_reason)
          then "A bounded research run requires an explicit stop reason."
          else "Research stopped because: " ++ₛ options.run.stop_reason)
        []
    ∷ []
