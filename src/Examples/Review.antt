-- ===== src/Examples/Review.antt =====
-- A review that passes, of three opportunities and a claim with contrary evidence that is on record.
use cyclewarden.Prelude.{
  Json, ◌≡◌, refl, Bool, true, false, not, ◌||◌, [], ◌∷◌, String, all, any, contains, is_empty,
  trim, ◌!=◌, string_eq,
}
use cyclewarden.Evolution.ResearchReview.Records.{
  PreparedResearchHandoff, ResearchReviewOptions, ResearchEvaluationRecord, ClaimRecord,
  OpportunityRecord, Review, reviewed, failed,
}
use cyclewarden.Evolution.ResearchReview.Checks.{is_user_research, contradiction_claim_ids}
use cyclewarden.Evolution.ResearchReview.Evaluating.{
  evaluation_of, evaluate_prepared_research, assert_research_review_passed,
}
use cyclewarden.Evolution.ResearchReview.Soundness.{passed_review_is_sound}

abbrev digest : Json → String
digest j = "0123456789abcdef0123456789abcdef0123456789abcdef0123456789abcdef"

abbrev opportunity : String → OpportunityRecord
opportunity id = record { record_id = id; evidence_claim_ids = "c1" ∷ [] }

abbrev prepared : PreparedResearchHandoff
prepared = record {
  cycle_id = "cycle:1";
  researcher = "ana";
  budget = record { max_queries = 5; max_sources = 5; max_minutes = 30; max_cost_usd = 100 };
  sources = record { record_id = "s1"; source_class = "user-research" } ∷ [];
  claims =
      record {
        record_id = "c1";
        claim_type = "user-problem";
        supporting_source_ids = "s1" ∷ [];
        contradicting_source_ids = "s1" ∷ [];
      }
      ∷ [];
  contradictions = record { record_id = "x1"; claim_ids = "c1" ∷ []; status = "open" } ∷ [];
  opportunities = opportunity "o1" ∷ opportunity "o2" ∷ opportunity "o3" ∷ [];
  decision = record { selected_opportunity_id = "o2"; rejected_opportunity_ids = "o1" ∷ "o3" ∷ [] };
  execution_handoff = record { allowed_scope = "docs" ∷ []; forbidden_scope = "auth" ∷ [] };
}

abbrev options : ResearchReviewOptions
options = record {
  reviewer_actor = "ben ";
  now = "9:00";
  evidence_refs = [];
  run = record {
    usage = record { queries = 2; sources = 1; minutes = 30; cost_usd = 0 };
    stop_reason = "answered";
    is_inconclusive = false;
  };
}

abbrev evaluation : ResearchEvaluationRecord
evaluation = record {
  record_id = "research-evaluation:0123456789abcdef01234567";
  cycle_id = "cycle:1";
  actor = trim "ben ";
  created_at = "9:00";
  evidence_refs = [];
  payload = evaluation_of prepared options;
}

is_evaluated : evaluate_prepared_research digest prepared options ≡ reviewed evaluation
unfolding evaluate_prepared_research trim
is_evaluated = refl

has_passed_review : assert_research_review_passed evaluation ≡ reviewed tt
unfolding assert_research_review_passed trim
has_passed_review = refl

passed_review_is_sound_example :
    ((trim options.reviewer_actor != prepared.researcher) ≡ true)
    × (all
          (λ (c : ClaimRecord).
            c.claim_type != "user-problem"
            || any (is_user_research prepared.sources false) c.supporting_source_ids)
          prepared.claims
        ≡ true)
    × (all
          (λ (c : ClaimRecord).
            not (not (is_empty c.contradicting_source_ids))
            || contains c.record_id (contradiction_claim_ids prepared.contradictions))
          prepared.claims
        ≡ true)
    × (all
          (λ (o : OpportunityRecord).
            not (o.record_id != prepared.decision.selected_opportunity_id)
            || contains o.record_id prepared.decision.rejected_opportunity_ids)
          prepared.opportunities
        ≡ true)
    × (all
          (λ scope. not (contains scope prepared.execution_handoff.allowed_scope))
          prepared.execution_handoff.forbidden_scope
        ≡ true)
passed_review_is_sound_example =
    passed_review_is_sound digest prepared options evaluation is_evaluated has_passed_review

abbrev is_reviewed : {A : Type 0} → Review A → Bool
is_reviewed (reviewed a) = true
is_reviewed (failed text) = false

no_reviewer :
    is_reviewed
      (evaluate_prepared_research digest prepared (record options { reviewer_actor = "  " }))
    ≡ false
unfolding evaluate_prepared_research trim
no_reviewer = refl
