-- ===== src/Evolution/ResearchReview/Records.antt =====
-- packages/evolution-core/src/research-review.ts: the records of a review. Of the
-- records (types.ts, research.ts) the fields that it reads are modelled; minutes are whole, and costs are
-- in whole cents.
use cyclewarden.Prelude.{ℕ, Bool, List, String}

pub record SourceRecord : Type 0 where
  pub record_id : String
  pub source_class : String

pub record ClaimRecord : Type 0 where
  pub record_id : String
  pub claim_type : String
  pub supporting_source_ids : List String
  pub contradicting_source_ids : List String

pub record ContradictionRecord : Type 0 where
  pub record_id : String
  pub claim_ids : List String
  pub status : String

pub record OpportunityRecord : Type 0 where
  pub record_id : String
  pub evidence_claim_ids : List String

pub record DecisionRecord : Type 0 where
  pub selected_opportunity_id : String
  pub rejected_opportunity_ids : List String

pub record ExecutionHandoff : Type 0 where
  pub allowed_scope : List String
  pub forbidden_scope : List String

pub record ResearchBudget : Type 0 where
  pub max_queries : ℕ
  pub max_sources : ℕ
  pub max_minutes : ℕ
  pub max_cost_usd : ℕ

pub record ResearchUsage : Type 0 where
  pub queries : ℕ
  pub sources : ℕ
  pub minutes : ℕ
  pub cost_usd : ℕ

pub record ResearchRunRecord : Type 0 where
  pub usage : ResearchUsage
  pub stop_reason : String
  pub is_inconclusive : Bool

pub record PreparedResearchHandoff : Type 0 where
  pub cycle_id : String
  -- `records.brief.actor`
  pub researcher : String
  -- `records.plan.budget`
  pub budget : ResearchBudget
  pub sources : List SourceRecord
  pub claims : List ClaimRecord
  pub contradictions : List ContradictionRecord
  pub opportunities : List OpportunityRecord
  pub decision : DecisionRecord
  pub execution_handoff : ExecutionHandoff

pub record ResearchReviewOptions : Type 0 where
  pub reviewer_actor : String
  pub now : String
  pub evidence_refs : List String
  pub run : ResearchRunRecord

pub record ResearchReviewCheck : Type 0 where
  pub id : String
  pub passed : Bool
  pub summary : String
  pub evidence_refs : List String

pub data Verdict : Type 0 where
  pass revise inconclusive : Verdict

abbrev pub verdict_text : Verdict → String
verdict_text pass = "pass"
verdict_text revise = "revise"
verdict_text inconclusive = "inconclusive"

-- The payload of which the identifier is made.
pub record Evaluation : Type 0 where
  pub researcher_actor : String
  pub reviewer_actor : String
  pub verdict : Verdict
  pub checks : List ResearchReviewCheck
  pub unsupported_claim_ids : List String
  pub unresolved_contradiction_ids : List String
  pub stop_reason : String
  pub limitations : List String

pub record ResearchEvaluationRecord : Type 0 where
  pub record_id : String
  pub cycle_id : String
  pub actor : String
  pub created_at : String
  pub evidence_refs : List String
  pub payload : Evaluation
  pub open payload use *

pub data Review (A : Type 0) : Type 0 where
  reviewed : A → Review A
  failed : String → Review A
