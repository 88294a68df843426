-- ===== src/Evolution/Scorecard/Card.antt =====
-- packages/evolution-core/src/scorecard.ts: `createProjectScorecard`.
use cyclewarden.Prelude.{
  ℕ, Bool, true, false, not, ◌&&◌, List, [], ◌∷◌, ◌++◌, map, String, any, is_empty, ltb, nat_beq,
  if◌then◌else◌,
}
use cyclewarden.Evolution.Stages.{add_all}
use cyclewarden.Evolution.Scorecard.Inputs.{ProjectSnapshot, CheckReport, CheckSummary}
use cyclewarden.Evolution.Scorecard.Coverage.{
  ScorecardStatus, pass, fail, DimensionId, coverage, repository_state, verification, automation,
  product_context, risk_map, ScorecardDimension, Section,
}
use cyclewarden.Evolution.Scorecard.Sections.{failing, sections}

pub data Readiness : Type 0 where
  ready_for_research needs_foundation blocked : Readiness

pub data ExecutionReadiness : Type 0 where
  trusted_local_only not_assessed blocked : ExecutionReadiness

pub data VerificationReadiness : Type 0 where
  ready unknown blocked : VerificationReadiness

pub data AutonomyCeiling : Type 0 where
  ceiling_a0 ceiling_a1 ceiling_a2 : AutonomyCeiling

pub data EvidenceConfidence : Type 0 where
  low medium high : EvidenceConfidence

pub record ProjectScorecard : Type 0 where
  pub project_name : String
  pub created_at : String
  pub readiness : Readiness
  pub research_readiness : Readiness
  pub execution_readiness : ExecutionReadiness
  pub verification_readiness : VerificationReadiness
  pub autonomy_ceiling : AutonomyCeiling
  pub evidence_confidence : EvidenceConfidence
  pub dimensions : List ScorecardDimension
  pub strengths : List String
  pub blockers : List String
  pub unknowns : List String
  pub next_actions : List String
  pub check_summary : CheckSummary

abbrev pub is_fail : ScorecardStatus → Bool
is_fail fail = true
is_fail _ = false

abbrev pub is_pass : ScorecardStatus → Bool
is_pass pass = true
is_pass _ = false

abbrev pub dimension_rank : DimensionId → ℕ
dimension_rank coverage = 0
dimension_rank repository_state = 1
dimension_rank verification = 2
dimension_rank automation = 3
dimension_rank product_context = 4
dimension_rank risk_map = 5

-- `dimensions.find((item) => item.id === id)?.status === "pass"`
abbrev pub passes : DimensionId → List ScorecardDimension → Bool
passes id [] = false
passes id (d ∷ ds) =
    let rest = passes id ds in
    if nat_beq (dimension_rank d.id) (dimension_rank id) then is_pass d.status else rest

abbrev pub has_fail : List ScorecardDimension → Bool
has_fail dimensions = any (λ d. is_fail d.status) dimensions

-- What the sections add to one of the lists.
abbrev pub gather : (Section → List String) → List Section → List String
gather of_section [] = []
gather of_section (s ∷ ss) = of_section s ++ gather of_section ss

-- `[...new Set(texts)]`
abbrev pub distinct : List String → List String
distinct texts = add_all [] texts

abbrev pub research_readiness_of : List ScorecardDimension → Readiness
research_readiness_of dimensions =
    if has_fail dimensions
    then Readiness.blocked
    else if passes coverage dimensions && passes product_context dimensions
    then ready_for_research
    else needs_foundation

abbrev pub execution_readiness_of : CheckReport → ExecutionReadiness
execution_readiness_of report =
    if ltb 0 (failing report)
    then ExecutionReadiness.blocked
    else if not (is_empty report.results)
    then trusted_local_only
    else not_assessed

abbrev pub verification_readiness_of : CheckReport → VerificationReadiness
verification_readiness_of report =
    if ltb 0 (failing report)
    then VerificationReadiness.blocked
    else if not (is_empty report.results)
    then ready
    else VerificationReadiness.unknown

abbrev pub is_ready : VerificationReadiness → Bool
is_ready ready = true
is_ready _ = false

abbrev pub is_ready_for_research : Readiness → Bool
is_ready_for_research ready_for_research = true
is_ready_for_research _ = false

abbrev pub autonomy_ceiling_of : List ScorecardDimension → AutonomyCeiling
autonomy_ceiling_of dimensions =
    if has_fail dimensions
    then ceiling_a0
    else if is_ready_for_research (research_readiness_of dimensions)
    then ceiling_a2
    else ceiling_a1

abbrev pub evidence_confidence_of : List ScorecardDimension → CheckReport → EvidenceConfidence
evidence_confidence_of dimensions report =
    if passes coverage dimensions
      && passes product_context dimensions
      && passes repository_state dimensions
      && is_ready (verification_readiness_of report)
    then high
    else if not (has_fail dimensions) && passes coverage dimensions
    then medium
    else low

-- The actions that follow from the readiness.
abbrev pub research_actions : Readiness → List String
research_actions ready_for_research =
    "Start bounded internal and external research against one explicit product decision." ∷ []
research_actions needs_foundation =
    "Resolve the highest-impact context or verification gap before opportunity research." ∷ []
research_actions Readiness.blocked = []

abbrev pub execution_actions : ExecutionReadiness → List String
execution_actions trusted_local_only =
    "Treat check execution as trusted-local-only until a backend proves filesystem, process, dependency and network containment."
    ∷ []
execution_actions _ = []

-- `createProjectScorecard`, without the schema version and the limitations, which are constant.
unfoldable pub create_project_scorecard : ProjectSnapshot → CheckReport → String → ProjectScorecard
create_project_scorecard snapshot report now =
    let parts = sections snapshot report in
    let dimensions = map (λ (s : Section). s.dimension) parts in
    let research = research_readiness_of dimensions in
    let execution = execution_readiness_of report in
    record {
      project_name = snapshot.project_name;
      created_at = now;
      readiness = research;
      research_readiness = research;
      execution_readiness = execution;
      verification_readiness = verification_readiness_of report;
      autonomy_ceiling = autonomy_ceiling_of dimensions;
      evidence_confidence = evidence_confidence_of dimensions report;
      dimensions = dimensions;
      strengths = distinct (gather (λ s. s.strengths) parts);
      blockers = distinct (gather (λ s. s.blockers) parts);
      unknowns = distinct (gather (λ s. s.unknowns) parts);
      next_actions = distinct (
          gather (λ s. s.next_actions) parts
          ++ research_actions research
          ++ execution_actions execution);
      check_summary = report.summary;
    }
