-- ===== src/Evolution/Scorecard/Coverage.antt =====
-- packages/evolution-core/src/scorecard.ts: what a dimension is, and the first two: what was seen of the
-- repository, and its state.
use cyclewarden.Prelude.{
  false, not, Option, none, some, List, [], ◌∷◌, String, is_blank, ltb, decimal, or_else,
  if◌then◌else◌, ◌++ₛ◌,
}
use cyclewarden.Evolution.Scorecard.Inputs.{ProjectSnapshot}

pub data ScorecardStatus : Type 0 where
  pass warn fail unknown : ScorecardStatus

pub data DimensionId : Type 0 where
  coverage repository_state verification automation product_context risk_map : DimensionId

pub record ScorecardDimension : Type 0 where
  pub id : DimensionId
  pub status : ScorecardStatus
  pub summary : String
  pub evidence : List String

-- One dimension, and what it adds to each of the lists.
pub record Section : Type 0 where
  pub dimension : ScorecardDimension
  pub strengths : List String
  pub blockers : List String
  pub unknowns : List String
  pub next_actions : List String

-- `dimension(id, status, summary, evidence)`
abbrev pub dimension : DimensionId → ScorecardStatus → String → List String → ScorecardDimension
dimension id status summary evidence = record {
  id = id;
  status = status;
  summary = summary;
  evidence = evidence;
}

abbrev pub files_evidence : ProjectSnapshot → List String
files_evidence snapshot = ("files-observed:" ++ₛ decimal snapshot.inventory.files_observed) ∷ []

abbrev pub coverage_section : ProjectSnapshot → Section
coverage_section snapshot =
    if snapshot.inventory.truncated
    then record {
      dimension =
          dimension coverage fail "Repository inventory reached the configured file limit."
            (files_evidence snapshot);
      strengths = [];
      blockers = "Repository coverage is truncated, so broad conclusions are unsafe." ∷ [];
      unknowns = [];
      next_actions = "Increase the scan limit or split the repository into explicit scopes." ∷ [];
    }
    else if ltb 0 snapshot.inventory.files_observed
    then record {
      dimension =
          dimension coverage pass "Repository inventory completed without truncation."
            (files_evidence snapshot);
      strengths = "Repository inventory completed without truncation." ∷ [];
      blockers = [];
      unknowns = [];
      next_actions = [];
    }
    else record {
      dimension = dimension coverage fail "No repository files were observed." [];
      strengths = [];
      blockers = "No repository files were observed." ∷ [];
      unknowns = [];
      next_actions = [];
    }

-- `commit ? ... : "commit:unknown"`
abbrev pub commit_evidence : Option String → List String
commit_evidence none = "commit:unknown" ∷ []
commit_evidence (some commit) =
    (if is_blank commit then "commit:unknown" else "commit:" ++ₛ commit) ∷ []

abbrev pub state_section : ProjectSnapshot → Section
state_section snapshot =
    if not snapshot.git.detected
    then record {
      dimension = dimension repository_state unknown "No Git worktree was detected." [];
      strengths = [];
      blockers = [];
      unknowns = "Version-control revision and dirty state are unknown." ∷ [];
      next_actions = [];
    }
    else if or_else snapshot.git.dirty false
    then record {
      dimension =
          dimension repository_state warn "The inspected worktree contains uncommitted changes."
            (commit_evidence snapshot.git.commit);
      strengths = [];
      blockers = [];
      unknowns = [];
      next_actions = "Separate or commit unrelated work before an implementation cycle." ∷ [];
    }
    else record {
      dimension =
          dimension repository_state pass "The inspected Git worktree is clean."
            (commit_evidence snapshot.git.commit);
      strengths = "The inspected Git worktree is clean and attributable." ∷ [];
      blockers = [];
      unknowns = [];
      next_actions = [];
    }
