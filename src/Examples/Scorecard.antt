-- ===== src/Examples/Scorecard.antt =====
-- Scorecards of a project that is ready for research and of one whose checks have failed.
use cyclewarden.Prelude.{
  ◌≡◌, refl, true, false, not, ◌&&◌, ◌||◌, some, List, [], ◌∷◌, is_empty, ltb,
}
use cyclewarden.Evolution.Scorecard.Inputs.{
  ProjectSnapshot, CheckResult, CheckResultStatus, CheckReport, summarize,
}
use cyclewarden.Evolution.Scorecard.Card.{create_project_scorecard, high}
use cyclewarden.Evolution.Scorecard.Blockers.{is_blocked, is_a0, blocked_iff_blockers}
use cyclewarden.Evolution.Scorecard.Readiness.{is_a2, all_passed, autonomy_is_a2_iff}

abbrev clean : ProjectSnapshot
clean = record {
  project_name = "p";
  git = record { detected = true; commit = some "c0ffee"; dirty = some false };
  checks = record { name = "test"; command = "vitest"; source = "package.json" } ∷ [];
  ci = [];
  documentation = "README.md" ∷ [];
  product_signals = "ROADMAP.md" ∷ [];
  trust_boundaries = [];
  inventory = record { files_observed = 40; truncated = false };
}

abbrev result : CheckResultStatus → CheckResult
result status = record { name = "test"; source = "package.json"; status = status }

abbrev good : List CheckResult
good = result CheckResultStatus.passed ∷ []

abbrev bad : List CheckResult
bad = result CheckResultStatus.passed ∷ result CheckResultStatus.timed_out ∷ []

abbrev report : List CheckResult → CheckReport
report results = record { results = results; summary = summarize results }

blocked_iff_blockers_example :
    (is_blocked (create_project_scorecard clean (report bad) "now").research_readiness
      ≡ not (is_empty (create_project_scorecard clean (report bad) "now").blockers))
    × (is_a0 (create_project_scorecard clean (report bad) "now").autonomy_ceiling
        ≡ not (is_empty (create_project_scorecard clean (report bad) "now").blockers))
blocked_iff_blockers_example = blocked_iff_blockers clean (report bad) "now"

autonomy_is_a2_iff_example :
    is_a2 (create_project_scorecard clean (report good) "now").autonomy_ceiling ≡ (
      (not clean.inventory.truncated && ltb 0 clean.inventory.files_observed)
      && not (is_empty clean.product_signals)
      && (is_empty clean.checks || all_passed good))
autonomy_is_a2_iff_example = autonomy_is_a2_iff clean good "now"

is_trusted : (create_project_scorecard clean (report good) "now").evidence_confidence ≡ high
unfolding create_project_scorecard
is_trusted = refl

names_what_blocks :
    (create_project_scorecard clean (report bad) "now").blockers
    ≡ "The current technical baseline is not green for all executed checks." ∷ []
unfolding create_project_scorecard
names_what_blocks = refl
