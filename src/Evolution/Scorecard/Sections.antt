-- ===== src/Evolution/Scorecard/Sections.antt =====
-- packages/evolution-core/src/scorecard.ts: the other four dimensions, and the list of all.
use cyclewarden.Prelude.{
  ℕ, not, List, [], ◌∷◌, ◌++◌, map, String, is_empty, ltb, decimal, ◌+◌, if◌then◌else◌, ◌++ₛ◌,
}
use cyclewarden.Evolution.Scorecard.Inputs.{
  RepositoryCheck, boundary_text, RepositoryTrustBoundary, ProjectSnapshot, result_text,
  CheckResult, CheckReport,
}
use cyclewarden.Evolution.Scorecard.Coverage.{
  Section, dimension, coverage_section, state_section, pass, warn, fail, unknown, verification,
  automation, product_context, risk_map,
}

abbrev pub failing : CheckReport → ℕ
failing report = report.summary.failed + report.summary.timed_out + report.summary.unavailable

abbrev pub result_evidence : CheckReport → List String
result_evidence report =
    map (λ (r : CheckResult). r.source ++ₛ ":" ++ₛ r.name ++ₛ ":" ++ₛ result_text r.status)
      report.results

abbrev pub verification_section : ProjectSnapshot → CheckReport → Section
verification_section snapshot report =
    if is_empty snapshot.checks
    then record {
      dimension =
          dimension verification unknown "No standard verification scripts were discovered." [];
      strengths = [];
      blockers = [];
      unknowns =
          "The repository has no discovered test, lint, typecheck, check, verify, or build script."
          ∷ [];
      next_actions =
          "Define at least one deterministic repository check before autonomous delivery." ∷ [];
    }
    else if is_empty report.results
    then record {
      dimension =
          dimension verification warn "Verification scripts were discovered but none were executed."
            (map (λ (c : RepositoryCheck). c.source ++ₛ ":" ++ₛ c.name) snapshot.checks);
      strengths = [];
      blockers = [];
      unknowns = [];
      next_actions = "Run one or more discovered checks in the temporary check workspace." ∷ [];
    }
    else if ltb 0 (failing report)
    then record {
      dimension =
          dimension verification fail
            (decimal (failing report)
              ++ₛ " executed check(s) failed, timed out, or were unavailable.")
            (result_evidence report);
      strengths = [];
      blockers = "The current technical baseline is not green for all executed checks." ∷ [];
      unknowns = [];
      next_actions =
          "Diagnose failed checks before treating later changes as verified improvements." ∷ [];
    }
    else record {
      dimension =
          dimension verification pass
            (decimal report.summary.passed ++ₛ " temporary-workspace repository check(s) passed.")
            (result_evidence report);
      strengths =
          (decimal report.summary.passed ++ₛ " temporary-workspace repository check(s) passed.")
          ∷ [];
      blockers = [];
      unknowns = [];
      next_actions = [];
    }

abbrev pub automation_section : ProjectSnapshot → Section
automation_section snapshot =
    if is_empty snapshot.ci
    then record {
      dimension =
          dimension automation warn "No continuous-integration configuration was discovered." [];
      strengths = [];
      blockers = [];
      unknowns = [];
      next_actions = "Add a repeatable CI gate before increasing execution autonomy." ∷ [];
    }
    else record {
      dimension =
          dimension automation pass "Continuous-integration configuration was discovered."
            snapshot.ci;
      strengths = "Continuous-integration configuration is present." ∷ [];
      blockers = [];
      unknowns = [];
      next_actions = [];
    }

abbrev pub product_section : ProjectSnapshot → Section
product_section snapshot =
    if not (is_empty snapshot.product_signals)
    then record {
      dimension =
          dimension product_context pass
            "Explicit product, roadmap, capability, decision, or experiment artifacts were discovered."
            snapshot.product_signals;
      strengths = "Explicit product-development context is present in the repository." ∷ [];
      blockers = [];
      unknowns = [];
      next_actions = [];
    }
    else if not (is_empty snapshot.documentation)
    then record {
      dimension =
          dimension product_context warn
            "Documentation exists, but no explicit product or experiment artifacts were discovered."
            snapshot.documentation;
      strengths = [];
      blockers = [];
      unknowns =
          "Product mission, target user, desired outcomes, and current experiments are not explicit."
          ∷ [];
      next_actions =
          "Create a small evidence-backed product brief before opportunity selection." ∷ [];
    }
    else record {
      dimension =
          dimension product_context unknown
            "No durable product or project documentation was discovered." [];
      strengths = [];
      blockers = [];
      unknowns =
          "The repository does not expose enough durable context for autonomous product research."
          ∷ [];
      next_actions =
          "Record mission, users, constraints, and measurable outcomes in the repository." ∷ [];
    }

abbrev pub boundary_evidence : List RepositoryTrustBoundary → List String
boundary_evidence [] = []
boundary_evidence (b ∷ bs) =
    map (λ path. boundary_text b.kind ++ₛ ":" ++ₛ path) b.evidence_paths ++ boundary_evidence bs

abbrev pub risk_section : ProjectSnapshot → Section
risk_section snapshot =
    if not (is_empty snapshot.trust_boundaries)
    then record {
      dimension =
          dimension risk_map pass "Structural trust boundaries were identified for policy review."
            (boundary_evidence snapshot.trust_boundaries);
      strengths = "Sensitive structural areas are visible to the policy layer." ∷ [];
      blockers = [];
      unknowns = [];
      next_actions = [];
    }
    else record {
      dimension =
          dimension risk_map unknown
            "No known authentication, database, deployment, secret-template, or payment boundary was detected."
            [];
      strengths = [];
      blockers = [];
      unknowns =
          "Absence of detected trust boundaries is not proof that the project is low risk." ∷ [];
      next_actions = [];
    }

-- The sections, in the order in which they are added.
abbrev pub sections : ProjectSnapshot → CheckReport → List Section
sections snapshot report =
    coverage_section snapshot
    ∷ state_section snapshot
    ∷ verification_section snapshot report
    ∷ automation_section snapshot
    ∷ product_section snapshot
    ∷ risk_section snapshot
    ∷ []
