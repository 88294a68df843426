-- ===== src/Evolution/Scorecard/Readiness.antt =====
-- What the verdicts of a scorecard mean (packages/evolution-core/src/scorecard.ts).
use cyclewarden.Prelude.{
  ◌≡◌, refl, ◌∙◌, Bool, true, false, not, map, ◌&&◌, ◌||◌, List, [], ◌∷◌, String, all, is_empty,
  ltb, string_eq, nat_beq, Bool-cases, inl, inr, arith,
}
use cyclewarden.Evolution.Scorecard.Inputs.{
  ProjectSnapshot, CheckReport, CheckResult, CheckResultStatus, summarize,
}
use cyclewarden.Evolution.Scorecard.Coverage.{
  DimensionId, coverage, product_context, Section, ScorecardDimension, coverage_section,
  state_section,
}
use cyclewarden.Evolution.Scorecard.Sections.{
  failing, sections, verification_section, automation_section, product_section, risk_section,
}
use cyclewarden.Evolution.Scorecard.Card.{
  is_pass, dimension_rank, passes, is_fail, has_fail, autonomy_ceiling_of, AutonomyCeiling,
  ceiling_a2, create_project_scorecard,
}

abbrev pub is_a2 : AutonomyCeiling → Bool
is_a2 ceiling_a2 = true
is_a2 _ = false

abbrev pub all_passed : List CheckResult → Bool
all_passed results = all (λ (r : CheckResult). is_passed r.status) results
  where
    is_passed : CheckResultStatus → Bool
    is_passed CheckResultStatus.passed = true
    is_passed _ = false

-- Every check that did not pass counts as failing.
failing-summarize :
    (results : List CheckResult)
    → ltb 0 (failing (record { results = results; summary = summarize results }))
      ≡ not (all_passed results)
failing-summarize [] = refl
failing-summarize (r ∷ rs) = ground (arith, failing-summarize rs)

-- A dimension is looked up past those with other identifiers.
passes_past :
    (id : DimensionId) (d : ScorecardDimension) (ds : List ScorecardDimension)
    → nat_beq (dimension_rank d.id) (dimension_rank id) ≡ false
    → passes id (d ∷ ds) ≡ passes id ds
passes_past id d ds other = rw other refl

passes_here :
    (id : DimensionId) (d : ScorecardDimension) (ds : List ScorecardDimension)
    → nat_beq (dimension_rank d.id) (dimension_rank id) ≡ true
    → passes id (d ∷ ds) ≡ is_pass d.status
passes_here id d ds same = rw same refl

module _ (snapshot : ProjectSnapshot) (report : CheckReport) where
  coverage_rank : dimension_rank (coverage_section snapshot).dimension.id ≡ 0
  coverage_rank = ground arith

  state_rank : dimension_rank (state_section snapshot).dimension.id ≡ 1
  state_rank = ground arith

  verification_rank : dimension_rank (verification_section snapshot report).dimension.id ≡ 2
  verification_rank = ground arith

  automation_rank : dimension_rank (automation_section snapshot).dimension.id ≡ 3
  automation_rank = ground arith

  product_rank : dimension_rank (product_section snapshot).dimension.id ≡ 4
  product_rank = ground arith

  coverage_passes :
      passes coverage (map (λ (s : Section). s.dimension) (sections snapshot report))
      ≡ (not snapshot.inventory.truncated && ltb 0 snapshot.inventory.files_observed)
  coverage_passes =
      let d5 : List ScorecardDimension = (risk_section snapshot).dimension ∷ [] in
      let d4 : List ScorecardDimension = (product_section snapshot).dimension ∷ d5 in
      let d3 : List ScorecardDimension = (automation_section snapshot).dimension ∷ d4 in
      let d2 : List ScorecardDimension = (verification_section snapshot report).dimension ∷ d3 in
      let d1 : List ScorecardDimension = (state_section snapshot).dimension ∷ d2 in
      passes_here coverage (coverage_section snapshot).dimension d1 (rw coverage_rank refl)
      ∙ ground arith

  product_passes :
      passes product_context (map (λ (s : Section). s.dimension) (sections snapshot report))
      ≡ not (is_empty snapshot.product_signals)
  product_passes =
      let d5 : List ScorecardDimension = (risk_section snapshot).dimension ∷ [] in
      let d4 : List ScorecardDimension = (product_section snapshot).dimension ∷ d5 in
      let d3 : List ScorecardDimension = (automation_section snapshot).dimension ∷ d4 in
      let d2 : List ScorecardDimension = (verification_section snapshot report).dimension ∷ d3 in
      let d1 : List ScorecardDimension = (state_section snapshot).dimension ∷ d2 in
      passes_past product_context (coverage_section snapshot).dimension d1 (rw coverage_rank refl)
      ∙ passes_past product_context (state_section snapshot).dimension d2 (rw state_rank refl)
      ∙ passes_past product_context (verification_section snapshot report).dimension d3
          (rw verification_rank refl)
      ∙ passes_past product_context (automation_section snapshot).dimension d4
          (rw automation_rank refl)
      ∙ passes_here product_context (product_section snapshot).dimension d5 (rw product_rank refl)
      ∙ ground arith

  coverage_fails :
      is_fail (coverage_section snapshot).dimension.status
      ≡ not (not snapshot.inventory.truncated && ltb 0 snapshot.inventory.files_observed)
  coverage_fails = ground arith

  verification_fails :
      is_fail (verification_section snapshot report).dimension.status
      ≡ not (is_empty snapshot.checks || is_empty report.results || not (ltb 0 (failing report)))
  verification_fails = ground arith

  state_holds : is_fail (state_section snapshot).dimension.status ≡ false
  state_holds = ground arith

  automation_holds : is_fail (automation_section snapshot).dimension.status ≡ false
  automation_holds = ground arith

  product_holds : is_fail (product_section snapshot).dimension.status ≡ false
  product_holds = ground arith

  risk_holds : is_fail (risk_section snapshot).dimension.status ≡ false
  risk_holds = ground arith

  -- Only the coverage and the verification can fail.
  fails : has_fail (map (λ (s : Section). s.dimension) (sections snapshot report)) ≡ (
      is_fail (coverage_section snapshot).dimension.status
      || is_fail (verification_section snapshot report).dimension.status)
  fails =
      rw (state_holds, automation_holds, product_holds, risk_holds)
        (elim (Bool-cases (is_fail (verification_section snapshot report).dimension.status)) [
          | inl bad ↦ rw bad refl
          | inr good ↦ rw good refl
        ])

none_all_passed :
    (results : List CheckResult) → (is_empty results || all_passed results) ≡ all_passed results
none_all_passed [] = refl
none_all_passed (r ∷ rs) = refl

ceiling_is_a2 :
    (ds : List ScorecardDimension)
    → is_a2 (autonomy_ceiling_of ds)
      ≡ (not (has_fail ds) && (passes coverage ds && passes product_context ds))
ceiling_is_a2 ds = ground arith

only_then :
    (covered signals unchecked empty passed : Bool)
    → (empty || passed) ≡ passed
    → (not (not covered || not (unchecked || empty || not (not passed))) && (covered && signals))
      ≡ (covered && signals && (unchecked || passed))
only_then covered signals unchecked empty passed h = ground arith

-- The verdict, from what the dimensions say.
verdict :
    (bad covers contexts fc fv covered signals unchecked empty failed passed : Bool)
    → bad ≡ (fc || fv)
    → fc ≡ not covered
    → fv ≡ not (unchecked || empty || not failed)
    → covers ≡ covered
    → contexts ≡ signals
    → failed ≡ not passed
    → (empty || passed) ≡ passed
    → (not bad && (covers && contexts)) ≡ (covered && signals && (unchecked || passed))
verdict bad covers contexts fc fv covered signals unchecked empty failed passed e1 e2 e3 e4 e5 e6
      h =
    rw (e1, e2, e3, e4, e5, e6) (only_then covered signals unchecked empty passed h)

-- A scorecard allows the autonomy A2 exactly when the repository was seen whole and has files and
-- product signals, and either no check was discovered or all that were executed have passed. The
-- summary is that of the results.
pub autonomy_is_a2_iff :
    (snapshot : ProjectSnapshot) (results : List CheckResult) (now : String)
    → is_a2
        (create_project_scorecard snapshot
          (record { results = results; summary = summarize results })
          now).autonomy_ceiling
      ≡ ((not snapshot.inventory.truncated && ltb 0 snapshot.inventory.files_observed)
          && not (is_empty snapshot.product_signals)
          && (is_empty snapshot.checks || all_passed results))
unfolding create_project_scorecard
autonomy_is_a2_iff snapshot results now =
    let report : CheckReport = record { results = results; summary = summarize results } in
    let ds : List ScorecardDimension =
      map (λ (s : Section). s.dimension) (sections snapshot report) in
    ceiling_is_a2 ds
    ∙ verdict (has_fail ds) (passes coverage ds) (passes product_context ds)
        (is_fail (coverage_section snapshot).dimension.status)
        (is_fail (verification_section snapshot report).dimension.status)
        (not snapshot.inventory.truncated && ltb 0 snapshot.inventory.files_observed)
        (not (is_empty snapshot.product_signals)) (is_empty snapshot.checks) (is_empty results)
        (ltb 0 (failing report)) (all_passed results) (fails snapshot report)
        (coverage_fails snapshot report) (verification_fails snapshot report)
        (coverage_passes snapshot report) (product_passes snapshot report)
        (failing-summarize results) (none_all_passed results)
