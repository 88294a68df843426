-- ===== src/Evolution/Scorecard/Blockers.antt =====
-- Blocked scorecards name what blocks them (packages/evolution-core/src/scorecard.ts).
use cyclewarden.Prelude.{
  ◌≡◌, refl, ap, ◌∙◌, Bool, true, false, not, map, All, sym, if◌then◌else◌, ◌&&◌, List, [], ◌∷◌,
  ◌++◌, String, is_empty, contains, string_eq, arith,
}
use cyclewarden.Evolution.Stages.{add_all}
use cyclewarden.Evolution.Scorecard.Inputs.{ProjectSnapshot, CheckReport}
use cyclewarden.Evolution.Scorecard.Coverage.{
  Section, ScorecardDimension, coverage_section, state_section,
}
use cyclewarden.Evolution.Scorecard.Sections.{
  sections, verification_section, automation_section, product_section, risk_section,
}
use cyclewarden.Evolution.Scorecard.Card.{
  is_fail, has_fail, gather, research_readiness_of, autonomy_ceiling_of, Readiness, AutonomyCeiling,
  ceiling_a0, distinct, create_project_scorecard,
}

abbrev pub is_blocked : Readiness → Bool
is_blocked Readiness.blocked = true
is_blocked _ = false

abbrev pub is_a0 : AutonomyCeiling → Bool
is_a0 ceiling_a0 = true
is_a0 _ = false

-- A set that has got a value is not empty.
extended_is_full :
    (b : Bool) (set : List String) (t : String)
    → is_empty (if b then set else set ++ t ∷ []) ≡ (b && is_empty set)
extended_is_full true set t = refl
extended_is_full false [] t = refl
extended_is_full false (x ∷ xs) t = refl

add_all_grows :
    (set texts : List String) → is_empty set ≡ false → is_empty (add_all set texts) ≡ false
add_all_grows set [] h = h
add_all_grows set (t ∷ ts) h =
    add_all_grows (if contains t set then set else set ++ t ∷ []) ts
      (extended_is_full (contains t set) set t ∙ rw h (ground arith))

distinct_keeps_emptiness : (texts : List String) → is_empty (distinct texts) ≡ is_empty texts
distinct_keeps_emptiness [] = refl
distinct_keeps_emptiness (t ∷ ts) = add_all_grows (t ∷ []) ts refl

is_empty-append : (xs ys : List String) → is_empty (xs ++ ys) ≡ (is_empty xs && is_empty ys)
is_empty-append [] ys = refl
is_empty-append (x ∷ xs) ys = refl

-- A section adds a blocker exactly when its dimension fails.
Accounts : Section → Type 0
Accounts s = is_fail s.dimension.status ≡ not (is_empty s.blockers)

blockers_are_failures :
    (ss : List Section)
    → All Accounts ss
    → has_fail (map (λ s. s.dimension) ss) ≡ not (is_empty (gather (λ s. s.blockers) ss))
unfolding Accounts
blockers_are_failures [] hs = refl
blockers_are_failures (s ∷ ss) (h, hs) =
    rw (is_empty-append s.blockers (gather (λ s. s.blockers) ss), h, blockers_are_failures ss hs)
      (ground arith)

coverage-Accounts : (snapshot : ProjectSnapshot) → Accounts (coverage_section snapshot)
unfolding Accounts
coverage-Accounts snapshot = ground arith

state-Accounts : (snapshot : ProjectSnapshot) → Accounts (state_section snapshot)
unfolding Accounts
state-Accounts snapshot = ground arith

verification-Accounts :
    (snapshot : ProjectSnapshot) (report : CheckReport)
    → Accounts (verification_section snapshot report)
unfolding Accounts
verification-Accounts snapshot report = ground arith

automation-Accounts : (snapshot : ProjectSnapshot) → Accounts (automation_section snapshot)
unfolding Accounts
automation-Accounts snapshot = ground arith

product-Accounts : (snapshot : ProjectSnapshot) → Accounts (product_section snapshot)
unfolding Accounts
product-Accounts snapshot = ground arith

risk-Accounts : (snapshot : ProjectSnapshot) → Accounts (risk_section snapshot)
unfolding Accounts
risk-Accounts snapshot = ground arith

sections-Accounts :
    (snapshot : ProjectSnapshot) (report : CheckReport) → All Accounts (sections snapshot report)
sections-Accounts snapshot report = (
  coverage-Accounts snapshot,
  (
    state-Accounts snapshot,
    (
      verification-Accounts snapshot report,
      (automation-Accounts snapshot, (product-Accounts snapshot, (risk-Accounts snapshot, tt))),
    ),
  ),
)

blocked_if_fail :
    (ds : List ScorecardDimension) → is_blocked (research_readiness_of ds) ≡ has_fail ds
blocked_if_fail ds = ground arith

a0_if_fail : (ds : List ScorecardDimension) → is_a0 (autonomy_ceiling_of ds) ≡ has_fail ds
a0_if_fail ds = ground arith

-- A scorecard is blocked, with the autonomy A0, exactly when it names a blocker.
pub blocked_iff_blockers :
    (snapshot : ProjectSnapshot) (report : CheckReport) (now : String)
    → (is_blocked (create_project_scorecard snapshot report now).research_readiness
        ≡ not (is_empty (create_project_scorecard snapshot report now).blockers))
      × (is_a0 (create_project_scorecard snapshot report now).autonomy_ceiling
          ≡ not (is_empty (create_project_scorecard snapshot report now).blockers))
unfolding create_project_scorecard
blocked_iff_blockers snapshot report now =
    let ss : List Section = sections snapshot report in
    let ds : List ScorecardDimension = map (λ (s : Section). s.dimension) ss in
    let named : List String = gather (λ s. s.blockers) ss in
    let e : has_fail ds ≡ not (is_empty (distinct named)) =
      blockers_are_failures ss (sections-Accounts snapshot report)
      ∙ ap not (sym (distinct_keeps_emptiness named)) in
    (blocked_if_fail ds ∙ e, a0_if_fail ds ∙ e)
