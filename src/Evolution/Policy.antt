-- ===== src/Evolution/Policy.antt =====
-- packages/evolution-core/src/policy.ts: which actions a cycle is authorized to take.
pub mod Authorization
use cyclewarden.Prelude.{
  ℕ, Bool, true, false, not, ◌&&◌, ◌||◌, Option, none, some, List, [], ◌∷◌, String, ℤ, ltb, leb,
  ltb_ℤ, or_else, is_some, ◌==◌, string_eq, nat_eq, contains, find, trim, is_blank, if◌then◌else◌,
}
use cyclewarden.Evolution.Types.{
  AutonomyLevel, a0, a1, a2, a3, a4, RiskClass, r0, r1, r2, r3, r4, EvolutionAction, action_eq,
  EvolutionApproval, evolution_policy_version,
}
use cyclewarden.Evolution.Types.EvolutionAction.{
  inspect, research, plan, record_memory, run_checks, modify_code, open_draft_pr, merge, deploy,
  production_write, read_secrets, spend,
}

abbrev pub autonomy_rank : AutonomyLevel → ℕ
autonomy_rank a0 = 0
autonomy_rank a1 = 1
autonomy_rank a2 = 2
autonomy_rank a3 = 3
autonomy_rank a4 = 4

abbrev pub risk_rank : RiskClass → ℕ
risk_rank r0 = 0
risk_rank r1 = 1
risk_rank r2 = 2
risk_rank r3 = 3
risk_rank r4 = 4

abbrev pub minimum_autonomy : EvolutionAction → AutonomyLevel
minimum_autonomy inspect = a0
minimum_autonomy research = a1
minimum_autonomy plan = a1
minimum_autonomy record_memory = a1
minimum_autonomy run_checks = a1
minimum_autonomy modify_code = a3
minimum_autonomy open_draft_pr = a3
minimum_autonomy merge = a4
minimum_autonomy deploy = a4
minimum_autonomy production_write = a4
minimum_autonomy read_secrets = a4
minimum_autonomy spend = a4

abbrev pub protected_actions : List EvolutionAction
protected_actions = merge ∷ deploy ∷ production_write ∷ read_secrets ∷ spend ∷ []

-- The message of a decision, by the template that it is printed from.
pub data DecisionReason : Type 0 where
  requires_autonomy : EvolutionAction → AutonomyLevel → AutonomyLevel → DecisionReason
  is_permitted : EvolutionAction → AutonomyLevel → RiskClass → DecisionReason
  requires_exact_scope : EvolutionAction → DecisionReason
  requires_current_approval : EvolutionAction → String → String → DecisionReason
  is_permitted_by_approval : EvolutionAction → String → DecisionReason

pub record AuthorizationDecision : Type 0 where
  pub allowed : Bool
  pub reason : DecisionReason
  pub requires_approval : Bool
  pub matched_approval_id : Option String

pub record AuthorizationInput : Type 0 where
  pub autonomy : AutonomyLevel
  pub risk : RiskClass
  pub action : EvolutionAction
  pub cycle_id : Option String
  pub required_scope : Option String
  pub approvals : List EvolutionApproval
  pub now : Option String

-- `input.cycleId?.trim()`, where an empty text counts as absent.
abbrev pub trimmed : Option String → Option String
trimmed none = none
trimmed (some s) = if is_blank (trim s) then none else some (trim s)

abbrev pub needs_approval : RiskClass → EvolutionAction → Bool
needs_approval risk action =
    contains action protected_actions
    || (leb (risk_rank r3) (risk_rank risk) && (action == modify_code || action == open_draft_pr))

-- `expiry > now`, which is false of `NaN`.
abbrev pub is_later : ℤ → Option ℤ → Bool
is_later expiry none = false
is_later expiry (some now) = ltb_ℤ now expiry

-- `expiry === null || expiry > now`
abbrev pub is_current : Option ℤ → Option ℤ → Bool
is_current none now = true
is_current (some expiry) now = is_later expiry now

-- The decision by what the search for an approval found.
abbrev pub by_approval :
    EvolutionAction → String → String → Option EvolutionApproval → AuthorizationDecision
by_approval action cycle_id required_scope none = record {
  allowed = false;
  requires_approval = true;
  matched_approval_id = none;
  reason = requires_current_approval action cycle_id required_scope;
}
by_approval action cycle_id required_scope (some approval) = record {
  allowed = true;
  requires_approval = true;
  matched_approval_id = some approval.approval_id;
  reason = is_permitted_by_approval action approval.approval_id;
}

-- `date_parse` is JavaScript's `Date.parse`, with `none` for `NaN`.
module _ (date_parse : String → Option ℤ) where
  abbrev pub valid_date : Option String → Option ℤ
  valid_date none = none
  valid_date (some value) = date_parse value

  abbrev pub approval_matches :
      EvolutionAction → String → String → String → EvolutionApproval → Bool
  approval_matches action cycle_id required_scope now approval =
      approval.action == action
      && approval.cycle_id == cycle_id
      && approval.scope == required_scope
      && approval.policy_version == evolution_policy_version
      && not (is_some approval.revoked_at)
      && is_current (valid_date approval.expires_at) (date_parse now)

  abbrev pub matching_approval :
      EvolutionAction → String → String → List EvolutionApproval → String → Option EvolutionApproval
  matching_approval action cycle_id required_scope approvals now =
      find (approval_matches action cycle_id required_scope now) approvals

  -- `clock` is the text that `new Date().toISOString()` returns.
  module _ (clock : String) where
    -- The decision on an action that needs an approval.
    abbrev pub with_approval :
        AuthorizationInput → Option String → Option String → AuthorizationDecision
    with_approval input (some cycle_id) (some required_scope) =
        by_approval input.action cycle_id required_scope (
          matching_approval input.action cycle_id required_scope input.approvals
            (or_else input.now clock))
    with_approval input _ _ = record {
      allowed = false;
      requires_approval = true;
      matched_approval_id = none;
      reason = requires_exact_scope input.action;
    }

    unfoldable pub authorize_action : AuthorizationInput → AuthorizationDecision
    authorize_action input =
        let required = minimum_autonomy input.action in
        if ltb (autonomy_rank input.autonomy) (autonomy_rank required)
        then record {
          allowed = false;
          requires_approval = false;
          matched_approval_id = none;
          reason = requires_autonomy input.action required input.autonomy;
        }
        else if not (needs_approval input.risk input.action)
        then record {
          allowed = true;
          requires_approval = false;
          matched_approval_id = none;
          reason = is_permitted input.action input.autonomy input.risk;
        }
        else with_approval input (trimmed input.cycle_id) (trimmed input.required_scope)
