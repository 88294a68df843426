-- ===== src/Domain/Approval.antt =====
-- packages/forge-domain/src/approval/approval-policy.ts: which requested actions need an approval.
pub mod Classification
use cyclewarden.Prelude.{
  ℕ, Bool, true, false, not, Option, some, List, [], ◌∷◌, String, ltb, filter, is_empty, map,
  if◌then◌else◌,
}
use cyclewarden.Domain.Contracts.{RiskLevel, low, medium, high, critical}

pub data SensitiveActionReason : Type 0 where
  production_deployment destructive_data_change protected_branch_write : SensitiveActionReason
  secret_access unrestricted_network_access privilege_expansion : SensitiveActionReason
  budget_increase : SensitiveActionReason

pub record RequestedAction : Type 0 where
  pub operation : String
  pub production_deployment : Option Bool
  pub destructive_data_change : Option Bool
  pub protected_branch_write : Option Bool
  pub secret_access : Option Bool
  pub unrestricted_network_access : Option Bool
  pub privilege_expansion : Option Bool
  pub budget_increase : Option Bool

pub record ApprovalClassification : Type 0 where
  pub requires_approval : Bool
  pub risk_level : RiskLevel
  pub reasons : List SensitiveActionReason

-- A row of `REASON_PRIORITY`: the row's `key` is read as a function.
pub record Row : Type 0 where
  pub reason : SensitiveActionReason
  pub key : RequestedAction → Option Bool
  pub risk : RiskLevel

row : SensitiveActionReason → (RequestedAction → Option Bool) → RiskLevel → Row
row r k l = record { reason = r; key = k; risk = l }

pub reason_priority : List Row
unfolding row
reason_priority =
    row SensitiveActionReason.production_deployment (λ a. a.production_deployment) critical
    ∷ row SensitiveActionReason.destructive_data_change (λ a. a.destructive_data_change) critical
    ∷ row SensitiveActionReason.protected_branch_write (λ a. a.protected_branch_write) high
    ∷ row SensitiveActionReason.secret_access (λ a. a.secret_access) high
    ∷ row SensitiveActionReason.unrestricted_network_access (λ a. a.unrestricted_network_access)
        high
    ∷ row SensitiveActionReason.privilege_expansion (λ a. a.privilege_expansion) high
    ∷ row SensitiveActionReason.budget_increase (λ a. a.budget_increase) medium
    ∷ []

abbrev pub risk_score : RiskLevel → ℕ
risk_score low = 0
risk_score medium = 1
risk_score high = 2
risk_score critical = 3

abbrev pub is_true : Option Bool → Bool
is_true (some true) = true
is_true _ = false

-- The `reduce` over the matched rows.
highest : List Row → RiskLevel → RiskLevel
highest [] level = level
highest (r ∷ rs) level =
    highest rs (if ltb (risk_score level) (risk_score r.risk) then r.risk else level)

pub matched_rows : RequestedAction → List Row
unfolding reason_priority
matched_rows action = filter (λ r. is_true (r.key action)) reason_priority

pub classify_requested_action : RequestedAction → ApprovalClassification
unfolding matched_rows highest
classify_requested_action action =
    let matched = matched_rows action in
    record {
      requires_approval = not (is_empty matched);
      risk_level = highest matched low;
      reasons = map (λ r. r.reason) matched;
    }
