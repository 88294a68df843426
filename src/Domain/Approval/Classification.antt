-- ===== src/Domain/Approval/Classification.antt =====
-- What the classification of a requested action means.
use cyclewarden.Prelude.{
  is_empty, not, ℕ, ◌≤◌, ◌≡◌, refl, subst, ◌∙◌, ◌↔◌, ◌⊎◌, inl, inr, Bool, true, ◌&&◌, Option, List,
  [], ◌∷◌, arith, map, All, any, contains, Eq, nat_beq, filter, ltb, Bool-cases, if◌then◌else◌,
}
use mathlib.Core.List.{Memᴰ}
use cyclewarden.Domain.Contracts.{RiskLevel, low, medium, high, critical}
use cyclewarden.Domain.Approval.{
  SensitiveActionReason, RequestedAction, Row, reason_priority, risk_score, is_true, highest,
  classify_requested_action,
}

-- The flag of an action that a reason stands for.
abbrev pub flag : SensitiveActionReason → RequestedAction → Option Bool
flag SensitiveActionReason.production_deployment a = a.production_deployment
flag SensitiveActionReason.destructive_data_change a = a.destructive_data_change
flag SensitiveActionReason.protected_branch_write a = a.protected_branch_write
flag SensitiveActionReason.secret_access a = a.secret_access
flag SensitiveActionReason.unrestricted_network_access a = a.unrestricted_network_access
flag SensitiveActionReason.privilege_expansion a = a.privilege_expansion
flag SensitiveActionReason.budget_increase a = a.budget_increase

-- The risk of a reason.
abbrev pub risk_of : SensitiveActionReason → RiskLevel
risk_of SensitiveActionReason.production_deployment = critical
risk_of SensitiveActionReason.destructive_data_change = critical
risk_of SensitiveActionReason.budget_increase = medium
risk_of _ = high

abbrev pub reason_rank : SensitiveActionReason → ℕ
reason_rank SensitiveActionReason.production_deployment = 0
reason_rank SensitiveActionReason.destructive_data_change = 1
reason_rank SensitiveActionReason.protected_branch_write = 2
reason_rank SensitiveActionReason.secret_access = 3
reason_rank SensitiveActionReason.unrestricted_network_access = 4
reason_rank SensitiveActionReason.privilege_expansion = 5
reason_rank SensitiveActionReason.budget_increase = 6

abbrev pub reason_beq : SensitiveActionReason → SensitiveActionReason → Bool
reason_beq a b = nat_beq (reason_rank a) (reason_rank b)

pub reason_beq_iff : (a b : SensitiveActionReason) → (reason_beq a b ≡ true) ↔ (a ≡ b)
reason_beq_iff a b = ground arith

instance abbrev pub reason_eq : Eq SensitiveActionReason
reason_eq = record { equal = reason_beq; equal_iff = reason_beq_iff }

-- Membership in the reasons of the rows that a test keeps.
contains-filter :
    (r : SensitiveActionReason) (p : Row → Bool) (rows : List Row)
    → contains r (map (λ x. x.reason) (filter p rows))
      ≡ any (λ x. p x && reason_beq x.reason r) rows
contains-filter r p [] = refl
contains-filter r p (x ∷ xs) = ground (arith, contains-filter r p xs)

reasons_exact :
    (action : RequestedAction) (r : SensitiveActionReason)
    → contains r (classify_requested_action action).reasons ≡ is_true (flag r action)
unfolding classify_requested_action
reasons_exact action SensitiveActionReason.production_deployment = rw contains-filter (ground arith)
reasons_exact action _ = rw contains-filter (ground arith)

highest-ge :
    (rows : List Row) (level : RiskLevel) → risk_score level ≤ risk_score (highest rows level)
unfolding highest
highest-ge [] level = omega arith
highest-ge (r ∷ rs) level =
    ground
      (arith, highest-ge rs (if ltb (risk_score level) (risk_score r.risk) then r.risk else level))

-- A row that is kept is at most the result.
highest-mem :
    (p : Row → Bool) (x : Row) (rows : List Row) (level : RiskLevel)
    → Memᴰ x rows
    → p x ≡ true
    → risk_score x.risk ≤ risk_score (highest (filter p rows) level)
unfolding highest
highest-mem p x [] level m h = elim m [ ]
highest-mem p x (y ∷ ys) level (Memᴰ.head e) h =
    rw (← e, h)
      (ground (
        arith,
        highest-ge (filter p ys)
            (if ltb (risk_score level) (risk_score x.risk) then x.risk else level),
      ))
highest-mem p x (y ∷ ys) level (Memᴰ.tail m) h = elim (Bool-cases (p y)) [
  | inl kept ↦ rw kept (
      highest-mem p x ys (if ltb (risk_score level) (risk_score y.risk) then y.risk else level) m h)
  | inr dropped ↦ rw dropped (highest-mem p x ys level m h)
]

-- The result is the start level or the level of a kept row.
highest-attained :
    (p : Row → Bool) (rows : List Row) (level : RiskLevel)
    → (highest (filter p rows) level ≡ level)
      ⊎ ((x : Row) × Memᴰ x rows × (p x ≡ true) × (highest (filter p rows) level ≡ x.risk))
unfolding highest
highest-attained p [] level = inl refl
highest-attained p (r ∷ rs) level = elim (Bool-cases (p r)) [
  | inl kept ↦
      rw kept
        (elim (highest-attained p rs
          (if ltb (risk_score level) (risk_score r.risk) then r.risk else level)) [
            | inl e ↦ elim (Bool-cases (ltb (risk_score level) (risk_score r.risk))) [
              | inl up ↦ inr (r, Memᴰ.head refl, kept, ground arith)
              | inr down ↦ inl (ground arith)
            ]
            | inr (x, m, h, e) ↦ inr (x, Memᴰ.tail m, h, e)
          ])
  | inr dropped ↦ rw dropped (elim (highest-attained p rs level) [
    | inl e ↦ inl e
    | inr (x, m, h, e) ↦ inr (x, Memᴰ.tail m, h, e)
  ])
]

-- A row agrees with the two tables above.
abbrev Faithful : Row → Type 0
Faithful x = (x.key ≡ flag x.reason) × (x.risk ≡ risk_of x.reason)

priority-Faithful : All Faithful reason_priority
unfolding reason_priority
priority-Faithful = (
  (refl, refl),
  (
    (refl, refl),
    ((refl, refl), ((refl, refl), ((refl, refl), ((refl, refl), ((refl, refl), tt))))),
  ),
)

All-mem : (x : Row) (xs : List Row) → All Faithful xs → Memᴰ x xs → Faithful x
All-mem x [] hs m = elim m [ ]
All-mem x (y ∷ ys) hs (Memᴰ.head e) = rw e hs.0
All-mem x (y ∷ ys) hs (Memᴰ.tail m) = All-mem x ys hs.1 m

-- What holds of the rows that are kept holds of their reasons.
reasons-All :
    (p : Row → Bool) (Q : SensitiveActionReason → Type 0) (rows : List Row)
    → ((x : Row) → Memᴰ x rows → p x ≡ true → Q x.reason)
    → All Q (map (λ x. x.reason) (filter p rows))
reasons-All p Q [] h = tt
reasons-All p Q (x ∷ xs) h = elim (Bool-cases (p x)) [
  | inl kept ↦
      rw kept (h x (Memᴰ.head refl) kept, reasons-All p Q xs (λ y m k. h y (Memᴰ.tail m) k))
  | inr dropped ↦ rw dropped (reasons-All p Q xs (λ y m k. h y (Memᴰ.tail m) k))
]

risk_covered :
    (action : RequestedAction) (x : Row)
    → Memᴰ x reason_priority
    → is_true (x.key action) ≡ true
    → risk_score (risk_of x.reason) ≤ risk_score (classify_requested_action action).risk_level
unfolding classify_requested_action
risk_covered action x m h =
    subst (λ r. risk_score r ≤ risk_score (classify_requested_action action).risk_level)
      (All-mem x reason_priority priority-Faithful m).1
      (highest-mem (λ y. is_true (y.key action)) x reason_priority low m h)

risk_attained :
    (action : RequestedAction)
    → ((classify_requested_action action).risk_level ≡ low)
      ⊎ ((r : SensitiveActionReason) × (is_true (flag r action) ≡ true)
          × ((classify_requested_action action).risk_level ≡ risk_of r))
unfolding classify_requested_action
risk_attained action = elim (highest-attained (λ x. is_true (x.key action)) reason_priority low) [
  | inl e ↦ inl e
  | inr (x, m, h, e) ↦
      let f = All-mem x reason_priority priority-Faithful m in
      inr (x.reason, subst (λ k. is_true (k action) ≡ true) f.0 h, e ∙ f.1)
]

is_empty-map :
    (f : Row → SensitiveActionReason) (rows : List Row) → is_empty (map f rows) ≡ is_empty rows
is_empty-map f [] = refl
is_empty-map f (x ∷ xs) = refl

approval_needed :
    (action : RequestedAction)
    → (classify_requested_action action).requires_approval
      ≡ not (is_empty (classify_requested_action action).reasons)
unfolding classify_requested_action
approval_needed action = rw is_empty-map

-- A requested action is classified by its flags: the reasons are exactly those whose flag the
-- action sets to `true`, an approval is required exactly when there is a reason, and the risk
-- level is the highest one of the reasons: at least the level of each, and either `low` or the
-- level of a reason that applies.
pub classification_exact :
    (action : RequestedAction)
    → ((r : SensitiveActionReason)
        → contains r (classify_requested_action action).reasons ≡ is_true (flag r action))
      × ((classify_requested_action action).requires_approval
          ≡ not (is_empty (classify_requested_action action).reasons))
      × All
          (λ r. risk_score (risk_of r) ≤ risk_score (classify_requested_action action).risk_level)
          (classify_requested_action action).reasons
      × (((classify_requested_action action).risk_level ≡ low)
          ⊎ ((r : SensitiveActionReason) × (is_true (flag r action) ≡ true)
              × ((classify_requested_action action).risk_level ≡ risk_of r)))
unfolding classify_requested_action
classification_exact action = (
  reasons_exact action,
  approval_needed action,
  reasons-All (λ x. is_true (x.key action))
      (λ r. risk_score (risk_of r) ≤ risk_score (classify_requested_action action).risk_level)
      reason_priority (risk_covered action),
  risk_attained action,
)
