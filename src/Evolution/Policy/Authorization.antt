-- ===== src/Evolution/Policy/Authorization.antt =====
-- When an action is authorized.
use mathlib.Core.List.{Memᴰ}
use cyclewarden.Prelude.{
  ◌≤◌, ◌≡◌, ◌≢◌, ◌↔◌, ◌⊎◌, inl, inr, refl, Bool, true, false, Option, none, some, List, [], ◌∷◌,
  String, ℤ, or_else, Bool-cases, Option-cases, find, arith, str_iff, ltb_ℤ, ltb,
}
use cyclewarden.Evolution.Types.{
  EvolutionAction, EvolutionApproval, action_beq_iff, evolution_policy_version,
}
use cyclewarden.Evolution.Policy.{
  AuthorizationInput, authorize_action, autonomy_rank, minimum_autonomy, needs_approval, trimmed,
  approval_matches, valid_date, with_approval, matching_approval, is_current,
}

module _ {A : Type 0} (p : A → Bool) where
  find_sound : (xs : List A) (a : A) → find p xs ≡ some a → Memᴰ a xs × (p a ≡ true)
  find_sound [] a h = absurd (cc)
  find_sound (x ∷ xs) a h = elim (Bool-cases (p x)) [
    | inl hit ↦ (Memᴰ.head (ground arith), ground arith)
    | inr miss ↦ let (m, q) = find_sound xs a (ground arith) in (Memᴰ.tail m, q)
  ]

  find_complete : (xs : List A) (a : A) → Memᴰ a xs → p a ≡ true → find p xs ≢ none
  find_complete [] a m h e = elim m [ ]
  find_complete (x ∷ xs) a (Memᴰ.head same) h e = ground arith
  find_complete (x ∷ xs) a (Memᴰ.tail m) h e = ground (arith, find_complete xs a m h)

module _ (date_parse : String → Option ℤ) where
  -- An approval has not expired: it has no expiry date, or one that cannot be read, or one that is later
  -- than a readable present.
  abbrev pub IsUnexpired : EvolutionApproval → String → Type 0
  IsUnexpired approval now =
      (valid_date date_parse approval.expires_at ≡ none)
      ⊎ ((expiry : ℤ) × (present : ℤ) × (valid_date date_parse approval.expires_at ≡ some expiry)
          × (date_parse now ≡ some present)
          × (ltb_ℤ present expiry ≡ true))

  -- An approval is for this action on this resource of this cycle, under the present policy, and is
  -- neither revoked nor expired.
  pub record Grants (action : EvolutionAction) (cycle_id scope now : String)
      (approval : EvolutionApproval) : Type 0 where
    pub same_action : approval.action ≡ action
    pub same_cycle : approval.cycle_id ≡ cycle_id
    pub same_scope : approval.scope ≡ scope
    pub same_policy : approval.policy_version ≡ evolution_policy_version
    pub unrevoked : approval.revoked_at ≡ none
    pub unexpired : IsUnexpired approval now

  current-IsUnexpired :
      (approval : EvolutionApproval) (now : String) (e p : Option ℤ)
      → valid_date date_parse approval.expires_at ≡ e
      → date_parse now ≡ p
      → is_current e p ≡ true
      → IsUnexpired approval now
  current-IsUnexpired approval now none p h k c = inl h
  current-IsUnexpired approval now (some e) none h k c = absurd (cc)
  current-IsUnexpired approval now (some e) (some p) h k c = inr (e, p, h, k, c)

  current_of :
      (approval : EvolutionApproval) (now : String)
      → IsUnexpired approval now
      → is_current (valid_date date_parse approval.expires_at) (date_parse now) ≡ true
  current_of approval now (inl h) = rw h refl
  current_of approval now (inr (e, p, h, k, c)) = rw (h, k) c

  matches_of :
      (action : EvolutionAction) (cycle_id scope now : String) (a : EvolutionApproval)
      → Grants action cycle_id scope now a
      → approval_matches date_parse action cycle_id scope now a ≡ true
  matches_of action cycle_id scope now a g = ground (
    arith,
    g.same_action,
    g.same_cycle,
    g.same_scope,
    g.same_policy,
    g.unrevoked,
    current_of a now g.unexpired,
    action_beq_iff a.action action,
    str_iff a.cycle_id cycle_id,
    str_iff a.scope scope,
  )

  approval_matches-Grants :
      (action : EvolutionAction) (cycle_id scope now : String) (a : EvolutionApproval)
      → approval_matches date_parse action cycle_id scope now a ≡ true
      → Grants action cycle_id scope now a
  approval_matches-Grants action cycle_id scope now a h = record {
    same_action = ground (arith, action_beq_iff a.action action);
    same_cycle = ground (arith, str_iff a.cycle_id cycle_id);
    same_scope = ground (arith, str_iff a.scope scope);
    same_policy = ground arith;
    unrevoked = ground arith;
    unexpired = current-IsUnexpired a now _ _ refl refl (ground arith);
  }

module _ (date_parse : String → Option ℤ) (clock : String) where
  -- Some approval grants the action on the cycle and the scope that the input names.
  pub record HasApproval (input : AuthorizationInput) : Type 0 where
    pub cycle_id : String
    pub scope : String
    pub names_cycle : trimmed input.cycle_id ≡ some cycle_id
    pub names_scope : trimmed input.required_scope ≡ some scope
    pub approval : EvolutionApproval
    pub given : Memᴰ approval input.approvals
    pub grants : Grants date_parse input.action cycle_id scope (or_else input.now clock) approval

  approved_of :
      (input : AuthorizationInput) (c t : Option String)
      → trimmed input.cycle_id ≡ c
      → trimmed input.required_scope ≡ t
      → (with_approval date_parse clock input c t).allowed ≡ true
      → HasApproval input
  approved_of input (some c) (some t) hc ht a =
      let now = or_else input.now clock in
      elim (Option-cases (matching_approval date_parse input.action c t input.approvals now)) [
        | inl none_found ↦ absurd (ground arith)
        | inr (approval, found) ↦
            let (m, p) =
              find_sound (approval_matches date_parse input.action c t now) input.approvals approval
                found in
            record {
              cycle_id = c;
              scope = t;
              names_cycle = hc;
              names_scope = ht;
              approval = approval;
              given = m;
              grants = approval_matches-Grants date_parse input.action c t now approval p;
            }
      ]
  approved_of input none t hc ht a = absurd (ground arith)
  approved_of input (some c) none hc ht a = absurd (ground arith)

  allowed_of :
      (input : AuthorizationInput)
      → HasApproval input
      → (with_approval date_parse clock input
          (trimmed input.cycle_id)
          (trimmed input.required_scope)).allowed
        ≡ true
  allowed_of input h =
      let now = or_else input.now clock in
      let p = approval_matches date_parse input.action h.cycle_id h.scope now in
      elim (Option-cases (find p input.approvals)) [
        | inl none_found ↦ absurd (
            find_complete p input.approvals h.approval h.given
              (matches_of date_parse input.action h.cycle_id h.scope now h.approval h.grants)
              none_found)
        | inr (approval, found) ↦ rw (h.names_cycle, h.names_scope, found) refl
      ]

  -- An action is allowed exactly when the cycle's autonomy is at least the action's minimum and,
  -- where the action needs an approval, one of the given approvals grants it on the named cycle
  -- and scope.
  pub authorize_action_iff :
      (input : AuthorizationInput)
      → ((authorize_action date_parse clock input).allowed ≡ true) ↔ (
          (autonomy_rank (minimum_autonomy input.action) ≤ autonomy_rank input.autonomy)
          × ((needs_approval input.risk input.action ≡ false) ⊎ HasApproval input))
  unfolding authorize_action
  authorize_action_iff input =
      elim (Bool-cases
        (ltb (autonomy_rank input.autonomy) (autonomy_rank (minimum_autonomy input.action)))) [
          | inl low ↦ (λ h. absurd (ground arith), λ h. absurd (ground arith))
          | inr high ↦ elim (Bool-cases (needs_approval input.risk input.action)) [
            | inl needed ↦ (
              λ h. (
                ground arith,
                inr (
                    approved_of input (trimmed input.cycle_id) (trimmed input.required_scope) refl
                      refl (ground arith)),
              ),
              λ h. elim h.1 [
                | inl unneeded ↦ absurd (cc)
                | inr a ↦ rw (high, needed) (allowed_of input a)
              ],
            )
            | inr unneeded ↦ (λ h. (ground arith, inl unneeded), λ h. rw (high, unneeded) refl)
          ]
        ]
