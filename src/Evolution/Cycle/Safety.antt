-- ===== src/Evolution/Cycle/Safety.antt =====
-- What a cycle must have been through: verification before completion, and autonomy before execution.
use cyclewarden.Prelude.{
  ◌≤◌, ◌<◌, ◌≡◌, ap, ◌∙◌, sym, subst, Option, ◌⊎◌, inl, inr, Bool, true, ◌&&◌, ◌||◌, List, [], ◌∷◌,
  ◌++◌, String, ℤ, any, leb, ◌==◌, or_else, arith,
}
use cyclewarden.Evolution.Types.{
  EvolutionStage, stage_eq, stage_beq_iff, stage_index, EvolutionCycle, TransitionInput,
}
use cyclewarden.Evolution.Types.EvolutionStage.{executing, verified, completed}
use cyclewarden.Evolution.Errors.{accepted, bind-accepted}
use cyclewarden.Evolution.Policy.{AuthorizationDecision, authorize_action, autonomy_rank, risk_rank}
use cyclewarden.Evolution.Policy.Authorization.{authorize_action_iff, HasApproval}
use cyclewarden.Evolution.Cycle.{
  transition_cycle, can_transition, execution_request, has_passed, refuse_unless_allowed,
}
use cyclewarden.Evolution.Cycle.History.{transition_cycle-Moved, run_cycle}

-- The stages of a cycle that has not been verified.
abbrev pub is_unverified : EvolutionStage → Bool
is_unverified s = leb (stage_index s) 8 || leb 14 (stage_index s)

unverified_step :
    (a b : EvolutionStage)
    → is_unverified a ≡ true
    → can_transition a b ≡ true
    → (b ≡ verified) ⊎ (is_unverified b ≡ true)
unverified_step a b h t = ground arith

-- The stages of a cycle that has not begun to execute.
abbrev pub is_unexecuted : EvolutionStage → Bool
is_unexecuted s =
    leb (stage_index s) 6 || s == EvolutionStage.rejected || s == EvolutionStage.inconclusive

unexecuted_step :
    (a b : EvolutionStage)
    → is_unexecuted a ≡ true
    → can_transition a b ≡ true
    → (b ≡ executing) ⊎ (is_unexecuted b ≡ true)
unexecuted_step a b h t = ground arith

allowed_of : (d : AuthorizationDecision) → refuse_unless_allowed d ≡ accepted tt → d.allowed ≡ true
allowed_of d h = ground arith

abbrev pub is_passing : EvolutionStage × TransitionInput → Bool
is_passing (to, input) = to == verified && has_passed input.verification_passed

module _ (clock : String) (date_parse : String → Option ℤ) where
  -- No cycle completes without a passing verification: accepted transitions from a stage before
  -- `verified` to `completed` include one to `verified` whose input says that the verification
  -- passed.
  pub completion_needs_verification :
      (cycle last : EvolutionCycle) (steps : List (EvolutionStage × TransitionInput))
      → is_unverified cycle.stage ≡ true
      → run_cycle clock date_parse cycle steps ≡ accepted last
      → last.stage ≡ completed
      → any is_passing steps ≡ true
  completion_needs_verification cycle last [] u h c = ground arith
  completion_needs_verification cycle last ((to, input) ∷ steps) u h c =
      let (next, first, rest) =
        bind-accepted (transition_cycle clock date_parse cycle to input)
          (λ t. run_cycle clock date_parse t steps) last h in
      let m = transition_cycle-Moved clock date_parse cycle to input next first in
      elim (unverified_step cycle.stage to u m.legal) [
        | inl here ↦ ground (arith, m.passed, stage_beq_iff to verified)
        | inr still ↦ ground (
          arith,
          completion_needs_verification next last steps
              (ap (λ (t : EvolutionCycle). is_unverified t.stage) m.result ∙ still) rest c,
        )
      ]

  -- A cycle is moved to `executing` only with autonomy A3 or more, and only with an approval of
  -- the execution when its risk is R3 or more.
  pub execution_is_authorized :
      (cycle next : EvolutionCycle) (input : TransitionInput)
      → transition_cycle clock date_parse cycle executing input ≡ accepted next
      → (3 ≤ autonomy_rank cycle.autonomy)
        × ((risk_rank cycle.risk < 3)
            ⊎ HasApproval date_parse clock (
                execution_request cycle
                  (cycle.approvals ++ input.approvals)
                  (or_else input.now clock)))
  execution_is_authorized cycle next input h =
      let m = transition_cycle-Moved clock date_parse cycle executing input next h in
      let request =
        execution_request cycle (cycle.approvals ++ input.approvals) (or_else input.now clock) in
      let (enough, approved) =
        (authorize_action_iff date_parse clock request).0
          (allowed_of (authorize_action date_parse clock request) m.authorized) in
      (enough, elim approved [ inl unneeded ↦ inl (ground arith) | inr a ↦ inr a ])

  -- A cycle of autonomy A2 or less never executes: no accepted transitions lead it from a stage
  -- before `executing` to that stage or to any that follows it.
  pub low_autonomy_never_executes :
      (cycle last : EvolutionCycle) (steps : List (EvolutionStage × TransitionInput))
      → autonomy_rank cycle.autonomy ≤ 2
      → is_unexecuted cycle.stage ≡ true
      → run_cycle clock date_parse cycle steps ≡ accepted last
      → is_unexecuted last.stage ≡ true
  low_autonomy_never_executes cycle last [] low u h = ground arith
  low_autonomy_never_executes cycle last ((to, input) ∷ steps) low u h =
      let (next, first, rest) =
        bind-accepted (transition_cycle clock date_parse cycle to input)
          (λ t. run_cycle clock date_parse t steps) last h in
      let m = transition_cycle-Moved clock date_parse cycle to input next first in
      elim (unexecuted_step cycle.stage to u m.legal) [
        | inl here ↦
            let (enough, _) = execution_is_authorized cycle next input (
              subst (λ s. transition_cycle clock date_parse cycle s input ≡ accepted next) here
                first) in
            absurd (omega arith)
        | inr still ↦
            low_autonomy_never_executes next last steps
              (subst (λ a. autonomy_rank a ≤ 2)
                (ap (λ (t : EvolutionCycle). t.autonomy) (sym m.result)) low)
              (ap (λ (t : EvolutionCycle). is_unexecuted t.stage) m.result ∙ still) rest
      ]
