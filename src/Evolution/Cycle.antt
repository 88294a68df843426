-- ===== src/Evolution/Cycle.antt =====
-- packages/evolution-core/src/state-machine.ts: the stages of a cycle, and what each of them demands.
pub mod History
pub mod Safety
use cyclewarden.Prelude.{
  ◌+◌, Bool, false, not, ◌&&◌, ◌||◌, Option, none, some, List, [], ◌∷◌, ◌++◌, String, ℤ, ltb,
  is_blank, trim, utf16_length, decimal, or_else, length, contains, ◌==◌, string_eq, ◌++ₛ◌,
  if◌then◌else◌,
}
use cyclewarden.Evolution.Types.{
  EvolutionStage, stage_eq, bucket_eq, ArtifactAdditions, EvolutionApproval, EvolutionEvent,
  EvolutionResearchRecords, EvolutionCycle, CreateCycleInput, TransitionInput, EvolutionAction,
}
use cyclewarden.Evolution.Types.EvolutionStage.{
  created, executing, verified, learned, completed, rejected, rolled_back, inconclusive,
}
use cyclewarden.Evolution.Policy.{AuthorizationInput, AuthorizationDecision, authorize_action}
use cyclewarden.Evolution.Errors.{
  Checked, accepted, refuse_if, invalid_cycle_id, vague_objective, cycle_is_terminal,
  invalid_transition, requires_actor_and_reason, requires_passing_verification, not_authorized,
  ◌>>=◌, ◌>>◌,
}
use cyclewarden.Evolution.Research.{empty_research_records, merge_research_records}
use cyclewarden.Evolution.Stages.{
  normal_next, terminal_stages, rejectable_stages, rollback_stages, empty_artifacts, unique,
  merge_artifacts, assert_required_artifacts, is_portable_identifier,
}

abbrev pub can_transition : EvolutionStage → EvolutionStage → Bool
can_transition from to =
    is_normal (normal_next from)
    || (from == learned && to == completed)
    || (contains from rejectable_stages && (to == rejected || to == inconclusive))
    || (contains from rollback_stages && to == rolled_back)
  where
    is_normal : Option EvolutionStage → Bool
    is_normal none = false
    is_normal (some next) = next == to

abbrev pub additions_of : TransitionInput → ArtifactAdditions
additions_of input = or_else input.add_artifacts []

-- `Object.values(input.addArtifacts ?? {}).flatMap((refs) => refs ?? [])`
abbrev pub flat_refs : ArtifactAdditions → List String
flat_refs [] = []
flat_refs ((bucket, refs) ∷ rest) = refs ++ flat_refs rest

-- What the transition to `executing` asks of the policy.
abbrev pub execution_request : EvolutionCycle → List EvolutionApproval → String → AuthorizationInput
execution_request cycle approvals now = record {
  autonomy = cycle.autonomy;
  risk = cycle.risk;
  action = EvolutionAction.modify_code;
  cycle_id = some cycle.cycle_id;
  required_scope = some ("cycle:" ++ₛ cycle.cycle_id ++ₛ ":modify-code");
  approvals = approvals;
  now = some now;
}

abbrev pub refuse_unless_allowed : AuthorizationDecision → Checked (Unit {0})
refuse_unless_allowed decision = refuse_if (not decision.allowed) (not_authorized decision.reason)

abbrev pub has_passed : Option Bool → Bool
has_passed none = false
has_passed (some passed) = passed

-- The event that a transition appends to the history.
abbrev pub new_event : EvolutionCycle → EvolutionStage → TransitionInput → String → EvolutionEvent
new_event cycle to input now = record {
  id = cycle.cycle_id ++ₛ ":" ++ₛ decimal (length cycle.history + 1);
  from = cycle.stage;
  to = to;
  at_time = now;
  actor = trim input.actor;
  reason = trim input.reason;
  evidence_refs = unique (flat_refs (additions_of input));
}

-- The cycle after a transition.
abbrev pub moved_cycle :
    EvolutionCycle
    → EvolutionStage
    → TransitionInput
    → String
    → EvolutionResearchRecords
    → EvolutionCycle
moved_cycle cycle to input now research = record cycle {
  stage = to;
  updated_at = now;
  artifacts = merge_artifacts cycle.artifacts (additions_of input);
  approvals = cycle.approvals ++ input.approvals;
  research = some research;
  history = cycle.history ++ new_event cycle to input now ∷ [];
}

-- The cycle that `createCycle` returns.
abbrev pub new_cycle : CreateCycleInput → String → EvolutionCycle
new_cycle input now = record {
  cycle_id = input.cycle_id;
  objective = trim input.objective;
  autonomy = input.autonomy;
  risk = input.risk;
  stage = created;
  created_at = now;
  updated_at = now;
  artifacts = empty_artifacts;
  approvals = [];
  history = [];
  research = some empty_research_records;
}

-- `clock` is the text that `new Date().toISOString()` returns.
module _ (clock : String) where
  unfoldable pub create_cycle : CreateCycleInput → Checked EvolutionCycle
  create_cycle input = do
    refuse_if (not (is_portable_identifier input.cycle_id)) invalid_cycle_id
    refuse_if (ltb (utf16_length (trim input.objective)) 8) vague_objective
    accepted (new_cycle input (or_else input.now clock))

  -- `date_parse` is JavaScript's `Date.parse`, with `none` for `NaN`.
  module _ (date_parse : String → Option ℤ) where
    abbrev pub authorize_execution :
        EvolutionCycle → EvolutionStage → TransitionInput → String → Checked (Unit {0})
    authorize_execution cycle to input now =
        if to == executing
        then refuse_unless_allowed (
            authorize_action date_parse clock
              (execution_request cycle (cycle.approvals ++ input.approvals) now))
        else accepted tt

    unfoldable pub transition_cycle :
        EvolutionCycle → EvolutionStage → TransitionInput → Checked EvolutionCycle
    transition_cycle cycle to input = do
      refuse_if (contains cycle.stage terminal_stages) (cycle_is_terminal cycle.stage)
      refuse_if (not (can_transition cycle.stage to)) (invalid_transition cycle.stage to)
      refuse_if (is_blank (trim input.actor) || is_blank (trim input.reason))
          requires_actor_and_reason
      let now = or_else input.now clock
      authorize_execution cycle to input now
      refuse_if (to == verified && not (has_passed input.verification_passed))
          requires_passing_verification
      let artifacts = merge_artifacts cycle.artifacts (additions_of input)
      assert_required_artifacts to artifacts
      research ← merge_research_records cycle.research input.append_research
      accepted (moved_cycle cycle to input now research)
