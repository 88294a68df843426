-- ===== src/Examples/Evolution.antt =====
-- A cycle from its creation to its completion, and what the policy says to it.
use cyclewarden.Prelude.{
  ◌+◌, ◌≤◌, ◌<◌, ◌≡◌, ◌↔◌, ◌⊎◌, refl, Bool, true, false, Option, none, some, List, [], ◌∷◌, ◌++◌,
  String, ℤ, pos, obj, end, any, length, trim, utf16_length, arith,
}
use cyclewarden.Evolution.Types.{
  EvolutionStage, a2, a3, r1, r3, EvolutionAction, ArtifactBucket, ResearchBucket, ResearchRecord,
  EvolutionResearchRecords, EvolutionApproval, EvolutionCycle, CreateCycleInput, TransitionInput,
}
use cyclewarden.Evolution.Types.EvolutionStage.{
  created, observed, executing, implemented, verified, measured, learned, completed, planned,
}
use cyclewarden.Evolution.Policy.{
  AuthorizationInput, authorize_action, autonomy_rank, risk_rank, minimum_autonomy, needs_approval,
}
use cyclewarden.Evolution.Policy.Authorization.{HasApproval, authorize_action_iff}
use cyclewarden.Evolution.Errors.{EvolutionError, Checked, accepted, refused, duplicate_record_id}
use cyclewarden.Evolution.Research.{empty_research_records, current_records, merge_research_records}
use cyclewarden.Evolution.Research.Distinct.{occurrences, AreDistinct}
use cyclewarden.Evolution.Research.Merged.{all_ids}
use cyclewarden.Evolution.Research.Uniqueness.{
  merge_research_records_distinct, merge_research_records_duplicate,
}
use cyclewarden.Evolution.Stages.{merge_artifacts}
use cyclewarden.Evolution.Cycle.{create_cycle, new_cycle, transition_cycle, execution_request}
use cyclewarden.Evolution.Cycle.History.{run_cycle, Linked, history_is_path}
use cyclewarden.Evolution.Cycle.Safety.{
  is_unexecuted, is_passing, completion_needs_verification, execution_is_authorized,
  low_autonomy_never_executes,
}

abbrev clock : String
clock = "now"

abbrev pub date_parse : String → Option ℤ
date_parse text = some (pos 0)

abbrev create_input : CreateCycleInput
create_input = record {
  cycle_id = "cycle-1";
  objective = "Faster checks";
  autonomy = a2;
  risk = r1;
  now = none;
}

abbrev cycle : EvolutionCycle
cycle = new_cycle create_input clock

abbrev step : Option (List (ArtifactBucket × List String)) → Option Bool → TransitionInput
step artifacts passed = record {
  actor = "me";
  reason = "next";
  now = none;
  add_artifacts = artifacts;
  append_research = empty_research_records;
  approvals = [];
  verification_passed = passed;
}

abbrev with_artifact : ArtifactBucket → Option Bool → TransitionInput
with_artifact bucket passed = step (some ((bucket, "ref" ∷ []) ∷ [])) passed

-- The cycle that a computation returns.
abbrev value_of : Checked EvolutionCycle → EvolutionCycle
value_of (accepted c) = c
value_of (refused e) = cycle

abbrev observing : List (EvolutionStage × TransitionInput)
observing = (observed, with_artifact ArtifactBucket.baseline none) ∷ []

abbrev observed_cycle : EvolutionCycle
observed_cycle = value_of (run_cycle clock date_parse cycle observing)

created_ok : create_cycle clock create_input ≡ accepted cycle
unfolding create_cycle trim utf16_length
created_ok = refl

observed_ok : run_cycle clock date_parse cycle observing ≡ accepted observed_cycle
unfolding transition_cycle trim utf16_length merge_artifacts merge_research_records
observed_ok = refl

history_is_path_example :
    Linked clock date_parse "cycle-1" created 1 observed_cycle.history observed_cycle.stage
    × (length observed_cycle.history ≡ length observing)
history_is_path_example =
    history_is_path clock date_parse create_input cycle observed_cycle observing created_ok
      observed_ok

low_autonomy_never_executes_example : is_unexecuted observed_cycle.stage ≡ true
low_autonomy_never_executes_example =
    low_autonomy_never_executes clock date_parse cycle observed_cycle observing (omega arith) refl
      observed_ok

abbrev implemented_cycle : EvolutionCycle
implemented_cycle = record cycle { stage = implemented }

abbrev finishing : List (EvolutionStage × TransitionInput)
finishing =
    (verified, with_artifact ArtifactBucket.verification (some true))
    ∷ (measured, with_artifact ArtifactBucket.measurement none)
    ∷ (learned, with_artifact ArtifactBucket.memory none)
    ∷ (completed, step none none)
    ∷ []

abbrev completed_cycle : EvolutionCycle
completed_cycle = value_of (run_cycle clock date_parse implemented_cycle finishing)

completed_ok :
    (run_cycle clock date_parse implemented_cycle finishing ≡ accepted completed_cycle)
    × (completed_cycle.stage ≡ completed)
unfolding transition_cycle trim utf16_length merge_artifacts merge_research_records
completed_ok = (refl, refl)

completion_needs_verification_example : any is_passing finishing ≡ true
completion_needs_verification_example =
    completion_needs_verification clock date_parse implemented_cycle completed_cycle finishing refl
      completed_ok.0 completed_ok.1

abbrev approval : EvolutionApproval
approval = record {
  approval_id = "a";
  cycle_id = "cycle-1";
  action = EvolutionAction.modify_code;
  approved_by = "you";
  approved_at = "now";
  scope = "cycle:cycle-1:modify-code";
  policy_version = 1;
  evidence_refs = [];
  expires_at = none;
  revoked_at = none;
}

abbrev risky_cycle : EvolutionCycle
risky_cycle = record cycle { stage = planned; autonomy = a3; risk = r3 }

abbrev executing_step : TransitionInput
executing_step = record (step none none) { approvals = approval ∷ [] }

abbrev executing_cycle : EvolutionCycle
executing_cycle = value_of (transition_cycle clock date_parse risky_cycle executing executing_step)

executing_ok :
    transition_cycle clock date_parse risky_cycle executing executing_step
    ≡ accepted executing_cycle
unfolding transition_cycle trim utf16_length merge_artifacts merge_research_records authorize_action
executing_ok = refl

execution_is_authorized_example :
    (3 ≤ autonomy_rank risky_cycle.autonomy)
    × ((risk_rank risky_cycle.risk < 3)
        ⊎ HasApproval date_parse clock (execution_request risky_cycle ([] ++ approval ∷ []) "now"))
execution_is_authorized_example =
    execution_is_authorized clock date_parse risky_cycle executing_cycle executing_step executing_ok

abbrev request : AuthorizationInput
request = execution_request risky_cycle (approval ∷ []) "now"

authorize_action_iff_example : ((authorize_action date_parse clock request).allowed ≡ true) ↔ (
    (autonomy_rank (minimum_autonomy request.action) ≤ autonomy_rank request.autonomy)
    × ((needs_approval request.risk request.action ≡ false) ⊎ HasApproval date_parse clock request))
authorize_action_iff_example = authorize_action_iff date_parse clock request

request_allowed : (authorize_action date_parse clock request).allowed ≡ true
unfolding authorize_action trim
request_allowed = refl

abbrev source : ResearchRecord
source = record {
  record_id = "source-1";
  cycle_id = "cycle-1";
  actor = "me";
  created_at = "now";
  evidence_refs = [];
  kind = "source";
  content = obj end;
}

abbrev pub one_source : EvolutionResearchRecords
one_source ResearchBucket.sources = source ∷ []
one_source _ = []

abbrev merged_records : Checked EvolutionResearchRecords → EvolutionResearchRecords
merged_records (accepted records) = records
merged_records (refused e) = empty_research_records

abbrev merged : EvolutionResearchRecords
merged = merged_records (merge_research_records none one_source)

none_twice : AreDistinct (all_ids empty_research_records)
none_twice id = omega arith

merged_ok : merge_research_records none one_source ≡ accepted merged
unfolding merge_research_records
merged_ok = refl

merge_research_records_distinct_example :
    ((bucket : ResearchBucket) → merged bucket ≡ current_records none bucket ++ one_source bucket)
    × AreDistinct (all_ids merged)
merge_research_records_distinct_example =
    merge_research_records_distinct none one_source merged none_twice merged_ok

one_twice : AreDistinct (all_ids one_source)
one_twice id = ground arith

refused_ok :
    merge_research_records (some one_source) one_source ≡ refused (duplicate_record_id "source-1")
unfolding merge_research_records
refused_ok = refl

merge_research_records_duplicate_example :
    (id : String) × (◌≡◌ {A = EvolutionError}
      (duplicate_record_id "source-1")
      (duplicate_record_id id))
    × (2 ≤ occurrences id (all_ids one_source) + occurrences id (all_ids one_source))
merge_research_records_duplicate_example =
    merge_research_records_duplicate (some one_source) one_source (duplicate_record_id "source-1")
      one_twice refused_ok
