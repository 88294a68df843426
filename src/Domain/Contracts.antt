-- ===== src/Domain/Contracts.antt =====
-- packages/forge-domain/src/contracts/index.ts: the shapes of what Forge stores.
-- Identifiers and timestamps are texts, as they are in the source.
use cyclewarden.Prelude.{ℕ, ◌≡◌, ◌↔◌, Bool, Option, List, String, ℤ, Json, arith, Eq, nat_beq}

pub data Locale : Type 0 where
  vi en : Locale

pub data EvidenceRequirement : Type 0 where
  constitution task_mandatory advisory : EvidenceRequirement

pub data TaskStatus : Type 0 where
  draft ready running review completed cancelled : TaskStatus

pub record AcceptanceCriterion : Type 0 where
  pub key : String
  pub description : String
  pub requirement : EvidenceRequirement

pub record Task : Type 0 where
  pub id : String
  pub project_id : String
  pub created_by : String
  pub title : String
  pub original_instruction : String
  pub instruction_language : Locale
  pub normalized_objective : String
  pub scope : List String
  pub acceptance_criteria : List AcceptanceCriterion
  pub constraints : List String
  pub technical_output_language : Locale
  pub status : TaskStatus
  pub version : ℕ
  pub created_at : String
  pub updated_at : String

pub data RunState : Type 0 where
  draft queued provisioning running awaiting_approval cancelling validating : RunState
  awaiting_review publishing completed failed cancelled expired : RunState

-- The place of a state in the enumeration, by which states are compared.
abbrev pub rank : RunState → ℕ
rank RunState.draft = 0
rank RunState.queued = 1
rank RunState.provisioning = 2
rank RunState.running = 3
rank RunState.awaiting_approval = 4
rank RunState.cancelling = 5
rank RunState.validating = 6
rank RunState.awaiting_review = 7
rank RunState.publishing = 8
rank RunState.completed = 9
rank RunState.failed = 10
rank RunState.cancelled = 11
rank RunState.expired = 12

abbrev pub state_beq : RunState → RunState → Bool
state_beq a b = nat_beq (rank a) (rank b)

pub state_beq_iff : (a b : RunState) → (state_beq a b ≡ Bool.true) ↔ (a ≡ b)
state_beq_iff a b = ground arith

instance abbrev pub state_eq : Eq RunState
state_eq = record { equal = state_beq; equal_iff = state_beq_iff }

pub data ReviewOutcome : Type 0 where
  approved rejected cancelled : ReviewOutcome

-- The fields of a run that its life cycle reads and writes (`RunLifecycleSnapshot` of
-- run-state-machine.ts).
pub record RunLifecycleSnapshot : Type 0 where
  pub id : String
  pub task_id : String
  pub workspace_id : String
  pub iteration : ℕ
  pub state : RunState
  pub review_outcome : Option ReviewOutcome
  pub version : ℕ

pub record Run : Type 0 where
  pub lifecycle : RunLifecycleSnapshot
  pub open lifecycle use *
  pub base_branch : String
  pub base_commit_sha : Option String
  pub working_branch : Option String
  pub agent_provider : String
  pub sandbox_provider : String
  pub budget_policy : Json
  pub permission_policy : Json
  pub started_at : Option String
  pub finished_at : Option String
  pub failure_code : Option String
  pub failure_summary : Option String
  pub created_at : String
  pub updated_at : String

pub data ActorType : Type 0 where
  user system agent provider : ActorType

pub record RunEvent : Type 0 where
  pub id : String
  pub run_id : String
  pub sequence : ℕ
  pub type : String
  pub actor_type : ActorType
  pub actor_id : Option String
  pub correlation_id : Option String
  pub payload : Json
  pub schema_version : ℕ
  pub created_at : String

pub data ApprovalStatus : Type 0 where
  pending approved rejected expired cancelled : ApprovalStatus

pub data RiskLevel : Type 0 where
  low medium high critical : RiskLevel

pub record ApprovalRequest : Type 0 where
  pub id : String
  pub run_id : String
  pub request_key : String
  pub action_type : String
  pub summary : String
  pub scope : Json
  pub risk_level : RiskLevel
  pub status : ApprovalStatus
  pub requested_at : String
  pub expires_at : Option String
  pub resolved_by : Option String
  pub resolved_at : Option String
  pub reason : Option String
  pub version : ℕ

pub data ValidationKind : Type 0 where
  build test lint typecheck custom : ValidationKind

pub data ValidationStatus : Type 0 where
  pending running passed failed skipped : ValidationStatus

pub record ValidationResult : Type 0 where
  pub id : String
  pub run_id : String
  pub kind : ValidationKind
  pub command : String
  pub requirement : EvidenceRequirement
  pub status : ValidationStatus
  pub exit_code : Option ℤ
  pub duration_ms : Option ℤ
  pub output_summary : Option String
  pub artifact_ref : Option String

pub data EvidenceStatus : Type 0 where
  satisfied not_satisfied inconclusive waived : EvidenceStatus

pub record AcceptanceEvidence : Type 0 where
  pub id : String
  pub run_id : String
  pub criterion_key : String
  pub requirement : EvidenceRequirement
  pub status : EvidenceStatus
  pub evidence_type : String
  pub evidence_ref : Option String
  pub explanation : String
  pub waived_by : Option String
  pub waived_reason : Option String
  pub waived_at : Option String

pub record AdvisoryWaiver : Type 0 where
  pub evidence_key : String
  pub reason : String
  pub scope : String
  pub waived_at : String

pub record ReviewDecision : Type 0 where
  pub id : String
  pub run_id : String
  pub decision : ReviewOutcome
  pub decided_by : String
  pub rationale : Option String
  pub evidence_snapshot_version : ℕ
  pub evidence_snapshot : Json
  pub advisory_waivers : List AdvisoryWaiver
  pub created_at : String

pub data PublicationStatus : Type 0 where
  pending pushed pr_created failed : PublicationStatus

pub record Publication : Type 0 where
  pub id : String
  pub run_id : String
  pub provider : String
  pub external_repository_id : String
  pub branch_name : String
  pub commit_sha : String
  pub change_request_id : Option String
  pub change_request_url : Option String
  pub status : PublicationStatus
  pub failure_code : Option String
  pub created_at : String
  pub updated_at : String
