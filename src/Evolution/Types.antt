-- ===== src/Evolution/Types.antt =====
-- packages/evolution-core/src/types.ts: the shapes of an evolution cycle. Identifiers and timestamps are
-- texts, as they are in the source.
use cyclewarden.Prelude.{ℕ, ◌≡◌, ◌↔◌, Bool, Option, List, String, Json, arith, Eq, nat_beq}

pub data EvolutionStage : Type 0 where
  created observed modeled diagnosed researched decided planned executing implemented :
      EvolutionStage
  verified measured learned meta_improved completed rejected rolled_back inconclusive :
      EvolutionStage

-- The place of a stage in `EVOLUTION_STAGES`, by which stages are compared.
abbrev pub stage_index : EvolutionStage → ℕ
stage_index EvolutionStage.created = 0
stage_index EvolutionStage.observed = 1
stage_index EvolutionStage.modeled = 2
stage_index EvolutionStage.diagnosed = 3
stage_index EvolutionStage.researched = 4
stage_index EvolutionStage.decided = 5
stage_index EvolutionStage.planned = 6
stage_index EvolutionStage.executing = 7
stage_index EvolutionStage.implemented = 8
stage_index EvolutionStage.verified = 9
stage_index EvolutionStage.measured = 10
stage_index EvolutionStage.learned = 11
stage_index EvolutionStage.meta_improved = 12
stage_index EvolutionStage.completed = 13
stage_index EvolutionStage.rejected = 14
stage_index EvolutionStage.rolled_back = 15
stage_index EvolutionStage.inconclusive = 16

abbrev pub stage_beq : EvolutionStage → EvolutionStage → Bool
stage_beq a b = nat_beq (stage_index a) (stage_index b)

pub stage_beq_iff : (a b : EvolutionStage) → (stage_beq a b ≡ Bool.true) ↔ (a ≡ b)
stage_beq_iff a b = ground arith

instance abbrev pub stage_eq : Eq EvolutionStage
stage_eq = record { equal = stage_beq; equal_iff = stage_beq_iff }

pub data AutonomyLevel : Type 0 where
  a0 a1 a2 a3 a4 : AutonomyLevel

pub data RiskClass : Type 0 where
  r0 r1 r2 r3 r4 : RiskClass

pub data EvolutionAction : Type 0 where
  inspect research plan record_memory run_checks modify_code open_draft_pr : EvolutionAction
  merge deploy production_write read_secrets spend : EvolutionAction

-- The place of an action in `EVOLUTION_ACTIONS`, by which actions are compared.
abbrev pub action_index : EvolutionAction → ℕ
action_index EvolutionAction.inspect = 0
action_index EvolutionAction.research = 1
action_index EvolutionAction.plan = 2
action_index EvolutionAction.record_memory = 3
action_index EvolutionAction.run_checks = 4
action_index EvolutionAction.modify_code = 5
action_index EvolutionAction.open_draft_pr = 6
action_index EvolutionAction.merge = 7
action_index EvolutionAction.deploy = 8
action_index EvolutionAction.production_write = 9
action_index EvolutionAction.read_secrets = 10
action_index EvolutionAction.spend = 11

abbrev pub action_beq : EvolutionAction → EvolutionAction → Bool
action_beq a b = nat_beq (action_index a) (action_index b)

pub action_beq_iff : (a b : EvolutionAction) → (action_beq a b ≡ Bool.true) ↔ (a ≡ b)
action_beq_iff a b = ground arith

instance abbrev pub action_eq : Eq EvolutionAction
action_eq = record { equal = action_beq; equal_iff = action_beq_iff }

abbrev pub evolution_policy_version : ℕ
evolution_policy_version = 1

pub data ArtifactBucket : Type 0 where
  baseline model diagnosis research candidates decision plan rollback changes : ArtifactBucket
  verification measurement memory meta_changes : ArtifactBucket

-- The place of a bucket in `ArtifactBucket`, by which buckets are compared.
abbrev pub bucket_index : ArtifactBucket → ℕ
bucket_index ArtifactBucket.baseline = 0
bucket_index ArtifactBucket.model = 1
bucket_index ArtifactBucket.diagnosis = 2
bucket_index ArtifactBucket.research = 3
bucket_index ArtifactBucket.candidates = 4
bucket_index ArtifactBucket.decision = 5
bucket_index ArtifactBucket.plan = 6
bucket_index ArtifactBucket.rollback = 7
bucket_index ArtifactBucket.changes = 8
bucket_index ArtifactBucket.verification = 9
bucket_index ArtifactBucket.measurement = 10
bucket_index ArtifactBucket.memory = 11
bucket_index ArtifactBucket.meta_changes = 12

abbrev pub bucket_beq : ArtifactBucket → ArtifactBucket → Bool
bucket_beq a b = nat_beq (bucket_index a) (bucket_index b)

pub bucket_beq_iff : (a b : ArtifactBucket) → (bucket_beq a b ≡ Bool.true) ↔ (a ≡ b)
bucket_beq_iff a b = ground arith

instance abbrev pub bucket_eq : Eq ArtifactBucket
bucket_eq = record { equal = bucket_beq; equal_iff = bucket_beq_iff }

-- `Record<ArtifactBucket, string[]>`
abbrev pub EvolutionArtifacts : Type 0
EvolutionArtifacts = ArtifactBucket → List String

-- `Partial<Record<ArtifactBucket, string[]>>`, in the order of its keys.
abbrev pub ArtifactAdditions : Type 0
ArtifactAdditions = List (ArtifactBucket × List String)

pub record EvolutionApproval : Type 0 where
  pub approval_id : String
  pub cycle_id : String
  pub action : EvolutionAction
  pub approved_by : String
  pub approved_at : String
  pub scope : String
  pub policy_version : ℕ
  pub evidence_refs : List String
  pub expires_at : Option String
  pub revoked_at : Option String

pub record EvolutionEvent : Type 0 where
  pub id : String
  pub from : EvolutionStage
  pub to : EvolutionStage
  pub at_time : String
  pub actor : String
  pub reason : String
  pub evidence_refs : List String

pub data ResearchBucket : Type 0 where
  briefs plans runs queries sources claims citation_spans contradictions : ResearchBucket
  opportunities evaluations decisions experiments execution_handoffs : ResearchBucket

-- `ResearchRecordBase` with the record's kind. `content` stands for the fields of that kind, which the
-- code that is modelled here never reads.
pub record ResearchRecord : Type 0 where
  pub record_id : String
  pub cycle_id : String
  pub actor : String
  pub created_at : String
  pub evidence_refs : List String
  pub kind : String
  pub content : Json

abbrev pub EvolutionResearchRecords : Type 0
EvolutionResearchRecords = ResearchBucket → List ResearchRecord

pub record EvolutionCycle : Type 0 where
  pub cycle_id : String
  pub objective : String
  pub autonomy : AutonomyLevel
  pub risk : RiskClass
  pub stage : EvolutionStage
  pub created_at : String
  pub updated_at : String
  pub artifacts : EvolutionArtifacts
  pub approvals : List EvolutionApproval
  pub history : List EvolutionEvent
  pub research : Option EvolutionResearchRecords

pub record CreateCycleInput : Type 0 where
  pub cycle_id : String
  pub objective : String
  pub autonomy : AutonomyLevel
  pub risk : RiskClass
  pub now : Option String

pub record TransitionInput : Type 0 where
  pub actor : String
  pub reason : String
  pub now : Option String
  pub add_artifacts : Option ArtifactAdditions
  -- `Partial<EvolutionResearchRecords>`: a bucket that is not given adds nothing.
  pub append_research : EvolutionResearchRecords
  pub approvals : List EvolutionApproval
  pub verification_passed : Option Bool
