-- ===== src/Domain/Schemas.antt =====
-- The zod schemas of packages/forge-domain/src/contracts/index.ts as tests: what `parse` accepts.
-- A type of the model leaves out what its schema's own type rules out (enumerations, `nullable`,
-- integers where the field is a natural number).
use cyclewarden.Prelude.{
  Json, obj, Bool, true, false, not, ◌&&◌, Option, none, some, String, leb, all, is_blank,
  is_nonneg, trim, utf16_length,
}
use cyclewarden.Domain.Contracts.{
  AcceptanceCriterion, Task, Run, RunEvent, ApprovalRequest, ValidationResult, AcceptanceEvidence,
  AdvisoryWaiver, ReviewDecision, Publication,
}

-- The string formats that zod implements.
pub record Formats : Type 0 where
  pub uuid : String → Bool
  pub datetime : String → Bool
  pub url : String → Bool

-- `schema.nullable()`
abbrev pub nullable {ℓ} : {A : Type ℓ} → (A → Bool) → Option A → Bool
nullable p none = true
nullable p (some a) = p a

-- `z.string().min(1)`
abbrev pub non_empty : String → Bool
non_empty s = not (is_blank s)

-- `z.record(z.string(), z.unknown())`
unfoldable pub is_record : Json → Bool
is_record (obj fields) = true
is_record _ = false

module _ (formats : Formats) where
  open formats use {uuid, datetime, url}

  criterion_schema : AcceptanceCriterion → Bool
  criterion_schema c = non_empty c.key && non_empty c.description

  -- The schema trims the title: the stored task has the trimmed one.
  unfoldable pub parse_task : Task → Option Task
  unfolding criterion_schema
  parse_task t =
      let title = trim t.title in
      if'
        (uuid t.id
          && uuid t.project_id
          && uuid t.created_by
          && leb 1 (utf16_length title)
          && leb (utf16_length title) 200
          && non_empty t.original_instruction
          && non_empty t.normalized_objective
          && all non_empty t.scope
          && all criterion_schema t.acceptance_criteria
          && all non_empty t.constraints
          && datetime t.created_at
          && datetime t.updated_at)
        (record t { title = title })
    where
      if' : Bool → Task → Option Task
      if' b t' = elim b [ true ↦ some t' | false ↦ none ]

  unfoldable pub run_schema : Run → Bool
  run_schema r =
      uuid r.id
      && uuid r.task_id
      && uuid r.workspace_id
      && leb 1 r.iteration
      && non_empty r.base_branch
      && nullable non_empty r.base_commit_sha
      && nullable non_empty r.working_branch
      && non_empty r.agent_provider
      && non_empty r.sandbox_provider
      && is_record r.budget_policy
      && is_record r.permission_policy
      && nullable datetime r.started_at
      && nullable datetime r.finished_at
      && nullable non_empty r.failure_code
      && datetime r.created_at
      && datetime r.updated_at

  unfoldable pub event_schema : RunEvent → Bool
  event_schema e =
      uuid e.id
      && uuid e.run_id
      && non_empty e.type
      && leb 1 e.schema_version
      && datetime e.created_at

  unfoldable pub approval_schema : ApprovalRequest → Bool
  approval_schema a =
      uuid a.id
      && uuid a.run_id
      && non_empty a.request_key
      && non_empty a.action_type
      && non_empty a.summary
      && datetime a.requested_at
      && nullable datetime a.expires_at
      && nullable uuid a.resolved_by
      && nullable datetime a.resolved_at

  unfoldable pub validation_schema : ValidationResult → Bool
  validation_schema v =
      uuid v.id && uuid v.run_id && non_empty v.command && nullable is_nonneg v.duration_ms

  unfoldable pub evidence_schema : AcceptanceEvidence → Bool
  evidence_schema e =
      uuid e.id
      && uuid e.run_id
      && non_empty e.criterion_key
      && non_empty e.evidence_type
      && non_empty e.explanation
      && nullable uuid e.waived_by
      && nullable non_empty e.waived_reason
      && nullable datetime e.waived_at

  waiver_schema : AdvisoryWaiver → Bool
  waiver_schema w =
      non_empty w.evidence_key && non_empty w.reason && non_empty w.scope && datetime w.waived_at

  unfoldable pub review_schema : ReviewDecision → Bool
  unfolding waiver_schema
  review_schema r =
      uuid r.id
      && uuid r.run_id
      && uuid r.decided_by
      && all waiver_schema r.advisory_waivers
      && datetime r.created_at

  unfoldable pub publication_schema : Publication → Bool
  publication_schema p =
      uuid p.id
      && uuid p.run_id
      && non_empty p.provider
      && non_empty p.external_repository_id
      && non_empty p.branch_name
      && non_empty p.commit_sha
      && nullable url p.change_request_url
      && datetime p.created_at
      && datetime p.updated_at
