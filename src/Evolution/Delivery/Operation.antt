-- ===== src/Evolution/Delivery/Operation.antt =====
-- packages/evolution-core/src/delivery-operation.ts: operations, their files and errors.
use cyclewarden.Prelude.{ℕ, Bool, true, false, Option, String, string_eq, nat_eq, ℤ}

pub data DeliveryOperationKind : Type 0 where
  execute verify publish : DeliveryOperationKind

abbrev pub kind_text : DeliveryOperationKind → String
kind_text execute = "execute"
kind_text verify = "verify"
kind_text publish = "publish"

pub data DeliveryOperationStatus : Type 0 where
  running completed failed abandoned : DeliveryOperationStatus

abbrev pub status_text : DeliveryOperationStatus → String
status_text running = "running"
status_text completed = "completed"
status_text failed = "failed"
status_text abandoned = "abandoned"

abbrev pub is_running : DeliveryOperationStatus → Bool
is_running running = true
is_running _ = false

-- All of a record but its digest.
pub record OperationPayload : Type 0 where
  pub operation_id : String
  pub cycle_id : String
  pub operation : DeliveryOperationKind
  pub actor : String
  pub project_root : String
  pub owner_host : String
  pub owner_pid : ℤ
  pub child_pid : Option ℤ
  pub started_at : String
  pub heartbeat_at : String
  pub completed_at : Option String
  pub status : DeliveryOperationStatus
  pub error_digest : Option String
  pub recovery_evidence_ref : Option String

pub record DeliveryOperationRecord : Type 0 where
  pub integrity_digest : String
  pub payload : OperationPayload
  pub open payload use *

-- What `JSON.parse` gives of a record's file: texts where a record has enumerations.
pub record RawRecord : Type 0 where
  pub schema_version : ℕ
  pub record_type : String
  pub integrity_digest : String
  pub operation_id : String
  pub cycle_id : String
  pub operation : String
  pub actor : String
  pub project_root : String
  pub owner_host : String
  pub owner_pid : ℤ
  pub child_pid : Option ℤ
  pub started_at : String
  pub heartbeat_at : String
  pub completed_at : Option String
  pub status : String
  pub error_digest : Option String
  pub recovery_evidence_ref : Option String

-- A file that cannot be read or parsed, with the error's message, or a record.
pub data File : Type 0 where
  unreadable : String → File
  written : RawRecord → File

pub data DeliveryError : Type 0 where
  unreadable_file : String → DeliveryError
  unsupported_shape integrity_mismatch actor_required invalid_interval : DeliveryError
  recovery_actor_required child_mismatch : DeliveryError
  -- The state of the operation that is in the way, with what was found.
  cannot_start : String → DeliveryError
  lease_taken : String → DeliveryError
  -- What the work under the lease has thrown.
  work_failed : String → DeliveryError

-- `error.message`
abbrev pub message_of : DeliveryError → String
message_of (unreadable_file message) = message
message_of unsupported_shape = "delivery operation checkpoint has an unsupported shape"
message_of integrity_mismatch = "delivery operation checkpoint integrity mismatch"
message_of actor_required = "delivery operation actor is required"
message_of invalid_interval = "delivery heartbeat interval must be a positive integer"
message_of recovery_actor_required = "delivery operation recovery actor is required"
message_of child_mismatch = "delivery child process does not match the active operation lease"
message_of (cannot_start text) = text
message_of (lease_taken text) = text
message_of (work_failed message) = message

pub data Attempt (A : Type 0) : Type 0 where
  done : A → Attempt A
  refused : DeliveryError → Attempt A
