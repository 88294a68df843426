-- ===== src/Evolution/Delivery/Lease.antt =====
-- packages/evolution-core/src/delivery-operation.ts: taking the lease, working under it, and giving it back.
-- Each definition is what happens without another process in between.
use cyclewarden.Prelude.{
  Bool, true, false, not, ◌&&◌, Option, none, some, List, [], ◌∷◌, String, ◌==◌, string_eq, or_else,
  is_blank, trim, ℤ, pos, if◌then◌else◌, ◌++ₛ◌,
}
use cyclewarden.Evolution.Delivery.Operation.{
  DeliveryOperationKind, DeliveryOperationStatus, running, completed, failed, kind_text, is_running,
  OperationPayload, DeliveryOperationRecord, File, actor_required, invalid_interval, child_mismatch,
  cannot_start, lease_taken, unreadable_file, message_of, Attempt, done, refused,
}
use cyclewarden.Evolution.Delivery.Record.{is_positive, with_digest, file_of, read_record}
use cyclewarden.Evolution.Delivery.Inspection.{
  Machine, Disk, DeliveryOperationDisposition, healthy, disposition_text,
  DeliveryOperationInspection, inspect,
}

pub record WithDeliveryOperationInput : Type 0 where
  pub cycle_id : String
  -- As `resolve` gives it.
  pub project_root : String
  pub actor : String
  pub operation : DeliveryOperationKind
  pub heartbeat_interval_ms : Option ℤ

-- What a call draws from its surroundings: the new operation's identifier, the time, and the number of
-- its process.
pub record Drawn : Type 0 where
  pub operation_id : String
  pub now : String
  pub pid : ℤ

-- `findings.join("; ")`
abbrev pub join_findings : List String → String
join_findings [] = ""
join_findings (text ∷ []) = text
join_findings (text ∷ texts) = text ++ₛ "; " ++ₛ join_findings texts

abbrev pub is_healthy : DeliveryOperationDisposition → Bool
is_healthy healthy = true
is_healthy _ = false

abbrev pub new_payload : Machine → WithDeliveryOperationInput → Drawn → OperationPayload
new_payload machine input drawn = record {
  operation_id = drawn.operation_id;
  cycle_id = input.cycle_id;
  operation = input.operation;
  actor = trim input.actor;
  project_root = input.project_root;
  owner_host = machine.hostname;
  owner_pid = drawn.pid;
  child_pid = none;
  started_at = drawn.now;
  heartbeat_at = drawn.now;
  completed_at = none;
  status = running;
  error_digest = none;
  recovery_evidence_ref = none;
}

abbrev pub start_refusal : WithDeliveryOperationInput → DeliveryOperationInspection → String
start_refusal input existing =
    "cannot start "
    ++ₛ kind_text input.operation
    ++ₛ "; delivery operation state is "
    ++ₛ disposition_text existing.disposition
    ++ₛ ": "
    ++ₛ join_findings existing.findings

abbrev pub lease_refusal : DeliveryOperationInspection → String
lease_refusal inspection =
    let found = join_findings inspection.findings in
    "delivery operation lease is "
    ++ₛ disposition_text inspection.disposition
    ++ₛ ": "
    ++ₛ (if is_blank found then "another operation owns the lock" else found)

module _ (machine : Machine) where
  open machine use {digest_json}

  -- Up to the candidate file: the payload of the new record.
  unfoldable pub prepare : WithDeliveryOperationInput → Drawn → Disk → Attempt OperationPayload
  prepare input drawn disk =
      if is_blank (trim input.actor)
      then refused actor_required
      else if not (is_positive (or_else input.heartbeat_interval_ms (pos 5000)))
      then refused invalid_interval
      else if not (is_healthy (inspect machine disk).disposition)
      then refused (cannot_start (start_refusal input (inspect machine disk)))
      else done (new_payload machine input drawn)

  -- The link of the candidate as the lock, by whether there is one.
  unfoldable pub link_lock : OperationPayload → Disk → Option File → Attempt (Unit {0}) × Disk
  link_lock p disk none = (done tt, record disk { lock = some (file_of digest_json p) })
  link_lock p disk (some file) =
      (refused (lease_taken (lease_refusal (inspect machine disk))), disk)

  -- `acquireOperationLock`
  unfoldable pub acquire : OperationPayload → Disk → Attempt (Unit {0}) × Disk
  unfolding link_lock
  acquire p disk = link_lock p disk disk.lock

  -- The candidate becomes the checkpoint.
  abbrev pub become_checkpoint :
      OperationPayload → Attempt (Unit {0}) × Disk → Attempt DeliveryOperationRecord × Disk
  become_checkpoint p (done u, disk) =
      (done (with_digest digest_json p), record disk { checkpoint = some (file_of digest_json p) })
  become_checkpoint p (refused e, disk) = (refused e, disk)

  -- From the link to the rename.
  unfoldable pub take_lease : OperationPayload → Disk → Attempt DeliveryOperationRecord × Disk
  unfolding acquire
  take_lease p disk = become_checkpoint p (acquire p disk)

  -- `readRecord(path)`
  unfoldable pub read_checkpoint : Disk → Attempt DeliveryOperationRecord
  read_checkpoint disk = elim (disk.checkpoint) [
    | none ↦ refused (unreadable_file "no such file")
    | some file ↦ read_record digest_json file
  ]

  abbrev pub write_checkpoint : OperationPayload → Disk → Disk
  write_checkpoint p disk = record disk { checkpoint = some (file_of digest_json p) }

  abbrev pub is_ours : String → DeliveryOperationRecord → Bool
  is_ours operation_id current = current.operation_id == operation_id && is_running current.status

  -- `updateHeartbeat`
  unfoldable pub beat :
      String → String → Attempt DeliveryOperationRecord → Disk → Attempt (Unit {0}) × Disk
  beat operation_id now (refused e) disk = (refused e, disk)
  beat operation_id now (done current) disk =
      if not (is_ours operation_id current)
      then (done tt, disk)
      else (done tt, write_checkpoint (record (current.payload) { heartbeat_at = now }) disk)

  unfoldable pub update_heartbeat : String → String → Disk → Attempt (Unit {0}) × Disk
  unfolding beat read_checkpoint
  update_heartbeat operation_id now disk = beat operation_id now (read_checkpoint disk) disk

  unfoldable pub note_child :
      String → String → ℤ → Attempt DeliveryOperationRecord → Disk → Attempt (Unit {0}) × Disk
  note_child operation_id now pid (refused e) disk = (refused e, disk)
  note_child operation_id now pid (done current) disk =
      if not (is_ours operation_id current) then (refused child_mismatch, disk) else (
        done tt,
        write_checkpoint (record (current.payload) { child_pid = some pid; heartbeat_at = now })
            disk,
      )

  -- `recordDeliveryChildProcess`, within an operation.
  unfoldable pub record_delivery_child_process :
      String → String → ℤ → Disk → Attempt (Unit {0}) × Disk
  unfolding note_child read_checkpoint
  record_delivery_child_process operation_id now pid disk =
      note_child operation_id now pid (read_checkpoint disk) disk

  abbrev pub ended :
      DeliveryOperationStatus → Option String → String → OperationPayload → OperationPayload
  ended status error_digest now p = record p {
    child_pid = none;
    heartbeat_at = now;
    completed_at = some now;
    status = status;
    error_digest = error_digest;
  }

  -- The record is written as ended, and the lock removed. Where the checkpoint cannot be read, the lock
  -- stays.
  unfoldable pub close :
      DeliveryOperationStatus
      → Option String
      → String
      → Attempt DeliveryOperationRecord
      → Disk
      → Attempt DeliveryOperationRecord × Disk
  close status error_digest now (refused e) disk = (refused e, disk)
  close status error_digest now (done current) disk = (
    done (with_digest digest_json (ended status error_digest now current.payload)),
    record disk {
      checkpoint = some (file_of digest_json (ended status error_digest now current.payload));
      lock = none;
    },
  )

  -- After the callback: it has returned, or it, or a heartbeat, has thrown.
  unfoldable pub finish :
      (String → String)
      → Attempt (Unit {0})
      → String
      → Disk
      → Attempt DeliveryOperationRecord × Disk
  unfolding close read_checkpoint
  finish sha256 (done u) now disk = close completed none now (read_checkpoint disk) disk
  finish sha256 (refused e) now disk =
      (refused e, (close failed (some (sha256 (message_of e))) now (read_checkpoint disk) disk).1)
