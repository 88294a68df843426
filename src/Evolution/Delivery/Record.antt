-- ===== src/Evolution/Delivery/Record.antt =====
-- packages/evolution-core/src/delivery-operation.ts: how a record is written to its file and read from
-- it.
use cyclewarden.Prelude.{
  zero, suc, Bool, true, false, not, ◌&&◌, ◌||◌, Option, none, some, String, ◌==◌, ◌!=◌, string_eq,
  nat_eq, is_blank, utf16_length, ℤ, pos, negsuc, Json, null, num, str, str?, obj, end, field,
  if◌then◌else◌,
}
use cyclewarden.Events.Normalizer.{all_hex}
use cyclewarden.Evolution.Delivery.Operation.{
  DeliveryOperationKind, kind_text, DeliveryOperationStatus, status_text, OperationPayload,
  DeliveryOperationRecord, RawRecord, File, Attempt, execute, verify, publish, running, completed,
  failed, abandoned, unreadable, written, unreadable_file, unsupported_shape, integrity_mismatch,
  done, refused,
}

abbrev pub int? : Option ℤ → Json
int? none = null
int? (some n) = num n

-- The object whose digest is taken, with the keys in their order.
abbrev pub payload_json : RawRecord → Json
payload_json r = obj (
    field "schemaVersion" (num (pos r.schema_version)) (
      field "recordType" (str r.record_type) (
        field "operationId" (str r.operation_id) (
          field "cycleId" (str r.cycle_id) (
            field "operation" (str r.operation) (
              field "actor" (str r.actor) (
                field "projectRoot" (str r.project_root) (
                  field "ownerHost" (str r.owner_host) (
                    field "ownerPid" (num r.owner_pid) (
                      field "childPid" (int? r.child_pid) (
                        field "startedAt" (str r.started_at) (
                          field "heartbeatAt" (str r.heartbeat_at) (
                            field "completedAt" (str? r.completed_at) (
                              field "status" (str r.status) (
                                field "errorDigest" (str? r.error_digest) (
                                  field "recoveryEvidenceRef" (str? r.recovery_evidence_ref)
                                    end))))))))))))))))

abbrev pub raw_of : String → OperationPayload → RawRecord
raw_of digest p = record {
  schema_version = 1;
  record_type = "delivery-operation";
  integrity_digest = digest;
  operation_id = p.operation_id;
  cycle_id = p.cycle_id;
  operation = kind_text p.operation;
  actor = p.actor;
  project_root = p.project_root;
  owner_host = p.owner_host;
  owner_pid = p.owner_pid;
  child_pid = p.child_pid;
  started_at = p.started_at;
  heartbeat_at = p.heartbeat_at;
  completed_at = p.completed_at;
  status = status_text p.status;
  error_digest = p.error_digest;
  recovery_evidence_ref = p.recovery_evidence_ref;
}

abbrev pub kind_of : String → Option DeliveryOperationKind
kind_of text =
    if text == "execute"
    then some execute
    else if text == "verify"
    then some verify
    else if text == "publish"
    then some publish
    else none

abbrev pub status_of : String → Option DeliveryOperationStatus
status_of text =
    if text == "running"
    then some running
    else if text == "completed"
    then some completed
    else if text == "failed"
    then some failed
    else if text == "abandoned"
    then some abandoned
    else none

abbrev pub is_positive : ℤ → Bool
is_positive (pos zero) = false
is_positive (pos (suc n)) = true
is_positive (negsuc n) = false

abbrev pub is_valid_child : Option ℤ → Bool
is_valid_child none = true
is_valid_child (some pid) = is_positive pid

-- `/^[a-f0-9]{64}$/i.test(text)`
abbrev pub is_digest : String → Bool
is_digest text = all_hex text && utf16_length text == 64

-- What the record must have beside its enumerations.
abbrev pub has_shape : RawRecord → Bool
has_shape r =
    r.schema_version == 1
    && r.record_type == "delivery-operation"
    && not (is_blank r.operation_id)
    && not (is_blank r.cycle_id)
    && not (is_blank r.actor)
    && not (is_blank r.owner_host)
    && is_positive r.owner_pid
    && is_valid_child r.child_pid

abbrev pub typed :
    DeliveryOperationKind → DeliveryOperationStatus → RawRecord → DeliveryOperationRecord
typed kind status r = record {
  integrity_digest = r.integrity_digest;
  payload = record {
    operation_id = r.operation_id;
    cycle_id = r.cycle_id;
    operation = kind;
    actor = r.actor;
    project_root = r.project_root;
    owner_host = r.owner_host;
    owner_pid = r.owner_pid;
    child_pid = r.child_pid;
    started_at = r.started_at;
    heartbeat_at = r.heartbeat_at;
    completed_at = r.completed_at;
    status = status;
    error_digest = r.error_digest;
    recovery_evidence_ref = r.recovery_evidence_ref;
  };
}

module _ (digest_json : Json → String) where
  -- `withDigest`
  unfoldable pub with_digest : OperationPayload → DeliveryOperationRecord
  with_digest p = record {
    integrity_digest = digest_json (payload_json (raw_of "" p));
    payload = p;
  }

  -- What `writeRecord` puts into the file, with the digest taken anew.
  unfoldable pub file_of : OperationPayload → File
  unfolding with_digest
  file_of p = written (raw_of ((with_digest p).integrity_digest) p)

  unfoldable pub check_record :
      Option DeliveryOperationKind
      → Option DeliveryOperationStatus
      → RawRecord
      → Attempt DeliveryOperationRecord
  check_record none _ r = refused unsupported_shape
  check_record (some kind) none r = refused unsupported_shape
  check_record (some kind) (some status) r =
      if not (has_shape r)
      then refused unsupported_shape
      else if not (is_digest r.integrity_digest)
          || r.integrity_digest != digest_json (payload_json r)
      then refused integrity_mismatch
      else done (typed kind status r)

  -- `readRecord`
  unfoldable pub read_record : File → Attempt DeliveryOperationRecord
  unfolding check_record
  read_record (unreadable message) = refused (unreadable_file message)
  read_record (written r) = check_record (kind_of r.operation) (status_of r.status) r
