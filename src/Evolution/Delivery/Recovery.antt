-- ===== src/Evolution/Delivery/Recovery.antt =====
-- packages/evolution-core/src/delivery-operation.ts: `reconcileDeliveryOperation`. It waits once, while the
-- evidence of the recovery is registered; each part is what happens without another process in between.
use cyclewarden.Prelude.{
  Bool, true, false, not, ◌&&◌, ◌||◌, Option, none, some, String, ◌!=◌, string_eq, or_else,
  is_blank, trim, if◌then◌else◌,
}
use cyclewarden.Evolution.Delivery.Operation.{
  DeliveryOperationStatus, abandoned, is_running, OperationPayload, DeliveryOperationRecord,
  recovery_actor_required, Attempt, done, refused,
}
use cyclewarden.Evolution.Delivery.Record.{with_digest, file_of}
use cyclewarden.Evolution.Delivery.Inspection.{
  Machine, Disk, DeliveryOperationDisposition, stale, ControlStatus, valid,
  DeliveryOperationInspection, inspect,
}
use cyclewarden.Evolution.Delivery.Lease.{is_healthy}

pub record ReconcileInput : Type 0 where
  pub actor : String
  pub apply : Bool
  -- `inspectedAt`
  pub now : String

pub data ReconcileDecision : Type 0 where
  clear_stale healthy blocked : ReconcileDecision

-- The answer, without the cycle's identifier and the limitations, which are the same in every answer.
pub record Reconciliation : Type 0 where
  pub inspected_at : String
  pub decision : ReconcileDecision
  pub apply_requested : Bool
  pub applied : Bool
  pub inspection : DeliveryOperationInspection
  pub record' : Option DeliveryOperationRecord
  pub recovery_evidence_ref : Option String
  pub next_action : String

abbrev pub is_stale : DeliveryOperationDisposition → Bool
is_stale stale = true
is_stale _ = false

abbrev pub is_valid : ControlStatus → Bool
is_valid valid = true
is_valid _ = false

abbrev pub can_clear : DeliveryOperationInspection → Bool
can_clear i = is_stale i.disposition && is_valid i.control_status

abbrev pub decide : DeliveryOperationInspection → ReconcileDecision
decide i =
    if can_clear i
    then ReconcileDecision.clear_stale
    else if is_healthy i.disposition
    then ReconcileDecision.healthy
    else ReconcileDecision.blocked

abbrev pub next_action_of : ReconcileDecision → Bool → String
next_action_of ReconcileDecision.clear_stale false =
    "Review the dead owner/child evidence, then rerun with --apply before invoking delivery recovery."
next_action_of ReconcileDecision.clear_stale true =
    "Run cyclewarden-deliver recover to reconcile durable delivery state before starting new work."
next_action_of ReconcileDecision.blocked apply =
    "Do not clear the lease while an owner/child may still be active or the checkpoint cannot be trusted."
next_action_of ReconcileDecision.healthy apply =
    "No stale delivery operation lease requires action."

abbrev pub reconciliation :
    ReconcileInput
    → DeliveryOperationInspection
    → Bool
    → Option DeliveryOperationRecord
    → Option String
    → Reconciliation
reconciliation input i applied r evidence = record {
  inspected_at = input.now;
  decision = decide i;
  apply_requested = input.apply;
  applied = applied;
  inspection = i;
  record' = r;
  recovery_evidence_ref = evidence;
  next_action = next_action_of (decide i) input.apply;
}

abbrev pub ownership_changed :
    ReconcileInput → DeliveryOperationInspection → String → Reconciliation
ownership_changed input refreshed evidence = record {
  inspected_at = input.now;
  decision = ReconcileDecision.blocked;
  apply_requested = true;
  applied = false;
  inspection = refreshed;
  record' = refreshed.record';
  recovery_evidence_ref = some evidence;
  next_action = "Operation ownership changed during recovery; inspect again before any mutation.";
}

abbrev pub final_status : DeliveryOperationStatus → DeliveryOperationStatus
final_status status = if is_running status then abandoned else status

abbrev pub recovered : ReconcileInput → String → OperationPayload → OperationPayload
recovered input evidence p = record p {
  child_pid = none;
  heartbeat_at = input.now;
  completed_at = some (or_else p.completed_at input.now);
  status = final_status p.status;
  recovery_evidence_ref = some evidence;
}

-- The refreshed inspection is of another operation.
abbrev pub is_other : DeliveryOperationRecord → Option DeliveryOperationRecord → Bool
is_other r none = true
is_other r (some r') = r'.operation_id != r.operation_id

module _ (machine : Machine) where
  -- Before it waits: the inspection.
  unfoldable pub start_reconciliation : ReconcileInput → Disk → Attempt DeliveryOperationInspection
  start_reconciliation input disk =
      if is_blank (trim input.actor)
      then refused recovery_actor_required
      else done (inspect machine disk)

  -- What a recovery writes: the record, and no lock.
  abbrev pub write_recovered : ReconcileInput → String → OperationPayload → Disk → Disk
  write_recovered input evidence p disk = record disk {
    checkpoint = some (file_of machine.digest_json (recovered input evidence p));
    lock = none;
  }

  -- After it has waited, with the record that it found stale and the reference of the evidence.
  unfoldable pub clear_stale_lease :
      ReconcileInput
      → DeliveryOperationInspection
      → DeliveryOperationRecord
      → String
      → Disk
      → Reconciliation × Disk
  clear_stale_lease input i r evidence disk =
      let refreshed = inspect machine disk in
      if not (can_clear refreshed) || is_other r refreshed.record'
      then (ownership_changed input refreshed evidence, disk)
      else (
        reconciliation input i true
            (some (with_digest machine.digest_json (recovered input evidence r.payload)))
            (some evidence),
        write_recovered input evidence r.payload disk,
      )

  -- The record that is to be cleared, if the call is to change anything.
  abbrev pub to_clear :
      ReconcileInput → DeliveryOperationInspection → Option DeliveryOperationRecord
  to_clear input i = if input.apply && can_clear i then i.record' else none

  unfoldable pub apply_reconciliation :
      ReconcileInput
      → DeliveryOperationInspection
      → String
      → Disk
      → Option DeliveryOperationRecord
      → Reconciliation × Disk
  unfolding clear_stale_lease
  apply_reconciliation input i evidence disk none =
      (reconciliation input i false i.record' none, disk)
  apply_reconciliation input i evidence disk (some r) = clear_stale_lease input i r evidence disk

  unfoldable pub finish_reconciliation :
      ReconcileInput → DeliveryOperationInspection → String → Disk → Reconciliation × Disk
  unfolding apply_reconciliation
  finish_reconciliation input i evidence disk =
      apply_reconciliation input i evidence disk (to_clear input i)
