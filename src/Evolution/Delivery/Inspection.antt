-- ===== src/Evolution/Delivery/Inspection.antt =====
-- packages/evolution-core/src/delivery-operation.ts: `inspectDeliveryOperation`.
use cyclewarden.Prelude.{
  zero, suc, Bool, true, false, not, ◌||◌, Option, none, some, List, [], ◌∷◌, ◌++◌, String, ◌!=◌,
  string_eq, ℤ, pos, negsuc, Json, if◌then◌else◌, ◌++ₛ◌,
}
use cyclewarden.Evolution.Delivery.Operation.{
  DeliveryOperationRecord, File, Attempt, done, refused, message_of, is_running,
}
use cyclewarden.Evolution.Delivery.Record.{is_positive, read_record}

pub data DeliveryProcessState : Type 0 where
  not_recorded alive dead foreign_host : DeliveryProcessState

pub data DeliveryOperationDisposition : Type 0 where
  healthy active stale blocked : DeliveryOperationDisposition

abbrev pub disposition_text : DeliveryOperationDisposition → String
disposition_text healthy = "healthy"
disposition_text active = "active"
disposition_text stale = "stale"
disposition_text blocked = "blocked"

pub data ControlStatus : Type 0 where
  missing valid invalid : ControlStatus

pub record DeliveryOperationInspection : Type 0 where
  pub control_status : ControlStatus
  pub record' : Option DeliveryOperationRecord
  pub lock_present : Bool
  pub owner_state : DeliveryProcessState
  pub child_state : DeliveryProcessState
  pub disposition : DeliveryOperationDisposition
  pub findings : List String

-- What `process.kill(pid, 0)` does: it returns, or throws with the code `EPERM` or another one.
pub data Signal : Type 0 where
  delivered not_permitted no_process : Signal

-- The machine of the process that looks: its name, its processes by number (process groups by a negative
-- one), and whether it is Windows.
pub record Machine : Type 0 where
  pub hostname : String
  pub kill : ℤ → Signal
  pub windows : Bool
  pub digest_json : Json → String

-- The files of one cycle's directory.
pub record Disk : Type 0 where
  pub checkpoint : Option File
  pub lock : Option File

abbrev pub is_gone : Signal → Bool
is_gone no_process = true
is_gone _ = false

abbrev pub opposite : ℤ → ℤ
opposite (pos zero) = pos zero
opposite (pos (suc n)) = negsuc n
opposite (negsuc n) = pos (suc n)

abbrev pub blocked_inspection : Bool → List String → DeliveryOperationInspection
blocked_inspection lock_present findings = record {
  control_status = invalid;
  record' = none;
  lock_present = lock_present;
  owner_state = not_recorded;
  child_state = not_recorded;
  disposition = blocked;
  findings = findings;
}

abbrev pub missing_inspection : DeliveryOperationInspection
missing_inspection = record {
  control_status = missing;
  record' = none;
  lock_present = false;
  owner_state = not_recorded;
  child_state = not_recorded;
  disposition = healthy;
  findings = [];
}

abbrev pub is_foreign : DeliveryProcessState → Bool
is_foreign foreign_host = true
is_foreign _ = false

abbrev pub is_alive : DeliveryProcessState → Bool
is_alive alive = true
is_alive _ = false

-- The disposition of a record, and what is found.
abbrev pub judge :
    Bool
    → Bool
    → DeliveryProcessState
    → DeliveryProcessState
    → DeliveryOperationDisposition × List String
judge is_running lock_present owner child =
    if is_running
    then (if is_foreign owner || is_foreign child
        then (
          blocked,
          "running operation belongs to another host and cannot be proven stale locally" ∷ [],
        )
        else if is_alive owner || is_alive child
        then (
          active,
          (if is_alive child
                then "delivery child process or process group is still alive"
                else "delivery owner process is still alive")
              ∷ [],
        )
        else (stale, "delivery owner and recorded child process group are no longer alive" ∷ []))
    else if lock_present
    then (stale, "terminal operation left a stale lock file" ∷ [])
    else (healthy, [])

module _ (machine : Machine) where
  open machine use {hostname, kill, windows, digest_json}

  unfoldable pub process_state : String → Option ℤ → DeliveryProcessState
  process_state owner_host none = not_recorded
  process_state owner_host (some pid) =
      if owner_host != hostname
      then foreign_host
      else if not (is_positive pid)
      then dead
      else if is_gone (kill pid)
      then dead
      else alive

  unfoldable pub child_process_state : String → Option ℤ → DeliveryProcessState
  unfolding process_state
  child_process_state owner_host none = process_state owner_host none
  child_process_state owner_host (some pid) =
      if owner_host != hostname || windows || is_gone (kill (opposite pid))
      then process_state owner_host (some pid)
      else alive

  -- The inspection of the record that was chosen.
  unfoldable pub judged : Bool → DeliveryOperationRecord → List String → DeliveryOperationInspection
  unfolding process_state child_process_state
  judged lock_present r findings =
      let owner = process_state r.owner_host (some r.owner_pid) in
      let child = child_process_state r.owner_host r.child_pid in
      let verdict = judge (is_running r.status) lock_present owner child in
      record {
        control_status = valid;
        record' = some r;
        lock_present = lock_present;
        owner_state = owner;
        child_state = child;
        disposition = verdict.0;
        findings = findings ++ verdict.1;
      }

  abbrev pub primary_missing : String
  primary_missing =
      "primary checkpoint is missing; using the integrity-valid acquisition lock record"

  -- The lock's record beside the checkpoint.
  unfoldable pub choose :
      DeliveryOperationRecord → Attempt DeliveryOperationRecord → DeliveryOperationInspection
  unfolding judged
  choose acquisition (refused e) = judged true acquisition (
      ("primary checkpoint cannot be trusted; using the acquisition lock record: " ++ₛ message_of e)
      ∷ primary_missing
      ∷ [])
  choose acquisition (done primary) =
      if acquisition.operation_id != primary.operation_id
      then judged true acquisition
          ("acquisition lock belongs to a different operation and is authoritative" ∷ [])
      else judged true primary []

  -- With a lock, by what was read of it.
  unfoldable pub inspect_locked :
      Attempt DeliveryOperationRecord → Option File → DeliveryOperationInspection
  unfolding judged choose
  inspect_locked (refused e) checkpoint =
      blocked_inspection true
        (("delivery acquisition lock cannot be trusted: " ++ₛ message_of e) ∷ [])
  inspect_locked (done acquisition) none = judged true acquisition (primary_missing ∷ [])
  inspect_locked (done acquisition) (some file) = choose acquisition (read_record digest_json file)

  -- Without a lock, by what was read of the checkpoint.
  unfoldable pub inspect_unlocked : Attempt DeliveryOperationRecord → DeliveryOperationInspection
  unfolding judged
  inspect_unlocked (refused e) = blocked_inspection false (message_of e ∷ [])
  inspect_unlocked (done primary) = judged false primary []

  unfoldable pub inspect_files : Option File → Option File → DeliveryOperationInspection
  unfolding inspect_locked inspect_unlocked
  inspect_files none none = missing_inspection
  inspect_files none (some file) = inspect_unlocked (read_record digest_json file)
  inspect_files (some file) checkpoint = inspect_locked (read_record digest_json file) checkpoint

  -- `inspectDeliveryOperation`
  unfoldable pub inspect : Disk → DeliveryOperationInspection
  unfolding inspect_files
  inspect disk = inspect_files disk.lock disk.checkpoint
