-- ===== src/Evolution/Delivery/Restart.antt =====
-- A stale lease does not stay in the way (packages/evolution-core/src/delivery-operation.ts).
use cyclewarden.Prelude.{
  ◌≡◌, refl, sym, subst, ap, ◌∙◌, Bool, true, false, not, ◌||◌, Option, none, some, List, [], ◌∷◌,
  ◌++ₛ◌, String, ◌!=◌, string_eq, str_iff, is_blank, trim, or_else, Json, pos, arith, Bool-cases,
  inl, inr,
}
use cyclewarden.Evolution.Delivery.Operation.{
  OperationPayload, DeliveryOperationRecord, DeliveryOperationStatus, is_running, File, Attempt,
  done, refused, message_of,
}
use cyclewarden.Evolution.Delivery.Record.{
  is_positive, is_digest, with_digest, file_of, read_record,
}
use cyclewarden.Evolution.Delivery.Inspection.{
  Machine, Disk, DeliveryOperationInspection, judged, choose, inspect_locked, inspect_unlocked,
  inspect_files, inspect, primary_missing,
}
use cyclewarden.Evolution.Delivery.Lease.{
  WithDeliveryOperationInput, Drawn, new_payload, is_healthy, prepare,
}
use cyclewarden.Evolution.Delivery.Recovery.{
  ReconcileInput, can_clear, recovered, final_status, is_other, to_clear, clear_stale_lease,
  apply_reconciliation, finish_reconciliation,
}
use cyclewarden.Evolution.Delivery.RoundTrip.{IsProper, read_record-file_of}
use cyclewarden.Evolution.Delivery.Verdicts.{read-IsProper}

-- An inspection that can be cleared has a record that was read.
abbrev pub HasRecord : DeliveryOperationInspection → Type 0
HasRecord i =
    can_clear i ≡ true → (r : DeliveryOperationRecord) × (i.record' ≡ some r) × IsProper r.payload

module _ (machine : Machine) where
  open machine use {digest_json}

  judged_record :
      (locked : Bool) (r : DeliveryOperationRecord) (findings : List String)
      → IsProper r.payload
      → HasRecord (judged machine locked r findings)
  unfolding judged
  judged_record locked r findings proper h = (r, refl, proper)

  chosen_record :
      (a : DeliveryOperationRecord) (c : Attempt DeliveryOperationRecord)
      → IsProper a.payload
      → ((p : DeliveryOperationRecord) → c ≡ done p → IsProper p.payload)
      → HasRecord (choose machine a c)
  unfolding choose
  chosen_record a (refused e) proper also =
      judged_record true a
        (("primary checkpoint cannot be trusted; using the acquisition lock record: "
            ++ₛ message_of e)
          ∷ primary_missing machine
          ∷ [])
        proper
  chosen_record a (done p) proper also = elim (Bool-cases (a.operation_id != p.operation_id)) [
    | inl other ↦ rw other (
        judged_record true a
          ("acquisition lock belongs to a different operation and is authoritative" ∷ []) proper)
    | inr same ↦ rw same (judged_record true p [] (also p refl))
  ]

  locked_record :
      (l : Attempt DeliveryOperationRecord) (c : Option File)
      → ((a : DeliveryOperationRecord) → l ≡ done a → IsProper a.payload)
      → HasRecord (inspect_locked machine l c)
  unfolding inspect_locked
  locked_record (refused e) c proper = λ h. absurd (cc)
  locked_record (done a) none proper =
      judged_record true a (primary_missing machine ∷ []) (proper a refl)
  locked_record (done a) (some file) proper =
      chosen_record a (read_record digest_json file) (proper a refl)
        (read-IsProper digest_json file)

  unlocked_record :
      (c : Attempt DeliveryOperationRecord)
      → ((p : DeliveryOperationRecord) → c ≡ done p → IsProper p.payload)
      → HasRecord (inspect_unlocked machine c)
  unfolding inspect_unlocked
  unlocked_record (refused e) proper = λ h. absurd (cc)
  unlocked_record (done p) proper = judged_record false p [] (proper p refl)

  pub files_record : (l c : Option File) → HasRecord (inspect_files machine l c)
  unfolding inspect_files
  files_record none none = λ h. absurd (cc)
  files_record none (some file) =
      unlocked_record (read_record digest_json file) (read-IsProper digest_json file)
  files_record (some file) c =
      locked_record (read_record digest_json file) c (read-IsProper digest_json file)

  -- The record after a recovery is proper, and no longer running.
  pub recovered-IsProper :
      (input : ReconcileInput) (evidence : String) (p : OperationPayload)
      → IsProper p
      → IsProper (recovered input evidence p)
  recovered-IsProper input evidence p h = record {
    has_id = h.has_id;
    has_cycle = h.has_cycle;
    has_actor = h.has_actor;
    has_host = h.has_host;
    has_owner = h.has_owner;
    child_ok = refl;
  }

  pub settled : (s : DeliveryOperationStatus) → is_running (final_status s) ≡ false
  settled s = ground arith

  module _ (hex : (j : Json) → is_digest (digest_json j) ≡ true) where
    -- A terminal checkpoint without a lock is healthy.
    pub ended_is_healthy :
        (p : OperationPayload)
        → IsProper p
        → is_running p.status ≡ false
        → is_healthy
            (inspect machine
              (record { checkpoint = some (file_of digest_json p); lock = none })).disposition
          ≡ true
    unfolding inspect inspect_files inspect_unlocked judged with_digest
    ended_is_healthy p proper over = rw (read_record-file_of digest_json hex p proper, over) refl

    same_record : (r : DeliveryOperationRecord) → (r.operation_id != r.operation_id) ≡ false
    same_record r = ground (arith, str_iff r.operation_id r.operation_id)

    -- What is found stale again is cleared.
    cleared_now :
        (input : ReconcileInput) (i : DeliveryOperationInspection) (disk : Disk) (evidence : String)
        (r : DeliveryOperationRecord)
        → (not (can_clear (inspect machine disk)) || is_other r (inspect machine disk).record')
          ≡ false
        → (clear_stale_lease machine input i r evidence disk).1 ≡ record {
          checkpoint = some (file_of digest_json (recovered input evidence r.payload));
          lock = none;
        }
    unfolding clear_stale_lease
    cleared_now input i disk evidence r still = rw (still) refl

    still_owned :
        (i : DeliveryOperationInspection) (r : DeliveryOperationRecord)
        → can_clear i ≡ true
        → i.record' ≡ some r
        → (not (can_clear i) || is_other r i.record') ≡ false
    still_owned i r clear found = rw (clear, found, same_record r) refl

    to_clear_found :
        (input : ReconcileInput) (i : DeliveryOperationInspection) (r : DeliveryOperationRecord)
        → input.apply ≡ true
        → can_clear i ≡ true
        → i.record' ≡ some r
        → to_clear machine input i ≡ some r
    to_clear_found input i r applied clear found = rw (applied, clear) found

    -- A reconciliation that is to be applied clears what was found stale.
    cleared :
        (input : ReconcileInput) (disk : Disk) (evidence : String) (r : DeliveryOperationRecord)
        → input.apply ≡ true
        → can_clear (inspect machine disk) ≡ true
        → (inspect machine disk).record' ≡ some r
        → (finish_reconciliation machine input (inspect machine disk) evidence disk).1 ≡ record {
          checkpoint = some (file_of digest_json (recovered input evidence r.payload));
          lock = none;
        }
    unfolding finish_reconciliation apply_reconciliation
    cleared input disk evidence r applied clear found =
        ap (λ o. (apply_reconciliation machine input (inspect machine disk) evidence disk o).1)
          (to_clear_found input (inspect machine disk) r applied clear found)
        ∙ cleared_now input (inspect machine disk) disk evidence r
            (still_owned (inspect machine disk) r clear found)

    pub may_start :
        (input : WithDeliveryOperationInput) (drawn : Drawn) (disk : Disk)
        → is_blank (trim input.actor) ≡ false
        → is_positive (or_else input.heartbeat_interval_ms (pos 5000)) ≡ true
        → is_healthy (inspect machine disk).disposition ≡ true
        → prepare machine input drawn disk ≡ done (new_payload machine input drawn)
    unfolding prepare
    may_start input drawn disk given positive free = rw (given, positive, free) refl

    -- A stale lease does not stay in the way: after a reconciliation that is to be applied, of
    -- files whose inspection says that they can be cleared, a delivery with an actor and a
    -- positive heartbeat interval may start. A digest is taken to have 64 hexadecimal digits.
    pub stale_is_recoverable :
        (input : ReconcileInput) (evidence : String) (disk : Disk)
        (next : WithDeliveryOperationInput) (drawn : Drawn)
        → input.apply ≡ true
        → can_clear (inspect machine disk) ≡ true
        → is_blank (trim next.actor) ≡ false
        → is_positive (or_else next.heartbeat_interval_ms (pos 5000)) ≡ true
        → prepare machine next drawn
            (finish_reconciliation machine input (inspect machine disk) evidence disk).1
          ≡ done (new_payload machine next drawn)
    unfolding inspect
    stale_is_recoverable input evidence disk next drawn applied clear given positive =
        let (r, found, proper) = files_record disk.lock disk.checkpoint clear in
        may_start next drawn _ given positive (
          subst (λ d. is_healthy (inspect machine d).disposition ≡ true)
            (sym (cleared input disk evidence r applied clear found))
            (ended_is_healthy (recovered input evidence r.payload)
              (recovered-IsProper input evidence r.payload proper) (settled r.status)))
