-- ===== src/Evolution/Delivery/Racing.antt =====
-- A recovery that writes late (packages/evolution-core/src/delivery-operation.ts). What
-- `reconcileDeliveryOperation` writes, it writes after its second inspection and without a lock, so that other
-- processes may have gone on in between.
use cyclewarden.Prelude.{
  ◌≡◌, refl, subst, true, false, ◌&&◌, Option, none, some, ◌∷◌, is_blank, trim, or_else, Json, pos,
  String, arith, Bool-cases, inl, inr,
}
use cyclewarden.Evolution.Delivery.Operation.{DeliveryOperationRecord, OperationPayload, File, done}
use cyclewarden.Evolution.Delivery.Record.{is_positive, is_digest, with_digest, file_of}
use cyclewarden.Evolution.Delivery.Inspection.{Machine, DeliveryOperationInspection, Disk, inspect}
use cyclewarden.Evolution.Delivery.Lease.{
  WithDeliveryOperationInput, Drawn, new_payload, prepare, link_lock, acquire, take_lease,
}
use cyclewarden.Evolution.Delivery.Recovery.{
  ReconcileInput, can_clear, recovered, to_clear, write_recovered,
}
use cyclewarden.Evolution.Delivery.RoundTrip.{IsProper}
use cyclewarden.Evolution.Delivery.Processes.{
  Site, System, machine_of, Events, none_yet, then_one, prepares, takes,
}
use cyclewarden.Evolution.Delivery.Restart.{
  HasRecord, files_record, recovered-IsProper, settled, ended_is_healthy, may_start,
}

module _ (machine : Machine) where
  -- What is to be cleared was read from a file.
  found-IsProper :
      (input : ReconcileInput) (i : DeliveryOperationInspection) (r : DeliveryOperationRecord)
      → HasRecord i
      → to_clear machine input i ≡ some r
      → IsProper r.payload
  found-IsProper input i r has h = elim (Bool-cases (input.apply && can_clear i)) [
    | inl both ↦
        let (r', found, proper) = has (ground arith) in
        let taken : i.record' ≡ some r = (rw both at h) in
        let same : r' ≡ r = cc (found, taken) in subst (λ q. IsProper q.payload) same proper
    | inr not_both ↦ absurd (cc (rw not_both at h))
  ]

module _ (site : Site) where
  open site use {digest_json}

  -- The files of a delivery that has just taken the lease.
  abbrev own_files : OperationPayload → Disk
  own_files p = record {
    checkpoint = some (file_of digest_json p);
    lock = some (file_of digest_json p);
  }

  -- A delivery that may start takes the lease where no lock is in the way.
  start_and_take :
      (s : System) (c : Option File) (next : WithDeliveryOperationInput) (drawn : Drawn)
      (p : OperationPayload)
      → s.disk ≡ record { checkpoint = c; lock = none }
      → s.alive drawn.pid ≡ true
      → is_positive drawn.pid ≡ true
      → is_blank drawn.operation_id ≡ false
      → is_blank next.cycle_id ≡ false
      → prepare (machine_of site s) next drawn s.disk ≡ done p
      → Events site s (record s {
        disk = own_files p;
        prepared = (drawn.pid, p) ∷ s.prepared;
        leases = (drawn.pid, p.operation_id) ∷ s.leases;
      })
  unfolding take_lease acquire link_lock
  start_and_take s c next drawn p free live positive has_id has_cycle prepared =
      then_one (then_one none_yet (prepares s next drawn p live positive has_id has_cycle prepared))
        (takes (record s { prepared = (drawn.pid, p) ∷ s.prepared }) drawn.pid p
          (with_digest digest_json p) (own_files p) (inl refl) live (rw free refl))

  module _ (hex : (j : Json) → is_digest (digest_json j) ≡ true) where
    -- A recovery that writes late lets a second delivery in: when an inspection has found a record
    -- to clear, then, whatever the processes and files are once the recovery has written that
    -- record and removed the lock, a live process may start a delivery and take the lease, beside
    -- the leases that are in use. The delivery needs an actor, identifiers that are not empty, a
    -- positive process number and a positive heartbeat interval; a digest is taken to have 64
    -- hexadecimal digits.
    pub late_recovery_admits_second :
        (before s : System) (input : ReconcileInput) (evidence : String)
        (r : DeliveryOperationRecord) (next : WithDeliveryOperationInput) (drawn : Drawn)
        → to_clear (machine_of site before) input (inspect (machine_of site before) before.disk)
          ≡ some r
        → s.alive drawn.pid ≡ true
        → is_positive drawn.pid ≡ true
        → is_blank drawn.operation_id ≡ false
        → is_blank next.cycle_id ≡ false
        → is_blank (trim next.actor) ≡ false
        → is_positive (or_else next.heartbeat_interval_ms (pos 5000)) ≡ true
        → (t : System) × Events site
            (record s {
              disk = write_recovered (machine_of site s) input evidence r.payload s.disk;
            })
            t
          × (t.leases ≡ (drawn.pid, drawn.operation_id) ∷ s.leases)
    unfolding inspect
    late_recovery_admits_second before s input evidence r next drawn found live positive has_id
          has_cycle given often =
        let machine : Machine = machine_of site s in
        let proper : IsProper r.payload =
          found-IsProper (machine_of site before) input
            (inspect (machine_of site before) before.disk) r
            (files_record (machine_of site before) before.disk.lock before.disk.checkpoint) found in
        let disk : Disk = write_recovered machine input evidence r.payload s.disk in
        let healthy =
          ended_is_healthy machine hex (recovered input evidence r.payload)
            (recovered-IsProper machine input evidence r.payload proper)
            (settled machine r.status) in
        (
          _,
          start_and_take (record s { disk = disk }) _ next drawn (new_payload machine next drawn)
              refl live positive has_id has_cycle
              (may_start machine hex next drawn disk given often healthy),
          refl,
        )
