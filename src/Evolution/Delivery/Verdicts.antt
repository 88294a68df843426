-- ===== src/Evolution/Delivery/Verdicts.antt =====
-- What inspections say (packages/evolution-core/src/delivery-operation.ts): of a lease that is held, and of
-- one that is there at all.
use cyclewarden.Prelude.{
  [], ◌≡◌, refl, subst, ap, ◌∙◌, Bool, true, false, not, ◌||◌, Option, none, some, String, ◌!=◌,
  string_eq, nat_eq, str_iff, Json, ℤ, arith, Bool-cases, inl, inr,
}
use cyclewarden.Evolution.Delivery.Operation.{
  DeliveryOperationRecord, DeliveryOperationStatus, running, File, unreadable, written, RawRecord,
  done, DeliveryOperationKind,
}
use cyclewarden.Evolution.Delivery.Record.{
  is_positive, check_record, read_record, has_shape, is_digest, kind_of, status_of, typed,
  payload_json,
}
use cyclewarden.Evolution.Delivery.Inspection.{
  Machine, Disk, DeliveryProcessState, alive, is_gone, is_foreign, judge, process_state,
  child_process_state, judged, choose, inspect_locked, inspect_files, inspect,
}
use cyclewarden.Evolution.Delivery.Recovery.{is_stale}
use cyclewarden.Evolution.Delivery.RoundTrip.{IsProper}

typed-IsProper :
    (kind : DeliveryOperationKind) (status : DeliveryOperationStatus) (raw : RawRecord)
    → has_shape raw ≡ true
    → IsProper (typed kind status raw).payload
typed-IsProper kind status raw h = record {
  has_id = ground arith;
  has_cycle = ground arith;
  has_actor = ground arith;
  has_host = ground arith;
  has_owner = ground arith;
  child_ok = ground arith;
}

module _ (digest_json : Json → String) where
  checked-IsProper :
      (kind : Option DeliveryOperationKind) (status : Option DeliveryOperationStatus)
      (raw : RawRecord) (r : DeliveryOperationRecord)
      → check_record digest_json kind status raw ≡ done r
      → IsProper r.payload
  unfolding check_record
  checked-IsProper none status raw r h = absurd (cc)
  checked-IsProper (some kind) none raw r h = absurd (cc)
  checked-IsProper (some kind) (some status) raw r h = elim (Bool-cases (has_shape raw)) [
    | inl shaped ↦
        let bad_digest : Bool =
          not (is_digest raw.integrity_digest)
          || raw.integrity_digest != digest_json (payload_json raw) in
        elim (Bool-cases bad_digest) [
          | inl wrong ↦ absurd (cc (rw (shaped, wrong) at h))
          | inr right ↦
              let same : typed kind status raw ≡ r = cc (rw (shaped, right) at h) in
              subst (λ x. IsProper x.payload) same (typed-IsProper kind status raw shaped)
        ]
    | inr bad ↦ absurd (cc (rw bad at h))
  ]

  -- What is read is a proper record.
  pub read-IsProper :
      (file : File) (r : DeliveryOperationRecord)
      → read_record digest_json file ≡ done r
      → IsProper r.payload
  unfolding read_record
  read-IsProper (unreadable message) r h = absurd (cc)
  read-IsProper (written raw) r h =
      checked-IsProper (kind_of raw.operation) (status_of raw.status) raw r h

-- A file names an operation as running, owned by a process of a host.
pub record Names (digest_json : Json → String) (host : String) (o : Option File) (pid : ℤ)
    (id : String) : Type 0 where
  pub file : File
  pub found : DeliveryOperationRecord
  pub there : o ≡ some file
  pub read : read_record digest_json file ≡ done found
  pub same_id : found.operation_id ≡ id
  pub same_owner : found.owner_pid ≡ pid
  pub same_host : found.owner_host ≡ host
  pub still_running : found.status ≡ running

module _ (machine : Machine) where
  open machine use {hostname, digest_json}

  owner_alive :
      (pid : ℤ) (host : String)
      → is_positive pid ≡ true
      → host ≡ hostname
      → is_gone (machine.kill pid) ≡ false
      → process_state machine host (some pid) ≡ alive
  unfolding process_state
  owner_alive pid host positive here up =
      let known : (host != hostname) ≡ false = ground (arith, str_iff host hostname) in
      rw (known, positive, up) refl

  live_judge : (child : DeliveryProcessState) → is_stale (judge true true alive child).0 ≡ false
  live_judge child = elim (Bool-cases (is_foreign child)) [
    | inl foreign ↦ rw foreign refl
    | inr known ↦ rw known refl
  ]

  -- With a live owner on this machine, a running record is not stale.
  live_judged :
      (r : DeliveryOperationRecord)
      → is_positive r.owner_pid ≡ true
      → r.owner_host ≡ hostname
      → r.status ≡ running
      → is_gone (machine.kill r.owner_pid) ≡ false
      → is_stale (judged machine true r []).disposition ≡ false
  unfolding judged
  live_judged r positive here going up =
      rw (going, owner_alive r.owner_pid r.owner_host positive here up)
        (live_judge (child_process_state machine r.owner_host r.child_pid))

  -- A lease whose owner lives is not stale.
  pub held_not_stale :
      (disk : Disk) (pid : ℤ) (id : String)
      → Names digest_json hostname disk.lock pid id
      → Names digest_json hostname disk.checkpoint pid id
      → is_gone (machine.kill pid) ≡ false
      → is_stale (inspect machine disk).disposition ≡ false
  unfolding inspect inspect_files inspect_locked choose
  held_not_stale disk pid id l c up =
      let same : (l.found.operation_id != c.found.operation_id) ≡ false =
        ground (arith, str_iff l.found.operation_id c.found.operation_id, l.same_id, c.same_id) in
      rw (l.there, c.there, l.read, c.read, same)
        (live_judged c.found (read-IsProper digest_json c.file c.found c.read).has_owner c.same_host
          c.still_running (ap (λ p. is_gone (machine.kill p)) c.same_owner ∙ up))
