-- ===== src/Evolution/Delivery/Ownership.antt =====
-- Who has the lease, and what the steps of its process do to the files
-- (packages/evolution-core/src/delivery-operation.ts).
use cyclewarden.Prelude.{
  ◌≡◌, refl, sym, subst, ap, inl, inr, Bool, true, false, Option, none, some, List, [], ◌∷◌, String,
  ◌==◌, string_eq, filter, All, ℤ, Json, Bool-cases,
}
use cyclewarden.Evolution.Delivery.Operation.{
  OperationPayload, DeliveryOperationRecord, running, File, done,
}
use cyclewarden.Evolution.Delivery.Record.{is_positive, is_digest, with_digest, file_of}
use cyclewarden.Evolution.Delivery.Inspection.{is_gone, Disk, DeliveryOperationInspection}
use cyclewarden.Evolution.Delivery.Lease.{
  become_checkpoint, link_lock, acquire, take_lease, beat, note_child, read_checkpoint,
  update_heartbeat, record_delivery_child_process,
}
use cyclewarden.Evolution.Delivery.Recovery.{
  ReconcileInput, apply_reconciliation, clear_stale_lease,
}
use cyclewarden.Evolution.Delivery.RoundTrip.{IsProper, read_record-file_of}
use cyclewarden.Evolution.Delivery.Verdicts.{Names, read-IsProper, held_not_stale}
use cyclewarden.Evolution.Delivery.Processes.{Site, System, Has, machine_of}

pub all_has : {A : Type 0} (P : A → Type 0) (x : A) (xs : List A) → All P xs → Has x xs → P x
all_has P x [] a h = absurd h
all_has P x (y ∷ ys) a (inl e) = subst P (sym e) a.0
all_has P x (y ∷ ys) a (inr h) = all_has P x ys a.1 h

pub All-filter :
    {A : Type 0} (P : A → Type 0) (p : A → Bool) (xs : List A) → All P xs → All P (filter p xs)
All-filter P p [] a = tt
All-filter P p (x ∷ xs) a = elim (Bool-cases (p x)) [
  | inl kept ↦ rw kept (a.0, All-filter P p xs a.1)
  | inr dropped ↦ rw dropped (All-filter P p xs a.1)
]

module _ (site : Site) where
  open site use {hostname, digest_json}

  -- A candidate that can be read back, of its process.
  pub record IsCandidate (q : ℤ × OperationPayload) : Type 0 where
    pub proper : IsProper q.1
    pub same_owner : q.1.owner_pid ≡ q.0
    pub same_host : q.1.owner_host ≡ hostname
    pub still_running : q.1.status ≡ running

  -- A live process has the lease: both files name its operation.
  pub record Owns (s : System) (pid : ℤ) (id : String) : Type 0 where
    pub live : s.alive pid ≡ true
    pub locked : Names digest_json hostname s.disk.lock pid id
    pub checked : Names digest_json hostname s.disk.checkpoint pid id

  pub data Held (s : System) : Type 0 where
    nobody : s.leases ≡ [] → Held s
    somebody : (pid : ℤ) (id : String) → s.leases ≡ (pid, id) ∷ [] → Owns s pid id → Held s

  pub record IsExclusive (s : System) : Type 0 where
    pub candidates : All IsCandidate s.prepared
    pub held : Held s

  module _ (hex : (j : Json) → is_digest (digest_json j) ≡ true) where
    -- The file of a proper running record names it.
    pub Names-file_of :
        (p : OperationPayload) (pid : ℤ) (id : String)
        → IsProper p
        → p.operation_id ≡ id
        → p.owner_pid ≡ pid
        → p.owner_host ≡ hostname
        → p.status ≡ running
        → Names digest_json hostname (some (file_of digest_json p)) pid id
    unfolding with_digest
    Names-file_of p pid id proper same_id owner host going = record {
      file = file_of digest_json p;
      found = with_digest digest_json p;
      there = refl;
      read = read_record-file_of digest_json hex p proper;
      same_id = same_id;
      same_owner = owner;
      same_host = host;
      still_running = going;
    }

    -- Times and a running status make no difference to what a record must have.
    same_shape :
        {p : OperationPayload} {now : String}
        → IsProper p
        → IsProper (record p { heartbeat_at = now; status = running })
    same_shape h = record {
      has_id = h.has_id;
      has_cycle = h.has_cycle;
      has_actor = h.has_actor;
      has_host = h.has_host;
      has_owner = h.has_owner;
      child_ok = h.child_ok;
    }

    with_child :
        {p : OperationPayload} {now : String} (child : ℤ)
        → is_positive child ≡ true
        → IsProper p
        → IsProper (record p { child_pid = some child; heartbeat_at = now; status = running })
    with_child child positive h = record {
      has_id = h.has_id;
      has_cycle = h.has_cycle;
      has_actor = h.has_actor;
      has_host = h.has_host;
      has_owner = h.has_owner;
      child_ok = positive;
    }

    module _ (s : System) where
      pub link_case :
          (p : OperationPayload) (disk : Disk) (o : Option File) (u : Unit {0}) (d : Disk)
          → link_lock (machine_of site s) p disk o ≡ (done u, d)
          → (o ≡ none) × (d ≡ record disk { lock = some (file_of digest_json p) })
      unfolding link_lock
      link_case p disk none u d h = (refl, sym (ap (λ x. x.1) h))
      link_case p disk (some file) u d h = absurd (cc (ap (λ x. x.0) h))

      -- A lease is taken only where there is no lock.
      taken_case :
          (p : OperationPayload) (disk : Disk) (o : Option File) (r : DeliveryOperationRecord)
          (d : Disk)
          → become_checkpoint (machine_of site s) p (link_lock (machine_of site s) p disk o)
            ≡ (done r, d)
          → (o ≡ none)
            × (d ≡ record disk {
              lock = some (file_of digest_json p);
              checkpoint = some (file_of digest_json p);
            })
      unfolding link_lock
      taken_case p disk none r d h = (refl, sym (ap (λ x. x.1) h))
      taken_case p disk (some file) r d h = absurd (cc (ap (λ x. x.0) h))

      pub take_lease_lem :
          (p : OperationPayload) (r : DeliveryOperationRecord) (d : Disk)
          → take_lease (machine_of site s) p s.disk ≡ (done r, d)
          → (s.disk.lock ≡ none)
            × (d ≡ record (s.disk) {
              lock = some (file_of digest_json p);
              checkpoint = some (file_of digest_json p);
            })
      unfolding take_lease acquire
      take_lease_lem p r d h = taken_case p s.disk s.disk.lock r d h

      -- Whoever has the lease has a lock.
      pub unlocked_is_free : s.disk.lock ≡ none → Held s → s.leases ≡ []
      unlocked_is_free free (nobody e) = e
      unlocked_is_free free (somebody pid id e owns) = absurd (cc (owns.locked.there))

      -- The checkpoint is rewritten by its owner.
      rewritten :
          (pid : ℤ) (id : String) (p : OperationPayload)
          → Owns s pid id
          → IsProper p
          → p.operation_id ≡ id
          → p.owner_pid ≡ pid
          → p.owner_host ≡ hostname
          → p.status ≡ running
          → Owns
              (record s { disk = record (s.disk) { checkpoint = some (file_of digest_json p) } })
              pid
              id
      rewritten pid id p owns proper same_id owner host going = record {
        live = owns.live;
        locked = owns.locked;
        checked = Names-file_of p pid id proper same_id owner host going;
      }

      read_back :
          (pid : ℤ) (id : String)
          → (owns : Owns s pid id)
          → read_checkpoint (machine_of site s) s.disk ≡ done owns.checked.found
      unfolding read_checkpoint
      read_back pid id owns = rw (owns.checked.there, owns.checked.read) refl

      pub beat_owned :
          (pid : ℤ) (id other now : String)
          → Owns s pid id
          → Owns
              (record s { disk = (update_heartbeat (machine_of site s) other now s.disk).1 })
              pid
              id
      unfolding update_heartbeat beat
      beat_owned pid id other now owns =
          let c = owns.checked in
          let proper : IsProper c.found.payload = read-IsProper digest_json c.file c.found c.read in
          elim (Bool-cases (c.found.operation_id == other)) [
            | inl ours ↦
                rw (read_back pid id owns, ours, c.still_running)
                  (rewritten pid id
                    (record (c.found.payload) { heartbeat_at = now; status = running }) owns
                    (same_shape proper) c.same_id c.same_owner c.same_host refl)
            | inr foreign ↦ rw (read_back pid id owns, foreign) owns
          ]

      pub child_owned :
          (pid child : ℤ) (id other now : String)
          → is_positive child ≡ true
          → Owns s pid id
          → Owns
              (record s {
                disk = (record_delivery_child_process (machine_of site s) other now child s.disk).1;
              })
              pid
              id
      unfolding record_delivery_child_process note_child
      child_owned pid child id other now positive owns =
          let c = owns.checked in
          let proper : IsProper c.found.payload = read-IsProper digest_json c.file c.found c.read in
          elim (Bool-cases (c.found.operation_id == other)) [
            | inl ours ↦
                rw (read_back pid id owns, ours, c.still_running)
                  (rewritten pid id
                    (record (c.found.payload) {
                      child_pid = some child;
                      heartbeat_at = now;
                      status = running;
                    })
                    owns (with_child child positive proper) c.same_id c.same_owner c.same_host refl)
            | inr foreign ↦ rw (read_back pid id owns, foreign) owns
          ]

      up : (pid : ℤ) → s.alive pid ≡ true → is_gone ((machine_of site s).kill pid) ≡ false
      up pid live = rw live refl

      -- A reconciliation does not touch a lease whose owner lives.
      pub recovered_owned :
          (pid : ℤ) (id : String) (input : ReconcileInput) (i : DeliveryOperationInspection)
          (evidence : String)
          → Owns s pid id
          → (o : Option DeliveryOperationRecord)
          → (apply_reconciliation (machine_of site s) input i evidence s.disk o).1 ≡ s.disk
      unfolding apply_reconciliation clear_stale_lease
      recovered_owned pid id input i evidence owns none = refl
      recovered_owned pid id input i evidence owns (some r) =
          rw
            (held_not_stale (machine_of site s) s.disk pid id owns.locked owns.checked
              (up pid owns.live))
            refl
