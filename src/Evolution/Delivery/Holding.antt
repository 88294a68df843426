-- ===== src/Evolution/Delivery/Holding.antt =====
-- Each step of a process leaves the lease with the process that holds it (packages/evolution-core/src/delivery-operation.ts).
use cyclewarden.Prelude.{
  ◌≡◌, refl, sym, subst, ap, Bool, true, false, not, ◌||◌, none, some, List, [], ◌∷◌, String, ◌!=◌,
  string_eq, str_iff, is_blank, trim, or_else, filter, ℤ, pos, Json, arith, Bool-cases, inl, inr,
}
use cyclewarden.Evolution.Delivery.Operation.{OperationPayload, done, DeliveryOperationRecord}
use cyclewarden.Evolution.Delivery.Record.{is_positive, is_digest, file_of}
use cyclewarden.Evolution.Delivery.Inspection.{Machine, Disk, DeliveryOperationInspection, inspect}
use cyclewarden.Evolution.Delivery.Lease.{
  WithDeliveryOperationInput, Drawn, new_payload, is_healthy, prepare, acquire, take_lease,
  update_heartbeat, record_delivery_child_process,
}
use cyclewarden.Evolution.Delivery.Recovery.{ReconcileInput, to_clear, finish_reconciliation}
use cyclewarden.Evolution.Delivery.Verdicts.{Names}
use cyclewarden.Evolution.Delivery.Processes.{Site, System, Has, same_pid, machine_of, without}
use cyclewarden.Evolution.Delivery.Ownership.{
  IsCandidate, Owns, Held, nobody, somebody, Names-file_of, link_case, take_lease_lem,
  unlocked_is_free, beat_owned, child_owned, recovered_owned,
}

pub prepared_is :
    (m : Machine) (input : WithDeliveryOperationInput) (drawn : Drawn) (disk : Disk)
    (p : OperationPayload)
    → prepare m input drawn disk ≡ done p
    → (is_blank (trim input.actor) ≡ false) × (new_payload m input drawn ≡ p)
unfolding prepare
prepared_is m input drawn disk p h = elim (Bool-cases (is_blank (trim input.actor))) [
  | inl blank ↦ absurd (cc (rw blank at h))
  | inr given ↦
      elim (Bool-cases (not (is_positive (or_else input.heartbeat_interval_ms (pos 5000))))) [
        | inl bad ↦ absurd (cc (rw (given, bad) at h))
        | inr good ↦ elim (Bool-cases (not (is_healthy (inspect m disk).disposition))) [
          | inl busy ↦ absurd (cc (rw (given, good, busy) at h))
          | inr free ↦ (given, cc (rw (given, good, free) at h))
        ]
      ]
]

module _ (site : Site) where
  open site use {hostname, digest_json}

  pub Held-without : (pid : ℤ) (s : System) → Held site s → Held site (without site pid s)
  Held-without pid s (nobody e) = nobody (rw e refl)
  Held-without pid s (somebody q id e owns) = elim (Bool-cases (same_pid q pid)) [
    | inl same ↦ nobody (rw (e, same) refl)
    | inr other ↦
        somebody q id (rw (e, other) refl) (record {
          live = rw (owns.live, other) refl;
          locked = owns.locked;
          checked = owns.checked;
        })
  ]

  -- The one that has the lease is the one that finishes.
  only_one : {A : Type 0} (x y : A) (xs : List A) → xs ≡ y ∷ [] → Has x xs → x ≡ y
  only_one x y xs e h = only x y (subst (Has x) e h)
    where
      only : {A : Type 0} (x y : A) → Has x (y ∷ []) → x ≡ y
      only x y (inl e) = e
      only x y (inr h) = absurd h

  pub filtered :
      (s : System) (pid : ℤ) (id : String)
      → Held site s
      → Has (pid, id) s.leases
      → filter (λ l. l.1 != id) s.leases ≡ []
  filtered s pid id (nobody e) h = absurd (subst (Has (pid, id)) e h)
  filtered s pid id (somebody q id' e owns) h =
      let same : (id' != id) ≡ false =
        ground (arith, str_iff id' id, ap (λ l. l.1) (only_one (pid, id) (q, id') s.leases e h)) in
      rw (e, same) refl

  module _ (named : is_blank hostname ≡ false)
      (hex : (j : Json) → is_digest (digest_json j) ≡ true) where
    -- Steps that leave the leases alone.
    pub Held-prepared :
        (s : System) (ps : List (ℤ × OperationPayload))
        → Held site s
        → Held site (record s { prepared = ps })
    Held-prepared s ps (nobody e) = nobody e
    Held-prepared s ps (somebody q id e owns) =
        somebody q id e (record { live = owns.live; locked = owns.locked; checked = owns.checked })

    pub Held-started :
        (s : System) (pid : ℤ)
        → Held site s
        → Held site (record s { alive = λ q. same_pid q pid || s.alive q })
    Held-started s pid (nobody e) = nobody e
    Held-started s pid (somebody q id e owns) = somebody q id e (record {
      live = started_alive (same_pid q pid) (s.alive q) owns.live;
      locked = owns.locked;
      checked = owns.checked;
    })
      where
        started_alive : (a b : Bool) → b ≡ true → (a || b) ≡ true
        started_alive a b h = ground arith

    pub Held-beaten :
        (s : System) (id now : String)
        → Held site s
        → Held site (record s { disk = (update_heartbeat (machine_of site s) id now s.disk).1 })
    Held-beaten s id now (nobody e) = nobody e
    Held-beaten s id now (somebody q own e owns) =
        somebody q own e (beat_owned site hex s q own id now owns)

    pub Held-child :
        (s : System) (child : ℤ) (id now : String)
        → is_positive child ≡ true
        → Held site s
        → Held site (record s {
          disk = (record_delivery_child_process (machine_of site s) id now child s.disk).1;
        })
    Held-child s child id now positive (nobody e) = nobody e
    Held-child s child id now positive (somebody q own e owns) =
        somebody q own e (child_owned site hex s q child own id now positive owns)

    pub Held-recovered :
        (s : System) (input : ReconcileInput) (found : DeliveryOperationInspection)
        (evidence : String)
        → Held site s
        → Held site (record s {
          disk = (finish_reconciliation (machine_of site s) input found evidence s.disk).1;
        })
    unfolding finish_reconciliation
    Held-recovered s input found evidence (nobody e) = nobody e
    Held-recovered s input found evidence (somebody q own e owns) =
        let same : (finish_reconciliation (machine_of site s) input found evidence s.disk).1
            ≡ s.disk =
          recovered_owned site hex s q own input found evidence owns
            (to_clear (machine_of site s) input found) in
        somebody q own e (
          subst (λ d. Owns site (record s { disk = d }) q own) (sym same)
            (record { live = owns.live; locked = owns.locked; checked = owns.checked }))

    pub new-IsCandidate :
        (s : System) (input : WithDeliveryOperationInput) (drawn : Drawn)
        → is_positive drawn.pid ≡ true
        → is_blank drawn.operation_id ≡ false
        → is_blank input.cycle_id ≡ false
        → is_blank (trim input.actor) ≡ false
        → IsCandidate site (drawn.pid, new_payload (machine_of site s) input drawn)
    new-IsCandidate s input drawn positive has_id has_cycle has_actor = record {
      proper = record {
        has_id = has_id;
        has_cycle = has_cycle;
        has_actor = has_actor;
        has_host = named;
        has_owner = positive;
        child_ok = refl;
      };
      same_owner = refl;
      same_host = refl;
      still_running = refl;
    }

    pub taken :
        (s : System) (pid : ℤ) (p : OperationPayload) (r : DeliveryOperationRecord) (disk : Disk)
        → IsCandidate site (pid, p)
        → s.alive pid ≡ true
        → take_lease (machine_of site s) p s.disk ≡ (done r, disk)
        → Held site s
        → Held site (record s { disk = disk; leases = (pid, p.operation_id) ∷ s.leases })
    taken s pid p r disk c live h held =
        let (free, is_new) = take_lease_lem site hex s p r disk h in
        let none_yet : s.leases ≡ [] = unlocked_is_free site hex s free held in
        let names : Names digest_json hostname (some (file_of digest_json p)) pid p.operation_id =
          Names-file_of site hex p pid p.operation_id c.proper refl c.same_owner c.same_host
            c.still_running in
        somebody pid p.operation_id (ap (λ ls. (pid, p.operation_id) ∷ ls) none_yet) (
          subst
            (λ d.
              Owns site (record s { disk = d; leases = (pid, p.operation_id) ∷ s.leases }) pid
                p.operation_id)
            (sym is_new) (record { live = live; locked = names; checked = names }))

    pub dying :
        (s : System) (pid : ℤ) (p : OperationPayload) (u : Unit {0}) (disk : Disk)
        → acquire (machine_of site s) p s.disk ≡ (done u, disk)
        → Held site s
        → Held site (without site pid (record s { disk = disk }))
    unfolding acquire
    dying s pid p u disk h held =
        let free : s.disk.lock ≡ none = (link_case site hex s p s.disk s.disk.lock u disk h).0 in
        nobody (rw (unlocked_is_free site hex s free held) refl)
