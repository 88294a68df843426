-- ===== src/Evolution/Delivery/Processes.antt =====
-- Several processes of one machine that share the files of a delivery operation
-- (packages/evolution-core/src/delivery-operation.ts), as a step relation. A step is what one process does
-- without another in between; a process may also die at any time.
use cyclewarden.Prelude.{
  ◌≡◌, ◌⊎◌, Bool, true, false, not, ◌&&◌, ◌||◌, List, [], ◌∷◌, String, ◌!=◌, string_eq, is_blank,
  filter, ℤ, pos_part, neg_part, nat_beq, Json, if◌then◌else◌,
}
use cyclewarden.Evolution.Delivery.Operation.{
  OperationPayload, DeliveryOperationRecord, Attempt, done,
}
use cyclewarden.Evolution.Delivery.Record.{is_positive}
use cyclewarden.Evolution.Delivery.Inspection.{
  Machine, Disk, delivered, no_process, DeliveryOperationInspection,
}
use cyclewarden.Evolution.Delivery.Lease.{
  WithDeliveryOperationInput, Drawn, prepare, acquire, take_lease, update_heartbeat,
  record_delivery_child_process, finish,
}
use cyclewarden.Evolution.Delivery.Recovery.{ReconcileInput, finish_reconciliation}

-- The machine, as far as it does not change.
pub record Site : Type 0 where
  pub hostname : String
  pub windows : Bool
  pub digest_json : Json → String
  pub sha256 : String → String

abbrev pub same_pid : ℤ → ℤ → Bool
same_pid a b = nat_beq (pos_part a) (pos_part b) && nat_beq (neg_part a) (neg_part b)

-- The files, the live processes, the candidates that processes have prepared, and the leases under which
-- they work, each with the process that has it.
pub record System : Type 0 where
  pub disk : Disk
  pub alive : ℤ → Bool
  pub prepared : List (ℤ × OperationPayload)
  pub leases : List (ℤ × String)

abbrev pub Has : {A : Type 0} → A → List A → Type 0
Has x [] = ⊥
Has x (y ∷ ys) = (x ≡ y) ⊎ Has x ys

module _ (site : Site) where
  abbrev pub machine_of : System → Machine
  machine_of s = record {
    hostname = site.hostname;
    kill = λ pid. if s.alive pid then delivered else no_process;
    windows = site.windows;
    digest_json = site.digest_json;
  }

  -- The system after the death of a process.
  abbrev pub without : ℤ → System → System
  without pid s = record s {
    alive = λ q. s.alive q && not (same_pid q pid);
    prepared = filter (λ q. not (same_pid (q.0) pid)) s.prepared;
    leases = filter (λ l. not (same_pid (l.0) pid)) s.leases;
  }

  pub data Event : System → System → Type 0 where
    prepares :
        (s : System) (input : WithDeliveryOperationInput) (drawn : Drawn) (p : OperationPayload)
        → s.alive drawn.pid ≡ true
        → is_positive drawn.pid ≡ true
        → is_blank drawn.operation_id ≡ false
        → is_blank input.cycle_id ≡ false
        → prepare (machine_of s) input drawn s.disk ≡ done p
        → Event s (record s { prepared = (drawn.pid, p) ∷ s.prepared })
    takes :
        (s : System) (pid : ℤ) (p : OperationPayload) (r : DeliveryOperationRecord) (disk : Disk)
        → Has (pid, p) s.prepared
        → s.alive pid ≡ true
        → take_lease (machine_of s) p s.disk ≡ (done r, disk)
        → Event s (record s { disk = disk; leases = (pid, p.operation_id) ∷ s.leases })
    -- The process dies between the link and the rename.
    dies_taking :
        (s : System) (pid : ℤ) (p : OperationPayload) (u : Unit {0}) (disk : Disk)
        → Has (pid, p) s.prepared
        → acquire (machine_of s) p s.disk ≡ (done u, disk)
        → Event s (without pid (record s { disk = disk }))
    beats :
        (s : System) (pid : ℤ) (id now : String)
        → Has (pid, id) s.leases
        → Event s (record s { disk = (update_heartbeat (machine_of s) id now s.disk).1 })
    notes_child :
        (s : System) (pid child : ℤ) (id now : String)
        → Has (pid, id) s.leases
        → is_positive child ≡ true
        → Event s (record s {
          disk = (record_delivery_child_process (machine_of s) id now child s.disk).1;
        })
    finishes :
        (s : System) (pid : ℤ) (id now : String) (result : Attempt (Unit {0}))
        → Has (pid, id) s.leases
        → Event s (record s {
          disk = (finish (machine_of s) site.sha256 result now s.disk).1;
          leases = filter (λ l. l.1 != id) s.leases;
        })
    dies : (s : System) (pid : ℤ) → Event s (without pid s)
    starts :
        (s : System) (pid : ℤ) → Event s (record s { alive = λ q. same_pid q pid || s.alive q })
    -- A reconciliation goes on with what it found before, and the evidence that it has registered.
    recovers :
        (s : System) (input : ReconcileInput) (found : DeliveryOperationInspection)
        (evidence : String)
        → Event s (record s {
          disk = (finish_reconciliation (machine_of s) input found evidence s.disk).1;
        })

  pub data Events (start : System) : System → Type 0 where
    none_yet : Events start start
    then_one : {s t : System} → Events start s → Event s t → Events start t
