-- ===== src/Examples/Delivery.antt =====
-- Two deliveries of one cycle, the first of which takes the lease, and a lease whose owner has died.
use cyclewarden.Prelude.{
  ◌≡◌, refl, ◌≤◌, Bool, ◌||◌, true, false, none, some, [], ◌∷◌, String, pos, length, All, Json, inl,
  trim, utf16_length, is_some,
}
use cyclewarden.Evolution.Delivery.Operation.{OperationPayload, execute, Attempt, done, refused}
use cyclewarden.Evolution.Delivery.Record.{
  is_digest, with_digest, file_of, check_record, read_record,
}
use cyclewarden.Evolution.Delivery.Inspection.{
  Machine, Disk, no_process, process_state, child_process_state, judged, choose, inspect_locked,
  inspect_files, inspect,
}
use cyclewarden.Evolution.Delivery.Lease.{
  WithDeliveryOperationInput, Drawn, new_payload, prepare, link_lock, acquire, take_lease,
  read_checkpoint, beat, update_heartbeat, note_child, record_delivery_child_process, close, finish,
}
use cyclewarden.Evolution.Delivery.Recovery.{
  ReconcileInput, start_reconciliation, finish_reconciliation, can_clear, to_clear, write_recovered,
}
use cyclewarden.Evolution.Delivery.RoundTrip.{IsProper, read_record-file_of}
use cyclewarden.Evolution.Delivery.Processes.{
  Site, System, machine_of, same_pid, Events, none_yet, then_one, prepares, takes, beats,
}
use cyclewarden.Evolution.Delivery.Exclusion.{lease_is_exclusive}
use cyclewarden.Evolution.Delivery.Restart.{stale_is_recoverable}
use cyclewarden.Evolution.Delivery.Racing.{late_recovery_admits_second}

abbrev digest : Json → String
digest j = "0123456789abcdef0123456789abcdef0123456789abcdef0123456789abcdef"

digest_hex : (j : Json) → is_digest (digest j) ≡ true
unfolding utf16_length
digest_hex j = refl

abbrev input : WithDeliveryOperationInput
input = record {
  cycle_id = "cycle:1";
  project_root = "/srv";
  actor = " ana ";
  operation = execute;
  heartbeat_interval_ms = none;
}

abbrev first : Drawn
first = record { operation_id = "operation:1"; now = "8:00"; pid = pos 7 }

abbrev second : Drawn
second = record { operation_id = "operation:2"; now = "8:01"; pid = pos 9 }

abbrev site : Site
site = record { hostname = "here"; windows = false; digest_json = digest; sha256 = λ s. s }

abbrev empty_disk : Disk
empty_disk = record { checkpoint = none; lock = none }

abbrev idle : System
idle = record { disk = empty_disk; alive = λ pid. same_pid pid (pos 7); prepared = []; leases = [] }

abbrev payload : OperationPayload
payload = new_payload (machine_of site idle) input first

payload-IsProper : IsProper payload
unfolding trim
payload-IsProper = record {
  has_id = refl;
  has_cycle = refl;
  has_actor = refl;
  has_host = refl;
  has_owner = refl;
  child_ok = refl;
}

read_record-file_of_example :
    read_record digest (file_of digest payload) ≡ done (with_digest digest payload)
read_record-file_of_example = read_record-file_of digest digest_hex payload payload-IsProper

-- A machine where no process is left, and the files of a delivery that has died.
abbrev quiet : Machine
quiet = record {
  hostname = "here";
  kill = λ pid. no_process;
  windows = false;
  digest_json = digest;
}

abbrev left_behind : Disk
left_behind = record {
  checkpoint = some (file_of digest payload);
  lock = some (file_of digest payload);
}

abbrev clearing : ReconcileInput
clearing = record { actor = "ben"; apply = true; now = "9:00" }

is_clearable : can_clear (inspect quiet left_behind) ≡ true
unfolding inspect inspect_files inspect_locked choose judged process_state child_process_state
    read_record check_record file_of with_digest trim utf16_length
is_clearable = refl

stale_is_recoverable_example :
    prepare quiet input second
      (finish_reconciliation quiet clearing (inspect quiet left_behind) "evidence:1" left_behind).1
    ≡ done (new_payload quiet input second)
unfolding trim
stale_is_recoverable_example =
    stale_is_recoverable quiet digest_hex clearing "evidence:1" left_behind input second refl
      is_clearable refl refl

-- Where the files of the dead delivery were inspected, and where another has taken the lease meanwhile.
abbrev deserted : System
deserted = record { disk = left_behind; alive = λ pid. false; prepared = []; leases = [] }

abbrev third : OperationPayload
third =
    new_payload (machine_of site idle) input
      (record { operation_id = "operation:3"; now = "8:59"; pid = pos 7 })

abbrev taken_over : System
taken_over = record {
  disk = record { checkpoint = some (file_of digest third); lock = some (file_of digest third) };
  alive = λ pid. same_pid pid (pos 7) || same_pid pid (pos 9);
  prepared = [];
  leases = (pos 7, "operation:3") ∷ [];
}

found_stale :
    to_clear (machine_of site deserted) clearing (inspect (machine_of site deserted) left_behind)
    ≡ some (with_digest digest payload)
unfolding inspect inspect_files inspect_locked choose judged process_state child_process_state
    read_record check_record file_of with_digest trim utf16_length
found_stale = refl

late_recovery_admits_second_example :
    (t : System) × Events site
      (record taken_over {
        disk =
            write_recovered
              (machine_of site taken_over)
              clearing
              "evidence:1"
              payload
              taken_over.disk;
      })
      t
    × (t.leases ≡ (pos 9, "operation:2") ∷ (pos 7, "operation:3") ∷ [])
unfolding with_digest trim
late_recovery_admits_second_example =
    late_recovery_admits_second site digest_hex deserted taken_over clearing "evidence:1"
      (with_digest digest payload) input second found_stale refl refl refl refl refl refl

abbrev ready : System
ready = record idle { prepared = (pos 7, payload) ∷ [] }

abbrev working : System
working = record ready {
  disk = record {
    checkpoint = some (file_of digest payload);
    lock = some (file_of digest payload);
  };
  leases = (pos 7, "operation:1") ∷ [];
}

prepared_first : prepare (machine_of site idle) input first empty_disk ≡ done payload
unfolding prepare inspect inspect_files trim
prepared_first = refl

taken_first :
    take_lease (machine_of site ready) payload empty_disk
    ≡ (done (with_digest digest payload), working.disk)
unfolding take_lease acquire link_lock
taken_first = refl

-- A process takes the lease and reports that it lives.
history : Events site idle (record working {
  disk = (update_heartbeat (machine_of site working) "operation:1" "8:02" working.disk).1;
})
history =
    then_one
      (then_one
        (then_one none_yet (prepares idle input first payload refl refl refl refl prepared_first))
        (takes ready (pos 7) payload (with_digest digest payload) working.disk (inl refl) refl
          taken_first))
      (beats working (pos 7) "operation:1" "8:02" (inl refl))

lease_is_exclusive_example :
    (length working.leases ≤ 1) × All (λ l. same_pid l.0 (pos 7) ≡ true) working.leases
lease_is_exclusive_example =
    lease_is_exclusive site refl digest_hex idle
      (record working {
        disk = (update_heartbeat (machine_of site working) "operation:1" "8:02" working.disk).1;
      })
      refl refl history

abbrev is_done : {A : Type 0} → Attempt A → Bool
is_done (done a) = true
is_done (refused e) = false

-- While the first works, a second is refused; a report of a child is written; at the end the lock is gone.
second_waits : is_done (prepare (machine_of site working) input second working.disk) ≡ false
unfolding prepare inspect inspect_files inspect_locked choose judged process_state
    child_process_state read_record check_record file_of with_digest trim utf16_length
second_waits = refl

no_second_link : is_done (take_lease (machine_of site working) payload working.disk).0 ≡ false
unfolding take_lease acquire link_lock
no_second_link = refl

child_is_noted :
    is_done
      (record_delivery_child_process
        (machine_of site working)
        "operation:1"
        "8:03"
        (pos 11)
        working.disk).0
    ≡ true
unfolding record_delivery_child_process note_child read_checkpoint read_record check_record file_of
    with_digest trim utf16_length
child_is_noted = refl

heartbeat_is_written :
    is_some (update_heartbeat (machine_of site working) "operation:1" "8:02" working.disk).1.lock
    ≡ true
unfolding update_heartbeat beat read_checkpoint read_record check_record file_of with_digest trim
    utf16_length
heartbeat_is_written = refl

lock_is_given_back :
    (finish (machine_of site working) site.sha256 (done tt) "8:30" working.disk).1.lock ≡ none
unfolding finish close read_checkpoint read_record check_record file_of with_digest trim
    utf16_length
lock_is_given_back = refl

no_actor :
    is_done (start_reconciliation quiet (record clearing { actor = " " }) left_behind) ≡ false
unfolding start_reconciliation trim
no_actor = refl
