-- ===== src/Evolution/Delivery/Exclusion.antt =====
-- At most one process works under the lease (packages/evolution-core/src/delivery-operation.ts).
use cyclewarden.Prelude.{
  ◌≤◌, ◌≡◌, subst, true, false, [], ◌∷◌, string_eq, is_blank, length, All, Json, arith,
}
use cyclewarden.Evolution.Delivery.Record.{is_digest}
use cyclewarden.Evolution.Delivery.Processes.{
  Site, System, machine_of, Event, prepares, takes, dies_taking, beats, notes_child, finishes, dies,
  starts, recovers, Events, none_yet, then_one,
}
use cyclewarden.Evolution.Delivery.Ownership.{
  all_has, All-filter, IsCandidate, Held, nobody, somebody, IsExclusive,
}
use cyclewarden.Evolution.Delivery.Holding.{
  prepared_is, Held-without, filtered, Held-prepared, Held-started, Held-beaten, Held-child,
  Held-recovered, new-IsCandidate, taken, dying,
}

module _ (site : Site) where
  open site use {hostname, digest_json}

  module _ (named : is_blank hostname ≡ false)
      (hex : (j : Json) → is_digest (digest_json j) ≡ true) where
    Event-IsExclusive : {s t : System} → Event site s t → IsExclusive site s → IsExclusive site t
    Event-IsExclusive (prepares s input drawn p live positive has_id has_cycle h) x =
        let (given, same) = prepared_is (machine_of site s) input drawn s.disk p h in
        record {
          candidates = (
            subst (λ q. IsCandidate site (drawn.pid, q)) same
                (new-IsCandidate site named hex s input drawn positive has_id has_cycle given),
            x.candidates,
          );
          held = Held-prepared site named hex s ((drawn.pid, p) ∷ s.prepared) x.held;
        }
    Event-IsExclusive (takes s pid p r disk has live h) x = record {
      candidates = x.candidates;
      held =
          taken site named hex s pid p r disk
            (all_has (IsCandidate site) (pid, p) s.prepared x.candidates has) live h x.held;
    }
    Event-IsExclusive (dies_taking s pid p u disk has h) x = record {
      candidates = All-filter (IsCandidate site) _ s.prepared x.candidates;
      held = dying site named hex s pid p u disk h x.held;
    }
    Event-IsExclusive (beats s pid id now has) x = record {
      candidates = x.candidates;
      held = Held-beaten site named hex s id now x.held;
    }
    Event-IsExclusive (notes_child s pid child id now has positive) x = record {
      candidates = x.candidates;
      held = Held-child site named hex s child id now positive x.held;
    }
    Event-IsExclusive (finishes s pid id now result has) x = record {
      candidates = x.candidates;
      held = nobody (filtered site s pid id x.held has);
    }
    Event-IsExclusive (dies s pid) x = record {
      candidates = All-filter (IsCandidate site) _ s.prepared x.candidates;
      held = Held-without site pid s x.held;
    }
    Event-IsExclusive (starts s pid) x = record {
      candidates = x.candidates;
      held = Held-started site named hex s pid x.held;
    }
    Event-IsExclusive (recovers s input found evidence) x = record {
      candidates = x.candidates;
      held = Held-recovered site named hex s input found evidence x.held;
    }

    Events-IsExclusive : {s t : System} → Events site s t → IsExclusive site s → IsExclusive site t
    Events-IsExclusive none_yet x = x
    Events-IsExclusive (then_one es e) x = Event-IsExclusive e (Events-IsExclusive es x)

    at_most_one : (s : System) → Held site s → length s.leases ≤ 1
    at_most_one s (nobody e) = rw e (omega arith)
    at_most_one s (somebody q id e owns) = rw e (omega arith)

    All-live : (s : System) → Held site s → All (λ l. s.alive l.0 ≡ true) s.leases
    All-live s (nobody e) = rw e tt
    All-live s (somebody q id e owns) = rw e (owns.live, tt)

    -- At most one process works under the lease: whatever the processes of one machine do from a
    -- state without candidates and leases, deaths, also between the link of the lock and the
    -- rename, restarts and recoveries included, at most one lease is in use, and its process is
    -- alive. A digest is taken to have 64 hexadecimal digits, the machine to have a name, and what
    -- the step relation puts into one step to happen at once; so does a reconciliation's second
    -- inspection with its writing.
    pub lease_is_exclusive :
        (s t : System)
        → s.prepared ≡ []
        → s.leases ≡ []
        → Events site s t
        → (length t.leases ≤ 1) × All (λ l. t.alive l.0 ≡ true) t.leases
    lease_is_exclusive s t no_candidates no_leases es =
        let x : IsExclusive site t =
          Events-IsExclusive es
            (record { candidates = rw no_candidates tt; held = nobody no_leases }) in
        (at_most_one t x.held, All-live t x.held)
