-- ===== src/Forge/Steps/Rules.antt =====
-- Rules by which a command is shown to keep to the steps, one for each method of the store.
use cyclewarden.Prelude.{
  ◌+◌, ◌≡◌, refl, Bool, true, false, Option, some, String, put, get-put, Bool-cases, inl, inr, ◌==◌,
  string_eq,
}
use cyclewarden.Domain.Contracts.{Run, RunEvent}
use cyclewarden.Domain.Schemas.{run_schema, event_schema}
use cyclewarden.Domain.Errors.{ForgeError, Result, ok}
use cyclewarden.Forge.Store.{Store, Host}
use cyclewarden.Forge.Exec.{Exec, from_result, gets, throw_if, ◌>>=◌, ◌>>◌}
use cyclewarden.Forge.Queries.{found}
use cyclewarden.Forge.Methods.{random_uuid, current_time, save_run, append_event, EventInput}
use cyclewarden.Forge.Ensures.{
  Ensures, Fails, Returns, Ensures-both, after-Ensures, Ensures-found, Ensures-result, Ensures-bind,
  Ensures-throw_if,
}
use cyclewarden.Forge.Ensures.Methods.{event_at, appended}
use cyclewarden.Forge.Steps.{
  Step, draw_uuid, read_clock, create_run, move_run, append, Owns, Reach, here, next,
}

module _ (host : Host) (workspace : String) where
  -- Steps, and then steps.
  pub Reach-trans :
      {s t u : Store}
      → Reach host workspace s t
      → Reach host workspace t u
      → Reach host workspace s u
  Reach-trans r here = r
  Reach-trans r (next r' st) = next (Reach-trans r r') st

module _ (host : Host) (workspace : String) where
  Owns-put :
      (s : Store) (run : Run) (k : String)
      → run.workspace_id ≡ workspace
      → Owns workspace s k
      → Owns workspace (record s { runs = put s.runs run.id run }) k
  Owns-put s run k own (old, stored, owned) = elim (Bool-cases (run.id == k)) [
    | inl same ↦ (run, rw (get-put, same) refl, own)
    | inr other ↦ (old, rw (get-put, other) stored, owned)
  ]

  Step-Owns :
      {s t : Store} (k : String) → Step host workspace s t → Owns workspace s k → Owns workspace t k
  Step-Owns k (create_run s run i own _ _ _ _ _ _ _ _) o = Owns-put s run k own o
  Step-Owns k (move_run s old run _ _ own _ _) o = Owns-put s run k own o
  Step-Owns k _ o = o

  -- A run of the workspace stays one.
  pub Reach-Owns :
      {s t : Store} (k : String)
      → Reach host workspace s t
      → Owns workspace s k
      → Owns workspace t k
  Reach-Owns k here o = o
  Reach-Owns k (next r st) o = Step-Owns k st (Reach-Owns k r o)

module _ (host : Host) (workspace : String) (start : Store) where
  abbrev Reached : Store → Type 0
  Reached t = Reach host workspace start t

  -- Whatever the computation did, and whether it returned or threw, it kept to the steps.
  abbrev pub Keeps : {A : Type 0} → Result A × Store → Type 0
  Keeps r = Reach host workspace start r.1

  module _ {A B : Type 0} where
    pub keeps_found :
        (e : ForgeError) (o : Store → Option A) (f : A → Exec B) (s : Store)
        → Reach host workspace start s
        → ((a : A) → o s ≡ some a → Keeps (f a s))
        → Keeps (((λ s. found e (o s) s) >>= f) s)
    keeps_found e o f s r k = after-Ensures Reached (((λ s. found e (o s) s) >>= f) s) (
        Ensures-found (Fails Reached) (Returns Reached) e o f s (λ _. r)
          (λ a h. Ensures-both Reached (f a s) (k a h)))

    pub keeps_gets :
        (g : Store → A) (f : A → Exec B) (s : Store) → Keeps (f (g s) s) → Keeps ((gets g >>= f) s)
    unfolding ◌>>=◌
    keeps_gets g f s k = k

    pub keeps_result :
        (m : Result A) (f : A → Exec B) (s : Store)
        → Reach host workspace start s
        → ((a : A) → m ≡ ok a → Keeps (f a s))
        → Keeps ((from_result m >>= f) s)
    keeps_result m f s r k = after-Ensures Reached ((from_result m >>= f) s) (
        Ensures-result (Fails Reached) (Returns Reached) m f s (λ _ _. r)
          (λ a h. Ensures-both Reached (f a s) (k a h)))

    -- A first part that keeps to the steps by a rule of its own.
    pub keeps_bind :
        (Q : A → Store → Type 0) (m : Exec A) (f : A → Exec B) (s : Store)
        → Ensures (Fails Reached) Q (m s)
        → ((a : A) (s' : Store) → Q a s' → Keeps (f a s'))
        → Keeps ((m >>= f) s)
    keeps_bind Q m f s r k = after-Ensures Reached ((m >>= f) s) (
        Ensures-bind (Fails Reached) Q (Returns Reached) m f s r
          (λ a t h. Ensures-both Reached (f a t) (k a t h)))

  module _ {B : Type 0} where
    pub keeps_throw_if :
        (b : Bool) (e : ForgeError) (m : Exec B) (s : Store)
        → Reach host workspace start s
        → (b ≡ false → Keeps (m s))
        → Keeps ((throw_if b e >> m) s)
    keeps_throw_if b e m s r k = after-Ensures Reached ((throw_if b e >> m) s) (
        Ensures-throw_if (Fails Reached) (Returns Reached) b e m s (λ _. r)
          (λ h. Ensures-both Reached (m s) (k h)))

    pub keeps_random_uuid :
        (f : String → Exec B) (s : Store)
        → Reach host workspace start s
        → (Reach host workspace start (record s { uuids_drawn = s.uuids_drawn + 1 })
            → Keeps (f (host.uuid s.uuids_drawn) (record s { uuids_drawn = s.uuids_drawn + 1 })))
        → Keeps ((random_uuid host >>= f) s)
    unfolding ◌>>=◌ random_uuid
    keeps_random_uuid f s r k = k (next r (draw_uuid s))

    pub keeps_current_time :
        (f : String → Exec B) (s : Store)
        → Reach host workspace start s
        → (Reach host workspace start (record s { times_read = s.times_read + 1 })
            → Keeps (f (host.now s.times_read) (record s { times_read = s.times_read + 1 })))
        → Keeps ((current_time host >>= f) s)
    unfolding ◌>>=◌ current_time
    keeps_current_time f s r k = k (next r (read_clock s))

    -- A save of a run needs its step only if the schema accepts the run.
    pub keeps_save_run :
        (run : Run) (f : Run → Exec B) (s : Store)
        → Reach host workspace start s
        → (run_schema host.formats run ≡ true
            → Step host workspace s (record s { runs = put s.runs run.id run }))
        → (Reach host workspace start (record s { runs = put s.runs run.id run })
            → Keeps (f run (record s { runs = put s.runs run.id run })))
        → Keeps ((save_run host run >>= f) s)
    unfolding ◌>>=◌ save_run
    keeps_save_run run f s r st k = elim (Bool-cases (run_schema host.formats run)) [
      | inl good ↦ rw good (k (next r (st good)))
      | inr bad ↦ rw bad r
    ]

    pub keeps_append_event :
        (input : EventInput) (f : RunEvent → Exec B) (s : Store)
        → Reach host workspace start s
        → Owns workspace s input.run_id
        → (Reach host workspace start (appended host input s)
            → Keeps (f (event_at host input s) (appended host input s)))
        → Keeps ((append_event host input >>= f) s)
    unfolding ◌>>=◌ append_event
    keeps_append_event input f s r owned k =
        let reached : Reach host workspace start
            (record s { uuids_drawn = s.uuids_drawn + 1; times_read = s.times_read + 1 }) =
          next (next r (draw_uuid s)) (read_clock (record s { uuids_drawn = s.uuids_drawn + 1 })) in
        elim (Bool-cases (event_schema host.formats (event_at host input s))) [
          | inl good ↦ rw good (
              k (
                next reached (
                  append
                    (record s { uuids_drawn = s.uuids_drawn + 1; times_read = s.times_read + 1 })
                    input.run_id (event_at host input s) owned refl refl good)))
          | inr bad ↦ rw bad reached
        ]
