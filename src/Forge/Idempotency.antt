-- ===== src/Forge/Idempotency.antt =====
-- The contract of `executeIdempotent` (packages/forge-application/src/store/in-memory-store.ts).
use cyclewarden.Prelude.{
  ◌≡◌, ◌≢◌, refl, sym, ap, ◌∙◌, Option, none, some, String, get, get-put_self, get-remove, ◌==◌,
  string_eq, str_iff, arith, Bool-cases, inl, inr,
}
use cyclewarden.Domain.Errors.{ForgeError, Result, ok, throw, idempotency_conflict, still_pending}
use cyclewarden.Forge.Store.{Store, Host, Outcome, IdempotencyEntry}
use cyclewarden.Forge.Exec.{Exec}
use cyclewarden.Forge.Queries.{found}
use cyclewarden.Forge.Methods.{
  Request, entry_key, request_hash, set_entry, settle, replay, start_or_replay, execute_idempotent,
}

module _ (host : Host) where
  -- The entry that a successful command has left.
  abbrev settled : String → Outcome → IdempotencyEntry
  settled hash o = record { request_hash = hash; result = some o }

  settle_entry :
      (key hash : String) (r : Result Outcome × Store) (o : Outcome)
      → (settle host key hash r).0 ≡ ok o
      → get (settle host key hash r).1.idempotency key ≡ some (settled hash o)
  unfolding settle set_entry
  settle_entry key hash (ok o', t) o h = rw get-put_self (cc)
  settle_entry key hash (throw e, t) o h = absurd (cc)

  found_result :
      (e : ForgeError) (r : Option Outcome) (s : Store) (o : Outcome)
      → (found e r s).0 ≡ ok o
      → ((found e r s).1 ≡ s) × (r ≡ some o)
  found_result e none s o h = absurd (cc)
  found_result e (some o') s o h = (refl, cc)

  replay_entry :
      (hash : String) (e : IdempotencyEntry) (s : Store) (o : Outcome)
      → (replay host hash e s).0 ≡ ok o
      → ((replay host hash e s).1 ≡ s) × (e ≡ settled hash o)
  unfolding replay
  replay_entry hash e s o h = elim (Bool-cases (e.request_hash == hash)) [
    | inl same ↦
        let r = found_result still_pending e.result s o (rw same at h) in
        rw same (r.0, (ground (arith, str_iff e.request_hash hash)))
    | inr differs ↦ absurd (ground (arith, h, differs))
  ]

  entry_after :
      (key hash : String) (body : Exec Outcome) (s : Store) (e : Option IdempotencyEntry)
      (o : Outcome)
      → get s.idempotency key ≡ e
      → (start_or_replay host key hash body e s).0 ≡ ok o
      → get (start_or_replay host key hash body e s).1.idempotency key ≡ some (settled hash o)
  unfolding start_or_replay
  entry_after key hash body s none o absent h =
      settle_entry key hash (body (set_entry host key hash none s)) o h
  entry_after key hash body s (some e) o present h =
      let (same, is_e) = replay_entry hash e s o h in
      ap (λ (t : Store). get t.idempotency key) same ∙ present ∙ ap some is_e

  replay-settled :
      (hash : String) (o : Outcome) (t : Store) → replay host hash (settled hash o) t ≡ (ok o, t)
  unfolding replay
  replay-settled hash o t = ground (arith, str_iff hash hash)

  -- A command that has succeeded is not executed again: the same request returns the outcome that
  -- the first one had, and changes nothing.
  pub success_is_replayed :
      (request : Request) (body again : Exec Outcome) (s : Store) (o : Outcome)
      → (execute_idempotent host request body s).0 ≡ ok o
      → execute_idempotent host request again (execute_idempotent host request body s).1
        ≡ (ok o, (execute_idempotent host request body s).1)
  unfolding execute_idempotent start_or_replay
  success_is_replayed request body again s o h =
      let key = entry_key request in
      let hash = request_hash host request.body in
      let t = (execute_idempotent host request body s).1 in
      rw (entry_after key hash body s (get s.idempotency key) o refl h) (replay-settled hash o t)

  -- An entry with another hash is in the way.
  conflict_at :
      (request : Request) (body : Exec Outcome) (s : Store) (e : IdempotencyEntry)
      → get s.idempotency (entry_key request) ≡ some e
      → e.request_hash ≢ request_hash host request.body
      → execute_idempotent host request body s ≡ (throw idempotency_conflict, s)
  unfolding execute_idempotent start_or_replay replay
  conflict_at request body s e present differs =
      rw present (ground (arith, str_iff e.request_hash (request_hash host request.body)))

  -- A key belongs to the request that has succeeded under it: another request under the key, whose
  -- body has another hash, is not executed, but throws a conflict and changes nothing; and the
  -- first request, repeated after that, still returns the outcome that it had, and changes nothing
  -- either.
  pub other_body_conflicts :
      (first second : Request) (body other again : Exec Outcome) (s : Store) (o : Outcome)
      → entry_key second ≡ entry_key first
      → request_hash host second.body ≢ request_hash host first.body
      → (execute_idempotent host first body s).0 ≡ ok o
      → (execute_idempotent host second other (execute_idempotent host first body s).1
          ≡ (throw idempotency_conflict, (execute_idempotent host first body s).1))
        × (execute_idempotent host first again
              (execute_idempotent host second other (execute_idempotent host first body s).1).1
            ≡ (ok o, (execute_idempotent host first body s).1))
  unfolding execute_idempotent
  other_body_conflicts first second body other again s o same_key differs h =
      let key = entry_key first in
      let hash = request_hash host first.body in
      let t = (execute_idempotent host first body s).1 in
      let present = entry_after key hash body s (get s.idempotency key) o refl h in
      let conflict : execute_idempotent host second other t ≡ (throw idempotency_conflict, t) =
        conflict_at second other t (settled hash o) (ap (get t.idempotency) same_key ∙ present)
          (λ same. differs (sym same)) in
      (
        conflict,
        ap (λ (r : Result Outcome × Store). execute_idempotent host first again r.1) conflict
            ∙ success_is_replayed first body again s o h,
      )

  forget_throw :
      (key hash : String) (r : Result Outcome × Store) (e : ForgeError)
      → (settle host key hash r).0 ≡ throw e
      → get (settle host key hash r).1.idempotency key ≡ none
  unfolding settle
  forget_throw key hash (ok o, t) e h = absurd (cc)
  forget_throw key hash (throw e', t) e h =
      ground (arith, get-remove t.idempotency key key, str_iff key key)

  none_after_throw :
      (key hash : String) (body : Exec Outcome) (s : Store) (existing : Option IdempotencyEntry)
      (e : ForgeError)
      → existing ≡ none
      → (start_or_replay host key hash body existing s).0 ≡ throw e
      → get (start_or_replay host key hash body existing s).1.idempotency key ≡ none
  unfolding start_or_replay
  none_after_throw key hash body s none e absent h =
      forget_throw key hash (body (set_entry host key hash none s)) e h
  none_after_throw key hash body s (some _) e absent h = absurd (cc)

  -- A request that was new and has thrown leaves no entry: a retry executes its body, and settles
  -- by the outcome of that.
  pub failure_is_retried :
      (request : Request) (body again : Exec Outcome) (s : Store) (e : ForgeError)
      → get s.idempotency (entry_key request) ≡ none
      → (execute_idempotent host request body s).0 ≡ throw e
      → execute_idempotent host request again (execute_idempotent host request body s).1
        ≡ settle host (entry_key request) (request_hash host request.body) (
            again (
              set_entry host
                (entry_key request)
                (request_hash host request.body)
                none
                (execute_idempotent host request body s).1))
  unfolding execute_idempotent start_or_replay
  failure_is_retried request body again s e absent h =
      let key = entry_key request in
      let hash = request_hash host request.body in
      rw (none_after_throw key hash body s (get s.idempotency key) e absent h)
