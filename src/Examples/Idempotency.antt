-- ===== src/Examples/Idempotency.antt =====
-- A command under one idempotency key: repeated, with another body, and after a failure.
use cyclewarden.Prelude.{
  ◌≡◌, ◌≢◌, refl, none, get, empty, get-empty, str, str_iff, string_eq, arith,
}
use cyclewarden.Domain.Errors.{ok, throw, unauthorized, idempotency_conflict}
use cyclewarden.Forge.Serialize.{stable_serialize}
use cyclewarden.Forge.Store.{init, Outcome}
use cyclewarden.Forge.Exec.{return, fail}
use cyclewarden.Forge.Methods.{
  Request, entry_key, request_hash, execute_idempotent, start_or_replay, settle, set_entry,
}
use cyclewarden.Forge.Idempotency.{success_is_replayed, other_body_conflicts, failure_is_retried}
use cyclewarden.Examples.World.{host, run}

abbrev request : Request
request = record {
  workspace_id = "w";
  operation = "cancel-run";
  idempotency_key = "k";
  body = str "x";
}

abbrev outcome : Outcome
outcome = Outcome.run run

succeeded : (execute_idempotent host request (return outcome) init).0 ≡ ok outcome
unfolding execute_idempotent start_or_replay settle get empty
succeeded = refl

success_is_replayed_example :
    execute_idempotent host request
      (fail unauthorized)
      (execute_idempotent host request (return outcome) init).1
    ≡ (ok outcome, (execute_idempotent host request (return outcome) init).1)
success_is_replayed_example =
    success_is_replayed host request (return outcome) (fail unauthorized) init outcome succeeded

abbrev other_request : Request
other_request = record request { body = str "y" }

differs : request_hash host other_request.body ≢ request_hash host request.body
unfolding request_hash stable_serialize
differs e =
    ground
      (arith, (str_iff (request_hash host other_request.body) (request_hash host request.body)).1 e)

other_body_conflicts_example :
    (execute_idempotent host other_request
        (return outcome)
        (execute_idempotent host request (return outcome) init).1
      ≡ (throw idempotency_conflict, (execute_idempotent host request (return outcome) init).1))
    × (execute_idempotent host request
          (fail unauthorized)
          (execute_idempotent host other_request
            (return outcome)
            (execute_idempotent host request (return outcome) init).1).1
        ≡ (ok outcome, (execute_idempotent host request (return outcome) init).1))
other_body_conflicts_example =
    other_body_conflicts host request other_request (return outcome) (return outcome)
      (fail unauthorized) init outcome refl differs succeeded

failed : (execute_idempotent host request (fail unauthorized) init).0 ≡ throw unauthorized
unfolding execute_idempotent start_or_replay settle get empty
failed = refl

failure_is_retried_example :
    execute_idempotent host request
      (return outcome)
      (execute_idempotent host request (fail unauthorized) init).1
    ≡ settle host (entry_key request) (request_hash host request.body) (
        return outcome (
          set_entry host
            (entry_key request)
            (request_hash host request.body)
            none
            (execute_idempotent host request (fail unauthorized) init).1))
failure_is_retried_example =
    failure_is_retried host request (fail unauthorized) (return outcome) init unauthorized
      (get-empty (entry_key request)) failed
