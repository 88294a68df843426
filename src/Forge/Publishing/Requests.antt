-- ===== src/Forge/Publishing/Requests.antt =====
-- Requests leave a run alone that is being published (packages/forge-application/src).
use cyclewarden.Prelude.{
  ◌≡◌, Option, none, some, List, [], ◌∷◌, String, ◌!=◌, string_eq, get, Bool-cases, Option-cases,
  inl, inr,
}
use cyclewarden.Domain.Contracts.{Task, Run, RunState}
use cyclewarden.Domain.Schemas.{parse_task}
use cyclewarden.Domain.Errors.{ForgeError, Result, ok, throw}
use cyclewarden.Forge.Store.{Store, Host, Outcome, IdempotencyEntry}
use cyclewarden.Forge.Exec.{Exec, from_result, ◌>>=◌, ◌>>◌}
use cyclewarden.Forge.Queries.{get_run}
use cyclewarden.Forge.Methods.{
  Request, entry_key, request_hash, set_entry, settle, replay, start_or_replay, execute_idempotent,
  save_task,
}
use cyclewarden.Forge.Commands.Authorizer.{WorkspaceAuthorizer}
use cyclewarden.Forge.Commands.CreateTask.{TaskNormalizer, CreateTaskInput, create_task}
use cyclewarden.Forge.Commands.StartRun.{start_run}
use cyclewarden.Forge.Commands.CancelRun.{cancel_run}
use cyclewarden.Forge.Commands.NextIteration.{create_next_run_iteration}
use cyclewarden.Forge.Commands.AddInstruction.{AddInstructionInput, add_instruction}
use cyclewarden.Forge.Commands.ResolveApproval.{resolve_approval}
use cyclewarden.Forge.Commands.ResolveReview.{resolve_review}
use cyclewarden.Forge.Commands.PublishRun.{publish_run}
use cyclewarden.Forge.Service.{
  Command, create, start, cancel, iterate, instruct, approve, review, publish, handle, serve,
}
use cyclewarden.Forge.Refinement.Coherence.{IsCoherent}
use cyclewarden.Forge.Invariant.Parts.{UniqueUuids, IsValid}
use cyclewarden.Forge.Invariant.Preserved.{IsValid-IsCoherent}
use cyclewarden.Forge.Invariant.Isolation.{handle-IsValid}
use cyclewarden.Forge.Ensures.{
  Fails, Returns, after-Ensures, Ensures, Ensures-found, Ensures-result, Ensures-throw_if,
}
use cyclewarden.Forge.Ensures.Methods.{
  Ensures-random_uuid, Ensures-current_time, Ensures-append_event,
}
use cyclewarden.Forge.Publishing.Spared.{Stands}
use cyclewarden.Forge.Publishing.Bodies.{
  start_run_body-Ensures, next_iteration_body-Ensures, resolve_approval_body-Ensures,
  cancel_run_body-Ensures,
}
use cyclewarden.Forge.Publishing.Closing.{resolve_review_body-Ensures, publish_run_body-Ensures}

module _ (k : String) (r : Run) (host : Host) where
  abbrev Bad : ForgeError → Store → Type 0
  Bad = Fails (Stands k r)

  abbrev Good : {A : Type 0} → A → Store → Type 0
  Good = Returns (Stands k r)

  settle-Stands :
      (key hash : String) (res : Result Outcome × Store)
      → Ensures Bad Good res
      → Ensures Bad Good (settle host key hash res)
  unfolding settle set_entry
  settle-Stands key hash (ok o, t) h = h
  settle-Stands key hash (throw e, t) h = h

  replay-Stands :
      (hash : String) (existing : IdempotencyEntry) (s : Store)
      → Stands k r s
      → Ensures Bad Good (replay host hash existing s)
  unfolding replay
  replay-Stands hash existing s stands = elim (Bool-cases (existing.request_hash != hash)) [
    | inl other ↦ rw other stands
    | inr same ↦ rw same (elim (Option-cases existing.result) [
      | inl pending ↦ rw pending stands
      | inr (o, settled) ↦ rw settled stands
    ])
  ]

  -- What holds of a command's body, at whatever coherent store.
  abbrev Spares : Exec Outcome → Type 0
  Spares body = (t : Store) → IsCoherent host t → Stands k r t → Ensures Bad Good (body t)

  entry_case :
      (key hash : String) (body : Exec Outcome) (o : Option IdempotencyEntry) (s : Store)
      → IsCoherent host s
      → Stands k r s
      → Spares body
      → Ensures Bad Good (start_or_replay host key hash body o s)
  unfolding start_or_replay set_entry
  entry_case key hash body none s c stands spares =
      settle-Stands key hash _ (spares _ (record { keyed = c.keyed; fresh = c.fresh }) stands)
  entry_case key hash body (some e) s c stands spares = replay-Stands hash e s stands

  idempotent-Stands :
      (m : Result (Unit {0})) (request : Request) (body : Exec Outcome) (s : Store)
      → IsCoherent host s
      → Stands k r s
      → Spares body
      → Stands k r ((from_result m >> execute_idempotent host request body) s).1
  unfolding execute_idempotent
  idempotent-Stands m request body s c stands spares = after-Ensures (Stands k r) _ (
      Ensures-result Bad Good m _ s (λ e h. stands)
        λ allowed is_allowed.
          entry_case (entry_key request) (request_hash host request.body) body
            (get s.idempotency (entry_key request)) s c stands spares)

  module _ (authorizer : WorkspaceAuthorizer) where
    save_task-Ensures :
        (workspace : String) (task : Task) (s : Store)
        → Stands k r s
        → Ensures Bad Good (save_task host workspace task s)
    unfolding save_task ◌>>=◌
    save_task-Ensures workspace task s stands = elim (Option-cases (parse_task host.formats task)) [
      | inl bad ↦ rw bad stands
      | inr (parsed, good) ↦ rw good stands
    ]

    create-Ensures :
        (n : TaskNormalizer) (i : CreateTaskInput) (s : Store)
        → Stands k r s
        → Ensures Bad Good (create_task host authorizer n i s)
    unfolding create_task
    create-Ensures n i s stands =
        Ensures-result Bad Good _ _ s (λ e h. stands)
          λ allowed is_allowed.
            Ensures-result Bad Good _ _ s (λ e h. stands)
              λ normalized is_normalized. Ensures-current_time Bad host Good _ s (
                Ensures-random_uuid Bad host Good _ _ (
                  Ensures-found Bad Good _ _ _ _ (λ _. stands)
                    λ task parsed. save_task-Ensures i.workspace_id task _ stands))

    instruct-Ensures :
        (i : AddInstructionInput) (s : Store)
        → Stands k r s
        → Ensures Bad Good (add_instruction host authorizer i s)
    unfolding add_instruction get_run
    instruct-Ensures i s stands =
        Ensures-result Bad Good _ _ s (λ e h. stands)
          λ allowed is_allowed.
            Ensures-found Bad Good _ _ _ s (λ _. stands)
              λ run found.
                Ensures-throw_if Bad Good _ _ _ s (λ _. stands)
                  λ own.
                    Ensures-throw_if Bad Good _ _ _ s (λ _. stands)
                      λ live. Ensures-append_event Bad host Good _ _ s stands stands

    module _ (publishing : r.state ≡ RunState.publishing) where
      handle-Stands :
          (c : Command) (s : Store)
          → IsCoherent host s
          → Stands k r s
          → Stands k r (handle host authorizer c s)
      unfolding handle start_run cancel_run create_next_run_iteration resolve_approval
          resolve_review publish_run
      handle-Stands (create n i) s c stands =
          after-Ensures (Stands k r) _ (create-Ensures n i s stands)
      handle-Stands (start i) s c stands =
          idempotent-Stands _ _ _ s c stands (λ t d h. start_run_body-Ensures k r host t d h i)
      handle-Stands (cancel i) s c stands =
          idempotent-Stands _ _ _ s c stands
            (λ t d h. cancel_run_body-Ensures k r host t d h publishing i)
      handle-Stands (iterate i) s c stands =
          idempotent-Stands _ _ _ s c stands (λ t d h. next_iteration_body-Ensures k r host t d h i)
      handle-Stands (instruct i) s c stands =
          after-Ensures (Stands k r) _ (instruct-Ensures i s stands)
      handle-Stands (approve i) s c stands =
          idempotent-Stands _ _ _ s c stands
            (λ t d h. resolve_approval_body-Ensures k r host t d h i)
      handle-Stands (review i) s c stands =
          idempotent-Stands _ _ _ s c stands
            (λ t d h. resolve_review_body-Ensures k r host t d h publishing i)
      handle-Stands (publish p i) s c stands =
          idempotent-Stands _ _ _ s c stands
            (λ t d h. publish_run_body-Ensures k r host t d h publishing p i)

      -- Whatever is requested, the run stands as it did.
      pub serve-Stands :
          (unique : UniqueUuids host) (cs : List Command) (s : Store)
          → IsValid host s
          → Stands k r s
          → Stands k r (serve host authorizer cs s)
      unfolding serve
      serve-Stands unique [] s v stands = stands
      serve-Stands unique (c ∷ cs) s v stands =
          serve-Stands unique cs (handle host authorizer c s)
            (handle-IsValid host authorizer unique c s v)
            (handle-Stands c s (IsValid-IsCoherent host s v) stands)
