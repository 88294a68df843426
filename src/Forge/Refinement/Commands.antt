-- ===== src/Forge/Refinement/Commands.antt =====
-- The commands of packages/forge-application/src as a whole, with authorization and idempotency, against
-- the steps of their workspace.
use cyclewarden.Prelude.{
  ◌≡◌, ◌≢◌, refl, none, some, String, Dict, get, put, remove, get-put, get-remove, str_iff, arith,
  Bool-cases, Option-cases, inl, inr, ◌!=◌, string_eq, Option,
}
use cyclewarden.Domain.Errors.{Result, ok, throw}
use cyclewarden.Forge.Store.{Store, Host, Outcome, IdempotencyEntry}
use cyclewarden.Forge.Exec.{Exec, from_result, ◌>>◌}
use cyclewarden.Forge.Queries.{get_run}
use cyclewarden.Forge.Methods.{
  Request, entry_key, request_hash, set_entry, settle, replay, start_or_replay, execute_idempotent,
}
use cyclewarden.Forge.Commands.Authorizer.{WorkspaceAuthorizer}
use cyclewarden.Forge.Commands.CreateTask.{TaskNormalizer, CreateTaskInput, create_task}
use cyclewarden.Forge.Commands.StartRun.{start_run}
use cyclewarden.Forge.Commands.CancelRun.{cancel_run}
use cyclewarden.Forge.Commands.NextIteration.{create_next_run_iteration}
use cyclewarden.Forge.Commands.AddInstruction.{AddInstructionInput, add_instruction}
use cyclewarden.Forge.Commands.ResolveApproval.{resolve_approval}
use cyclewarden.Forge.Commands.ResolveReview.{resolve_review}
use cyclewarden.Forge.Commands.PublishRun.{publish_run}
use cyclewarden.Forge.Steps.{remember, Reach, here, next}
use cyclewarden.Forge.Steps.Rules.{
  Reach-trans, Keeps, keeps_found, keeps_throw_if, keeps_result, keeps_append_event,
  keeps_current_time, keeps_random_uuid,
}
use cyclewarden.Forge.Steps.Saves.{keeps_save_task, parse_task-id}
use cyclewarden.Forge.Refinement.Coherence.{IsCoherent, at_own_id, same_text}
use cyclewarden.Forge.Refinement.StartRun.{start_run_body_keeps}
use cyclewarden.Forge.Refinement.CancelRun.{cancel_run_body_keeps}
use cyclewarden.Forge.Refinement.NextIteration.{next_iteration_body_keeps}
use cyclewarden.Forge.Refinement.ResolveApproval.{resolve_approval_body_keeps}
use cyclewarden.Forge.Refinement.ResolveReview.{resolve_review_body_keeps}
use cyclewarden.Forge.Refinement.PublishRun.{publish_run_body_keeps}
use cyclewarden.Forge.Service.{Command, workspace_of, handle}

module _ (d : Dict IdempotencyEntry) (key : String) where
  -- The other entries of the idempotency table.
  elsewhere_put : (e : IdempotencyEntry) (k : String) → k ≢ key → get (put d key e) k ≡ get d k
  elsewhere_put e k other = ground (arith, get-put d key k e, str_iff key k)

  elsewhere_remove : (k : String) → k ≢ key → get (remove d key) k ≡ get d k
  elsewhere_remove k other = ground (arith, get-remove d key k, str_iff key k)

module _ (host : Host) (workspace : String) where
  settle_keeps :
      (request : Request) (hash : String) (s : Store) (r : Result Outcome × Store)
      → request.workspace_id ≡ workspace
      → Reach host workspace s r.1
      → Keeps host workspace s (settle host (entry_key request) hash r)
  unfolding settle
  settle_keeps request hash s (ok o, t) own r =
      next r (remember t request _ own (elsewhere_put _ _ _))
  settle_keeps request hash s (throw e, t) own r =
      next r (remember t request _ own (elsewhere_remove _ _))

  replay_keeps :
      (hash : String) (existing : IdempotencyEntry) (s : Store)
      → Keeps host workspace s (replay host hash existing s)
  unfolding replay
  replay_keeps hash existing s = elim (Bool-cases (existing.request_hash != hash)) [
    | inl other ↦ rw other here
    | inr same ↦ rw same (elim (Option-cases existing.result) [
      | inl pending ↦ rw pending here
      | inr (o, settled) ↦ rw settled here
    ])
  ]

  entry_case :
      (request : Request) (hash : String) (body : Exec Outcome) (o : Option IdempotencyEntry)
      (s : Store)
      → request.workspace_id ≡ workspace
      → IsCoherent host s
      → ((t : Store) → IsCoherent host t → Keeps host workspace t (body t))
      → Keeps host workspace s (start_or_replay host (entry_key request) hash body o s)
  unfolding start_or_replay set_entry
  entry_case request hash body none s own c k = settle_keeps request hash s _ own (
      Reach-trans host workspace (next here (remember s request _ own (elsewhere_put _ _ _)))
        (k _ (record { keyed = c.keyed; fresh = c.fresh })))
  entry_case request hash body (some e) s own c k = replay_keeps hash e s

  -- The authorizer's refusal and the idempotency table change nothing but that table.
  idempotent_keeps :
      (m : Result (Unit {0})) (request : Request) (body : Exec Outcome) (s : Store)
      → request.workspace_id ≡ workspace
      → IsCoherent host s
      → ((t : Store) → IsCoherent host t → Keeps host workspace t (body t))
      → Keeps host workspace s ((from_result m >> execute_idempotent host request body) s)
  unfolding execute_idempotent
  idempotent_keeps m request body s own c k =
      keeps_result host workspace s m _ s here λ allowed is_allowed.
        entry_case request (request_hash host request.body) body
          (get s.idempotency (entry_key request)) s own c k

module _ (host : Host) (authorizer : WorkspaceAuthorizer) where
  instruct_keeps :
      (i : AddInstructionInput) (s : Store)
      → IsCoherent host s
      → Keeps host i.workspace_id s (add_instruction host authorizer i s)
  unfolding add_instruction get_run
  instruct_keeps i s c = keeps_result host i.workspace_id s _ _ s here λ allowed is_allowed.
      keeps_found host i.workspace_id s _ _ _ s here λ run stored.
        keeps_throw_if host i.workspace_id s _ _ _ s here λ own.
          keeps_throw_if host i.workspace_id s _ _ _ s here λ live.
            keeps_append_event host i.workspace_id s _ _ s here
              (run, at_own_id host s i.run_id run c stored, same_text _ _ own) λ r1. r1

  create_keeps :
      (n : TaskNormalizer) (i : CreateTaskInput) (s : Store)
      → Keeps host i.workspace_id s (create_task host authorizer n i s)
  unfolding create_task
  create_keeps n i s = keeps_result host i.workspace_id s _ _ s here λ allowed is_allowed.
      keeps_result host i.workspace_id s _ _ s here λ normalized is_normalized.
        keeps_current_time host i.workspace_id s _ s here λ r1.
          keeps_random_uuid host i.workspace_id s _ _ r1 λ r2.
            keeps_found host i.workspace_id s _ _ _ _ r2 λ task parsed.
              keeps_save_task host i.workspace_id s task _ s.uuids_drawn r2
                (parse_task-id host.formats _ task parsed) (omega arith)

  -- From a coherent store every command, whether it returns or throws, does to the store a
  -- sequence of the steps that its workspace is allowed: runs and tasks are created in the
  -- workspace, under identifiers that were drawn, and a run only of a task that belongs to the
  -- workspace or that a run of the workspace has; only runs of the workspace are moved, reviewed
  -- or published, have events appended or requests for approval resolved, and of the idempotency
  -- entries only those under the keys of the workspace's requests change.
  pub handle-Reach :
      (c : Command) (s : Store)
      → IsCoherent host s
      → Reach host (workspace_of c) s (handle host authorizer c s)
  unfolding handle start_run cancel_run create_next_run_iteration resolve_approval resolve_review
      publish_run
  handle-Reach (Command.create n i) s c = create_keeps n i s
  handle-Reach (Command.start i) s c =
      idempotent_keeps host i.workspace_id _ _ _ s refl c (λ t d. start_run_body_keeps host i t d)
  handle-Reach (Command.cancel i) s c =
      idempotent_keeps host i.workspace_id _ _ _ s refl c (λ t d. cancel_run_body_keeps host i t d)
  handle-Reach (Command.iterate i) s c =
      idempotent_keeps host i.workspace_id _ _ _ s refl c
        (λ t d. next_iteration_body_keeps host i t d)
  handle-Reach (Command.instruct i) s c = instruct_keeps i s c
  handle-Reach (Command.approve i) s c =
      idempotent_keeps host i.workspace_id _ _ _ s refl c
        (λ t d. resolve_approval_body_keeps host i t d)
  handle-Reach (Command.review i) s c =
      idempotent_keeps host i.workspace_id _ _ _ s refl c
        (λ t d. resolve_review_body_keeps host i t d)
  handle-Reach (Command.publish p i) s c =
      idempotent_keeps host i.workspace_id _ _ _ s refl c
        (λ t d. publish_run_body_keeps host i t d p)
