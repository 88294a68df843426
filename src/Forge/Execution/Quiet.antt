-- ===== src/Forge/Execution/Quiet.antt =====
-- What an execution records beside its run (packages/forge-application/src/runs/execute-run.ts): events,
-- the validation and the evidence. None of it changes a run.
use cyclewarden.Prelude.{
  Option, none, some, get, ◌+◌, ◌≡◌, refl, sym, subst, ◌∙◌, List, [], ◌∷◌, String, Bool-cases, inl,
  inr,
}
use cyclewarden.Domain.Contracts.{
  Task, AcceptanceCriterion, Run, RunEvent, ValidationResult, AcceptanceEvidence,
}
use cyclewarden.Domain.Schemas.{validation_schema, evidence_schema, event_schema}
use cyclewarden.Domain.Errors.{ForgeError, Result, ok, throw}
use cyclewarden.Events.Provider.{Platform, LiveProviderEventInput}
use cyclewarden.Events.Normalizer.{normalize_live_provider_event}
use cyclewarden.Forge.Store.{Store, Host}
use cyclewarden.Forge.Exec.{Exec, return, from_result, then_do, ◌>>=◌}
use cyclewarden.Forge.Queries.{get_task, found}
use cyclewarden.Forge.Methods.{
  EventInput, random_uuid, save_validation, save_evidence, append_event,
}
use cyclewarden.Forge.Steps.{
  draw_uuid, read_clock, append, add_validation, add_evidence, Owns, Reach, here, next,
}
use cyclewarden.Forge.Steps.Rules.{Reach-trans, Reach-Owns}
use cyclewarden.Forge.Ensures.Methods.{event_at}
use cyclewarden.Forge.Execution.Providers.{SandboxExecResult}
use cyclewarden.Forge.Execution.Requests.{
  append_normalized_provider_event, save_all_evidence, record_validation,
}

module _ (host : Host) (workspace run_id : String) where
  -- However it ends, the runs are what they were, and if the run is the workspace's, it has kept to
  -- the steps.
  abbrev Kept : Store → Store → Type 0
  Kept s t = (Owns workspace s run_id → Reach host workspace s t) × (t.runs ≡ s.runs)

  abbrev pub Quiet : {A : Type 0} → Exec A → Type 0
  Quiet m = (s : Store) → Kept s (m s).1

  module _ {A B : Type 0} where
    bind_case :
        (s : Store) (r : Result A × Store) (k : A → Exec B)
        → Kept s r.1
        → ((a : A) → Quiet (k a))
        → Kept s (then_do r k).1
    bind_case s (ok a, t) k p q = (
      λ owned.
          Reach-trans host workspace (p.0 owned)
            ((q a t).0 (Reach-Owns host workspace run_id (p.0 owned) owned)),
      (q a t).1 ∙ p.1,
    )
    bind_case s (throw e, t) k p q = p

    pub Quiet-bind :
        (m : Exec A) (k : A → Exec B) → Quiet m → ((a : A) → Quiet (k a)) → Quiet (m >>= k)
    unfolding ◌>>=◌
    Quiet-bind m k p q s = bind_case s (m s) k (p s) q

  pub Quiet-return : {A : Type 0} (a : A) → Quiet (return a)
  Quiet-return a s = (λ owned. here, refl)

  pub Quiet-result : {A : Type 0} (r : Result A) → Quiet (from_result r)
  Quiet-result r s = (λ owned. here, refl)

  found_case : {A : Type 0} (e : ForgeError) (o : Option A) (s : Store) → Kept s (found e o s).1
  found_case e none s = (λ owned. here, refl)
  found_case e (some a) s = (λ owned. here, refl)

  pub Quiet-get_task : (task_id : String) → Quiet (get_task task_id)
  unfolding get_task
  Quiet-get_task task_id s = found_case _ (get s.tasks task_id) s

  Quiet-random_uuid : Quiet (random_uuid host)
  unfolding random_uuid
  Quiet-random_uuid s = (λ owned. next here (draw_uuid s), refl)

  pub Quiet-append_event :
      (input : EventInput) → input.run_id ≡ run_id → Quiet (append_event host input)
  unfolding append_event ◌>>=◌
  Quiet-append_event input is_run s =
      let drawn : Store = record s { uuids_drawn = s.uuids_drawn + 1 } in
      let read : Store = record drawn { times_read = s.times_read + 1 } in
      let reached : Reach host workspace s read =
        next (next here (draw_uuid s)) (read_clock drawn) in
      let event : RunEvent = event_at host input s in
      elim (Bool-cases (event_schema host.formats event)) [
        | inl good ↦ rw good (
          λ owned. next reached (
              append read input.run_id event (subst (Owns workspace s) (sym is_run) owned) refl refl
                good),
          refl,
        )
        | inr bad ↦ rw bad (λ owned. reached, refl)
      ]

  Quiet-save_validation :
      (result : ValidationResult) → result.run_id ≡ run_id → Quiet (save_validation host result)
  unfolding save_validation ◌>>=◌
  Quiet-save_validation result is_run s =
      elim (Bool-cases (validation_schema host.formats result)) [
        | inl good ↦ rw good (
          λ owned.
              next here
                (add_validation s result (subst (Owns workspace s) (sym is_run) owned) good),
          refl,
        )
        | inr bad ↦ rw bad (λ owned. here, refl)
      ]

  Quiet-save_evidence :
      (item : AcceptanceEvidence) → item.run_id ≡ run_id → Quiet (save_evidence host item)
  unfolding save_evidence ◌>>=◌
  Quiet-save_evidence item is_run s = elim (Bool-cases (evidence_schema host.formats item)) [
    | inl good ↦ rw good (
      λ owned. next here (add_evidence s item (subst (Owns workspace s) (sym is_run) owned) good),
      refl,
    )
    | inr bad ↦ rw bad (λ owned. here, refl)
  ]

  Quiet-save_all_evidence :
      (run : Run) (result : SandboxExecResult) (criteria : List AcceptanceCriterion)
      → run.id ≡ run_id
      → Quiet (save_all_evidence host run result criteria)
  unfolding save_all_evidence
  Quiet-save_all_evidence run result [] is_run = Quiet-return tt
  Quiet-save_all_evidence run result (criterion ∷ criteria) is_run =
      Quiet-bind _ _ Quiet-random_uuid λ id.
        Quiet-bind _ _ (Quiet-save_evidence _ is_run)
          λ item. Quiet-save_all_evidence run result criteria is_run

  pub Quiet-record_validation :
      (run : Run) (task : Task) (command : String) (result : SandboxExecResult)
      → run.id ≡ run_id
      → Quiet (record_validation host run task command result)
  unfolding record_validation
  Quiet-record_validation run task command result is_run = Quiet-bind _ _ Quiet-random_uuid λ id.
      Quiet-bind _ _ (Quiet-save_validation _ is_run)
        λ saved. Quiet-save_all_evidence run result task.acceptance_criteria is_run

  pub Quiet-append_normalized_provider_event :
      (platform : Platform) (input : LiveProviderEventInput)
      → Quiet (append_normalized_provider_event host platform run_id input)
  unfolding append_normalized_provider_event
  Quiet-append_normalized_provider_event platform input =
      Quiet-bind (from_result (normalize_live_provider_event platform input)) _
        (Quiet-result (normalize_live_provider_event platform input))
        λ event. Quiet-bind _ _ (Quiet-append_event _ refl) λ appended. Quiet-return tt
