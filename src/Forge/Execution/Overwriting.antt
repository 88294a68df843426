-- ===== src/Forge/Execution/Overwriting.antt =====
-- An execution does not look at its run again (packages/forge-application/src/runs/execute-run.ts): what
-- is done to it meanwhile is overwritten.
use cyclewarden.Prelude.{ℕ, ◌+◌, ◌≡◌, refl, subst, ap, ◌∙◌, some, String, Dict, get, or_else, arith}
use cyclewarden.Domain.Contracts.{Task, Run, RunState}
use cyclewarden.Domain.Errors.{ForgeError, Result, ok, throw}
use cyclewarden.Forge.Store.{Store}
use cyclewarden.Forge.Exec.{Exec}
use cyclewarden.Forge.Execution.Providers.{SandboxExecResult}
use cyclewarden.Forge.Execution.Frame.{Frame, Body, call}
use cyclewarden.Forge.Execution.Requests.{
  ExecuteRunInput, creating, validating, destroying, record_validation,
}
use cyclewarden.Forge.Execution.Attempt.{
  Runtime, provision, validate, announce, hand_over, attempt, append_sandbox_event,
}
use cyclewarden.Forge.Execution.Body.{recover, caught, frame_of, execute_queued}
use cyclewarden.Forge.Execution.Quiet.{
  Quiet, Quiet-append_event, Quiet-append_normalized_provider_event,
}
use cyclewarden.Forge.Execution.Local.{
  Returns, Returns-weaker, Returns-kept, Returns-reads, Returns-bind, Keeps, after_kept, after_any,
  keeps_bind, keeps_call, keeps_wait, keeps_sandbox_event, keeps_run_agent,
}
use cyclewarden.Forge.Execution.Advancing.{Reached, Moved, Known, advance-Returns, start-Returns}

module _ (runtime : Runtime) where
  open runtime use {host}

  -- The view of the local run.
  abbrev local : Frame → Run
  local f = f.run

  blind : (f : Frame) (t : Store) → local (record f { store = t }) ≡ local f
  blind f t = refl

  module _ (input : ExecuteRunInput) where
    provision-Returns :
        (f : Frame)
        → Returns (Known RunState.running (f.run.version + 1 + 1)) (provision runtime input f)
    unfolding provision
    provision-Returns f =
        let Done : String → Frame → Type 0 = Known RunState.running (f.run.version + 1 + 1) in
        Returns-bind (Moved RunState.provisioning (f.run.version + 1)) Done _ _ f
          (advance-Returns runtime RunState.provisioning f)
          λ a g e.
            after_kept local g.run Done _ _ g refl (λ f. refl)
              λ run g1 e1.
                after_kept local g.run Done _ _ g1 e1 (keeps_call local blind _) λ b g2 e2.
                  after_kept local g.run Done _ _ g2 e2 (keeps_wait local blind runtime creating)
                    λ c g3 e3.
                      after_kept local g.run Done _ _ g3 e3 (λ f. refl)
                        λ box g4 e4.
                          after_kept local g.run Done _ _ g4 e4 (λ f. refl)
                            λ noted g4' e4'.
                              after_kept local g.run Done _ _ g4' e4' (λ f. refl)
                                λ d g5 e5.
                                  Returns-bind (Known RunState.running (g5.run.version + 1)) Done _
                                    _ g5 (start-Returns runtime g5)
                                    λ h g6 e6.
                                      after_kept local g6.run Done _ _ g6 refl
                                        (keeps_sandbox_event local blind runtime input _ _ _)
                                        λ i g7 e7. ground (arith, e.0, e1, e5, e6, e7)

    abbrev recording : Run → Task → SandboxExecResult → Body (Unit {0})
    recording run task result =
        call (record_validation host run task (or_else input.validation_command "pnpm test") result)

    validate-Returns :
        (id : String) (task : Task) (f : Frame)
        → Returns (Known RunState.validating (f.run.version + 1)) (validate runtime input id task f)
    unfolding validate
    validate-Returns id task f =
        let Done : Unit {0} → Frame → Type 0 = Known RunState.validating (f.run.version + 1) in
        Returns-bind (Moved RunState.validating (f.run.version + 1)) Done _ _ f
          (advance-Returns runtime RunState.validating f)
          λ a g e.
            after_kept local g.run Done _ _ g refl (λ f. refl)
              λ run g1 e1.
                after_kept local g.run Done _ _ g1 e1 (keeps_wait local blind runtime validating)
                  λ b g2 e2.
                    after_kept local g.run Done _ _ g2 e2 (λ f. refl)
                      λ result g3 e3.
                        after_kept local g.run Done _ _ g3 e3
                          (keeps_sandbox_event local blind runtime input _ _ _)
                          λ c g4 e4.
                            Returns-weaker (λ a h. h.run ≡ g4.run) Done _
                              (Returns-kept local (recording run task result) g4 (
                                keeps_call local blind (
                                  record_validation host run task
                                    (or_else input.validation_command "pnpm test") result)))
                              λ d h same. ground (arith, e.0, e4, same)

    -- What the hand-over leaves, if nothing is done to the runs while the sandbox is destroyed.
    Final : ℕ → Run → Frame → Type 0
    Final version run f =
        Reached RunState.awaiting_review version run × (get f.store.runs run.id ≡ some run)

    -- The view of the stored runs.
    abbrev stored : Frame → Dict Run
    stored f = f.store.runs

    keeps_quiet :
        {A : Type 0} (run_id : String) (m : Exec A) → Quiet host "" run_id m → Keeps stored (call m)
    unfolding call
    keeps_quiet run_id m q f = (q f.store).1

    module _ (undisturbed : (s : Store) → (runtime.meanwhile destroying s).runs ≡ s.runs) where
      announce-Returns :
          (version : ℕ) (id : String) (f : Frame)
          → Moved RunState.awaiting_review version tt f
          → Returns (Final version) (announce runtime input id f.run f)
      unfolding announce Final append_sandbox_event
      announce-Returns version id f e =
          after_kept stored f.store.runs (Final version) _ _ f refl (λ f. refl)
            λ v g1 e1.
              after_kept stored f.store.runs (Final version) _ _ g1 e1
                (keeps_quiet _ _ (Quiet-append_event host "" _ _ refl))
                λ a g2 e2.
                  after_kept stored f.store.runs (Final version) _ _ g2 e2 (λ f. refl)
                    λ b g3 e3.
                      after_kept stored f.store.runs (Final version) _ _ g3 e3
                        (λ f. undisturbed f.store)
                        λ c g4 e4.
                          after_kept stored f.store.runs (Final version) _ _ g4 e4 (λ f. refl)
                            λ d g5 e5.
                              after_kept stored f.store.runs (Final version) _ _ g5 e5
                                (keeps_bind stored _ _ (λ f. refl)
                                  λ run. keeps_quiet _ _ (
                                    Quiet-append_normalized_provider_event host "" _
                                      runtime.platform _))
                                λ h g6 e6. (e.0, ap (λ runs. get runs f.run.id) e6 ∙ e.1)

      hand_over-Returns :
          (id : String) (f : Frame)
          → Returns (Final (f.run.version + 1)) (hand_over runtime input id f)
      unfolding hand_over
      hand_over-Returns id f =
          Returns-bind (Moved RunState.awaiting_review (f.run.version + 1))
            (Final (f.run.version + 1)) _ _ f (advance-Returns runtime RunState.awaiting_review f)
            λ a g e.
              Returns-reads (Final (f.run.version + 1)) (λ f. f.run) _ g
                (announce-Returns (f.run.version + 1) id g e)

      attempt-Returns : (f : Frame) → Returns (Final (f.run.version + 4)) (attempt runtime input f)
      unfolding attempt Final
      attempt-Returns f =
          let Done : Run → Frame → Type 0 = Final (f.run.version + 4) in
          Returns-bind (Known RunState.running (f.run.version + 1 + 1)) Done _ _ f
            (provision-Returns f)
            λ id g1 e1.
              after_kept local g1.run Done _ _ g1 refl
                (keeps_run_agent local blind runtime input id)
                λ task g2 e2.
                  Returns-bind (Known RunState.validating (g2.run.version + 1)) Done _ _ g2
                    (validate-Returns id task g2)
                    λ a g3 e3.
                      Returns-weaker (Final (g3.run.version + 1)) Done _ (hand_over-Returns id g3)
                        λ run h final. (ground (arith, e1, e2, e3, final.0), final.1)

      rethrown : (e : ForgeError) (f : Frame) → Returns (λ (run : Run) h. ⊥) (recover runtime e f)
      unfolding recover
      rethrown e f =
          let Never : Run → Frame → Type 0 = λ run h. ⊥ in
          after_any Never _ _ f λ id g1.
            after_any Never _ _ g1
              λ a g2. after_any Never _ _ g2 λ run g3. after_any Never _ _ g3 λ b g4. tt

      caught-Returns :
          (version : ℕ) (r : Result Run × Frame)
          → Returns (Final version) r
          → Returns (Final version) (caught runtime r)
      unfolding caught
      caught-Returns version (ok run, f) p = p
      caught-Returns version (throw e, f) p =
          Returns-weaker (λ run h. ⊥) (Final version) _ (rethrown e f) λ run h never. absurd never

  -- An execution does not notice what is done to its run meanwhile: whatever the application does
  -- while the execution waits, short of the last wait, where the runs are taken to stay as they
  -- are, an execution that returns leaves the run stored as awaiting its review, four versions
  -- after the one that it has started with. So a cancellation that was served in between is
  -- overwritten.
  pub execution_overwrites :
      (input : ExecuteRunInput) (s : Store) (old run : Run) (f : Frame)
      → ((s : Store) → (runtime.meanwhile destroying s).runs ≡ s.runs)
      → execute_queued runtime input s old ≡ (ok run, f)
      → (run.state ≡ RunState.awaiting_review)
        × (run.version ≡ old.version + 4)
        × (get f.store.runs run.id ≡ some run)
  unfolding execute_queued Final
  execution_overwrites input s old run f undisturbed e =
      let ((state, version), stored) = subst (Returns (Final input (old.version + 4))) e (
        caught-Returns input undisturbed (old.version + 4)
          (attempt runtime input (frame_of runtime s old))
          (attempt-Returns input undisturbed (frame_of runtime s old))) in
      (state, version, stored)
