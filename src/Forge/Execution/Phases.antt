-- ===== src/Forge/Execution/Phases.antt =====
-- The phases of `executeRun` (packages/forge-application/src/runs/execute-run.ts), while the rest of the
-- application leaves the run alone: however each one ends, the run is stored as the execution knows it.
use cyclewarden.Prelude.{ℕ, suc, ◌≡◌, refl, String}
use cyclewarden.Domain.Contracts.{Task, Run, RunState, state_eq}
use cyclewarden.Domain.RunLifecycle.{can_transition}
use cyclewarden.Events.Provider.{
  CodingAgentEvent, failed, message, tool_requested, usage, completed,
}
use cyclewarden.Forge.Queries.{get_evidence_version}
use cyclewarden.Forge.Invariant.Parts.{UniqueUuids}
use cyclewarden.Forge.Execution.Providers.{AgentStream, ended, broken, item}
use cyclewarden.Forge.Execution.Frame.{Frame}
use cyclewarden.Forge.Execution.Requests.{ExecuteRunInput}
use cyclewarden.Forge.Execution.Attempt.{
  Runtime, check_event, provision, follow, run_agent, validate, announce, hand_over, attempt,
}
use cyclewarden.Forge.Execution.Held.{ClockIsValid, Held, After}
use cyclewarden.Forge.Execution.Moves.{advance_lem, start_running_lem}
use cyclewarden.Forge.Execution.Quiet.{
  Quiet-get_task, Quiet-append_event, Quiet-record_validation,
  Quiet-append_normalized_provider_event,
}
use cyclewarden.Forge.Execution.Parts.{
  Elsewhere, In, At, Handed, Held-wait, After-reads, After-part, After-call, After-result,
  After-sandbox_event, Held-create, Held-sandbox, Held-destroy,
}

module _ (runtime : Runtime) (old : Run) (unique : UniqueUuids runtime.host)
    (clock : ClockIsValid runtime.host) (elsewhere : Elsewhere runtime old) where
  open runtime use {host}

  module _ (input : ExecuteRunInput) where
    provision_lem :
        (f : Frame)
        → Held host old f
        → f.run.state ≡ RunState.queued
        → After host old (In (At RunState.running)) (provision runtime input f)
    unfolding provision can_transition
    provision_lem f h queued =
        After-part runtime old unique clock elsewhere (At RunState.provisioning)
          (In (At RunState.running)) _ _ f
          (advance_lem runtime old unique clock RunState.provisioning f h (rw queued refl) refl)
          λ a g hg eg.
            After-reads runtime old unique clock elsewhere (At RunState.provisioning)
              (In (At RunState.running)) (λ f. f.run) _ g
              (After-part runtime old unique clock elsewhere (At RunState.provisioning)
                (In (At RunState.running)) _ _ g
                (After-call runtime old unique clock elsewhere (At RunState.provisioning) _ _ g hg
                  eg hg.same_id (Quiet-append_event host old.workspace_id _ _ refl))
                λ a f2 h2 e2.
                  After-part runtime old unique clock elsewhere (At RunState.provisioning)
                    (In (At RunState.running)) _ _ f2
                    (Held-wait runtime old unique clock elsewhere _ f2 h2, e2)
                    λ a f3 h3 e3.
                      After-part runtime old unique clock elsewhere (At RunState.provisioning)
                        (In (At RunState.running)) _ _ f3
                        (After-result runtime old unique clock elsewhere (At RunState.provisioning)
                          _ f3 h3 e3)
                        λ box f4 h4 e4.
                          After-part runtime old unique clock elsewhere (At RunState.provisioning)
                            (In (At RunState.running)) _ _ f4
                            (Held-create runtime old unique clock elsewhere input _ f4 h4, e4)
                            λ a f4' h4' e4'.
                              After-part runtime old unique clock elsewhere
                                (At RunState.provisioning) (In (At RunState.running)) _ _ f4'
                                (
                                  Held-sandbox runtime old unique clock elsewhere input _ f4' h4',
                                  e4',
                                )
                                λ a f5 h5 e5.
                                  After-part runtime old unique clock elsewhere
                                    (At RunState.running) (In (At RunState.running)) _ _ f5
                                    (start_running_lem runtime old unique clock f5 h5 e5)
                                    λ a f6 h6 e6.
                                      After-part runtime old unique clock elsewhere
                                        (At RunState.running) (In (At RunState.running)) _ _ f6
                                        (After-sandbox_event runtime old unique clock elsewhere
                                          input (At RunState.running) _ _ _ f6 h6 e6)
                                        λ a f7 h7 e7. (h7, e7))

    check_event_lem :
        (event : CodingAgentEvent) (f : Frame)
        → Held host old f
        → f.run.state ≡ RunState.running
        → After host old (In (At RunState.running)) (check_event event f)
    check_event_lem (failed code summary) f h e = h
    check_event_lem (message text) f h e = (h, e)
    check_event_lem (tool_requested key name value) f h e = (h, e)
    check_event_lem (usage read written) f h e = (h, e)
    check_event_lem (completed text) f h e = (h, e)

    follow_lem :
        (id : String) (n : ℕ) (stream : AgentStream) (f : Frame)
        → Held host old f
        → f.run.state ≡ RunState.running
        → After host old (In (At RunState.running)) (follow runtime input id n stream f)
    unfolding follow
    follow_lem id n ended f h e = (Held-wait runtime old unique clock elsewhere _ f h, e)
    follow_lem id n (broken x) f h e =
        After-part runtime old unique clock elsewhere (At RunState.running)
          (In (At RunState.running)) _ _ f (Held-wait runtime old unique clock elsewhere _ f h, e)
          λ a g hg eg. hg
    follow_lem id n (item cursor event rest) f h e =
        After-part runtime old unique clock elsewhere (At RunState.running)
          (In (At RunState.running)) _ _ f (Held-wait runtime old unique clock elsewhere _ f h, e)
          λ a g hg eg.
            After-reads runtime old unique clock elsewhere (At RunState.running)
              (In (At RunState.running)) (λ f. f.run) _ g
              (After-part runtime old unique clock elsewhere (At RunState.running)
                (In (At RunState.running)) _ _ g
                (After-call runtime old unique clock elsewhere (At RunState.running) _ _ g hg eg
                  hg.same_id
                  (Quiet-append_normalized_provider_event host old.workspace_id _ runtime.platform
                    _))
                λ a f2 h2 e2.
                  After-part runtime old unique clock elsewhere (At RunState.running)
                    (In (At RunState.running)) _ _ f2 (check_event_lem event f2 h2 e2)
                    λ a f3 h3 e3. follow_lem id (suc n) rest f3 h3 e3)

    run_agent_lem :
        (sandbox_id : String) (f : Frame)
        → Held host old f
        → f.run.state ≡ RunState.running
        → After host old (In (At RunState.running)) (run_agent runtime input sandbox_id f)
    unfolding run_agent
    run_agent_lem sandbox_id f h e =
        After-reads runtime old unique clock elsewhere (At RunState.running)
          (In (At RunState.running)) (λ f. f.run) _ f
          (After-part runtime old unique clock elsewhere (At RunState.running)
            (In (At RunState.running)) _ _ f
            (After-call runtime old unique clock elsewhere (At RunState.running) old.id _ f h e refl
              (Quiet-get_task host old.workspace_id old.id f.run.task_id))
            λ task g hg eg.
              After-part runtime old unique clock elsewhere (At RunState.running)
                (In (At RunState.running)) _ _ g
                (Held-wait runtime old unique clock elsewhere _ g hg, eg)
                λ a f2 h2 e2.
                  After-part runtime old unique clock elsewhere (At RunState.running)
                    (In (At RunState.running)) _ _ f2
                    (After-result runtime old unique clock elsewhere (At RunState.running) _ f2 h2
                      e2)
                    λ id f3 h3 e3.
                      After-part runtime old unique clock elsewhere (At RunState.running)
                        (In (At RunState.running)) _ _ f3
                        (After-call runtime old unique clock elsewhere (At RunState.running) _ _ f3
                          h3 e3 h.same_id (Quiet-append_event host old.workspace_id _ _ refl))
                        λ a f4 h4 e4.
                          After-part runtime old unique clock elsewhere (At RunState.running)
                            (In (At RunState.running)) _ _ f4
                            (follow_lem id 0 (input.coding_agent_provider.events id) f4 h4 e4)
                            λ a f5 h5 e5. (h5, e5))

    validate_lem :
        (sandbox_id : String) (task : Task) (f : Frame)
        → Held host old f
        → f.run.state ≡ RunState.running
        → After host old (In (At RunState.validating)) (validate runtime input sandbox_id task f)
    unfolding validate can_transition
    validate_lem sandbox_id task f h running =
        After-part runtime old unique clock elsewhere (At RunState.validating)
          (In (At RunState.validating)) _ _ f
          (advance_lem runtime old unique clock RunState.validating f h (rw running refl) refl)
          λ a g hg eg.
            After-reads runtime old unique clock elsewhere (At RunState.validating)
              (In (At RunState.validating)) (λ f. f.run) _ g
              (After-part runtime old unique clock elsewhere (At RunState.validating)
                (In (At RunState.validating)) _ _ g
                (Held-wait runtime old unique clock elsewhere _ g hg, eg)
                λ a f2 h2 e2.
                  After-part runtime old unique clock elsewhere (At RunState.validating)
                    (In (At RunState.validating)) _ _ f2
                    (After-result runtime old unique clock elsewhere (At RunState.validating) _ f2
                      h2 e2)
                    λ result f3 h3 e3.
                      After-part runtime old unique clock elsewhere (At RunState.validating)
                        (In (At RunState.validating)) _ _ f3
                        (After-sandbox_event runtime old unique clock elsewhere input
                          (At RunState.validating) _ _ _ f3 h3 e3)
                        λ a f4 h4 e4.
                          After-call runtime old unique clock elsewhere (At RunState.validating) _ _
                            f4 h4 e4 hg.same_id
                            (Quiet-record_validation host old.workspace_id _ _ _ _ _ refl))

    announce_lem :
        (sandbox_id : String) (g : Frame)
        → Held host old g
        → g.run.state ≡ RunState.awaiting_review
        → After host old Handed (announce runtime input sandbox_id g.run g)
    unfolding announce
    announce_lem sandbox_id g hg eg =
        let Same : Run → Type 0 = λ r. r ≡ g.run in
        After-reads runtime old unique clock elsewhere Same Handed
          (λ f. get_evidence_version g.run.id f.store) _ g
          (After-part runtime old unique clock elsewhere Same Handed _ _ g
            (After-call runtime old unique clock elsewhere Same _ _ g hg refl hg.same_id
              (Quiet-append_event host old.workspace_id _ _ refl))
            λ a f2 h2 e2.
              After-part runtime old unique clock elsewhere Same Handed _ _ f2
                (Held-destroy runtime old unique clock elsewhere input _ f2 h2, e2)
                λ a f3 h3 e3.
                  After-part runtime old unique clock elsewhere Same Handed _ _ f3
                    (Held-wait runtime old unique clock elsewhere _ f3 h3, e3)
                    λ a f4 h4 e4.
                      After-part runtime old unique clock elsewhere Same Handed _ _ f4
                        (After-result runtime old unique clock elsewhere Same _ f4 h4 e4)
                        λ a f5 h5 e5.
                          After-part runtime old unique clock elsewhere Same Handed _ _ f5
                            (After-sandbox_event runtime old unique clock elsewhere input Same _ _ _
                              f5 h5 e5)
                            λ a f6 h6 e6. (h6, (e6, eg)))

    -- It returns the run as it is stored.
    hand_over_lem :
        (sandbox_id : String) (f : Frame)
        → Held host old f
        → f.run.state ≡ RunState.validating
        → After host old Handed (hand_over runtime input sandbox_id f)
    unfolding hand_over can_transition
    hand_over_lem sandbox_id f h validating =
        After-part runtime old unique clock elsewhere (At RunState.awaiting_review) Handed _ _ f
          (advance_lem runtime old unique clock RunState.awaiting_review f h (rw validating refl)
            refl)
          λ a g hg eg.
            After-reads runtime old unique clock elsewhere (At RunState.awaiting_review) Handed
              (λ f. f.run) _ g (announce_lem sandbox_id g hg eg)

    -- The `try` block: the run is stored as the execution knows it, and awaits its review where it returns.
    pub attempt_lem :
        (f : Frame)
        → Held host old f
        → f.run.state ≡ RunState.queued
        → After host old Handed (attempt runtime input f)
    unfolding attempt
    attempt_lem f h queued =
        After-part runtime old unique clock elsewhere (At RunState.running) Handed _ _ f
          (provision_lem f h queued)
          λ id f2 h2 e2.
            After-part runtime old unique clock elsewhere (At RunState.running) Handed _ _ f2
              (run_agent_lem id f2 h2 e2)
              λ task f3 h3 e3.
                After-part runtime old unique clock elsewhere (At RunState.validating) Handed _ _ f3
                  (validate_lem id task f3 h3 e3) λ a f4 h4 e4. hand_over_lem id f4 h4 e4
