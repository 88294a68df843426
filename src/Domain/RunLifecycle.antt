-- ===== src/Domain/RunLifecycle.antt =====
-- packages/forge-domain/src/run/run-state-machine.ts: the life cycle of a run.
pub mod Diagram
pub mod Iteration
use cyclewarden.Prelude.{
  ◌+◌, Bool, true, ◌||◌, not, Option, none, some, List, [], ◌∷◌, String, ℤ, pos, ltb_ℤ, is_nonneg,
  or_else, ◌!=◌, contains, if◌then◌else◌,
}
use cyclewarden.Domain.Contracts.{RunState, state_eq, ReviewOutcome, rejected, RunLifecycleSnapshot}
use cyclewarden.Domain.Contracts.RunState.{
  draft, queued, provisioning, running, awaiting_approval, cancelling, validating, awaiting_review,
  publishing, completed, failed, cancelled, expired,
}
use cyclewarden.Domain.Errors.{
  Result, ok, throw, illegal_run_transition, range_error, next_iteration_requires_rejection,
  admission_refused,
}

abbrev pub active_run_states : List RunState
active_run_states =
    queued ∷ provisioning ∷ running ∷ awaiting_approval ∷ cancelling ∷ validating ∷ awaiting_review
    ∷ publishing ∷ []

abbrev pub cancellable_run_states : List RunState
cancellable_run_states = queued ∷ provisioning ∷ running ∷ awaiting_approval ∷ validating ∷ []

abbrev pub legal_transitions : RunState → List RunState
legal_transitions draft = queued ∷ cancelled ∷ []
legal_transitions queued = provisioning ∷ cancelling ∷ failed ∷ expired ∷ []
legal_transitions provisioning = running ∷ cancelling ∷ failed ∷ expired ∷ []
legal_transitions running = awaiting_approval ∷ validating ∷ cancelling ∷ failed ∷ expired ∷ []
legal_transitions awaiting_approval = running ∷ cancelling ∷ failed ∷ expired ∷ []
legal_transitions cancelling = cancelled ∷ failed ∷ []
legal_transitions validating = awaiting_review ∷ cancelling ∷ failed ∷ expired ∷ []
legal_transitions awaiting_review = publishing ∷ completed ∷ failed ∷ expired ∷ []
legal_transitions publishing = completed ∷ failed ∷ []
legal_transitions completed = []
legal_transitions failed = []
legal_transitions cancelled = []
legal_transitions expired = []

unfoldable pub is_active_run_state : RunState → Bool
is_active_run_state s = contains s active_run_states

unfoldable pub is_cancellable_run_state : RunState → Bool
is_cancellable_run_state s = contains s cancellable_run_states

unfoldable pub can_transition : RunState → RunState → Bool
can_transition current next = contains next (legal_transitions current)

unfoldable pub transition_run : RunLifecycleSnapshot → RunState → Result RunLifecycleSnapshot
transition_run run next_state =
    if not (can_transition run.state next_state)
    then throw (illegal_run_transition run.state next_state)
    else ok (record run { state = next_state; version = run.version + 1 })

pub data RunAdmissionResult : Type 0 where
  admitted : RunAdmissionResult
  active_run_exists : ℤ → RunAdmissionResult

-- The limit is 1 where the caller gives none.
unfoldable pub evaluate_run_admission : ℤ → Option ℤ → Result RunAdmissionResult
evaluate_run_admission active_run_count active_run_limit =
    let limit = or_else active_run_limit (pos 1) in
    if ltb_ℤ limit (pos 1)
    then throw range_error
    else if not (is_nonneg active_run_count)
    then throw range_error
    else if not (ltb_ℤ active_run_count limit)
    then ok (active_run_exists active_run_count)
    else ok admitted

unfoldable pub finalize_rejected_review : RunLifecycleSnapshot → Result RunLifecycleSnapshot
finalize_rejected_review run =
    if run.state != awaiting_review
    then throw (illegal_run_transition run.state completed)
    else ok (record run {
      state = completed;
      review_outcome = some rejected;
      version = run.version + 1;
    })

abbrev pub is_rejected : Option ReviewOutcome → Bool
is_rejected (some rejected) = true
is_rejected _ = Bool.false

-- The run that `createNextIteration` returns.
abbrev pub next_run : RunLifecycleSnapshot → String → RunLifecycleSnapshot
next_run previous next_run_id = record {
  id = next_run_id;
  task_id = previous.task_id;
  workspace_id = previous.workspace_id;
  iteration = previous.iteration + 1;
  state = queued;
  review_outcome = none;
  version = 0;
}

abbrev admit : Result RunAdmissionResult → RunLifecycleSnapshot → Result RunLifecycleSnapshot
admit (ok admitted) next = ok next
admit (ok (active_run_exists n)) next = throw admission_refused
admit (throw e) next = throw e

pub create_next_iteration : RunLifecycleSnapshot → String → ℤ → Result RunLifecycleSnapshot
unfolding evaluate_run_admission
create_next_iteration previous next_run_id active_run_count =
    if previous.state != completed || not (is_rejected previous.review_outcome)
    then throw next_iteration_requires_rejection
    else admit (evaluate_run_admission active_run_count none) (next_run previous next_run_id)
