-- ===== src/Domain/RunLifecycle/Diagram.antt =====
-- What the transition table of run-state-machine.ts promises: its diagram and the histories that it
-- admits.
use cyclewarden.Prelude.{◌+◌, ◌≡◌, ◌⊎◌, inl, inr, Bool, true, false, List, [], ◌∷◌, arith, contains}
use cyclewarden.Domain.Contracts.{RunState, state_eq, state_beq_iff, RunLifecycleSnapshot}
use cyclewarden.Domain.Contracts.RunState.{awaiting_review, publishing, completed}
use cyclewarden.Domain.Errors.{Result, ok, throw}
use cyclewarden.Domain.RunLifecycle.{can_transition, transition_run}

-- A sequence of transitions, each on the result of the one before.
unfoldable pub run_through : RunLifecycleSnapshot → List RunState → Result RunLifecycleSnapshot
run_through run [] = ok run
run_through run (s ∷ ss) = elim (transition_run run s) [
  | ok next ↦ run_through next ss
  | throw e ↦ throw e
]

-- What no transition changes.
abbrev pub SameRun : RunLifecycleSnapshot → RunLifecycleSnapshot → Type 0
SameRun a b =
    (a.id ≡ b.id)
    × (a.task_id ≡ b.task_id)
    × (a.workspace_id ≡ b.workspace_id)
    × (a.iteration ≡ b.iteration)
    × (a.review_outcome ≡ b.review_outcome)

one_step :
    (run : RunLifecycleSnapshot) (s : RunState) {next : RunLifecycleSnapshot}
    → transition_run run s ≡ ok next
    → (next.version ≡ run.version + 1)
      × (next.state ≡ s)
      × (can_transition run.state s ≡ true)
      × SameRun run next
unfolding transition_run
one_step run s h = ground arith

-- Inversion of a first transition.
first_step :
    (run : RunLifecycleSnapshot) (s : RunState) (ss : List RunState) (last : RunLifecycleSnapshot)
    → run_through run (s ∷ ss) ≡ ok last
    → (next : RunLifecycleSnapshot) × (transition_run run s ≡ ok next)
      × (run_through next ss ≡ ok last)
unfolding run_through
first_step run s ss last h = ground arith

-- The states that a run has only after it was ready for review.
abbrev pub is_reviewed : RunState → Bool
is_reviewed awaiting_review = true
is_reviewed publishing = true
is_reviewed completed = true
is_reviewed _ = false

reviewed_step :
    (a b : RunState)
    → is_reviewed a ≡ false
    → can_transition a b ≡ true
    → (b ≡ awaiting_review) ⊎ (is_reviewed b ≡ false)
unfolding can_transition
reviewed_step a b h t = ground arith

contains_here : (s : RunState) (ss : List RunState) → contains s (s ∷ ss) ≡ true
contains_here s ss = ground (arith, state_beq_iff s s)

-- No run completes without having been ready for review: a legal sequence of transitions from a
-- state before the review to `completed` passes `awaiting_review`.
pub completion_needs_review :
    (run : RunLifecycleSnapshot) (ss : List RunState) (last : RunLifecycleSnapshot)
    → is_reviewed run.state ≡ false
    → run_through run ss ≡ ok last
    → last.state ≡ completed
    → contains awaiting_review ss ≡ true
unfolding run_through
completion_needs_review run [] last b h c = ground arith
completion_needs_review run (s ∷ ss) last b h c =
    let (next, first, rest) = first_step run s ss last h in
    let facts = one_step run s first in
    elim (reviewed_step run.state s b facts.2) [
      | inl here ↦ rw here (contains_here awaiting_review ss)
      | inr still ↦ ground (arith, completion_needs_review next ss last (ground arith) rest c)
    ]
