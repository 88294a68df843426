-- ===== src/Evolution/Cycle/History.antt =====
-- What a transition of a cycle shows, and what the history of a cycle records.
use cyclewarden.Prelude.{
  ℕ, suc, ◌+◌, ◌≡◌, refl, ap, sym, ◌∙◌, subst, Bool, true, false, not, ◌&&◌, ◌||◌, Option, List, [],
  ◌∷◌, ◌++◌, String, ℤ, length, length-append, or_else, contains, ltb, ◌==◌, decimal, ◌++ₛ◌,
  is_blank, trim, utf16_length, arith,
}
use cyclewarden.Evolution.Types.{
  EvolutionStage, stage_eq, EvolutionEvent, EvolutionResearchRecords, EvolutionCycle,
  CreateCycleInput, TransitionInput,
}
use cyclewarden.Evolution.Types.EvolutionStage.{created, verified}
use cyclewarden.Evolution.Errors.{
  EvolutionError, Checked, accepted, refused, refuse_if, cycle_is_terminal, invalid_transition,
  requires_actor_and_reason, requires_passing_verification, invalid_cycle_id, vague_objective,
  ◌>>=◌, ◌>>◌, bind-accepted,
}
use cyclewarden.Evolution.Research.{merge_research_records}
use cyclewarden.Evolution.Stages.{
  is_portable_identifier, terminal_stages, merge_artifacts, assert_required_artifacts,
}
use cyclewarden.Evolution.Cycle.{
  create_cycle, new_cycle, new_event, transition_cycle, can_transition, moved_cycle, has_passed,
  additions_of, authorize_execution,
}

-- A check that lets a computation go on.
after_check :
    {A : Type 0} (b : Bool) (e : EvolutionError) (m : Checked A) (a : A)
    → (refuse_if b e >> m) ≡ accepted a
    → (b ≡ false) × (m ≡ accepted a)
after_check true e m a h = absurd (cc)
after_check false e m a h = (refl, h)

after_unit :
    {A : Type 0} (c : Checked (Unit {0})) (m : Checked A) (a : A)
    → (c >> m) ≡ accepted a
    → (c ≡ accepted tt) × (m ≡ accepted a)
after_unit (accepted tt) m a h = (refl, h)
after_unit (refused e) m a h = absurd (cc)

module _ (clock : String) (date_parse : String → Option ℤ) where
  -- What an accepted transition shows.
  pub record Moved (cycle : EvolutionCycle) (to : EvolutionStage) (input : TransitionInput)
      (next : EvolutionCycle) : Type 0 where
    pub live : contains cycle.stage terminal_stages ≡ false
    pub legal : can_transition cycle.stage to ≡ true
    pub authorized :
        authorize_execution clock date_parse cycle to input (or_else input.now clock) ≡ accepted tt
    pub passed : (to == verified && not (has_passed input.verification_passed)) ≡ false
    pub artifacts :
        assert_required_artifacts to (merge_artifacts cycle.artifacts (additions_of input))
        ≡ accepted tt
    pub research : EvolutionResearchRecords
    pub merged : merge_research_records cycle.research input.append_research ≡ accepted research
    pub result : next ≡ moved_cycle cycle to input (or_else input.now clock) research

  pub transition_cycle-Moved :
      (cycle : EvolutionCycle) (to : EvolutionStage) (input : TransitionInput)
      (next : EvolutionCycle)
      → transition_cycle clock date_parse cycle to input ≡ accepted next
      → Moved cycle to input next
  unfolding transition_cycle
  transition_cycle-Moved cycle to input next h =
      let (live, h1) =
        after_check (contains cycle.stage terminal_stages) (cycle_is_terminal cycle.stage) _ next
          h in
      let (legal, h2) =
        after_check (not (can_transition cycle.stage to)) (invalid_transition cycle.stage to) _ next
          h1 in
      let (named, h3) =
        after_check (is_blank (trim input.actor) || is_blank (trim input.reason))
          requires_actor_and_reason _ next h2 in
      let (authorized, h4) =
        after_unit (authorize_execution clock date_parse cycle to input (or_else input.now clock)) _
          next h3 in
      let (passed, h5) =
        after_check (to == verified && not (has_passed input.verification_passed))
          requires_passing_verification _ next h4 in
      let (artifacts, h6) =
        after_unit
          (assert_required_artifacts to (merge_artifacts cycle.artifacts (additions_of input))) _
          next h5 in
      let (research, merged, h7) =
        bind-accepted (merge_research_records cycle.research input.append_research)
          (λ research. accepted (moved_cycle cycle to input (or_else input.now clock) research))
          next h6 in
      record {
        live = live;
        legal = ground arith;
        authorized = authorized;
        passed = passed;
        artifacts = artifacts;
        research = research;
        merged = merged;
        result = cc;
      }

  -- A sequence of transitions, each on the result of the one before.
  abbrev pub run_cycle :
      EvolutionCycle → List (EvolutionStage × TransitionInput) → Checked EvolutionCycle
  run_cycle cycle [] = accepted cycle
  run_cycle cycle ((to, input) ∷ steps) =
      transition_cycle clock date_parse cycle to input >>= λ next. run_cycle next steps

  -- The events of a history: each one starts at the stage where the one before has ended, by a legal
  -- transition, and carries the cycle's identifier and its place.
  abbrev pub Linked : String → EvolutionStage → ℕ → List EvolutionEvent → EvolutionStage → Type 0
  Linked cycle_id start n [] stop = start ≡ stop
  Linked cycle_id start n (e ∷ es) stop =
      (e.from ≡ start)
      × (can_transition e.from e.to ≡ true)
      × (e.id ≡ cycle_id ++ₛ ":" ++ₛ decimal n)
      × Linked cycle_id e.to (suc n) es stop

  Linked-snoc :
      (cycle_id : String) (start : EvolutionStage) (n : ℕ) (es : List EvolutionEvent)
      (e : EvolutionEvent)
      → Linked cycle_id start n es e.from
      → can_transition e.from e.to ≡ true
      → e.id ≡ cycle_id ++ₛ ":" ++ₛ decimal (length es + n)
      → Linked cycle_id start n (es ++ e ∷ []) e.to
  Linked-snoc cycle_id start n [] e h legal named =
      (sym h, legal, named ∙ ap (λ k. cycle_id ++ₛ ":" ++ₛ decimal k) (omega arith), refl)
  Linked-snoc cycle_id start n (x ∷ xs) e h legal named = (
    h.0,
    h.1,
    h.2,
    Linked-snoc cycle_id x.to (suc n) xs e h.3 legal
        (named ∙ ap (λ k. cycle_id ++ₛ ":" ++ₛ decimal k) (omega arith)),
  )

  -- The history leads from `created` to the cycle's stage.
  abbrev pub IsLinked : EvolutionCycle → Type 0
  IsLinked cycle = Linked cycle.cycle_id created 1 cycle.history cycle.stage

  -- The event that a transition appends.
  abbrev event_of :
      {cycle : EvolutionCycle} {to : EvolutionStage} {input : TransitionInput}
      {next : EvolutionCycle}
      → Moved cycle to input next
      → EvolutionEvent
  event_of {cycle} {to} {input} m = new_event cycle to input (or_else input.now clock)

  transition_cycle-IsLinked :
      (cycle : EvolutionCycle) (to : EvolutionStage) (input : TransitionInput)
      (next : EvolutionCycle)
      → Moved cycle to input next
      → IsLinked cycle
      → IsLinked next
  transition_cycle-IsLinked cycle to input next m h =
      rw m.result (Linked-snoc cycle.cycle_id created 1 cycle.history (event_of m) h m.legal refl)

  run_cycle-IsLinked :
      (cycle : EvolutionCycle) (steps : List (EvolutionStage × TransitionInput))
      (last : EvolutionCycle)
      → IsLinked cycle
      → run_cycle cycle steps ≡ accepted last
      → IsLinked last
        × (length last.history ≡ length cycle.history + length steps)
        × (last.cycle_id ≡ cycle.cycle_id)
  run_cycle-IsLinked cycle [] last l h =
      let same : cycle ≡ last = cc in
      subst
        (λ t.
          IsLinked t
          × (length t.history ≡ length cycle.history + 0)
          × (t.cycle_id ≡ cycle.cycle_id))
        same (l, (omega arith), refl)
  run_cycle-IsLinked cycle ((to, input) ∷ steps) last l h =
      let (next, first, rest) =
        bind-accepted (transition_cycle clock date_parse cycle to input) (λ t. run_cycle t steps)
          last h in
      let m = transition_cycle-Moved cycle to input next first in
      let (linked, counted, same) =
        run_cycle-IsLinked next steps last (transition_cycle-IsLinked cycle to input next m l)
          rest in
      (
        linked,
        (omega (
          arith,
          counted,
          ap (λ (t : EvolutionCycle). length t.history) m.result,
          length-append cycle.history (event_of m ∷ []),
        )),
        same ∙ ap (λ (t : EvolutionCycle). t.cycle_id) m.result,
      )

  -- A cycle's history is a legal path: whatever transitions a created cycle has been through, the
  -- events lead from `created` to its stage, each from where the one before has ended, one for
  -- each transition, and numbered in their order under the cycle's identifier.
  pub history_is_path :
      (input : CreateCycleInput) (cycle last : EvolutionCycle)
      (steps : List (EvolutionStage × TransitionInput))
      → create_cycle clock input ≡ accepted cycle
      → run_cycle cycle steps ≡ accepted last
      → Linked input.cycle_id created 1 last.history last.stage
        × (length last.history ≡ length steps)
  unfolding create_cycle
  history_is_path input cycle last steps h k =
      let (_, h1) =
        after_check (not (is_portable_identifier input.cycle_id)) invalid_cycle_id _ cycle h in
      let (_, h2) =
        after_check (ltb (utf16_length (trim input.objective)) 8) vague_objective _ cycle h1 in
      let same : new_cycle input (or_else input.now clock) ≡ cycle = cc in
      let path = run_cycle-IsLinked cycle steps last (subst IsLinked same refl) k in
      let named : last.cycle_id ≡ input.cycle_id =
        path.2 ∙ ap (λ (t : EvolutionCycle). t.cycle_id) (sym same) in
      (
        subst (λ id. Linked id created 1 last.history last.stage) named path.0,
        (omega (arith, path.1, ap (λ (t : EvolutionCycle). length t.history) same)),
      )
