-- ===== src/Forge/Execution/Parts.antt =====
-- Rules for the parts of `executeRun` (packages/forge-application/src/runs/execute-run.ts) while the rest of
-- the application leaves the run alone.
use cyclewarden.Prelude.{◌≡◌, ap, ◌∙◌, some, List, String, get}
use cyclewarden.Domain.Contracts.{Run, RunState, state_eq}
use cyclewarden.Domain.Errors.{Result, ok, throw}
use cyclewarden.Events.Provider.{LiveSandboxProviderEvent}
use cyclewarden.Forge.Store.{Store}
use cyclewarden.Forge.Exec.{Exec}
use cyclewarden.Forge.Invariant.Parts.{UniqueUuids, IsValid}
use cyclewarden.Forge.Steps.{Owns, Reach}
use cyclewarden.Forge.Execution.Frame.{Frame, Body, call, reads, return_result, ◌>>=◌}
use cyclewarden.Forge.Execution.Requests.{ExecuteRunInput, Pause}
use cyclewarden.Forge.Execution.Attempt.{Runtime, append_sandbox_event}
use cyclewarden.Forge.Execution.Held.{ClockIsValid, Held, After, After-bind, Held-quiet}
use cyclewarden.Forge.Execution.Quiet.{Quiet, Quiet-append_normalized_provider_event}

-- What the rest of the application does meanwhile keeps the store valid and does not change this run.
pub record Elsewhere (runtime : Runtime) (old : Run) : Type 0 where
  pub valid :
      (p : Pause) (s : Store)
      → IsValid runtime.host s
      → IsValid runtime.host (runtime.meanwhile p s)
  pub stored :
      (p : Pause) (s : Store) (r : Run)
      → IsValid runtime.host s
      → r.workspace_id ≡ old.workspace_id
      → get s.runs old.id ≡ some r
      → get (runtime.meanwhile p s).runs old.id ≡ some r

-- The local run is as said, whatever the answer is.
abbrev pub In : (Run → Type 0) → {A : Type 0} → A → Frame → Type 0
In P a f = P f.run

abbrev pub At : RunState → Run → Type 0
At state run = run.state ≡ state

-- The answer is the run, which awaits its review.
abbrev pub Handed : Run → Frame → Type 0
Handed run f = (f.run ≡ run) × (run.state ≡ RunState.awaiting_review)

module _ (runtime : Runtime) (old : Run) (unique : UniqueUuids runtime.host)
    (clock : ClockIsValid runtime.host) (elsewhere : Elsewhere runtime old) where
  open runtime use {host}

  pub Held-wait :
      (p : Pause) (f : Frame)
      → Held host old f
      → Held host old (record f { store = runtime.meanwhile p f.store })
  Held-wait p f h = record {
    valid = elsewhere.valid p f.store h.valid;
    stored = elsewhere.stored p f.store f.run h.valid h.same_workspace h.stored;
    same_id = h.same_id;
    same_workspace = h.same_workspace;
    recoverable = h.recoverable;
  }

  module _ (P : Run → Type 0) {A : Type 0} where
    -- A variable is read.
    pub After-reads :
        {B : Type 0} (R : A → Frame → Type 0) (h : Frame → B) (k : B → Body A) (f : Frame)
        → After host old R (k (h f) f)
        → After host old R ((reads h >>= k) f)
    unfolding ◌>>=◌
    After-reads R h k f p = p

    -- A part that leaves the run in its state, and what follows it.
    pub After-part :
        {B : Type 0} (R : B → Frame → Type 0) (m : Body A) (k : A → Body B) (f : Frame)
        → After host old (In P) (m f)
        → ((a : A) (g : Frame) → Held host old g → P g.run → After host old R (k a g))
        → After host old R ((m >>= k) f)
    After-part R m k f p q = After-bind host old (In P) R m k f p q

    call_case :
        (f : Frame) (r : Result A × Store)
        → Held host old f
        → P f.run
        → Reach host old.workspace_id f.store r.1 × (r.1.runs ≡ f.store.runs)
        → After host old (In P) (r.0, record f { store = r.1 })
    call_case f (ok a, t) h e q = (Held-quiet runtime old unique clock f t h q.0 q.1, e)
    call_case f (throw x, t) h e q = Held-quiet runtime old unique clock f t h q.0 q.1

    pub After-call :
        (run_id : String) (m : Exec A) (f : Frame)
        → Held host old f
        → P f.run
        → run_id ≡ old.id
        → Quiet host old.workspace_id run_id m
        → After host old (In P) (call m f)
    unfolding call
    After-call run_id m f h e is_old q =
        let owned : Owns old.workspace_id f.store run_id =
          (f.run, ap (get f.store.runs) is_old ∙ h.stored, h.same_workspace) in
        call_case f (m f.store) h e ((q f.store).0 owned, (q f.store).1)

    pub After-result :
        (r : Result A) (f : Frame)
        → Held host old f
        → P f.run
        → After host old (In P) (return_result r f)
    After-result (ok a) f h e = (h, e)
    After-result (throw x) f h e = h

  module _ (input : ExecuteRunInput) where
    pub After-sandbox_event :
        (P : Run → Type 0) (id cursor : String) (event : LiveSandboxProviderEvent) (f : Frame)
        → Held host old f
        → P f.run
        → After host old (In P) (append_sandbox_event runtime input id cursor event f)
    unfolding append_sandbox_event ◌>>=◌
    After-sandbox_event P id cursor event f h e =
        After-call P f.run.id _ f h e h.same_id
          (Quiet-append_normalized_provider_event host old.workspace_id f.run.id runtime.platform _)

    -- The moves, waits and assignments of the local variables.
    pub Held-sandbox :
        (id : String) (f : Frame)
        → Held host old f
        → Held host old (record f { sandbox_id = some id })
    Held-sandbox id f h = record {
      valid = h.valid;
      stored = h.stored;
      same_id = h.same_id;
      same_workspace = h.same_workspace;
      recoverable = h.recoverable;
    }

    pub Held-create :
        (ids : List String) (f : Frame)
        → Held host old f
        → Held host old (record f { created = ids })
    Held-create ids f h = record {
      valid = h.valid;
      stored = h.stored;
      same_id = h.same_id;
      same_workspace = h.same_workspace;
      recoverable = h.recoverable;
    }

    pub Held-destroy :
        (ids : List String) (f : Frame)
        → Held host old f
        → Held host old (record f { destroy_calls = ids })
    Held-destroy ids f h = record {
      valid = h.valid;
      stored = h.stored;
      same_id = h.same_id;
      same_workspace = h.same_workspace;
      recoverable = h.recoverable;
    }
