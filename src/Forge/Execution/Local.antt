-- ===== src/Forge/Execution/Local.antt =====
-- What the parts of `executeRun` (packages/forge-application/src/runs/execute-run.ts) leave of its local
-- variables, whatever else the application does meanwhile.
use cyclewarden.Prelude.{ℕ, suc, ◌≡◌, refl, ◌∙◌, String}
use cyclewarden.Domain.Errors.{Result, ok, throw}
use cyclewarden.Events.Provider.{
  CodingAgentEvent, LiveSandboxProviderEvent, failed, message, tool_requested, usage, completed,
}
use cyclewarden.Forge.Store.{Store}
use cyclewarden.Forge.Exec.{Exec}
use cyclewarden.Forge.Execution.Providers.{AgentStream, ended, broken, item}
use cyclewarden.Forge.Execution.Frame.{Frame, Body, reads, then_do, call, ◌>>=◌}
use cyclewarden.Forge.Execution.Requests.{ExecuteRunInput, Pause}
use cyclewarden.Forge.Execution.Attempt.{
  Runtime, check_event, wait, append_sandbox_event, follow, run_agent,
}

-- If a computation returns, its answer and its frame are as said.
abbrev pub Returns : {A : Type 0} → (A → Frame → Type 0) → Result A × Frame → Type 0
Returns Q (ok a, f) = Q a f
Returns Q (throw e, f) = Unit

pub Returns-weaker :
    {A : Type 0} (Q R : A → Frame → Type 0) (r : Result A × Frame)
    → Returns Q r
    → ((a : A) (h : Frame) → Q a h → R a h)
    → Returns R r
Returns-weaker Q R (ok a, h) p q = q a h p
Returns-weaker Q R (throw e, h) p q = tt

module _ {A B : Type 0} (Q : A → Frame → Type 0) (R : B → Frame → Type 0) where
  Returns-case :
      (r : Result A × Frame) (k : A → Body B)
      → Returns Q r
      → ((a : A) (h : Frame) → Q a h → Returns R (k a h))
      → Returns R (then_do r k)
  Returns-case (ok a, h) k p q = q a h p
  Returns-case (throw e, h) k p q = tt

  pub Returns-bind :
      (m : Body A) (k : A → Body B) (f : Frame)
      → Returns Q (m f)
      → ((a : A) (h : Frame) → Q a h → Returns R (k a h))
      → Returns R ((m >>= k) f)
  unfolding ◌>>=◌
  Returns-bind m k f p q = Returns-case (m f) k p q

module _ {A B : Type 0} (R : B → Frame → Type 0) where
  any_case :
      (r : Result A × Frame) (k : A → Body B)
      → ((a : A) (h : Frame) → Returns R (k a h))
      → Returns R (then_do r k)
  any_case (ok a, h) k q = q a h
  any_case (throw e, h) k q = tt

  -- A first part of which nothing is known.
  pub after_any :
      (m : Body A) (k : A → Body B) (f : Frame)
      → ((a : A) (h : Frame) → Returns R (k a h))
      → Returns R ((m >>= k) f)
  unfolding ◌>>=◌
  after_any m k f q = any_case (m f) k q

-- A variable is read.
pub Returns-reads :
    {A B : Type 0} (R : B → Frame → Type 0) (h : Frame → A) (k : A → Body B) (f : Frame)
    → Returns R (k (h f) f)
    → Returns R ((reads h >>= k) f)
unfolding ◌>>=◌
Returns-reads R h k f p = p

module _ {X : Type 0} (view : Frame → X) where
  -- However a computation ends, what is seen of the frame is what it was.
  abbrev pub Keeps : {A : Type 0} → Body A → Type 0
  Keeps m = (f : Frame) → view (m f).1 ≡ view f

  kept_case :
      {A : Type 0} (f : Frame) (r : Result A × Frame)
      → view r.1 ≡ view f
      → Returns (λ a h. view h ≡ view f) r
  kept_case f (ok a, h) p = p
  kept_case f (throw e, h) p = tt

  pub Returns-kept :
      {A : Type 0} (m : Body A) (f : Frame) → Keeps m → Returns (λ a h. view h ≡ view f) (m f)
  Returns-kept m f p = kept_case f (m f) (p f)

  module _ {A B : Type 0} where
    bind_case :
        (r : Result A × Frame) (k : A → Body B)
        → ((a : A) → Keeps (k a))
        → view (then_do r k).1 ≡ view r.1
    bind_case (ok a, f) k q = q a f
    bind_case (throw x, f) k q = refl

    pub keeps_bind :
        (m : Body A) (k : A → Body B) → Keeps m → ((a : A) → Keeps (k a)) → Keeps (m >>= k)
    unfolding ◌>>=◌
    keeps_bind m k p q f = bind_case (m f) k q ∙ p f

    -- A part that keeps what is seen, and what follows it.
    pub after_kept :
        (v : X) (R : B → Frame → Type 0) (m : Body A) (k : A → Body B) (f : Frame)
        → view f ≡ v
        → Keeps m
        → ((a : A) (h : Frame) → view h ≡ v → Returns R (k a h))
        → Returns R ((m >>= k) f)
    after_kept v R m k f e p q =
        Returns-bind (λ a h. view h ≡ view f) R m k f (Returns-kept m f p)
          λ a h same. q a h (same ∙ e)

  -- A view that does not see the store.
  module _ (blind : (f : Frame) (t : Store) → view (record f { store = t }) ≡ view f) where
    pub keeps_call : {A : Type 0} (m : Exec A) → Keeps (call m)
    unfolding call
    keeps_call m f = blind f (m f.store).1

    module _ (runtime : Runtime) where
      pub keeps_wait : (p : Pause) → Keeps (wait runtime p)
      keeps_wait p f = blind f (runtime.meanwhile p f.store)

      pub keeps_sandbox_event :
          (input : ExecuteRunInput) (id cursor : String) (event : LiveSandboxProviderEvent)
          → Keeps (append_sandbox_event runtime input id cursor event)
      unfolding append_sandbox_event
      keeps_sandbox_event input id cursor event = keeps_bind _ _ (λ f. refl) λ run. keeps_call _

      keeps_check_event : (event : CodingAgentEvent) → Keeps (check_event event)
      keeps_check_event (failed code summary) f = refl
      keeps_check_event (message text) f = refl
      keeps_check_event (tool_requested key name value) f = refl
      keeps_check_event (usage read written) f = refl
      keeps_check_event (completed text) f = refl

      module _ (input : ExecuteRunInput) where
        keeps_follow :
            (id : String) (n : ℕ) (stream : AgentStream) → Keeps (follow runtime input id n stream)
        unfolding follow
        keeps_follow id n ended = keeps_wait _
        keeps_follow id n (broken x) = keeps_bind _ _ (keeps_wait _) λ a f. refl
        keeps_follow id n (item cursor event rest) = keeps_bind _ _ (keeps_wait _) λ a.
            keeps_bind _ _ (λ f. refl)
              λ run.
                keeps_bind _ _ (keeps_call _)
                  λ b. keeps_bind _ _ (keeps_check_event event) λ c. keeps_follow id (suc n) rest

        -- The agent's work changes none of the local variables.
        pub keeps_run_agent : (sandbox_id : String) → Keeps (run_agent runtime input sandbox_id)
        unfolding run_agent
        keeps_run_agent sandbox_id =
            keeps_bind _ _ (λ f. refl)
              λ run. keeps_bind _ _ (keeps_call _) λ task. keeps_bind _ _ (keeps_wait _) λ a.
                keeps_bind _ _ (λ f. refl)
                  λ id. keeps_bind _ _ (keeps_call _) λ b.
                    keeps_bind _ _ (keeps_follow id 0 (input.coding_agent_provider.events id))
                      λ c f. refl
