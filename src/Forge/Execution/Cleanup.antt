-- ===== src/Forge/Execution/Cleanup.antt =====
-- The sandbox of an execution is destroyed (packages/forge-application/src/runs/execute-run.ts).
use cyclewarden.Prelude.{
  ◌≡◌, refl, sym, ap, ◌∙◌, Option, none, some, List, [], ◌∷◌, ◌++◌, String, if◌then◌else◌, Bool,
  true, false, contains, is_blank, string_eq, str_iff, arith, Bool-cases, inl, inr,
}
use cyclewarden.Domain.Contracts.{Task, Run, RunState, state_eq}
use cyclewarden.Domain.Errors.{ForgeError, Result, ok, throw}
use cyclewarden.Forge.Store.{Store}
use cyclewarden.Forge.Queries.{non_blank}
use cyclewarden.Forge.Execution.Frame.{Frame, Body, return, return_result, reads, ◌>>=◌, ◌>>◌}
use cyclewarden.Forge.Execution.Requests.{
  ExecuteRunInput, validating, destroying, cleaning, recoverable_states,
}
use cyclewarden.Forge.Execution.Attempt.{
  Runtime, advance, start_running, provision, validate, announce, hand_over, attempt,
}
use cyclewarden.Forge.Execution.Body.{fail_run, clean_up, recover, caught, frame_of, execute_queued}
use cyclewarden.Forge.Execution.Local.{
  Returns, Returns-bind, after_any, Keeps, after_kept, Returns-kept, keeps_bind, keeps_call,
  keeps_wait, keeps_sandbox_event, keeps_run_agent,
}

-- The sandbox, and the sandboxes that were created and whose destruction was asked for.
abbrev pub seen : Frame → Option String × List String × List String
seen f = (f.sandbox_id, f.created, f.destroy_calls)

-- The destruction of the frame's sandbox, if it has one, was asked for.
abbrev pub IsCleanedUp : Frame → Type 0
IsCleanedUp f =
    (id : String)
    → f.sandbox_id ≡ some id
    → is_blank id ≡ false
    → contains id f.destroy_calls ≡ true

abbrev HasSandbox : {A : Type 0} → String → A → Frame → Type 0
HasSandbox id a f = f.sandbox_id ≡ some id

contains_last : (id : String) (ids : List String) → contains id (ids ++ id ∷ []) ≡ true
contains_last id [] = ground (arith, str_iff id id)
contains_last id (x ∷ xs) = ground (arith, contains_last id xs)

cleaned_last :
    (id : String) (f : Frame) (ids : List String)
    → f.sandbox_id ≡ some id
    → f.destroy_calls ≡ ids ++ id ∷ []
    → IsCleanedUp f
cleaned_last id f ids has is_last other e full = ground (arith, contains_last id ids)

module _ (runtime : Runtime) where
  pub blind : (f : Frame) (t : Store) → seen (record f { store = t }) ≡ seen f
  blind f t = refl

  pub keeps_advance : (next : RunState) → Keeps seen (advance runtime next)
  unfolding advance
  keeps_advance next =
      keeps_bind seen _ _ (λ f. refl)
        λ run. keeps_bind seen _ _ (keeps_call seen blind _) λ moved.
          keeps_bind seen _ _ (λ f. refl)
            λ a. keeps_bind seen _ _ (keeps_call seen blind _) λ b f. refl

  pub keeps_start_running : Keeps seen (start_running runtime)
  unfolding start_running
  keeps_start_running =
      keeps_bind seen _ _ (λ f. refl)
        λ run. keeps_bind seen _ _ (keeps_call seen blind _) λ moved.
          keeps_bind seen _ _ (keeps_call seen blind _) λ started.
            keeps_bind seen _ _ (λ f. refl)
              λ a. keeps_bind seen _ _ (keeps_call seen blind _) λ b f. refl

  keeps_fail_run : (e : ForgeError) → Keeps seen (fail_run runtime e)
  unfolding fail_run
  keeps_fail_run e =
      keeps_bind seen _ _ (λ f. refl)
        λ run. keeps_bind seen _ _ (keeps_call seen blind _) λ moved.
          keeps_bind seen _ _ (keeps_call seen blind _) λ finished.
            keeps_bind seen _ _ (λ f. refl)
              λ a.
                keeps_bind seen _ _ (keeps_call seen blind _)
                  λ b. keeps_bind seen _ _ (keeps_call seen blind _) λ c f. refl

  module _ (input : ExecuteRunInput) where
    pub keeps_validate : (id : String) (task : Task) → Keeps seen (validate runtime input id task)
    unfolding validate
    keeps_validate id task = keeps_bind seen _ _ (keeps_advance _) λ a.
        keeps_bind seen _ _ (λ f. refl)
          λ run. keeps_bind seen _ _ (keeps_wait seen blind runtime validating) λ b.
            keeps_bind seen _ _ (λ f. refl)
              λ result.
                keeps_bind seen _ _ (keeps_sandbox_event seen blind runtime input _ _ _)
                  λ c. keeps_call seen blind _

    -- A part that does not touch the sandbox, and what follows it.
    same_sandbox :
        {A B : Type 0} (id : String) (R : B → Frame → Type 0) (m : Body A) (k : A → Body B)
        (f : Frame)
        → f.sandbox_id ≡ some id
        → Keeps seen m
        → ((a : A) (h : Frame) → h.sandbox_id ≡ some id → Returns R (k a h))
        → Returns R ((m >>= k) f)
    same_sandbox id R m k f e p q =
        Returns-bind (λ a h. seen h ≡ seen f) R m k f (Returns-kept seen m f p)
          λ a h same. q a h (ap (λ v. v.0) same ∙ e)

    Ready : String → Frame → Type 0
    Ready id f = f.sandbox_id ≡ some id

    provision_lem : (f : Frame) → Returns Ready (provision runtime input f)
    unfolding provision Ready
    provision_lem f = after_any Ready _ _ f λ a h1. after_any Ready _ _ h1 λ run h2.
        after_any Ready _ _ h2 λ b h3. after_any Ready _ _ h3 λ c h4.
          after_any Ready _ _ h4 λ box h4'. after_any Ready _ _ h4' λ noted h5.
            Returns-bind (HasSandbox box.sandbox_id) Ready _ _ h5 refl λ d h6 e6.
              same_sandbox box.sandbox_id Ready _ _ h6 e6 keeps_start_running λ a h7 e7.
                same_sandbox box.sandbox_id Ready _ _ h7 e7
                  (keeps_sandbox_event seen blind runtime input _ _ _) λ b h8 e8. e8

    Destroyed : Run → Frame → Type 0
    Destroyed run f = IsCleanedUp f

    announce_lem :
        (id : String) (run : Run) (f : Frame)
        → f.sandbox_id ≡ some id
        → Returns Destroyed (announce runtime input id run f)
    unfolding announce Destroyed
    announce_lem id run f e =
        same_sandbox id Destroyed _ _ f e (λ f. refl)
          λ version h1 e1. same_sandbox id Destroyed _ _ h1 e1 (keeps_call seen blind _) λ a h2 e2.
            let asked : Option String × List String × List String =
              (some id, h2.created, h2.destroy_calls ++ id ∷ []) in
            Returns-bind (λ a h. seen h ≡ asked) Destroyed _ _ h2
              (ap (λ s. (s, h2.created, h2.destroy_calls ++ id ∷ [])) e2)
              λ b h3 e3.
                after_kept seen asked Destroyed _ _ h3 e3 (keeps_wait seen blind runtime destroying)
                  λ c h4 e4.
                    after_kept seen asked Destroyed _ _ h4 e4 (λ f. refl)
                      λ d h5 e5.
                        after_kept seen asked Destroyed _ _ h5 e5
                          (keeps_sandbox_event seen blind runtime input _ _ _)
                          λ x h6 e6.
                            cleaned_last id h6 h2.destroy_calls (ap (λ v. v.0) e6)
                              (ap (λ v. v.2) e6)

    attempt_lem : (f : Frame) → Returns Destroyed (attempt runtime input f)
    unfolding attempt hand_over Ready
    attempt_lem f = Returns-bind Ready Destroyed _ _ f (provision_lem f) λ id h1 e1.
        same_sandbox id Destroyed _ _ h1 e1 (keeps_run_agent seen blind runtime input id)
          λ task h2 e2. same_sandbox id Destroyed _ _ h2 e2 (keeps_validate id task) λ a h3 e3.
            same_sandbox id Destroyed _ _ h3 e3 (keeps_advance _) λ b h4 e4.
              same_sandbox id Destroyed _ _ h4 e4 (λ f. refl) λ run h5 e5. announce_lem id run h5 e5

  module _ (e : ForgeError) where
    -- The end of the `catch` block.
    abbrev pub rethrow : Run → Body Run
    rethrow run =
        (if contains run.state recoverable_states then fail_run runtime e else return tt)
        >> return_result {A = Run} (throw e)

    keeps_if : (b : Bool) → Keeps seen (if b then fail_run runtime e else return tt)
    keeps_if true f = keeps_fail_run e f
    keeps_if false f = refl

    pub keeps_rethrow : (run : Run) → Keeps seen (rethrow run)
    keeps_rethrow run =
        keeps_bind seen _ _ (keeps_if (contains run.state recoverable_states)) λ a f. refl

    clean_up_lem :
        (f : Frame) (o : Option String)
        → o ≡ f.sandbox_id
        → IsCleanedUp ((clean_up runtime (non_blank o) >> (reads (λ f. f.run) >>= rethrow)) f).1
    unfolding ◌>>=◌
    clean_up_lem f none has = λ other e' full. absurd (cc (ap (λ v. v.0) (keeps_rethrow f.run f)))
    clean_up_lem f (some id) has =
        let g : Frame = record f {
          destroy_calls = f.destroy_calls ++ id ∷ [];
          store = runtime.meanwhile cleaning f.store;
        } in
        elim (Bool-cases (is_blank id)) [
          | inl blank ↦
              rw blank λ other e' full. absurd (cc (ap (λ v. v.0) (keeps_rethrow f.run f)))
          | inr given ↦ rw given (
              cleaned_last id (rethrow f.run g).1 f.destroy_calls
                (ap (λ v. v.0) (keeps_rethrow f.run g) ∙ sym has)
                (ap (λ v. v.2) (keeps_rethrow f.run g)))
        ]

  recover_lem : (e : ForgeError) (f : Frame) → IsCleanedUp (recover runtime e f).1
  unfolding recover ◌>>=◌
  recover_lem e f = clean_up_lem e f f.sandbox_id refl

  caught_lem :
      (r : Result Run × Frame)
      → Returns (λ run f. IsCleanedUp f) r
      → IsCleanedUp (caught runtime r).1
  unfolding caught
  caught_lem (ok run, f) p = p
  caught_lem (throw e, f) p = recover_lem e f

  -- When an execution is over, the destruction of the sandbox that its variable has was asked for.
  pub execute_queued-IsCleanedUp :
      (input : ExecuteRunInput) (s : Store) (run : Run) (id : String)
      → (execute_queued runtime input s run).1.sandbox_id ≡ some id
      → is_blank id ≡ false
      → contains id (execute_queued runtime input s run).1.destroy_calls ≡ true
  unfolding execute_queued Destroyed
  execute_queued-IsCleanedUp input s run id e full =
      caught_lem (attempt runtime input (frame_of runtime s run))
        (attempt_lem input (frame_of runtime s run)) id e full
