-- ===== src/Forge/Execution/Created.antt =====
-- Every sandbox that the provider has created is destroyed
-- (packages/forge-application/src/runs/execute-run.ts).
use cyclewarden.Prelude.{
  ◌≡◌, refl, ap, subst, ◌∙◌, Option, none, some, List, [], ◌∷◌, ◌++◌, String, true, false, contains,
  is_blank, string_eq, str_iff, arith,
}
use cyclewarden.Domain.Contracts.{Run, RunState}
use cyclewarden.Domain.Errors.{ForgeError, Result, ok, throw}
use cyclewarden.Forge.Store.{Store}
use cyclewarden.Forge.Execution.Frame.{
  Frame, Body, then_do, note_create, assign_sandbox, ◌>>=◌, ◌>>◌,
}
use cyclewarden.Forge.Execution.Requests.{ExecuteRunInput, cleaning, creating, destroying}
use cyclewarden.Forge.Execution.Attempt.{
  Runtime, advance, run_agent, validate, provision, announce, hand_over, attempt,
}
use cyclewarden.Forge.Execution.Body.{clean_up, recover, caught, frame_of, execute_queued}
use cyclewarden.Forge.Execution.Local.{
  Keeps, keeps_bind, keeps_call, keeps_wait, keeps_sandbox_event, keeps_run_agent,
}
use cyclewarden.Forge.Execution.Cleanup.{
  seen, blind, keeps_advance, keeps_start_running, keeps_validate, rethrow, keeps_rethrow,
  execute_queued-IsCleanedUp,
}

-- The sandbox that the variable has, and those that were created.
abbrev got : Frame → Option String × List String
got f = (f.sandbox_id, f.created)

-- A sandbox that was created is the one that the variable has.
abbrev IsKnown : Frame → Type 0
IsKnown f = (id : String) → contains id f.created ≡ true → f.sandbox_id ≡ some id

abbrev HasNone : Frame → Type 0
HasNone f = f.created ≡ []

HasNone-IsKnown : (f : Frame) → HasNone f → IsKnown f
HasNone-IsKnown f e id h = absurd (cc (ap (contains id) e))

kept-IsKnown : (f g : Frame) → got g ≡ got f → IsKnown f → IsKnown g
kept-IsKnown f g same k id h =
    ap (λ v. v.0) same ∙ k id (subst (λ ids. contains id ids ≡ true) (ap (λ v. v.1) same) h)

-- The first and only sandbox.
first-IsKnown :
    (f : Frame) (id : String)
    → HasNone f
    → IsKnown (record f { created = f.created ++ id ∷ []; sandbox_id = some id })
first-IsKnown f id e other h =
    let h' : contains other (id ∷ []) ≡ true =
      subst (λ ids. contains other (ids ++ id ∷ []) ≡ true) e h in
    ground (arith, str_iff id other, str_iff other id)

-- What holds of the frame after a first part, whether it returned or threw, and then of what
-- follows.
module _ (I J : Frame → Type 0) (weaker : (h : Frame) → I h → J h) {A B : Type 0} where
  bind_case :
      (r : Result A × Frame) (k : A → Body B)
      → I r.1
      → ((a : A) (h : Frame) → I h → J (k a h).1)
      → J (then_do r k).1
  bind_case (ok a, h) k p q = q a h p
  bind_case (throw e, h) k p q = weaker h p

  ends_bind :
      (m : Body A) (k : A → Body B) (f : Frame)
      → I (m f).1
      → ((a : A) (h : Frame) → I h → J (k a h).1)
      → J ((m >>= k) f).1
  unfolding ◌>>=◌
  ends_bind m k f p q = bind_case (m f) k p q

module _ {A : Type 0} where
  seen_got : (m : Body A) → Keeps seen m → Keeps got m
  seen_got m p f = ap (λ v. (v.0, v.1)) (p f)

  HasNone-before :
      {B : Type 0} (m : Body A) (k : A → Body B) (f : Frame)
      → HasNone f
      → Keeps seen m
      → ((a : A) (h : Frame) → HasNone h → IsKnown (k a h).1)
      → IsKnown ((m >>= k) f).1
  HasNone-before m k f e p q =
      ends_bind HasNone IsKnown HasNone-IsKnown m k f (ap (λ v. v.1) (p f) ∙ e) q

  IsKnown-after :
      {B : Type 0} (m : Body A) (k : A → Body B) (f : Frame)
      → IsKnown (m f).1
      → ((a : A) → Keeps got (k a))
      → IsKnown ((m >>= k) f).1
  IsKnown-after m k f p q =
      ends_bind IsKnown IsKnown (λ h p. p) m k f p (λ a h k'. kept-IsKnown h (k a h).1 (q a h) k')

  -- The sandbox is assigned as soon as it is there.
  assigned :
      (id : String) (k : Body A) (f : Frame)
      → HasNone f
      → Keeps seen k
      → IsKnown ((note_create id >> (assign_sandbox id >> k)) f).1
  unfolding ◌>>=◌
  assigned id k f e p =
      let g : Frame = record f { created = f.created ++ id ∷ []; sandbox_id = some id } in
      kept-IsKnown g (k g).1 (seen_got k p g) (first-IsKnown f id e)

module _ (runtime : Runtime) where
  module _ (input : ExecuteRunInput) where
    provision-IsKnown : (f : Frame) → HasNone f → IsKnown (provision runtime input f).1
    unfolding provision
    provision-IsKnown f e = HasNone-before _ _ f e (keeps_advance runtime _) λ a h1 e1.
        HasNone-before _ _ h1 e1 (λ f. refl)
          λ run h2 e2. HasNone-before _ _ h2 e2 (keeps_call seen (blind runtime) _) λ b h3 e3.
            HasNone-before _ _ h3 e3 (keeps_wait seen (blind runtime) runtime creating) λ c h4 e4.
              HasNone-before _ _ h4 e4 (λ f. refl)
                λ box h5 e5. assigned box.sandbox_id _ h5 e5 (
                  keeps_bind seen _ _ (keeps_start_running runtime) λ a.
                    keeps_bind seen _ _
                      (keeps_sandbox_event seen (blind runtime) runtime input _ _ _) λ b f. refl)

    keeps_announce : (id : String) (run : Run) → Keeps got (announce runtime input id run)
    unfolding announce
    keeps_announce id run =
        keeps_bind got _ _ (λ f. refl)
          λ version. keeps_bind got _ _ (keeps_call got (λ f t. refl) _) λ a.
            keeps_bind got _ _ (λ f. refl)
              λ b. keeps_bind got _ _ (keeps_wait got (λ f t. refl) runtime destroying) λ c.
                keeps_bind got _ _ (λ f. refl)
                  λ d.
                    keeps_bind got _ _ (keeps_sandbox_event got (λ f t. refl) runtime input _ _ _)
                      λ x f. refl

    attempt-IsKnown : (f : Frame) → HasNone f → IsKnown (attempt runtime input f).1
    unfolding attempt hand_over
    attempt-IsKnown f e = IsKnown-after _ _ f (provision-IsKnown f e) λ id.
        keeps_bind got _ _
          (seen_got (run_agent runtime input id)
            (keeps_run_agent seen (blind runtime) runtime input id))
          λ task.
            keeps_bind got _ _
              (seen_got (validate runtime input id task) (keeps_validate runtime input id task))
              λ a.
                keeps_bind got _ _
                  (seen_got (advance runtime RunState.awaiting_review) (keeps_advance runtime _))
                  λ b. keeps_bind got _ _ (λ f. refl) λ run. keeps_announce id run

  keeps_clean_up : (id : Option String) → Keeps got (clean_up runtime id)
  keeps_clean_up none = λ f. refl
  keeps_clean_up (some id) =
      keeps_bind got _ _ (λ f. refl) λ a. keeps_wait got (λ f t. refl) runtime cleaning

  keeps_recover : (e : ForgeError) → Keeps got (recover runtime e)
  unfolding recover
  keeps_recover e =
      keeps_bind got _ _ (λ f. refl)
        λ id. keeps_bind got _ _ (keeps_clean_up id) λ a.
          keeps_bind got _ _ (λ f. refl)
            λ run. seen_got (rethrow runtime e run) (keeps_rethrow runtime e run)

  caught-IsKnown : (r : Result Run × Frame) → IsKnown r.1 → IsKnown (caught runtime r).1
  unfolding caught
  caught-IsKnown (ok run, f) p = p
  caught-IsKnown (throw e, f) p = kept-IsKnown f (recover runtime e f).1 (keeps_recover e f) p

  -- A sandbox that was created is not left behind: if at any point of an execution the provider
  -- has answered with a new sandbox, then, when the execution is over, whether it has returned or
  -- thrown and whatever else was done meanwhile, the provider has been asked to destroy it. An
  -- empty identifier is taken for none.
  pub sandbox_is_destroyed :
      (input : ExecuteRunInput) (s : Store) (run : Run) (id : String)
      → contains id (execute_queued runtime input s run).1.created ≡ true
      → is_blank id ≡ false
      → contains id (execute_queued runtime input s run).1.destroy_calls ≡ true
  unfolding execute_queued
  sandbox_is_destroyed input s run id made full =
      execute_queued-IsCleanedUp runtime input s run id
        (caught-IsKnown (attempt runtime input (frame_of runtime s run))
          (attempt-IsKnown input (frame_of runtime s run) refl) id made)
        full
