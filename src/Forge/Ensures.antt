-- ===== src/Forge/Ensures.antt =====
-- What a computation on the store ensures when it returns, and by which errors it may fail: a rule
-- for each way in which the commands are built (packages/forge-application/src).
pub mod Methods
use cyclewarden.Prelude.{◌≡◌, refl, Bool, true, false, Option, some, none}
use cyclewarden.Domain.Errors.{ForgeError, Result, ok, throw}
use cyclewarden.Forge.Store.{Store}
use cyclewarden.Forge.Exec.{Exec, from_result, gets, throw_if, then_do, ◌>>=◌, ◌>>◌}
use cyclewarden.Forge.Queries.{found}

module _ (E : ForgeError → Store → Type 0) where
  -- It fails as `E` says, or returns what `P` says.
  abbrev pub Ensures : {A : Type 0} → (A → Store → Type 0) → Result A × Store → Type 0
  Ensures P (ok a, t) = P a t
  Ensures P (throw e, t) = E e t

  module _ {A B : Type 0} (Q : A → Store → Type 0) (P : B → Store → Type 0) where
    bind_case :
        (r : Result A × Store) (f : A → Exec B)
        → Ensures Q r
        → ((a : A) (t : Store) → Q a t → Ensures P (f a t))
        → Ensures P (then_do r f)
    bind_case (ok a, t) f q k = k a t q
    bind_case (throw e, t) f q k = q

    -- A first part that has a rule of its own.
    pub Ensures-bind :
        (m : Exec A) (f : A → Exec B) (s : Store)
        → Ensures Q (m s)
        → ((a : A) (t : Store) → Q a t → Ensures P (f a t))
        → Ensures P ((m >>= f) s)
    unfolding ◌>>=◌
    Ensures-bind m f s q k = bind_case (m s) f q k

  module _ {A B : Type 0} (P : B → Store → Type 0) where
    -- A first part that is known to return.
    pub Ensures-known :
        (m : Exec A) (f : A → Exec B) (s : Store) (a : A) (t : Store)
        → m s ≡ (ok a, t)
        → Ensures P (f a t)
        → Ensures P ((m >>= f) s)
    unfolding ◌>>=◌
    Ensures-known m f s a t known k = rw known k

    found_case :
        (e : ForgeError) (o : Option A) (f : A → Exec B) (s : Store)
        → (o ≡ none → E e s)
        → ((a : A) → o ≡ some a → Ensures P (f a s))
        → Ensures P (then_do (found e o s) f)
    found_case e none f s absent k = absent refl
    found_case e (some a) f s absent k = k a refl

    pub Ensures-found :
        (e : ForgeError) (o : Store → Option A) (f : A → Exec B) (s : Store)
        → (o s ≡ none → E e s)
        → ((a : A) → o s ≡ some a → Ensures P (f a s))
        → Ensures P (((λ t. found e (o t) t) >>= f) s)
    unfolding ◌>>=◌
    Ensures-found e o f s absent k = found_case e (o s) f s absent k

    -- A value that is known to be there.
    pub Ensures-some :
        (e : ForgeError) (o : Store → Option A) (f : A → Exec B) (s : Store) (a : A)
        → o s ≡ some a
        → Ensures P (f a s)
        → Ensures P (((λ t. found e (o t) t) >>= f) s)
    unfolding ◌>>=◌
    Ensures-some e o f s a there k = rw there k

    pub Ensures-gets :
        (g : Store → A) (f : A → Exec B) (s : Store)
        → Ensures P (f (g s) s)
        → Ensures P ((gets g >>= f) s)
    unfolding ◌>>=◌
    Ensures-gets g f s k = k

    result_case :
        (m : Result A) (f : A → Exec B) (s : Store)
        → ((e : ForgeError) → m ≡ throw e → E e s)
        → ((a : A) → m ≡ ok a → Ensures P (f a s))
        → Ensures P (then_do (m, s) f)
    result_case (ok a) f s failed k = k a refl
    result_case (throw e) f s failed k = failed e refl

    pub Ensures-result :
        (m : Result A) (f : A → Exec B) (s : Store)
        → ((e : ForgeError) → m ≡ throw e → E e s)
        → ((a : A) → m ≡ ok a → Ensures P (f a s))
        → Ensures P ((from_result m >>= f) s)
    unfolding ◌>>=◌
    Ensures-result m f s failed k = result_case m f s failed k

    pub Ensures-ok :
        (m : Result A) (f : A → Exec B) (s : Store) (a : A)
        → m ≡ ok a
        → Ensures P (f a s)
        → Ensures P ((from_result m >>= f) s)
    unfolding ◌>>=◌
    Ensures-ok m f s a returned k = rw returned k

  module _ {B : Type 0} (P : B → Store → Type 0) where
    test_case :
        (X : Type 0) (r : Result (Unit {0}) × Store) (m : Exec B) (s : Store)
        → Ensures (λ _ t. (t ≡ s) × X) r
        → (X → Ensures P (m s))
        → Ensures P (then_do r (λ _. m))
    test_case X (ok a, t) m s (same, x) k = rw same (k x)
    test_case X (throw e, t) m s q k = q

    -- A first part that only tests, and lets pass where `X` holds.
    pub Ensures-test :
        (X : Type 0) (test : Exec (Unit {0})) (m : Exec B) (s : Store)
        → Ensures (λ _ t. (t ≡ s) × X) (test s)
        → (X → Ensures P (m s))
        → Ensures P ((test >> m) s)
    unfolding ◌>>=◌
    Ensures-test X test m s q k = test_case X (test s) m s q k

    throw_case :
        (b : Bool) (e : ForgeError) (m : Exec B) (s : Store)
        → (b ≡ true → E e s)
        → (b ≡ false → Ensures P (m s))
        → Ensures P (then_do (throw_if b e s) (λ _. m))
    throw_case true e m s thrown k = thrown refl
    throw_case false e m s thrown k = k refl

    pub Ensures-throw_if :
        (b : Bool) (e : ForgeError) (m : Exec B) (s : Store)
        → (b ≡ true → E e s)
        → (b ≡ false → Ensures P (m s))
        → Ensures P ((throw_if b e >> m) s)
    unfolding ◌>>=◌
    Ensures-throw_if b e m s thrown k = throw_case b e m s thrown k

  -- A test at the end.
  pub Ensures-throw_if_last :
      (P : Unit {0} → Store → Type 0) (b : Bool) (e : ForgeError) (s : Store)
      → (b ≡ true → E e s)
      → (b ≡ false → P tt s)
      → Ensures P (throw_if b e s)
  Ensures-throw_if_last P true e s thrown k = thrown refl
  Ensures-throw_if_last P false e s thrown k = k refl

-- What follows from what it returns.
pub Ensures-weaker :
    {A : Type 0} (E : ForgeError → Store → Type 0) (P Q : A → Store → Type 0) (r : Result A × Store)
    → Ensures E P r
    → ((a : A) (t : Store) → P a t → Q a t)
    → Ensures E Q r
Ensures-weaker E P Q (ok a, t) h k = k a t h
Ensures-weaker E P Q (throw e, t) h k = h

-- The same of the store on both ways to end.
module _ (P : Store → Type 0) where
  abbrev pub Fails : ForgeError → Store → Type 0
  Fails e t = P t

  abbrev pub Returns : {A : Type 0} → A → Store → Type 0
  Returns a t = P t

  pub Ensures-both : {A : Type 0} (r : Result A × Store) → P r.1 → Ensures Fails Returns r
  Ensures-both (ok a, t) h = h
  Ensures-both (throw e, t) h = h

  pub after-Ensures : {A : Type 0} (r : Result A × Store) → Ensures Fails Returns r → P r.1
  after-Ensures (ok a, t) h = h
  after-Ensures (throw e, t) h = h
