-- ===== src/Prelude/Triple.antt =====
-- Hoare triples with a postcondition for each way to end: returning a value, or raising.
use mathlib.Core.Path.{◌≡◌, refl}
use mathlib.Core.Bool.{Bool, true, false}
use agent_operator.Errors.{Error}
use agent_operator.Prelude.Tests.{if◌then◌else◌}
use agent_operator.Prelude.Monad.{
  Result, ok, err, Action, pure, raise, gets, modify, continue, ◌>>=◌, handle, catch, outcome,
  finally,
}

module _ {S A : Type 0} where
  abbrev pub Ends : (A → S → Type 0) → (Error → S → Type 0) → Result A → S → Type 0
  Ends Q E (ok a) s = Q a s
  Ends Q E (err e) s = E e s

  pub record Triple (P : S → Type 0) (m : Action S A) (Q : A → S → Type 0) (E : Error → S → Type 0)
      : Type 0 where
    pub at : (s : S) → P s → Ends Q E (m s).0 (m s).1

module _ {S A : Type 0} {P : S → Type 0} {Q : A → S → Type 0} {E : Error → S → Type 0} where
  pub Triple-pure : (a : A) → ((s : S) → P s → Q a s) → Triple P (pure a) Q E
  unfolding pure
  Triple-pure a h = record { at = h }

  pub Triple-raise : (e : Error) → ((s : S) → P s → E e s) → Triple P (raise e) Q E
  unfolding raise
  Triple-raise e h = record { at = h }

  pub Triple-gets : (f : S → A) → ((s : S) → P s → Q (f s) s) → Triple P (gets f) Q E
  unfolding gets
  Triple-gets f h = record { at = h }

  pub Triple-if :
      (b : Bool) (m n : Action S A)
      → (b ≡ true → Triple P m Q E)
      → (b ≡ false → Triple P n Q E)
      → Triple P (if b then m else n) Q E
  Triple-if true m n tm tn = tm refl
  Triple-if false m n tm tn = tn refl

  -- A fact about the state before, which the proof of the rest may use.
  pub Triple-given : (m : Action S A) → ((s : S) → P s → Triple P m Q E) → Triple P m Q E
  Triple-given m h = record { at = λ s p. (h s p).at s p }

module _ {S A : Type 0} {Q Q' : A → S → Type 0} {E E' : Error → S → Type 0} where
  Ends-weaken :
      ((a : A) (s : S) → Q a s → Q' a s)
      → ((e : Error) (s : S) → E e s → E' e s)
      → (r : Result A) (s : S) → Ends Q E r s
      → Ends Q' E' r s
  Ends-weaken q e (ok a) s h = q a s h
  Ends-weaken q e (err x) s h = e x s h

module _ {S A : Type 0} {P P' : S → Type 0} {Q Q' : A → S → Type 0}
    {E E' : Error → S → Type 0} where
  pub Triple-weaken :
      (m : Action S A)
      → Triple P m Q E
      → ((s : S) → P' s → P s)
      → ((a : A) (s : S) → Q a s → Q' a s)
      → ((e : Error) (s : S) → E e s → E' e s)
      → Triple P' m Q' E'
  Triple-weaken m t p q e = record { at = λ s h. Ends-weaken q e (m s).0 (m s).1 (t.at s (p s h)) }

module _ {S A B : Type 0} {R : A → S → Type 0} {Q : B → S → Type 0} {E : Error → S → Type 0} where
  Ends-continue :
      (r : Result A) (f : A → Action S B) (s : S)
      → Ends R E r s
      → ((a : A) → Triple (R a) (f a) Q E)
      → Ends Q E (continue r f s).0 (continue r f s).1
  Ends-continue (ok a) f s h t = (t a).at s h
  Ends-continue (err e) f s h t = h

module _ {S A B : Type 0} {P : S → Type 0} {R : A → S → Type 0} {Q : B → S → Type 0}
    {E : Error → S → Type 0} where
  pub Triple-bind :
      (m : Action S A) (f : A → Action S B)
      → Triple P m R E
      → ((a : A) → Triple (R a) (f a) Q E)
      → Triple P (m >>= f) Q E
  unfolding ◌>>=◌
  Triple-bind m f t u = record { at = λ s h. Ends-continue (m s).0 f (m s).1 (t.at s h) u }

  -- The same with the actions read off.
  pub Triple-seq :
      {m : Action S A} {f : A → Action S B}
      → Triple P m R E
      → ((a : A) → Triple (R a) (f a) Q E)
      → Triple P (m >>= f) Q E
  Triple-seq {m} {f} t u = Triple-bind m f t u

module _ {S A : Type 0} {Q : A → S → Type 0} {E E' : Error → S → Type 0} where
  Ends-handle :
      (r : Result A) (h : Error → Action S A) (s : S)
      → Ends Q E r s
      → ((e : Error) → Triple (E e) (h e) Q E')
      → Ends Q E' (handle r h s).0 (handle r h s).1
  Ends-handle (ok a) h s p t = p
  Ends-handle (err e) h s p t = (t e).at s p

module _ {S A : Type 0} {P : S → Type 0} {Q : A → S → Type 0} {E E' : Error → S → Type 0} where
  pub Triple-catch :
      (m : Action S A) (h : Error → Action S A)
      → Triple P m Q E
      → ((e : Error) → Triple (E e) (h e) Q E')
      → Triple P (catch m h) Q E'
  unfolding catch
  Triple-catch m h t u = record { at = λ s p. Ends-handle (m s).0 h (m s).1 (t.at s p) u }

module _ {S A : Type 0} (Q : A → S → Type 0) (E : Error → S → Type 0) where
  Ends-outcome :
      (r : Result A) (q : Result (Unit {0})) (s : S)
      → Ends (λ _. Ends Q E r) E q s
      → Ends Q E (outcome r q) s
  Ends-outcome r (ok _) s h = h
  Ends-outcome r (err e) s h = h

module _ {S A : Type 0} {P : S → Type 0} {Q R : A → S → Type 0} {E X : Error → S → Type 0} where
  pub Triple-finally :
      (m : Action S A) (f : Action S (Unit {0}))
      → Triple P m R X
      → ((r : Result A) → Triple (Ends R X r) f (λ _. Ends Q E r) E)
      → Triple P (finally m f) Q E
  unfolding finally
  Triple-finally m f t u = record {
    at = λ s p.
        Ends-outcome Q E (m s).0 (f (m s).1).0 (f (m s).1).1 ((u (m s).0).at (m s).1 (t.at s p));
  }

module _ {S : Type 0} {P : S → Type 0} {R : Unit {0} → S → Type 0} {E : Error → S → Type 0} where
  pub Triple-modify : (f : S → S) → ((s : S) → P s → R tt (f s)) → Triple P (modify f) R E
  unfolding modify
  Triple-modify f h = record { at = h }
