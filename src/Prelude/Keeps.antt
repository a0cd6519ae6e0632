-- ===== src/Prelude/Keeps.antt =====
-- What an action does to the state, as a preorder between the states before and after: one rule
-- for each way to build an action.
use mathlib.Core.Path.{◌≡◌, refl}
use mathlib.Core.Bool.{Bool, true, false}
use mathlib.Core.Option.{Option, none, some}
use agent_operator.Errors.{Error}
use agent_operator.Prelude.Tests.{if◌then◌else◌}
use agent_operator.Prelude.Monad.{
  Result, ok, err, Action, pure, raise, lift, gets, or_raise, raise_if, continue, ◌>>=◌, handle,
  catch, finally,
}

pub record IsPreorder {S : Type 0} (R : S → S → Type 0) : Type 0 where
  pub same : (s : S) → R s s
  pub step : (s t u : S) → R s t → R t u → R s u

-- Whether it returns or raises, `m` leaves a state that is related to the one it found.
pub record Keeps {S A : Type 0} (R : S → S → Type 0) (m : Action S A) : Type 0 where
  pub at : (s : S) → R s (m s).1

module _ {S A : Type 0} {R : S → S → Type 0} where
  pub Keeps-pure : IsPreorder R → (a : A) → Keeps R (pure a)
  unfolding pure
  Keeps-pure o a = record { at = o.same }

  pub Keeps-raise : IsPreorder R → (e : Error) → Keeps R (raise {A = A} e)
  unfolding raise
  Keeps-raise o e = record { at = o.same }

  pub Keeps-lift : IsPreorder R → (r : Result A) → Keeps R (lift r)
  unfolding lift
  Keeps-lift o r = record { at = o.same }

  pub Keeps-gets : IsPreorder R → (f : S → A) → Keeps R (gets f)
  unfolding gets
  Keeps-gets o f = record { at = o.same }

  pub Keeps-or_raise : IsPreorder R → (a : Option A) (e : Error) → Keeps R (or_raise a e)
  unfolding or_raise
  Keeps-or_raise o none e = record { at = o.same }
  Keeps-or_raise o (some a) e = record { at = o.same }

  pub Keeps-if :
      (b : Bool) (m n : Action S A)
      → (b ≡ true → Keeps R m)
      → (b ≡ false → Keeps R n)
      → Keeps R (if b then m else n)
  Keeps-if true m n km kn = km refl
  Keeps-if false m n km kn = kn refl

  handle-Keeps :
      IsPreorder R
      → (r : Result A) (h : Error → Action S A) → ((e : Error) → Keeps R (h e))
      → Keeps R (handle r h)
  handle-Keeps o (ok a) h kh = record { at = o.same }
  handle-Keeps o (err e) h kh = kh e

  pub Keeps-catch :
      IsPreorder R
      → (m : Action S A) (h : Error → Action S A) → Keeps R m
      → ((e : Error) → Keeps R (h e))
      → Keeps R (catch m h)
  unfolding catch
  Keeps-catch o m h km kh = record {
    at = λ s.
        let (r, s') = m s in
        o.step s s' (handle r h s').1 (km.at s) ((handle-Keeps o r h kh).at s');
  }

  pub Keeps-finally :
      IsPreorder R
      → (m : Action S A) (f : Action S (Unit {0})) → Keeps R m
      → Keeps R f
      → Keeps R (finally m f)
  unfolding finally
  Keeps-finally o m f km kf = record {
    at = λ s. o.step s (m s).1 (f (m s).1).1 (km.at s) (kf.at (m s).1);
  }

module _ {S : Type 0} {R : S → S → Type 0} where
  pub Keeps-raise_if : IsPreorder R → (b : Bool) (e : Error) → Keeps R (raise_if b e)
  unfolding raise_if
  Keeps-raise_if o true e = record { at = o.same }
  Keeps-raise_if o false e = record { at = o.same }

module _ {S A B : Type 0} {R : S → S → Type 0} where
  -- The rest may use that `r` did not raise.
  pub Keeps-continue :
      IsPreorder R
      → (r : Result A) (f : A → Action S B) → ((a : A) → r ≡ ok a → Keeps R (f a))
      → Keeps R (continue r f)
  Keeps-continue o (ok a) f kf = kf a refl
  Keeps-continue o (err e) f kf = record { at = o.same }

  pub Keeps-bind :
      IsPreorder R
      → (m : Action S A) (f : A → Action S B) → Keeps R m
      → ((a : A) → Keeps R (f a))
      → Keeps R (m >>= f)
  unfolding ◌>>=◌
  Keeps-bind o m f km kf = record {
    at = λ s.
        let (r, s') = m s in
        o.step s s' (continue r f s').1 (km.at s) ((Keeps-continue o r f (λ a _. kf a)).at s');
  }

  -- The same with the actions read off.
  pub Keeps-seq :
      {m : Action S A} {f : A → Action S B}
      → IsPreorder R
      → Keeps R m
      → ((a : A) → Keeps R (f a))
      → Keeps R (m >>= f)
  Keeps-seq {m} {f} o km kf = Keeps-bind o m f km kf

pub ruleset keeps_rules = (
  Keeps-pure, Keeps-raise, Keeps-lift, Keeps-gets, Keeps-or_raise, Keeps-raise_if, Keeps-if,
  Keeps-catch, Keeps-finally, Keeps-bind,
)
