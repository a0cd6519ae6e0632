-- ===== src/Prelude/Monad.antt =====
-- Python's exceptions, and coroutines as actions: an action takes a state to a result and the
-- state that it leaves, which is kept when it raises.
use mathlib.Core.Bool.{Bool, true, false}
use mathlib.Core.Option.{Option, none, some}
use agent_operator.Errors.{Error}

pub data Result (A : Type 0) : Type 0 where
  ok : A → Result A
  err : Error → Result A

abbrev pub Action : Type 0 → Type 0 → Type 0
Action S A = S → Result A × S

module _ {S A : Type 0} where
  unfoldable pub pure : A → Action S A
  pure a s = (ok a, s)

  unfoldable pub raise : Error → Action S A
  raise e s = (err e, s)

  -- A pure function that may raise.
  unfoldable pub lift : Result A → Action S A
  lift r s = (r, s)

  unfoldable pub gets : (S → A) → Action S A
  gets f s = (ok (f s), s)

  unfoldable pub or_raise : Option A → Error → Action S A
  or_raise none e s = (err e, s)
  or_raise (some a) e s = (ok a, s)

module _ {S : Type 0} where
  unfoldable pub modify : (S → S) → Action S (Unit {0})
  modify f s = (ok tt, f s)

  unfoldable pub raise_if : Bool → Error → Action S (Unit {0})
  raise_if true e s = (err e, s)
  raise_if false e s = (ok tt, s)

module _ {S A B : Type 0} where
  abbrev pub continue : Result A → (A → Action S B) → Action S B
  continue (ok a) f s = f a s
  continue (err e) f s = (err e, s)

  -- Opening this opens the actions above.
  infixl 5 ◌>>=◌ ◌>>◌
  unfoldable pub ◌>>=◌ : Action S A → (A → Action S B) → Action S B
  unfolding pure raise lift gets or_raise modify raise_if
  ◌>>=◌ m f s = let (r, s') = m s in continue r f s'

  abbrev pub ◌>>◌ : Action S A → Action S B → Action S B
  m >> k = m >>= λ _. k

abbrev pub outcome : {A : Type 0} → Result A → Result (Unit {0}) → Result A
outcome r (ok _) = r
outcome r (err e) = err e

module _ {S A : Type 0} where
  abbrev pub handle : Result A → (Error → Action S A) → Action S A
  handle (ok a) h s = (ok a, s)
  handle (err e) h s = h e s

  -- `try: m except Exception as exc: h(exc)`.
  unfoldable pub catch : Action S A → (Error → Action S A) → Action S A
  catch m h s = let (r, s') = m s in handle r h s'

  -- `try: m finally: f`. An exception of `f` takes the place of the result of `m`.
  unfoldable pub finally : Action S A → Action S (Unit {0}) → Action S A
  finally m f s = let (r, s') = m s in let (q, s'') = f s' in (outcome r q, s'')
