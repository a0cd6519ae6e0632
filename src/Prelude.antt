-- ===== src/Prelude.antt =====
-- The names that the other modules share: the libraries', passed on, the Boolean tests on numbers
-- and texts, lists over the native numbers, predicates on lists, and the state-and-exception monad.
mod Tests
mod Lists
mod Monad
pub mod Keeps
pub mod Triple
pub use Tests.*
pub use Lists.{
  length, take, drop, any, get_elem?, set, get_elem?-set_self, get_elem?-set_other, length-set,
  get_elem?_bound, get_elem?_found, length-append, All, All-append, In, contains, Table,
  lookup-insert, lookup-insert_self, lookup-new_key,
}
unfoldable pub use Lists.{lookup, insert, new_key}
pub use Monad.{Result, ok, err}
unfoldable pub use Monad.{
  Action, pure, raise, lift, gets, or_raise, modify, raise_if, ◌>>=◌, ◌>>◌, continue, handle, catch,
  finally,
}
pub use Prim.Native.Nat.{ℕ, zero, suc, ◌+◌, ◌-◌, ◌*◌, ◌/◌, ◌%◌, ◌^◌, ◌≤◌, ◌<◌, min, max}
pub use Prim.Native.String.{String}
pub use mathlib.Core.Path.{◌≡◌, refl, sym, ap, ◌∙◌, subst, ◌≡⟨◌⟩◌, ◌∎}
pub use mathlib.Core.Logic.{◌≢◌, ◌↔◌, ◌⊎◌, inl, inr}
pub use mathlib.Core.Bool.{Bool, true, false, not, ◌&&◌, ◌||◌}
pub use mathlib.Core.Option.{Option, none, some}
pub use mathlib.Core.List.{List, [], ◌∷◌, ◌++◌, map, append_assoc, append-nil}
pub use native.Mathlib.Omega.{arith}
pub use text.Mathlib.TextEquality.{eq_iff}
unfoldable pub use text.Mathlib.Text.{◌==◌ as str_eq}
