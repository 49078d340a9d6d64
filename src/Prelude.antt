-- ===== src/Prelude.antt =====
-- Names that every module shares: the libraries', passed on, and those of the children.
mod Tests
mod Lists
mod Predicates
mod Texts
mod Ints
mod Maps
pub mod Sort
pub mod Steps
pub use Tests.*
pub use Lists.*
pub use Predicates.*
pub use Texts.{Text, codes, text_eq_refl, text_eq_iff, text_lt_asymm, text_lt_trans_not}
unfoldable pub use Texts.{text_eq, text_lt}
pub use Ints.*
pub use Maps.{
  key_of, values, ne_of_text_eq, text_eq_of_ne, lookup-insert, lookup-delete, insert-All,
  delete-All, insert-DistinctBy, delete-DistinctBy,
}
unfoldable pub use Maps.{lookup, insert, delete}
pub use Prim.Native.Nat.{ℕ, zero, suc, ◌+◌, ◌-◌, ◌*◌, ◌/◌, ◌%◌, ◌≤◌, ◌<◌, min}
pub use mathlib.Core.Path.{◌≡◌, refl, sym, ap, subst, ◌∙◌}
pub use mathlib.Core.Logic.{◌≢◌, ◌↔◌, ◌⊎◌, inl, inr}
pub use mathlib.Core.Bool.{Bool, true, false, not, ◌&&◌, ◌||◌}
pub use mathlib.Core.Option.{Option, none, some}
pub use mathlib.Core.List.{List, [], ◌∷◌, ◌++◌, map, Mem, Perm}
pub use native.Mathlib.Omega.{arith}
