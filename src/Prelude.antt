-- ===== src/Prelude.antt =====
-- The names that the other modules share: the libraries', passed on, and those of the children,
-- which model the parts of Python's `str`, `list` and `int` that the gateway calls.
mod Tests
mod Lists
pub mod Texts
pub mod Sort
pub mod Ints
pub mod Base64
pub mod Urlsafe
pub mod Results
pub mod Substrings
pub mod Maps
pub use Tests.*
pub use Lists.*
pub use Texts.{Text, codes, text_eq, text_eq_iff, text_eq_refl, text_eq-false}
pub use Prim.Native.Nat.{ℕ, zero, suc, ◌+◌, ◌-◌, ◌*◌, ◌/◌, ◌%◌, ◌^◌, ◌≤◌, ◌<◌, min, max}
pub use mathlib.Core.Path.{◌≡◌, refl, sym, ap, ◌∙◌, subst}
pub use mathlib.Core.Logic.{◌≢◌, ◌↔◌, ◌⊎◌, inl, inr}
pub use mathlib.Core.Bool.{Bool, true, false, not, ◌&&◌, ◌||◌}
pub use mathlib.Core.Option.{Option, none, some}
pub use mathlib.Core.List.{List, [], ◌∷◌, ◌++◌, map, append_assoc, append-nil}
pub use native.Mathlib.Omega.{arith}
