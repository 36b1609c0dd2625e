-- ===== src/Shared.antt =====
-- Names that every part of the model shares: those of the libraries, passed on, and those of the
-- children (tests and conditionals, lists, integers, actions, HTTP replies).
mod Tests
mod Lists
mod Handlers
pub mod Int
pub mod Http
pub mod Sort
pub mod Session
pub mod Timed
pub mod Texts
pub mod Decimal
pub use Tests.*
pub use Lists.*
pub use Handlers.*
pub use Prim.Native.Nat.{ℕ, zero, suc, ◌+◌, ◌-◌, ◌*◌, ◌≤◌, ◌<◌}
pub use Prim.Native.String.{String}
pub use text.Mathlib.Text.{◌==◌ as str_eq}
pub use text.Mathlib.TextEquality.{eq_iff}
pub use text.Mathlib.TextPositions.{eq_refl}
pub use mathlib.Core.Path.{◌≡◌, refl, sym, ap, subst, ◌∙◌}
pub use mathlib.Core.Logic.{◌≢◌, ◌↔◌, ◌⊎◌, inl, inr}
pub use mathlib.Core.Bool.{Bool, true, false, not, ◌&&◌, ◌||◌}
pub use mathlib.Core.Option.{Option, none, some}
pub use mathlib.Core.List.{List, [], ◌∷◌, ◌++◌, map}
pub use native.Mathlib.Omega.{arith}
