-- ===== src/Prelude.antt =====
-- Names that every module of the development shares: the libraries', passed on, and those of the
-- children (Boolean tests, lists measured by native numbers, results, insertion-ordered maps).
mod Tests
mod Lists
mod Filters
pub mod Result
pub mod Dict
pub mod Step
pub mod Sets
pub mod Counting
pub mod Utf8
pub use Tests.*
pub use Lists.*
pub use Filters.*
pub use Prim.Native.Nat.{ℕ, zero, suc, ◌+◌, ◌-◌, ◌*◌, ◌/◌, ◌%◌, ◌^◌, ◌≤◌, ◌<◌}
pub use mathlib.Core.Path.{◌≡◌, refl, sym, ap, ◌∙◌, subst, ◌≡⟨◌⟩◌, ◌∎}
pub use mathlib.Core.Logic.{◌≢◌, ◌↔◌, ◌⊎◌, inl, inr}
pub use mathlib.Core.Bool.{Bool, true, false, not, ◌&&◌, ◌||◌}
pub use mathlib.Core.Option.{Option, none, some}
pub use mathlib.Core.List.{List, [], ◌∷◌, ◌++◌, map}
pub use native.Mathlib.Omega.{arith}
