-- ===== src/Common.antt =====
-- Names that every module shares: the libraries' names in use, passed on, with the helpers of the
-- children for tests, dictionaries, sets and text.
mod Tests
mod Maps
mod Sets
mod Text
mod TextLaws
mod Errors
unfoldable pub use Tests.*
unfoldable pub use Maps.*
unfoldable pub use Sets.*
unfoldable pub use Text.*
pub use TextLaws.*
pub use Errors.*
pub use Prim.Native.Nat.{ℕ, zero, suc, ◌+◌, ◌-◌, ◌*◌, ◌/◌, ◌%◌, ◌^◌, ◌≤◌, ◌<◌}
pub use Prim.Native.String.{String}
pub use mathlib.Core.Path.{◌≡◌, refl, sym, ap, ◌∙◌}
pub use mathlib.Core.Logic.{◌≢◌, ◌↔◌, ◌⊎◌, inl, inr}
pub use mathlib.Core.Bool.{Bool, true, false, not, ◌&&◌, ◌||◌}
pub use mathlib.Core.Option.{Option, none, some}
pub use mathlib.Core.List.{List, [], ◌∷◌, ◌++◌, map}
pub use native.Mathlib.Omega.{arith}
unfoldable pub use native.Mathlib.Decide.{ℕ_discrete}
