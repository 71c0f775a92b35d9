-- ===== src/Base.antt =====
-- Names that the modules share: the libraries' names, passed on, and helpers on tests, lists,
-- results and text. No code of the repository is modelled here.
mod Tests
mod Lists
mod Errors
mod Text
pub use Tests.*
pub use Lists.*
pub use Errors.*
pub use Text.*
unfoldable pub use Text.{has}
pub use Prim.Native.Nat.{ℕ, zero, suc, ◌+◌, ◌-◌, ◌*◌, ◌/◌, ◌%◌, ◌^◌, ◌≤◌, ◌<◌, min, max}
pub use Prim.Native.String.{String}
pub use mathlib.Core.Path.{◌≡◌, refl, sym, ap, ◌∙◌}
pub use mathlib.Core.Logic.{◌≢◌, ◌↔◌, ◌⊎◌, inl, inr}
pub use mathlib.Core.Bool.{Bool, true, false, not, ◌&&◌, ◌||◌}
pub use mathlib.Core.Option.{Option, none, some}
pub use mathlib.Core.List.{List, [], ◌∷◌, ◌++◌, map}
pub use native.Mathlib.Omega.{arith}
