-- ===== src/Base.antt =====
-- The names that every part of the model shares: the libraries', passed on, and those of the
-- children (Go's tests, slices, byte strings and decimal printing).
mod Tests
mod Lists
mod Bytes
mod Decimal
mod Strings
mod Maps
pub use Tests.*
pub use Lists.*
pub use Bytes.*
unfoldable pub use Decimal.*
unfoldable pub use Strings.*
pub use Maps.*
pub use Prim.Native.Nat.{ℕ, zero, suc, ◌+◌, ◌-◌, ◌*◌, ◌/◌, ◌%◌, ◌^◌, ◌≤◌, ◌<◌}
pub use Prim.Native.String.{String}
pub use mathlib.Core.Path.{◌≡◌, refl, sym, ap, subst, ◌∙◌}
pub use mathlib.Core.Logic.{◌≢◌, ◌↔◌, ◌⊎◌, inl, inr}
pub use mathlib.Core.Bool.{Bool, true, false, not, ◌&&◌, ◌||◌}
pub use mathlib.Core.Option.{Option, none, some}
pub use mathlib.Core.List.{List, [], ◌∷◌, ◌++◌, map, append_assoc, append-nil}
pub use native.Mathlib.Omega.{arith}
