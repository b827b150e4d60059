-- ===== src/Common.antt =====
-- Names that the other modules share: the libraries' names, passed on, and those of the children.
mod Tests
mod Maps
pub mod Int
pub mod Decimal
pub mod Outcome
pub mod Action
pub mod Files
pub mod Words
pub mod Disk
pub mod Polling
pub mod Membership
pub use Tests.*
pub use Maps.{
  Map, Distinct, beq_refl, beq_ne, contains-append, lookup-insert_self, lookup-insert_ne,
  lookup-insert,
}
unfoldable pub use Maps.{lookup, insert, contains}
pub use Prim.Native.Nat.{ℕ, zero, suc, ◌+◌, ◌-◌, ◌*◌, ◌/◌, ◌%◌, ◌^◌, ◌≤◌, ◌<◌}
pub use Prim.Native.String.{String}
pub use mathlib.Core.Path.{◌≡◌, refl, sym, ap, ◌∙◌}
pub use mathlib.Core.Logic.{◌≢◌, ◌↔◌, ◌⊎◌, inl, inr}
pub use mathlib.Core.Bool.{Bool, true, false, ◌&&◌, ◌||◌, not}
pub use mathlib.Core.Option.{Option, none, some}
pub use mathlib.Core.List.{List, [], ◌∷◌, ◌++◌, map}
pub use native.Mathlib.Omega.{arith}
pub use text.Mathlib.TextEquality.{eq_iff}
