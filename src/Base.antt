-- ===== src/Base.antt =====
-- The names that all modules share: the libraries', passed on, and those of the children.
mod Tests
mod Text
mod Trim
mod Dict
mod Lists
mod Http
mod Table
pub use Tests.*
pub use Lists.*
pub use Http.*
unfoldable pub use Table.{update_where, delete_where, insert_by, sort_by}
pub use Table.{count-update_same, count-update-le, count-update_off, count-update_down}
pub use Prim.Native.Nat.{ℕ, zero, suc, ◌+◌, ◌-◌, ◌*◌, ◌/◌, ◌%◌, ◌^◌, ◌≤◌, ◌<◌, min, max}
pub use Prim.Native.String.{String}
pub use mathlib.Core.Path.{◌≡◌, refl, sym, ap, subst, ◌∙◌}
pub use mathlib.Core.Logic.{◌≢◌, ◌↔◌, ◌⊎◌, inl, inr}
pub use mathlib.Core.Bool.{Bool, true, false, not, ◌&&◌, ◌||◌}
pub use mathlib.Core.Option.{Option, none, some}
pub use mathlib.Core.List.{List, [], ◌∷◌, ◌++◌, map, reverse}
pub use native.Mathlib.Omega.{arith}
unfoldable pub use Text.{beq, has_prefix, strip, trim_space}
pub use Text.{Str, codes, beq_iff, beq_refl, has_prefix-append, is_empty, cut}
pub use Trim.{is_edge, trim_space-bare, any-weaken, is_edge-printed, trim_space-any}
unfoldable pub use Dict.{lookup, insert, delete, update_all}
pub use Dict.{
  Map, IsUnique, bind_at, lookup-insert, insert-IsUnique, update_all-IsUnique, lookup-update_all,
  lookup-update_none, delete-IsUnique, lookup-delete,
}
