-- ===== src/Base.antt =====
-- The names that the other modules share: the libraries', passed on, and those of the children.
mod Tests
mod Lists
mod Equality
mod Text
pub mod Split
pub mod Assoc
pub mod Int
pub mod Exec
pub mod Sort
pub use Tests.*
pub use Lists.*
pub use Equality.{Eq, ◌==◌, eq_refl, list_beq_iff, option_beq_iff}
unfoldable pub use Equality.{list_beq, option_beq, nat_eq, string_eq, list_eq, option_eq}
pub use Text.{
  Str, codes, slash, has_prefix-append, has_prefix-split, has_suffix-split, has_suffix-append,
}
unfoldable pub use Text.{has_prefix, has_suffix, trim_prefix, trim_suffix, cut, contains_byte}
pub use Prim.Native.Nat.{ℕ, zero, suc, ◌+◌, ◌-◌, ◌*◌, ◌/◌, ◌%◌, ◌^◌, ◌≤◌, ◌<◌}
pub use Prim.Native.String.{String}
pub use mathlib.Core.Path.{◌≡◌, refl, sym, ap, ap₂, ◌∙◌, subst}
pub use mathlib.Core.Logic.{◌≢◌, ◌↔◌, ◌⊎◌, inl, inr}
pub use mathlib.Core.Bool.{Bool, true, false, not, ◌&&◌, ◌||◌}
pub use mathlib.Core.Option.{Option, none, some, some-injective}
pub use mathlib.Core.List.{List, [], ◌∷◌, ◌++◌, map, reverse, append-nil, append_assoc}
pub use native.Mathlib.Omega.{arith}
