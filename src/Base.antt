-- ===== src/Base.antt =====
-- The names that the modules share: the libraries', passed on, and those of the children.
mod Tests
mod Lists
mod Strings
mod Split
mod Int
mod Last
pub mod Sort
pub use Tests.*
pub use Lists.*
pub use Strings.{
  Text, codes, text_eq_iff, is_empty_iff, trim_start, lower_unit, has_unit, cons_head,
}
pub use Last.{after_last}
pub use Int.{ℤ, pos, negsuc, neg, ◌≤ℤ◌, leb_ℤ, leb_ℤ_iff, ltb_ℤ}
pub use Split.{
  split-ne-nil, join-split, split-word, split-append, split-All, split-join, split-snoc,
}
unfoldable pub use Strings.{text_eq, is_empty, is_space, trim, starts_with, ends_with, split, join}
pub use Prim.Native.Nat.{ℕ, zero, suc, ◌+◌, ◌-◌, ◌*◌, ◌/◌, ◌%◌, ◌^◌, ◌≤◌, ◌<◌}
pub use Prim.Native.String.{String}
pub use mathlib.Core.Path.{◌≡◌, refl, sym, ap, ◌∙◌, subst}
pub use mathlib.Core.Logic.{◌≢◌, ◌↔◌, ◌⊎◌, inl, inr}
pub use mathlib.Core.Bool.{Bool, true, false, not, ◌&&◌, ◌||◌}
pub use mathlib.Core.Option.{Option, none, some}
pub use mathlib.Core.List.{List, [], ◌∷◌, ◌++◌, map}
pub use native.Mathlib.Omega.{arith}
