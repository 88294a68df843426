-- ===== src/Prelude.antt =====
-- The names that the other modules share: the libraries', passed on, and those of the children.
mod Tests
mod Lists
mod Text
mod Assoc
mod Int
mod Values
pub use Tests.*
pub use Lists.*
pub use Text.{is_blank, ◌++ₛ◌}
unfoldable pub use Text.{is_space, char_at, trim, utf16_length, digit, decimal}
pub use Int.*
pub use Values.*
pub use Assoc.{
  Dict, bit, count_values, get-put, get-remove, get-empty, get-put_self, count_values-put_new,
  count_values-put_old, count_values-empty, count_values-filter, dict_laws,
}
unfoldable pub use Assoc.{empty, get, put, remove, values}
pub use Prim.Native.Nat.{ℕ, zero, suc, ◌+◌, ◌-◌, ◌*◌, ◌≤◌, ◌<◌}
pub use Prim.Native.String.{String}
pub use mathlib.Core.Path.{◌≡◌, refl, sym, ap, ◌∙◌, fun_ext, subst}
pub use mathlib.Core.Logic.{◌≢◌, ◌↔◌, ◌⊎◌, inl, inr}
pub use mathlib.Core.Bool.{Bool, true, false, not, ◌&&◌, ◌||◌}
pub use mathlib.Core.Option.{Option, none, some}
pub use mathlib.Core.List.{List, [], ◌∷◌, ◌++◌, map}
pub use native.Mathlib.Omega.{arith}
