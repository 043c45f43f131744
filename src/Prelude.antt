-- ===== src/Prelude.antt =====
-- The names that the other modules share: the libraries', passed on, and those of the children.
mod Tests
mod Lists
mod Int
mod Strings
mod Keys
pub use Tests.*
pub use Lists.*
pub use Keys.{Eq, nat_eq, text_eq}
pub use Int.{
  ℤ, pos, negsuc, lt_int, le_int, max_int, word_mod, to_word, of_word, lt_int_irrefl, max_int_comm,
  max_int_assoc, le_int-max_int, add64_fits, add64_wraps,
}
unfoldable pub use Int.{add64}
pub use Strings.{
  Text, codes, eq_text_iff, eq_text_refl, eq_text_comm, is_empty, NoSpace, trim_space_id,
}
unfoldable pub use Strings.{eq_text, is_space, trim_space}
pub use Prim.Native.Nat.{ℕ, zero, suc, ◌+◌, ◌-◌, ◌*◌, ◌/◌, ◌%◌, ◌^◌, ◌≤◌, ◌<◌, min}
pub use mathlib.Core.Path.{◌≡◌, refl, sym, ap, ap₂, subst, ◌∙◌, fun_ext}
pub use mathlib.Core.Logic.{◌≢◌, ◌↔◌, ◌⊎◌, inl, inr}
pub use mathlib.Core.Bool.{Bool, true, false, not, ◌&&◌, ◌||◌}
pub use mathlib.Core.Option.{Option, none, some}
pub use mathlib.Core.List.{List, [], ◌∷◌, ◌++◌, map, reverse}
pub use native.Mathlib.Omega.{arith}
