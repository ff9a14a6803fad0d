-- ===== src/Prelude.antt =====
-- The names that the other modules share: the libraries', passed on, and those of the children.
mod Tests
mod Lists
pub mod Keys
pub mod Dict
pub mod Predicates
pub mod Texts
pub use Tests.*
pub use Lists.*
pub use Keys.{Eq, eqb, ℕ-eq, String-eq, eqb_self, member-set_add, member-union, member-intersection}
pub use Texts.{Text, codes, same_text-eq, same_text_iff, Text-eq}
unfoldable pub use Texts.{same_text, join}
pub use Predicates.{
  if_keeps, Yields, Yields-some, All, Any, Pairwise, All-append, All-map, All-zip, Any-append_left,
  Any-append_right, Any-map,
}
pub use Keys.{subset_witness, subset_sound, subset_complete}
unfoldable pub use Keys.{member, set_add, union, intersection, subset}
pub use Prim.Native.Nat.{ℕ, zero, suc, ◌+◌, ◌-◌, ◌*◌, ◌/◌, ◌%◌, ◌^◌, ◌≤◌, ◌<◌, min, max}
pub use Prim.Native.String.{String}
pub use mathlib.Core.Path.{◌≡◌, refl, sym, ap, ◌∙◌, subst}
pub use mathlib.Core.Logic.{◌≢◌, ◌↔◌, ◌⊎◌, inl, inr}
pub use mathlib.Core.Bool.{Bool, true, false, not, ◌&&◌, ◌||◌}
pub use mathlib.Core.Option.{Option, none, some}
pub use mathlib.Core.List.{List, [], ◌∷◌, ◌++◌, map}
pub use native.Mathlib.Omega.{arith}
pub use text.Mathlib.Text.{◌==◌ as str_eq}
pub use text.Mathlib.TextEquality.{eq_iff as str_eq_iff}
