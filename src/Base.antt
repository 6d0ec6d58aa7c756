-- ===== src/Base.antt =====
-- The names that every module shares: those of the libraries, passed on, and the tests, lists,
-- texts and results of the modules below. It models no file of the repository by itself.
mod Tests
mod Lists
mod Fallible
mod Int
pub mod Text
pub mod Path
pub mod Sort
pub mod Assoc
pub mod Interleaving
pub use Tests.*
pub use Lists.*
unfoldable pub use Lists.{filter}
pub use Fallible.*
pub use Int.{ℤ, pos, negsuc, pos_part, neg_part}
unfoldable pub use Int.{scale}
pub use Prim.Native.Nat.{ℕ, zero, suc, ◌+◌, ◌-◌, ◌*◌, ◌^◌, ◌≤◌, ◌<◌}
pub use Prim.Native.String.{String}
pub use Prim.Native.Char.{Char, code}
pub use mathlib.Core.Path.{◌≡◌, refl, sym, ap, ◌∙◌, subst, ◌≡⟨◌⟩◌, ◌∎}
pub use mathlib.Core.Logic.{◌≢◌, ◌↔◌, ◌⊎◌, inl, inr}
pub use mathlib.Core.Bool.{Bool, true, false, ◌&&◌, ◌||◌, not}
pub use mathlib.Core.Option.{Option, none, some}
pub use mathlib.Core.List.{List, [], ◌∷◌, ◌++◌, map, append_assoc, append-nil}
pub use native.Mathlib.Omega.{arith}
pub use text.Mathlib.Text.{◌==◌}
pub use text.Mathlib.TextEquality.{eq_iff}
pub use text.Mathlib.TextPositions.{eq_refl}
