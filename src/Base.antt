-- ===== src/Base.antt =====
-- What the modules share: the libraries' names, Boolean tests, lists, and Go's strings and maps.
mod Tests
mod Lists
mod Text
mod Assoc
pub mod Map
pub use Tests.*
pub use Lists.*
unfoldable pub use Lists.{mem_dec}
unfoldable pub use Text.{str_dec, str_ltb}
pub use Text.{Str, codes, str_ltb_irrefl, str_ltb_trans, str_ltb_total}
pub use Assoc.*
pub use Prim.Native.Nat.{ℕ, zero, suc, ◌+◌, ◌-◌, ◌*◌, ◌/◌, ◌%◌, ◌^◌, ◌≤◌, ◌<◌, min, max}
pub use mathlib.Core.Path.{◌≡◌, refl, sym, ap, ◌∙◌, subst}
pub use mathlib.Core.Logic.{◌≢◌, ◌↔◌, ◌⊎◌, inl, inr, ite, if_pos, if_neg}
pub use mathlib.Core.Bool.{Bool, true, false, not, ◌&&◌, ◌||◌}
pub use mathlib.Core.Option.{Option, none, some}
pub use mathlib.Core.List.{List, [], ◌∷◌, ◌++◌, map, append-nil, append_assoc}
pub use native.Mathlib.Omega.{arith}
unfoldable pub use native.Mathlib.Decide.{dec_lt, dec_le, ℕ_discrete}
