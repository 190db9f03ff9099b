-- ===== src/Base/Text.antt =====
-- Go strings as sequences of bytes, with their equality and their order.
use Prim.Native.Nat.{ℕ}
use Prim.Native.Char.{code}
use Prim.Native.String.{String}
use mathlib.Core.Path.{◌≡◌, refl}
use mathlib.Core.Logic.{◌⊎◌, inl, inr, ◌≢◌}
use mathlib.Core.Bool.{Bool, true, false, ◌&&◌, ◌||◌}
use mathlib.Core.List.{List, [], ◌∷◌}
use native.Mathlib.Omega.{arith}
use native.Mathlib.Decide.{ℕ_discrete}
use termyard.Base.Tests.{ltb, ◌==◌}

abbrev pub Str : Type 0
Str = List ℕ

-- The bytes of an ASCII text.
abbrev pub codes : String → Str
codes String.[] = []
codes (String.◌∷◌ c s) = code c ∷ codes s

cons_dec : (a b : ℕ) (s t : Str) → Dec (a ≡ b) → Dec (s ≡ t) → Dec (a ∷ s ≡ b ∷ t)
cons_dec a b s t (yes p) (yes q) = yes (cc)
cons_dec a b s t (yes p) (no q) = no (λ e. q (cc))
cons_dec a b s t (no p) d = no (λ e. p (cc))

unfoldable pub str_dec : Discrete Str
unfolding cons_dec ℕ_discrete
str_dec [] [] = yes refl
str_dec [] (b ∷ t) = no (λ e. cc)
str_dec (a ∷ s) [] = no (λ e. cc)
str_dec (a ∷ s) (b ∷ t) = cons_dec a b s t (ℕ_discrete a b) (str_dec s t)

-- `a < b` on strings: byte by byte, a proper prefix first.
unfoldable pub str_ltb : Str → Str → Bool
str_ltb [] [] = false
str_ltb [] (b ∷ t) = true
str_ltb (a ∷ s) [] = false
str_ltb (a ∷ s) (b ∷ t) = ltb a b || (a == b && str_ltb s t)

pub str_ltb_irrefl : (s : Str) → str_ltb s s ≡ false
unfolding str_ltb
str_ltb_irrefl [] = refl
str_ltb_irrefl (a ∷ s) = ground (arith, str_ltb_irrefl s)

pub str_ltb_trans : (r s t : Str) → str_ltb r s ≡ true → str_ltb s t ≡ true → str_ltb r t ≡ true
unfolding str_ltb
str_ltb_trans [] [] t h k = cc
str_ltb_trans [] (b ∷ s) [] h k = cc
str_ltb_trans [] (b ∷ s) (c ∷ t) h k = refl
str_ltb_trans (a ∷ r) [] t h k = cc
str_ltb_trans (a ∷ r) (b ∷ s) [] h k = cc
str_ltb_trans (a ∷ r) (b ∷ s) (c ∷ t) h k = ground (arith, str_ltb_trans r s t)

pub str_ltb_total : (s t : Str) → s ≢ t → (str_ltb s t ≡ true) ⊎ (str_ltb t s ≡ true)
unfolding str_ltb
str_ltb_total [] [] h = absurd (h refl)
str_ltb_total [] (b ∷ t) h = inl refl
str_ltb_total (a ∷ s) [] h = inr refl
str_ltb_total (a ∷ s) (b ∷ t) h = elim (str_dec s t) [
  | yes e ↦ ground arith
  | no n ↦ ground (arith, str_ltb_total s t n)
]
