-- ===== src/Base/Assoc.antt =====
-- A Go map as an association list. Its order is the order in which one `range` visits the keys.
use mathlib.Core.Path.{◌≡◌, refl}
use mathlib.Core.Logic.{ite}
use mathlib.Core.List.{List, [], ◌∷◌}
use mathlib.Core.Option.{Option, none, some}
use native.Mathlib.Omega.{arith}
use termyard.Base.Text.{Str, str_dec}

module _ {ℓ} {V : Type ℓ} where
  -- `m[k]` with the second result of the index expression.
  abbrev pub get : Str → List (Str × V) → Option V
  get k [] = none
  get k ((j, v) ∷ m) = ite (str_dec k j) (some v) (get k m)

  -- `m[k] = v`
  abbrev pub put : Str → V → List (Str × V) → List (Str × V)
  put k v [] = (k, v) ∷ []
  put k v ((j, w) ∷ m) = ite (str_dec k j) ((j, v) ∷ m) ((j, w) ∷ put k v m)

  -- `delete(m, k)`
  abbrev pub delete : Str → List (Str × V) → List (Str × V)
  delete k [] = []
  delete k ((j, w) ∷ m) = ite (str_dec k j) (delete k m) ((j, w) ∷ delete k m)

  pub get-put :
      (q k : Str) (v : V) (m : List (Str × V))
      → get q (put k v m) ≡ ite (str_dec q k) (some v) (get q m)
  get-put q k v [] = refl
  get-put q k v ((j, w) ∷ m) = ground (arith, get-put q k v m)

  pub get-delete :
      (q k : Str) (m : List (Str × V)) → get q (delete k m) ≡ ite (str_dec q k) none (get q m)
  get-delete q k [] = ground arith
  get-delete q k ((j, w) ∷ m) = ground (arith, get-delete q k m)
