-- ===== src/Base/Map.antt =====
-- A Go map whose keys are not strings: an association list over keys with decided equality.
use mathlib.Core.Path.{◌≡◌, refl, sym, subst}
use mathlib.Core.Logic.{ite}
use mathlib.Core.List.{List, [], ◌∷◌}
use mathlib.Core.Option.{Option, none, some}
use mathlib.Core.Bool.{Bool, true, false}
use native.Mathlib.Omega.{arith}
use termyard.Base.Tests.{if◌then◌else◌}

module _ {K V : Type 0} (dec : Discrete K) where
  abbrev pub get : K → List (K × V) → Option V
  get k [] = none
  get k ((j, v) ∷ m) = ite (dec k j) (some v) (get k m)

  abbrev pub put : K → V → List (K × V) → List (K × V)
  put k v [] = (k, v) ∷ []
  put k v ((j, w) ∷ m) = ite (dec k j) ((j, v) ∷ m) ((j, w) ∷ put k v m)

  abbrev pub delete : K → List (K × V) → List (K × V)
  delete k [] = []
  delete k ((j, w) ∷ m) = ite (dec k j) (delete k m) ((j, w) ∷ delete k m)

  pub get-put :
      (q k : K) (v : V) (m : List (K × V)) → get q (put k v m) ≡ ite (dec q k) (some v) (get q m)
  get-put q k v [] = refl
  get-put q k v ((j, w) ∷ m) = ground (arith, get-put q k v m)

  pub get-delete : (q k : K) (m : List (K × V)) → get q (delete k m) ≡ ite (dec q k) none (get q m)
  get-delete q k [] = ground arith
  get-delete q k ((j, w) ∷ m) = ground (arith, get-delete q k m)

-- The entries that a loop with `delete` keeps.
module _ {K V : Type 0} where
  abbrev pub keep : (V → Bool) → List (K × V) → List (K × V)
  keep p [] = []
  keep p ((k, v) ∷ m) = let rest = keep p m in if p v then (k, v) ∷ rest else rest

  abbrev pub Entries : (K → V → Type 0) → List (K × V) → Type 0
  Entries P [] = Unit
  Entries P ((k, v) ∷ m) = P k v × Entries P m

  pub Entries-keep :
      (P : K → V → Type 0) (p : V → Bool) (m : List (K × V)) → Entries P m → Entries P (keep p m)
  Entries-keep P p [] h = tt
  Entries-keep P p ((k, v) ∷ m) (h, hs) =
      elim (p v) as (λ b. Entries P (if b then (k, v) ∷ keep p m else keep p m)) [
        | true ↦ (h, Entries-keep P p m hs)
        | false ↦ Entries-keep P p m hs
      ]

module _ {K V : Type 0} (dec : Discrete K) (P : K → V → Type 0) where
  pub Entries-put :
      (k : K) (v : V) (m : List (K × V)) → P k v → Entries P m → Entries P (put dec k v m)
  Entries-put k v [] p h = (p, tt)
  Entries-put k v ((j, w) ∷ m) p (h, hs) =
      elim (dec k j) as (λ d. Entries P (ite d ((j, v) ∷ m) ((j, w) ∷ put dec k v m))) [
        | yes e ↦ (subst (λ j. P j v) e p, hs)
        | no n ↦ (h, Entries-put k v m p hs)
      ]

  pub Entries-delete : (k : K) (m : List (K × V)) → Entries P m → Entries P (delete dec k m)
  Entries-delete k [] h = tt
  Entries-delete k ((j, w) ∷ m) (h, hs) =
      elim (dec k j) as (λ d. Entries P (ite d (delete dec k m) ((j, w) ∷ delete dec k m))) [
        | yes e ↦ Entries-delete k m hs
        | no n ↦ (h, Entries-delete k m hs)
      ]

  pub Entries-get : (k : K) (v : V) (m : List (K × V)) → Entries P m → get dec k m ≡ some v → P k v
  Entries-get k v [] h q = absurd (cc q)
  Entries-get k v ((j, w) ∷ m) (h, hs) q =
      elim (dec k j) as (λ d. ite d (some w) (get dec k m) ≡ some v → P k v) [
        | yes e ↦ λ q. let r : w ≡ v = cc q in subst (λ k. P k v) (sym e) (subst (P j) r h)
        | no n ↦ λ q. Entries-get k v m hs q
      ]
        q

module _ {K V : Type 0} (dec : Discrete K) where
  pub get-keep-none :
      (p : V → Bool) (k : K) (m : List (K × V)) → get dec k m ≡ none → get dec k (keep p m) ≡ none
  get-keep-none p k [] e = refl
  get-keep-none p k ((j, w) ∷ m) e = ground (arith, get-keep-none p k m)

  pub get-put_self : (k : K) (v : V) (m : List (K × V)) → get dec k (put dec k v m) ≡ some v
  get-put_self k v m = rw (get-put dec k k v m) (ground arith)

  pub get-put_ne :
      (q k : K) (v : V) (m : List (K × V)) → ¬ (q ≡ k) → get dec q (put dec k v m) ≡ get dec q m
  get-put_ne q k v m n = rw (get-put dec q k v m) (ground (arith, n))

  pub get-delete_self : (k : K) (m : List (K × V)) → get dec k (delete dec k m) ≡ none
  get-delete_self k m = rw (get-delete dec k k m) (ground arith)

  pub get-delete_ne :
      (q k : K) (m : List (K × V)) → ¬ (q ≡ k) → get dec q (delete dec k m) ≡ get dec q m
  get-delete_ne q k m n = rw (get-delete dec q k m) (ground (arith, n))

  pub get-delete-none :
      (q k : K) (m : List (K × V)) → get dec q m ≡ none → get dec q (delete dec k m) ≡ none
  get-delete-none q k m e = rw (get-delete dec q k m) (ground (arith, e))

module _ {K V : Type 0} (P Q : K → V → Type 0) where
  pub Entries-map :
      (m : List (K × V)) → ((k : K) (v : V) → P k v → Q k v) → Entries P m → Entries Q m
  Entries-map [] f h = tt
  Entries-map ((k, v) ∷ m) f (h, hs) = (f k v h, Entries-map m f hs)

  -- What a deletion leaves has other keys.
  pub Entries-delete_ne :
      (dec : Discrete K) (q : K) (m : List (K × V))
      → ((k : K) (v : V) → ¬ (k ≡ q) → P k v → Q k v)
      → Entries P m
      → Entries Q (delete dec q m)
  Entries-delete_ne dec q [] f h = tt
  Entries-delete_ne dec q ((j, w) ∷ m) f (h, hs) =
      elim (dec q j) as (λ d. Entries Q (ite d (delete dec q m) ((j, w) ∷ delete dec q m))) [
        | yes e ↦ Entries-delete_ne dec q m f hs
        | no n ↦ (f j w (λ e. n (sym e)) h, Entries-delete_ne dec q m f hs)
      ]

  -- A write: what is under other keys, and what is written.
  pub Entries-put_ne :
      (dec : Discrete K) (q : K) (v : V) (m : List (K × V))
      → ((k : K) (w : V) → P k w → Q k w)
      → Q q v
      → Entries P m
      → Entries Q (put dec q v m)
  Entries-put_ne dec q v m f p h = Entries-put dec Q q v m p (Entries-map m f h)
