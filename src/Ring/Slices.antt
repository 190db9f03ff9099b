-- ===== src/Ring/Slices.antt =====
-- Slices of a list given by its parts, and copies into them.
use Prim.Native.Nat.add
use termyard.Base.{
  ℕ, ◌+◌, ◌-◌, ◌≤◌, ◌≡◌, zero, suc, refl, ap, arith, List, [], ◌∷◌, ◌++◌, length, take, drop,
}
use termyard.Ring.{copy_at, make}

module _ {A : Type 0} where
  pub take-append : (xs ys : List A) → take (length xs) (xs ++ ys) ≡ xs
  take-append [] ys = refl
  take-append (x ∷ xs) ys = rw (take-append xs ys)

  pub drop-append : (xs ys : List A) → drop (length xs) (xs ++ ys) ≡ ys
  drop-append [] ys = refl
  drop-append (x ∷ xs) ys = drop-append xs ys

  pub take-length : (xs : List A) → take (length xs) xs ≡ xs
  take-length [] = refl
  take-length (x ∷ xs) = rw (take-length xs)

  pub drop-length : (xs : List A) → drop (length xs) xs ≡ []
  drop-length [] = refl
  drop-length (x ∷ xs) = drop-length xs

  pub nil_of_length : (xs : List A) → length xs ≡ 0 → xs ≡ []
  nil_of_length [] e = refl
  nil_of_length (x ∷ xs) e = absurd (omega arith)

  pub drop-append_le :
      (k : ℕ) (xs ys : List A) → k ≤ length xs → drop k (xs ++ ys) ≡ drop k xs ++ ys
  drop-append_le zero xs ys h = refl
  drop-append_le (suc k) [] ys h = absurd (omega arith)
  drop-append_le (suc k) (x ∷ xs) ys h = drop-append_le k xs ys (omega arith)

  pub drop-append_add : (k : ℕ) (xs ys : List A) → drop (length xs + k) (xs ++ ys) ≡ drop k ys
  drop-append_add k [] ys = rw add.zero
  drop-append_add k (x ∷ xs) ys = rw add.suc (drop-append_add k xs ys)

  pub drop-nil : (k : ℕ) → drop {A = A} k [] ≡ []
  drop-nil zero = refl
  drop-nil (suc k) = refl

  pub drop-drop : (j k : ℕ) (xs : List A) → drop j (drop k xs) ≡ drop (k + j) xs
  drop-drop j zero xs = rw add.zero
  drop-drop j (suc k) [] = rw add.suc (drop-nil j)
  drop-drop j (suc k) (x ∷ xs) = rw add.suc (drop-drop j k xs)

  -- The last `n` elements.
  abbrev pub last_bytes : ℕ → List A → List A
  last_bytes n xs = drop (length xs - n) xs

-- A copy that fits replaces exactly the part that it covers.
pub copy_at-append :
    (a b c src : List ℕ)
    → length b ≡ length src
    → copy_at (a ++ b ++ c) (length a) src ≡ a ++ src ++ c
unfolding copy_at
copy_at-append [] [] [] [] e = refl
copy_at-append [] [] (x ∷ c) [] e = refl
copy_at-append [] [] c (y ∷ src) e = absurd (omega arith)
copy_at-append [] (x ∷ b) c [] e = absurd (omega arith)
copy_at-append [] (x ∷ b) c (y ∷ src) e = ap (◌∷◌ y) (copy_at-append [] b c src (omega arith))
copy_at-append (x ∷ a) b c src e = ap (◌∷◌ x) (copy_at-append a b c src e)

pub length-make : (n : ℕ) → length (make n) ≡ n
unfolding make
length-make zero = refl
length-make (suc n) = ap suc (length-make n)

pub length-copy_at : (buf : List ℕ) (i : ℕ) (src : List ℕ) → length (copy_at buf i src) ≡ length buf
unfolding copy_at
length-copy_at [] i src = refl
length-copy_at (b ∷ buf) zero [] = refl
length-copy_at (b ∷ buf) zero (x ∷ src) = ap suc (length-copy_at buf zero src)
length-copy_at (b ∷ buf) (suc i) src = ap suc (length-copy_at buf i src)

-- A fresh slice filled by one copy, and by two that meet.
pub copy_at-make : (n : ℕ) (src : List ℕ) → n ≡ length src → copy_at (make n) 0 src ≡ src
unfolding copy_at make
copy_at-make zero [] e = refl
copy_at-make zero (x ∷ src) e = absurd (omega arith)
copy_at-make (suc n) [] e = absurd (omega arith)
copy_at-make (suc n) (x ∷ src) e = ap (◌∷◌ x) (copy_at-make n src (omega arith))

copy_at-nil : (buf : List ℕ) → copy_at buf 0 [] ≡ buf
unfolding copy_at
copy_at-nil [] = refl
copy_at-nil (b ∷ buf) = refl

pub copy_at-make_twice :
    (n k : ℕ) (xs ys : List ℕ)
    → k ≡ length xs
    → n ≡ length xs + length ys
    → copy_at (copy_at (make n) 0 xs) k ys ≡ xs ++ ys
unfolding copy_at make
copy_at-make_twice n zero [] ys d e = rw (copy_at-nil (make n)) (copy_at-make n ys (omega arith))
copy_at-make_twice n (suc k) [] ys d e = absurd (omega arith)
copy_at-make_twice n zero (x ∷ xs) ys d e = absurd (omega arith)
copy_at-make_twice zero (suc k) (x ∷ xs) ys d e = absurd (omega arith)
copy_at-make_twice (suc n) (suc k) (x ∷ xs) ys d e =
    ap (◌∷◌ x) (copy_at-make_twice n k xs ys (omega arith) (omega arith))
