-- ===== src/Ring/Holds.antt =====
-- When a replay buffer holds a sequence of bytes.
use termyard.Base.{
  ℕ, ◌+◌, ◌-◌, ◌≤◌, ◌<◌, ◌≡◌, arith, List, ◌++◌, length, take, drop, length-append, length-take,
  take-append-drop, sym,
}
use termyard.Ring.{RingBuffer}
use termyard.Ring.Slices.{drop-append, last_bytes}
use termyard.Ring.Write.{partial_ring, full_ring}

-- The buffer of `n` bytes holds these bytes, oldest first.
pub data Holds (n : ℕ) (r : RingBuffer) (c : List ℕ) : Type 0 where
  partial :
      (free : List ℕ)
      → 0 < length free
      → n ≡ length c + length free
      → r ≡ partial_ring c free
      → Holds n r c
  full :
      (a b : List ℕ)
      → 0 < length b
      → n ≡ length a + length b
      → r ≡ full_ring a b
      → c ≡ b ++ a
      → Holds n r c

-- A list in two parts.
pub cut_at :
    (k : ℕ) (xs : List ℕ)
    → k ≤ length xs
    → (ys : List ℕ) × (zs : List ℕ) × (xs ≡ ys ++ zs) × (length ys ≡ k)
cut_at k xs h = (take k xs, drop k xs, sym (take-append-drop k xs), omega (arith, length-take k xs))

-- The last bytes of a list that ends in that many.
pub last_bytes_of : (n : ℕ) (p s l : List ℕ) → l ≡ p ++ s → n ≡ length s → last_bytes n l ≡ s
last_bytes_of n p s l q e =
    let k : length (p ++ s) - n ≡ length p = omega (arith, length-append p s) in
    rw (q, k, drop-append p s)

pub last_bytes_all : (s : List ℕ) (n : ℕ) → length s ≤ n → last_bytes n s ≡ s
last_bytes_all s n h = let k : length s - n ≡ 0 = omega arith in rw k
