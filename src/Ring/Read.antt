-- ===== src/Ring/Read.antt =====
-- `Snapshot` and `SnapshotTail` return what the buffer holds, oldest first.

use termyard.Base.{
  ℕ, ◌+◌, ◌-◌, ◌<◌, ◌≡◌, refl, ap, arith, List, [], ◌∷◌, ◌++◌, length, length-append, sym, ◌∙◌,
  ◌==◌, true, false,
}
use termyard.Ring.{RingBuffer, whole, part, snapshot}
use termyard.Ring.Slices.{take-append, drop-append, copy_at-make, copy_at-make_twice}
use termyard.Ring.Write.{partial_ring, full_ring}
use termyard.Ring.Holds.{Holds, partial, full}

pub eq_true : (a b : ℕ) → a ≡ b → (a == b) ≡ true
eq_true a b e = ground arith

pub eq_false : (a b : ℕ) → (a ≡ b → ⊥) → (a == b) ≡ false
eq_false a b e = ground arith

pub part-partial_ring : (c free : List ℕ) → part (partial_ring c free) ≡ c
part-partial_ring c free =
    let z : 0 + length c ≡ length c = omega arith in
    rw (z, take-append c free, copy_at-make (length c) c refl)

pub whole-full_ring : (a b : List ℕ) → whole (full_ring a b) ≡ b ++ a
whole-full_ring a b =
    rw (drop-append a b, take-append a b)
      (copy_at-make_twice (length (a ++ b)) (length (a ++ b) - length a) b a
        (omega (arith, length-append a b)) (omega (arith, length-append a b)))

pub snapshot_partial : (c free : List ℕ) → 0 < length free → snapshot (partial_ring c free) ≡ c
unfolding snapshot
snapshot_partial [] free h = refl
snapshot_partial (x ∷ c) free h =
    rw
      (
        eq_false (length (x ∷ c)) 0 (λ e. omega arith),
        eq_false (length (x ∷ c)) (length (x ∷ c ++ free))
            (λ e. omega (arith, length-append (x ∷ c) free)),
      )
      (part-partial_ring (x ∷ c) free)

pub snapshot_full : (a b : List ℕ) → 0 < length b → snapshot (full_ring a b) ≡ b ++ a
unfolding snapshot
snapshot_full a b h =
    rw
      (
        eq_false (length a + length b) 0 (λ e. omega arith),
        eq_true (length a + length b) (length (a ++ b)) (sym (length-append a b)),
      )
      (whole-full_ring a b)

-- `Snapshot` returns the bytes that the buffer holds, oldest first.
pub snapshot-Holds : (n : ℕ) (r : RingBuffer) (c : List ℕ) → Holds n r c → snapshot r ≡ c
snapshot-Holds n r c (partial free h m e) = ap snapshot e ∙ snapshot_partial c free h
snapshot-Holds n r c (full a b h m e q) = ap snapshot e ∙ snapshot_full a b h ∙ sym q
