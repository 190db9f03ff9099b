-- ===== src/Ring/Tail.antt =====
-- `SnapshotTail` returns the last bytes of what the buffer holds.
use native.Mathlib.Nat.{mod-eq_of_lt, add-mod_right}
use termyard.Base.{
  ℕ, ◌+◌, ◌-◌, ◌≤◌, ◌<◌, ◌%◌, ◌≡◌, inl, inr, zero, suc, refl, ap, arith, List, [], ◌∷◌, ◌++◌,
  length, take, drop, length-append, append-nil, append_assoc, length-take, length-drop,
  take-append-drop, sym, ◌∙◌, leb, ◌==◌, if◌then◌else◌, Bool-cases, dec_lt,
}
use termyard.Ring.{RingBuffer, copy_at, make, snapshot, snapshot_tail}
use termyard.Ring.Slices.{
  take-append, drop-append, drop-length, last_bytes, copy_at-make, copy_at-make_twice,
}
use termyard.Ring.Write.{partial_ring, full_ring, leb-true, leb-false}
use termyard.Ring.Holds.{Holds, partial, full, last_bytes_all, last_bytes_of}
use termyard.Ring.Read.{eq_false, snapshot_partial, snapshot_full}

-- The part of `SnapshotTail` that is left when fewer bytes are asked for than the buffer holds.
abbrev inner_tail : RingBuffer → ℕ → ℕ → List ℕ
inner_tail r k start =
    let first = length r.buf - start in
    if leb k first
    then copy_at (make k) 0 (drop start (take (start + k) r.buf))
    else copy_at (copy_at (make k) 0 (drop start r.buf)) first (take (k - first) r.buf)

start_of : RingBuffer → ℕ → ℕ
start_of r k = (r.tail + (r.size - k)) % length r.buf

-- All of the buffer is returned when it holds no more than what is asked for.
tail_all : (r : RingBuffer) (k : ℕ) → 0 < k → r.size ≤ k → snapshot_tail r k ≡ snapshot r
unfolding snapshot_tail snapshot
tail_all r k h m = rw (eq_false k 0 (λ e. omega arith), leb-true r.size k m)

tail_inner :
    (r : RingBuffer) (k : ℕ)
    → 0 < k
    → k < r.size
    → snapshot_tail r k ≡ inner_tail r k (start_of r k)
unfolding snapshot_tail start_of
tail_inner r k h m =
    rw (eq_false r.size 0 (λ e. omega arith), eq_false k 0 (λ e. omega arith), leb-false r.size k m)

tail_none : (r : RingBuffer) → snapshot_tail r 0 ≡ []
unfolding snapshot_tail
tail_none r = elim (Bool-cases (r.size == 0)) [ inl e ↦ rw e refl | inr e ↦ rw e refl ]

last_none : (c : List ℕ) → last_bytes 0 c ≡ []
last_none c = let k : length c - 0 ≡ length c = omega arith in rw (k, drop-length c)

last_all : (c : List ℕ) (k : ℕ) → length c ≤ k → last_bytes k c ≡ c
last_all c k h = last_bytes_all c k h

-- One piece of the buffer, and two.
inner_one :
    (r : RingBuffer) (k start : ℕ) (p c s : List ℕ)
    → r.buf ≡ (p ++ c) ++ s
    → length p ≡ start
    → length c ≡ k
    → inner_tail r k start ≡ c
inner_one r k start p c s e f g =
    let h : length r.buf ≡ length p + length c + length s =
      omega (arith, ap length e, length-append (p ++ c) s, length-append p c) in
    rw (leb-true k (length r.buf - start) (omega arith)) (
      let q : start + k ≡ length (p ++ c) = omega (arith, length-append p c) in
      rw (e, q, take-append (p ++ c) s, ← f, drop-append p c) (copy_at-make k c (sym g)))

inner_two :
    (r : RingBuffer) (k start : ℕ) (x m y : List ℕ)
    → r.buf ≡ (x ++ m) ++ y
    → length x + length m ≡ start
    → length y + length x ≡ k
    → 0 < length x
    → inner_tail r k start ≡ y ++ x
inner_two r k start x m y e f g h =
    let n : length r.buf - start ≡ length y =
      omega (arith, ap length e, length-append (x ++ m) y, length-append x m) in
    let q : start ≡ length (x ++ m) = omega (arith, length-append x m) in
    let z : k - length y ≡ length x = omega arith in
    let t : take (length x) ((x ++ m) ++ y) ≡ x =
      rw (append_assoc x m y) (take-append x (m ++ y)) in
    rw (n, leb-false k (length y) (omega arith), z, e, q, drop-append (x ++ m) y, t)
      (copy_at-make_twice k (length y) y x refl (sym g))

start_partial :
    (c free : List ℕ) (k : ℕ)
    → 0 < k
    → k < length c
    → start_of (partial_ring c free) k ≡ length c - k
unfolding start_of
start_partial c free k h m =
    let e : 0 + (length c - k) ≡ length c - k = omega arith in
    rw e (mod-eq_of_lt (omega (arith, length-append c free)))

tail_partial :
    (c free : List ℕ) (k : ℕ)
    → 0 < k
    → k < length c
    → snapshot_tail (partial_ring c free) k ≡ last_bytes k c
tail_partial c free k h m =
    let d = length c - k in
    tail_inner (partial_ring c free) k h m
    ∙ inner_one (partial_ring c free) k (start_of (partial_ring c free) k) (take d c) (drop d c)
        free (rw (take-append-drop d c))
        (omega (arith, length-take d c, start_partial c free k h m))
        (omega (arith, length-drop d c))

start_low :
    (a b : List ℕ) (k : ℕ) → k ≤ length a → 0 < length b → start_of (full_ring a b) k ≡ length a - k
unfolding start_of
start_low a b k m h =
    let n : length (a ++ b) ≡ length a + length b = length-append a b in
    let e : length a + (length a + length b - k) ≡ (length a - k) + length (a ++ b) = omega arith in
    rw e (add-mod_right (length a - k) (length (a ++ b)) ∙ mod-eq_of_lt (omega arith))

start_high :
    (a b : List ℕ) (k : ℕ)
    → length a < k
    → k < length a + length b
    → start_of (full_ring a b) k ≡ length a + (length a + length b - k)
unfolding start_of
start_high a b k m h = mod-eq_of_lt (omega (arith, length-append a b))

tail_low :
    (a b : List ℕ) (k : ℕ)
    → 0 < k
    → k ≤ length a
    → 0 < length b
    → snapshot_tail (full_ring a b) k ≡ last_bytes k (b ++ a)
tail_low a b k g m h =
    let d = length a - k in
    tail_inner (full_ring a b) k g (omega arith)
    ∙ inner_one (full_ring a b) k (start_of (full_ring a b) k) (take d a) (drop d a) b
        (rw (take-append-drop d a)) (omega (arith, length-take d a, start_low a b k m h))
        (omega (arith, length-drop d a))
    ∙ sym (
        last_bytes_of k (b ++ take d a) (drop d a) (b ++ a)
          (rw (append_assoc b (take d a) (drop d a), take-append-drop d a))
          (omega (arith, length-drop d a)))

-- The bytes asked for reach back into the older part.
tail_high :
    (a b : List ℕ) (k : ℕ)
    → length a < k
    → k < length a + length b
    → snapshot_tail (full_ring a b) k ≡ last_bytes k (b ++ a)
tail_high [] b k m h =
    let d = length b - k in
    let w : start_of (full_ring [] b) k ≡ 0 + (0 + length b - k) = start_high [] b k m h in
    tail_inner (full_ring [] b) k m h
    ∙ inner_one (full_ring [] b) k (start_of (full_ring [] b) k) (take d b) (drop d b) []
        (rw (take-append-drop d b, append-nil b)) (omega (arith, length-take d b))
        (omega (arith, length-drop d b))
    ∙ sym (
        last_bytes_of k (take d b) (drop d b) (b ++ []) (rw (take-append-drop d b, append-nil b))
          (omega (arith, length-drop d b)))
tail_high (z ∷ r) b k m h =
    let a = z ∷ r in
    let d = length a + length b - k in
    let w : start_of (full_ring a b) k ≡ length a + d = start_high a b k m h in
    tail_inner (full_ring a b) k (omega arith) h
    ∙ inner_two (full_ring a b) k (start_of (full_ring a b) k) a (take d b) (drop d b)
        (rw (append_assoc a (take d b) (drop d b), take-append-drop d b))
        (omega (arith, length-take d b)) (omega (arith, length-drop d b)) (omega arith)
    ∙ sym (
        last_bytes_of k (take d b) (drop d b ++ a) (b ++ a)
          (rw (← append_assoc (take d b) (drop d b) a, take-append-drop d b))
          (omega (arith, length-drop d b, length-append (drop d b) a)))

tail_some :
    (n : ℕ) (r : RingBuffer) (c : List ℕ) (k : ℕ)
    → Holds n r c
    → 0 < k
    → snapshot_tail r k ≡ last_bytes k c
tail_some n r c k (partial free h m e) g =
    ap (λ r. snapshot_tail r k) e ∙ elim (dec_lt k (length c)) [
      | yes t ↦ tail_partial c free k g t
      | no t ↦
          tail_all (partial_ring c free) k g (omega arith)
          ∙ snapshot_partial c free h
          ∙ sym (last_all c k (omega arith))
    ]
tail_some n r c k (full a b h m e q) g =
    ap (λ r. snapshot_tail r k) e
    ∙ elim (dec_lt k (length a + length b)) [
      | yes t ↦ elim (dec_lt (length a) k) [
        | yes u ↦ tail_high a b k u t
        | no u ↦ tail_low a b k g (omega arith) h
      ]
      | no t ↦
          tail_all (full_ring a b) k g (omega arith)
          ∙ snapshot_full a b h
          ∙ sym (last_all (b ++ a) k (omega (arith, length-append b a)))
    ]
    ∙ rw q

-- `SnapshotTail` returns the last `k` of the bytes that the buffer holds, or all of them when it
-- holds fewer.
pub snapshot_tail-Holds :
    (n : ℕ) (r : RingBuffer) (c : List ℕ) (k : ℕ) → Holds n r c → snapshot_tail r k ≡ last_bytes k c
snapshot_tail-Holds n r c zero h = tail_none r ∙ sym (last_none c)
snapshot_tail-Holds n r c (suc k) h = tail_some n r c (suc k) h (omega arith)
