-- ===== src/Ring/History.antt =====
-- Any list of writes to a new buffer, and what the two snapshots then return.

use termyard.Base.{
  ℕ, ◌+◌, ◌-◌, ◌≤◌, ◌<◌, ◌≡◌, refl, ap, arith, List, [], ◌∷◌, ◌++◌, length, take, drop,
  length-append, append-nil, append_assoc, length-drop, take-append-drop, sym, ◌∙◌, ltb, true,
  false, dec_lt, subst,
}
use termyard.Ring.{RingBuffer, make, new_ring_buffer, write, trim, snapshot, snapshot_tail}
use termyard.Ring.Slices.{last_bytes, length-make, drop-append_le, drop-drop}
use termyard.Ring.Holds.{Holds, partial, full, last_bytes_all, last_bytes_of}
use termyard.Ring.Append.{fill_overwrite, write_full, write_partial}
use termyard.Ring.Read.{eq_false, snapshot-Holds}
use termyard.Ring.Tail.{snapshot_tail-Holds}

trim_short : (n : ℕ) (d : List ℕ) → length d ≤ n → trim n d ≡ d
trim_short n d h = let e : ltb n (length d) ≡ false = ground arith in rw e

trim_long : (n : ℕ) (d : List ℕ) → n < length d → trim n d ≡ last_bytes n d
trim_long n d h = let e : ltb n (length d) ≡ true = ground arith in rw e

length-last_bytes : (n : ℕ) (d : List ℕ) → n ≤ length d → length (last_bytes n d) ≡ n
length-last_bytes n d h = omega (arith, length-drop (length d - n) d)

length-trim : (n : ℕ) (d : List ℕ) → length (trim n d) ≤ n
length-trim n d = elim (dec_lt n (length d)) [
  | yes h ↦ omega (arith, ap length (trim_long n d h), length-last_bytes n d (omega arith))
  | no h ↦ omega (arith, ap length (trim_short n d (omega arith)))
]

trim_positive : (n : ℕ) (d : List ℕ) → 0 < n → 0 < length d → 0 < length (trim n d)
trim_positive n d k l = elim (dec_lt n (length d)) [
  | yes h ↦ omega (arith, ap length (trim_long n d h), length-last_bytes n d (omega arith))
  | no h ↦ omega (arith, ap length (trim_short n d (omega arith)))
]

-- The last bytes of a list whose end is long enough.
last_bytes-append_long :
    (n : ℕ) (c d : List ℕ) → n ≤ length d → last_bytes n (c ++ d) ≡ last_bytes n d
last_bytes-append_long n c d h =
    let k = length d - n in
    last_bytes_of n (c ++ take k d) (last_bytes n d) (c ++ d)
      (rw (append_assoc c (take k d) (drop k d), take-append-drop k d))
      (sym (length-last_bytes n d h))

last_bytes-trim : (n : ℕ) (c d : List ℕ) → last_bytes n (c ++ trim n d) ≡ last_bytes n (c ++ d)
last_bytes-trim n c d = elim (dec_lt n (length d)) [
  | yes h ↦
      let l = length-last_bytes n d (omega arith) in
      ap (λ t. last_bytes n (c ++ t)) (trim_long n d h)
      ∙ last_bytes-append_long n c (last_bytes n d) (omega (arith, l))
      ∙ last_bytes_all (last_bytes n d) n (omega (arith, l))
      ∙ sym (last_bytes-append_long n c d (omega arith))
  | no h ↦ ap (λ t. last_bytes n (c ++ t)) (trim_short n d (omega arith))
]

-- Dropping the oldest bytes first changes nothing.
last_bytes_append :
    (n : ℕ) (c d : List ℕ) → last_bytes n (last_bytes n c ++ d) ≡ last_bytes n (c ++ d)
last_bytes_append n c d =
    let k = length c - n in
    let e : drop k c ++ d ≡ drop k (c ++ d) = sym (drop-append_le k c d (omega arith)) in
    let j : k + (length (drop k (c ++ d)) - n) ≡ length (c ++ d) - n =
      omega (arith, length-append c d, length-drop k (c ++ d)) in
    rw (e, drop-drop (length (drop k (c ++ d)) - n) k (c ++ d), j)

length-buf : (n : ℕ) (r : RingBuffer) (c : List ℕ) → Holds n r c → length r.buf ≡ n
length-buf n r c (partial free h m e) = rw e (omega (arith, length-append c free))
length-buf n r c (full a b h m e q) = rw e (omega (arith, length-append a b))

positive : (n : ℕ) (r : RingBuffer) (c : List ℕ) → Holds n r c → 0 < n
positive n r c (partial free h m e) = omega arith
positive n r c (full a b h m e q) = omega arith

fits : (n : ℕ) (r : RingBuffer) (c : List ℕ) → Holds n r c → length c ≤ n
fits n r c (partial free h m e) = omega arith
fits n r c (full a b h m e q) = omega (arith, ap length q, length-append b a)

write_kept :
    (n : ℕ) (r : RingBuffer) (c d : List ℕ)
    → Holds n r c
    → 0 < length d
    → length d ≤ n
    → Holds n (fill_overwrite n r d) (last_bytes n (c ++ d))
write_kept n r c d (partial free h m e) k l = rw e (write_partial n c free d k h m l)
write_kept n r c d (full a b h m e q) k l = rw (e, q) (write_full n a b d h k m l)

write_lem :
    (n : ℕ) (r : RingBuffer) (d : List ℕ)
    → length r.buf ≡ n
    → 0 < n
    → 0 < length d
    → write r d ≡ fill_overwrite n r (trim n d)
unfolding write fill_overwrite
write_lem n r d e h k =
    rw (eq_false (length d) 0 (λ z. omega arith), e, eq_false n 0 (λ z. omega arith))

-- A write leaves the last `n` bytes of what the buffer held followed by what was written, `n` the
-- capacity.
pub write-Holds :
    (n : ℕ) (r : RingBuffer) (c d : List ℕ)
    → Holds n r c
    → Holds n (write r d) (last_bytes n (c ++ d))
unfolding write
write-Holds n r c [] h =
    subst (Holds n r) (sym (ap (last_bytes n) (append-nil c) ∙ last_bytes_all c n (fits n r c h))) h
write-Holds n r c (x ∷ d) h =
    let src = x ∷ d in
    let p = positive n r c h in
    let l : 0 < length src = omega arith in
    rw (write_lem n r src (length-buf n r c h) p l, ← last_bytes-trim n c src)
      (write_kept n r c (trim n src) h (trim_positive n src p l) (length-trim n src))

-- The writes of a list, and all that was written.
unfoldable pub run : RingBuffer → List (List ℕ) → RingBuffer
run r [] = r
run r (d ∷ writes) = run (write r d) writes

unfoldable pub written : List ℕ → List (List ℕ) → List ℕ
written c [] = c
written c (d ∷ writes) = written (c ++ d) writes

run-Holds :
    (n : ℕ) (r : RingBuffer) (c : List ℕ) (writes : List (List ℕ))
    → Holds n r (last_bytes n c)
    → Holds n (run r writes) (last_bytes n (written c writes))
unfolding run written
run-Holds n r c [] h = h
run-Holds n r c (d ∷ writes) h =
    run-Holds n (write r d) (c ++ d) writes
      (subst (Holds n (write r d)) (last_bytes_append n c d) (write-Holds n r (last_bytes n c) d h))

new_ring_buffer-Holds : (n : ℕ) → 0 < n → Holds n (new_ring_buffer n) (last_bytes n [])
unfolding new_ring_buffer
new_ring_buffer-Holds n h =
    subst (Holds n (new_ring_buffer n)) (sym (last_bytes_all [] n (omega arith)))
      (partial (make n) (omega (arith, length-make n)) (omega (arith, length-make n)) refl)

-- After any writes to a new buffer of positive capacity `n`, `Snapshot` returns the last `n` bytes
-- of all that was written, or all of it when it is shorter.
pub run-snapshot :
    (n : ℕ) (writes : List (List ℕ))
    → 0 < n
    → snapshot (run (new_ring_buffer n) writes) ≡ last_bytes n (written [] writes)
run-snapshot n writes h =
    snapshot-Holds n _ _ (run-Holds n (new_ring_buffer n) [] writes (new_ring_buffer-Holds n h))

-- After any writes to a new buffer of positive capacity `n`, `SnapshotTail` with `k` returns the last
-- `k` of the bytes that `Snapshot` returns, or all of them when there are fewer.
pub run-snapshot_tail :
    (n k : ℕ) (writes : List (List ℕ))
    → 0 < n
    → snapshot_tail (run (new_ring_buffer n) writes) k
      ≡ last_bytes k (snapshot (run (new_ring_buffer n) writes))
run-snapshot_tail n k writes h =
    let held = run-Holds n (new_ring_buffer n) [] writes (new_ring_buffer-Holds n h) in
    snapshot_tail-Holds n _ _ k held ∙ ap (last_bytes k) (sym (snapshot-Holds n _ _ held))
