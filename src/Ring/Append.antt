-- ===== src/Ring/Append.antt =====
-- `Write` appends: the buffer then holds the last bytes of what it held and what was written.
use termyard.Base.{
  ℕ, ◌+◌, ◌-◌, ◌≤◌, ◌<◌, ◌≡◌, refl, ap, arith, List, [], ◌++◌, length, take, drop, length-append,
  append-nil, append_assoc, sym, min, dec_lt, subst, ℕ_discrete,
}
use termyard.Ring.{RingBuffer, fill, overwrite}
use termyard.Ring.Slices.{take-append, drop-append, take-length, drop-length, last_bytes}
use termyard.Ring.Write.{
  partial_ring, full_ring, fill_some, fill_all, overwrite_some, overwrite_rest, overwrite_around,
}
use termyard.Ring.Holds.{Holds, partial, full, cut_at, last_bytes_of, last_bytes_all}

overwrite_below :
    (n : ℕ) (a f g src : List ℕ)
    → length f ≡ length src
    → 0 < length src
    → 0 < length g
    → n ≡ length a + length (f ++ g)
    → Holds n (overwrite (full_ring a (f ++ g)) src) (last_bytes n (((f ++ g) ++ a) ++ src))
overwrite_below n a f g src e h k m =
    full (a ++ src) g k (omega (arith, length-append f g, length-append a src))
      (overwrite_some a f g src e h k)
      (last_bytes_of n f (g ++ (a ++ src)) _
        (rw (append_assoc f g a, append_assoc f (g ++ a) src, append_assoc g a src))
        (omega (arith, length-append f g, length-append a src, length-append g (a ++ src))))

overwrite_exact :
    (n : ℕ) (a b src : List ℕ)
    → length b ≡ length src
    → 0 < length src
    → n ≡ length a + length b
    → Holds n (overwrite (full_ring a b) src) (last_bytes n ((b ++ a) ++ src))
overwrite_exact n a b src e h m =
    full [] (a ++ src) (omega (arith, length-append a src)) (omega (arith, length-append a src))
      (overwrite_rest a b src e h)
      (rw (append-nil (a ++ src)) (
        last_bytes_of n b (a ++ src) _ (append_assoc b a src) (omega (arith, length-append a src))))

overwrite_beyond :
    (n : ℕ) (d e b x y : List ℕ)
    → length x ≡ length b
    → length y ≡ length d
    → 0 < length y
    → 0 < length b
    → n ≡ length (d ++ e) + length b
    → Holds n
        (overwrite (full_ring (d ++ e) b) (x ++ y))
        (last_bytes n ((b ++ (d ++ e)) ++ (x ++ y)))
overwrite_beyond n d e b x y p q h k m =
    full y (e ++ x) (omega (arith, length-append e x))
      (omega (arith, length-append e x, length-append d e)) (overwrite_around d e b x y p q h k)
      (last_bytes_of n (b ++ d) ((e ++ x) ++ y) _
        (rw (
          ← append_assoc b d e,
          ← append_assoc (b ++ d) (e ++ x) y,
          ← append_assoc (b ++ d) e x,
          ← append_assoc ((b ++ d) ++ e) x y,
        ))
        (omega (arith, length-append d e, length-append e x, length-append (e ++ x) y)))

overwrite-Holds :
    (n : ℕ) (a b src : List ℕ)
    → 0 < length b
    → 0 < length src
    → n ≡ length a + length b
    → length src ≤ n
    → Holds n (overwrite (full_ring a b) src) (last_bytes n ((b ++ a) ++ src))
overwrite-Holds n a b src h k m l = elim (ℕ_discrete (length src) (length b)) [
  | yes e ↦ overwrite_exact n a b src (sym e) k m
  | no q ↦ elim (dec_lt (length src) (length b)) [
    | yes t ↦
        let (f, g, e, p) = cut_at (length src) b (omega arith) in
        subst (λ b. Holds n (overwrite (full_ring a b) src) (last_bytes n ((b ++ a) ++ src)))
          (sym e)
          (overwrite_below n a f g src p k (omega (arith, length-append f g, ap length e))
            (rw (sym e) m))
    | no t ↦
        let (x, y, e, p) = cut_at (length b) src (omega arith) in
        let u : length src ≡ length x + length y = omega (arith, length-append x y, ap length e) in
        let (d, g, f, r) = cut_at (length y) a (omega arith) in
        subst (λ src. Holds n (overwrite (full_ring a b) src) (last_bytes n ((b ++ a) ++ src)))
          (sym e)
          (subst
            (λ a.
              Holds n (overwrite (full_ring a b) (x ++ y)) (last_bytes n ((b ++ a) ++ (x ++ y))))
            (sym f) (overwrite_beyond n d g b x y p (sym r) (omega arith) h (rw (sym f) m)))
  ]
]

-- The two parts together, on data that is at most as long as the buffer.
unfoldable pub fill_overwrite : (n : ℕ) (r : RingBuffer) (src : List ℕ) → RingBuffer
fill_overwrite n r src =
    let used = min (length src) (n - r.size) in overwrite (fill r (take used src)) (drop used src)

fill_nil : (r : RingBuffer) → fill r [] ≡ r
unfolding fill
fill_nil r = refl

overwrite_nil : (r : RingBuffer) → overwrite r [] ≡ r
unfolding overwrite
overwrite_nil r = refl

pub write_full :
    (n : ℕ) (a b src : List ℕ)
    → 0 < length b
    → 0 < length src
    → n ≡ length a + length b
    → length src ≤ n
    → Holds n (fill_overwrite n (full_ring a b) src) (last_bytes n ((b ++ a) ++ src))
unfolding fill_overwrite
write_full n a b src h k m l =
    let z : min (length src) (n - (length a + length b)) ≡ 0 = omega arith in
    rw (z, fill_nil (full_ring a b)) (overwrite-Holds n a b src h k m l)

partial_below :
    (n : ℕ) (c f g src : List ℕ)
    → length f ≡ length src
    → 0 < length src
    → 0 < length g
    → n ≡ length c + length (f ++ g)
    → Holds n (fill_overwrite n (partial_ring c (f ++ g)) src) (last_bytes n (c ++ src))
unfolding fill_overwrite
partial_below n c f g src e h k m =
    let u : length (f ++ g) ≡ length f + length g = length-append f g in
    let z : min (length src) (n - length c) ≡ length src = omega arith in
    let w : length (c ++ src) ≡ length c + length src = length-append c src in
    rw
      (
        z,
        take-length src,
        drop-length src,
        overwrite_nil,
        last_bytes_all (c ++ src) n (omega arith),
      )
      (partial g k (omega arith) (fill_some c f g src e h k))

partial_exact :
    (n : ℕ) (c free src : List ℕ)
    → length free ≡ length src
    → 0 < length src
    → n ≡ length c + length free
    → Holds n (fill_overwrite n (partial_ring c free) src) (last_bytes n (c ++ src))
unfolding fill_overwrite
partial_exact n c free src e h m =
    let z : min (length src) (n - length c) ≡ length src = omega arith in
    let w : length (c ++ src) ≡ length c + length src = length-append c src in
    rw
      (
        z,
        take-length src,
        drop-length src,
        overwrite_nil,
        last_bytes_all (c ++ src) n (omega arith),
      )
      (full [] (c ++ src) (omega arith) (omega arith) (fill_all c free src e h)
        (sym (append-nil (c ++ src))))

partial_beyond :
    (n : ℕ) (c free x y : List ℕ)
    → length free ≡ length x
    → 0 < length x
    → 0 < length y
    → n ≡ length c + length free
    → length (x ++ y) ≤ n
    → Holds n (fill_overwrite n (partial_ring c free) (x ++ y)) (last_bytes n (c ++ (x ++ y)))
unfolding fill_overwrite
partial_beyond n c free x y e h k m l =
    let u : length (x ++ y) ≡ length x + length y = length-append x y in
    let z : min (length (x ++ y)) (n - length c) ≡ length x = omega arith in
    let w : length (c ++ x) ≡ length c + length x = length-append c x in
    rw (z, take-append x y, drop-append x y, fill_all c free x e h, ← append_assoc c x y)
      (simp append-nil at
        (overwrite-Holds n [] (c ++ x) y (omega arith) k (omega arith) (omega arith)))

pub write_partial :
    (n : ℕ) (c free src : List ℕ)
    → 0 < length src
    → 0 < length free
    → n ≡ length c + length free
    → length src ≤ n
    → Holds n (fill_overwrite n (partial_ring c free) src) (last_bytes n (c ++ src))
write_partial n c free src h k m l = elim (ℕ_discrete (length src) (length free)) [
  | yes e ↦ partial_exact n c free src (sym e) h m
  | no q ↦ elim (dec_lt (length src) (length free)) [
    | yes t ↦
        let (f, g, e, p) = cut_at (length src) free (omega arith) in
        subst
          (λ free. Holds n (fill_overwrite n (partial_ring c free) src) (last_bytes n (c ++ src)))
          (sym e)
          (partial_below n c f g src p h (omega (arith, length-append f g, ap length e))
            (rw (sym e) m))
    | no t ↦
        let (x, y, e, p) = cut_at (length free) src (omega arith) in
        let u : length src ≡ length x + length y = omega (arith, length-append x y, ap length e) in
        subst
          (λ src. Holds n (fill_overwrite n (partial_ring c free) src) (last_bytes n (c ++ src)))
          (sym e)
          (partial_beyond n c free x y (sym p) (omega arith) (omega arith) m
            (omega (arith, ap length e)))
  ]
]
