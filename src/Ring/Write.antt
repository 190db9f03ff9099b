-- ===== src/Ring/Write.antt =====
-- The two parts of `Write` on a partial and on a full buffer.
use termyard.Base.{
  ℕ, ◌+◌, ◌-◌, ◌≤◌, ◌<◌, ◌≡◌, refl, ap, arith, List, [], ◌++◌, length, length-append, append-nil,
  append_assoc, sym, ◌∙◌, leb, true, false,
}
use termyard.Ring.{RingBuffer, copy_at, wrap, copy_around, fill, overwrite}
use termyard.Ring.Slices.{take-append, drop-append, copy_at-append}

-- A buffer with room: its bytes stand at the start.
abbrev pub partial_ring : List ℕ → List ℕ → RingBuffer
partial_ring c free = record { buf = c ++ free; head = length c; tail = 0; size = length c }

-- A full buffer: `b`, from the tail to the end, is older than `a`.
abbrev pub full_ring : List ℕ → List ℕ → RingBuffer
full_ring a b = record {
  buf = a ++ b;
  head = length a;
  tail = length a;
  size = length a + length b;
}

pub leb-true : (a b : ℕ) → a ≤ b → leb a b ≡ true
leb-true a b h = ground arith

pub leb-false : (a b : ℕ) → b < a → leb a b ≡ false
leb-false a b h = ground arith

-- One piece: the copy ends before the end of the buffer, or exactly there.
one_piece :
    (a b c src : List ℕ) (n : ℕ)
    → length b ≡ length src
    → n ≡ length a + length b + length c
    → copy_around (a ++ b ++ c) (length a) src ≡ (a ++ src ++ c, wrap n (length a + length src))
unfolding copy_around
one_piece a b c src n e f =
    let m : length (a ++ b ++ c) ≡ n = omega (arith, length-append (a ++ b) c, length-append a b) in
    rw (
      copy_around,
      m,
      leb-true (length src) (n - length a) (omega arith),
      copy_at-append a b c src e,
    )

-- Two pieces: `x` goes to the end of the buffer, and `y` to its start.
two_pieces :
    (d e b x y : List ℕ) (n : ℕ)
    → length x ≡ length b
    → length y ≡ length d
    → 0 < length y
    → n ≡ length d + length e + length b
    → copy_around ((d ++ e) ++ b) (length (d ++ e)) (x ++ y) ≡ (y ++ e ++ x, wrap n (length y))
unfolding copy_around
two_pieces d e b x y n p q h f =
    let m : length ((d ++ e) ++ b) ≡ n =
      omega (arith, length-append (d ++ e) b, length-append d e) in
    let k : n - length (d ++ e) ≡ length x = omega (arith, length-append d e) in
    let l : length (x ++ y) - length x ≡ length y = omega (arith, length-append x y) in
    let z : leb (length (x ++ y)) (length x) ≡ false =
      leb-false _ _ (omega (arith, length-append x y)) in
    let c : copy_at ((d ++ e) ++ b) (length (d ++ e)) x ≡ (d ++ e) ++ x =
      simp append-nil at (copy_at-append (d ++ e) b [] x (sym p)) in
    let g : copy_at ((d ++ e) ++ x) 0 y ≡ (y ++ e) ++ x =
      rw (append_assoc d e x, append_assoc y e x) (copy_at-append [] d (e ++ x) y (sym q)) in
    rw (copy_around, m, k, z, take-append x y, drop-append x y, c, l, g)

wrap_below : (n d : ℕ) → d < n → wrap n d ≡ d
wrap_below n d h = ground arith

wrap_at : (n d : ℕ) → d ≡ n → wrap n d ≡ 0
wrap_at n d h = ground arith

fill_lem :
    (r : RingBuffer) (src b : List ℕ) (d : ℕ)
    → 0 < length src
    → copy_around r.buf r.head src ≡ (b, d)
    → fill r src ≡ record r { buf = b; head = d; size = r.size + length src }
unfolding fill
fill_lem r src b d h e = rw e (ground arith)

overwrite_lem :
    (r : RingBuffer) (src b : List ℕ) (d : ℕ)
    → 0 < length src
    → copy_around r.buf r.head src ≡ (b, d)
    → overwrite r src ≡ record r { buf = b; head = d; tail = d }
unfolding overwrite
overwrite_lem r src b d h e = rw e (ground arith)

abbrev ring : List ℕ → ℕ → ℕ → ℕ → RingBuffer
ring b h t s = record { buf = b; head = h; tail = t; size = s }

ring_eq :
    {b c : List ℕ} {h i t u s z : ℕ} → b ≡ c → h ≡ i → t ≡ u → s ≡ z → ring b h t s ≡ ring c i u z
ring_eq p q k l j = ring (p j) (q j) (k j) (l j)

fill_step :
    (c f g src : List ℕ)
    → length f ≡ length src
    → 0 < length src
    → fill (partial_ring c (f ++ g)) src ≡ record {
      buf = c ++ src ++ g;
      head = wrap (length c + length f + length g) (length c + length src);
      tail = 0;
      size = length c + length src;
    }
fill_step c f g src e h =
    fill_lem (partial_ring c (f ++ g)) src (c ++ src ++ g)
      (wrap (length c + length f + length g) (length c + length src)) h
      (rw (← append_assoc c f g) (one_piece c f g src (length c + length f + length g) e refl))

-- Filling part of the room, or all of it.
pub fill_some :
    (c f g src : List ℕ)
    → length f ≡ length src
    → 0 < length src
    → 0 < length g
    → fill (partial_ring c (f ++ g)) src ≡ partial_ring (c ++ src) g
fill_some c f g src e h k =
    fill_step c f g src e h
    ∙ ring_eq refl (wrap_below _ _ (omega arith) ∙ sym (length-append c src)) refl
        (sym (length-append c src))

pub fill_all :
    (c f src : List ℕ)
    → length f ≡ length src
    → 0 < length src
    → fill (partial_ring c f) src ≡ full_ring [] (c ++ src)
fill_all c f src e h =
    ap (λ g. fill (partial_ring c g) src) (sym (append-nil f))
    ∙ fill_step c f [] src e h
    ∙ ring_eq (append-nil (c ++ src))
        (wrap_at (length c + length f + 0) (length c + length src) (omega arith)) refl
        (omega (arith, length-append c src))

pub overwrite_some :
    (a f g src : List ℕ)
    → length f ≡ length src
    → 0 < length src
    → 0 < length g
    → overwrite (full_ring a (f ++ g)) src ≡ full_ring (a ++ src) g
overwrite_some a f g src e h k =
    overwrite_lem (full_ring a (f ++ g)) src (a ++ src ++ g)
      (wrap (length a + length f + length g) (length a + length src)) h
      (rw (← append_assoc a f g) (one_piece a f g src _ e refl))
    ∙ ring_eq refl d d (omega (arith, length-append f g, length-append a src))
  where
    d : wrap (length a + length f + length g) (length a + length src) ≡ length (a ++ src)
    d = wrap_below _ _ (omega arith) ∙ sym (length-append a src)

pub overwrite_rest :
    (a b src : List ℕ)
    → length b ≡ length src
    → 0 < length src
    → overwrite (full_ring a b) src ≡ full_ring [] (a ++ src)
overwrite_rest a b src e h =
    ap (λ g. overwrite (ring (a ++ g) (length a) (length a) (length a + length b)) src)
      (sym (append-nil b))
    ∙ overwrite_lem (ring (a ++ (b ++ [])) (length a) (length a) (length a + length b)) src
        (a ++ src ++ []) (wrap (length a + length b + 0) (length a + length src)) h
        (rw (← append_assoc a b []) (one_piece a b [] src _ e refl))
    ∙ ring_eq (append-nil (a ++ src)) d d (omega (arith, length-append a src))
  where
    d : wrap (length a + length b + 0) (length a + length src) ≡ 0
    d = wrap_at (length a + length b + 0) (length a + length src) (omega arith)

pub overwrite_around :
    (d e b x y : List ℕ)
    → length x ≡ length b
    → length y ≡ length d
    → 0 < length y
    → 0 < length b
    → overwrite (full_ring (d ++ e) b) (x ++ y) ≡ full_ring y (e ++ x)
overwrite_around d e b x y p q h k =
    overwrite_lem (full_ring (d ++ e) b) (x ++ y) (y ++ e ++ x)
      (wrap (length d + length e + length b) (length y)) (omega (arith, length-append x y))
      (two_pieces d e b x y _ p q h refl)
    ∙ ring_eq (append_assoc y e x) w w (omega (arith, length-append d e, length-append e x))
  where
    w : wrap (length d + length e + length b) (length y) ≡ length y
    w = wrap_below _ _ (omega arith)
