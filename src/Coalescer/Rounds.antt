-- ===== src/Coalescer/Rounds.antt =====
-- `appendChunk` returns: a round takes a byte at least, unless frames may have no byte.
use termyard.Base.{
  ◌++◌, ℕ, zero, suc, ◌≤◌, ◌<◌, min, ◌==◌, if_rule, Bool, true, false, [], ◌∷◌, Option, none,
  length, take, drop, length-drop, ◌≡◌, refl, arith,
}
use termyard.Coalescer.Frames.{
  Bytes, Connection, Output, stop_timer, make_room, available, fill, and_then, append_loop,
  append_chunk,
}
use termyard.Coalescer.Room.{flush-max_frame}

make_room-max_frame :
    (conn : Connection) (o : Output) → (make_room conn o).0.max_frame ≡ o.max_frame
unfolding make_room
make_room-max_frame conn o = ground (arith, flush-max_frame conn (stop_timer o))

fill-max_frame :
    (conn : Connection) (part : Bytes) (o : Output) → (fill conn part o).0.max_frame ≡ o.max_frame
unfolding fill
fill-max_frame conn part o =
    if_rule (λ (x : Output × Bool). x.0.max_frame ≡ o.max_frame)
      (length (record o { buffered = o.buffered ++ part }).buffered == o.max_frame)
      (λ _. flush-max_frame conn (stop_timer (record o { buffered = o.buffered ++ part })))
      (λ _. refl)

Returns : Option (Output × Bool) → Type 0
Returns r = r ≡ none → ⊥

and_then-Returns :
    (x : Output × Bool) (f : Output → Option (Output × Bool))
    → Returns (f x.0)
    → Returns (and_then x f)
unfolding Returns
and_then-Returns (o, true) f h e = h e
and_then-Returns (o, false) f h e = absurd (cc e)

append_loop-Returns :
    (conn : Connection) (n : ℕ) (chunk : Bytes) (o : Output)
    → 0 < o.max_frame
    → length chunk ≤ n
    → Returns (append_loop conn n chunk o)
unfolding append_loop Returns
append_loop-Returns conn n [] o m l = λ e. absurd (cc e)
append_loop-Returns conn zero (b ∷ chunk) o m l = λ e. omega arith
append_loop-Returns conn (suc n) (b ∷ chunk) o m l =
    let count = min (available o) (suc (length chunk)) in
    let o1 = (make_room conn o).0 in
    let o2 = (fill conn (take count (b ∷ chunk)) o1).0 in
    let m2 : 0 < o2.max_frame =
      omega (arith, fill-max_frame conn (take count (b ∷ chunk)) o1, make_room-max_frame conn o) in
    let a : 0 < available o = ground arith in
    let l2 : length (drop count (b ∷ chunk)) ≤ n = omega (arith, length-drop count (b ∷ chunk)) in
    and_then-Returns (make_room conn o) _ (
      and_then-Returns (fill conn (take count (b ∷ chunk)) o1) _
        (append_loop-Returns conn n (drop count (b ∷ chunk)) o2 m2 l2))

-- Only a coalescer whose frames may have no byte waits for `appendChunk` forever.
pub append_chunk-none :
    (conn : Connection) (chunk : Bytes) (o : Output)
    → append_chunk conn chunk o ≡ none
    → o.max_frame ≡ 0
unfolding append_chunk Returns
append_chunk-none conn chunk o e =
    elim o.max_frame as (λ m. o.max_frame ≡ m → m ≡ 0) [
      | zero ↦ λ q. refl
      | suc m ↦ λ q.
          absurd (append_loop-Returns conn (length chunk) chunk o (omega arith) (omega arith) e)
    ]
      refl
