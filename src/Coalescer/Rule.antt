-- ===== src/Coalescer/Rule.antt =====
-- A rule for what holds of the output while the goroutine works: what `write_frame`, `flush` and the
-- buffer keep, `append_chunk` and `process_control` keep.
use termyard.Base.{
  ℕ, zero, suc, ◌-◌, ◌≤◌, min, ◌==◌, if_rule, Bool, true, false, List, [], ◌∷◌, ◌++◌, Option, some,
  length, take, drop, length-take, take-append-drop, append_assoc, ◌≡◌, refl, subst, arith,
}
use termyard.Coalescer.Frames.{
  Bytes, Frame, binary, text, Timer, idle, running, ControlFrame, Connection, Output, write_frame,
  flush, stop_timer, reset_timer, make_room, available, fill, and_then, append_loop, append_chunk,
  acknowledge, write_control, process_control,
}
use termyard.Coalescer.Room.{make_room-available, write_frame-writes, flush-writes}

-- `P s r o`: of the bytes `s` that were submitted, `r` have not reached the output `o`. `B n`: the
-- first `n` writes are such that a write has failed.
pub record IsKept (conn : Connection) (P : Bytes → Bytes → Output → Type 0) (B : ℕ → Type 0)
    : Type 0 where
  pub texts : (s r p : Bytes) (o : Output) → P s r o → P s r (write_frame conn (text p) o).0
  pub flushes : (s r : Bytes) (o : Output) → P s r o → P s r (flush conn o).0
  pub fills :
      (s r part : Bytes) (o : Output)
      → length part ≤ o.max_frame - length o.buffered
      → P s (part ++ r) o
      → P s r (record o { buffered = o.buffered ++ part })
  pub timers : (s r : Bytes) (t : Timer) (o : Output) → P s r o → P s r (record o { timer = t })
  pub acks : (s r : Bytes) (a : List ℕ) (o : Output) → P s r o → P s r (record o { acked = a })
  pub drops : (s r q : Bytes) (o : Output) → B o.writes → P s r o → P s q o
  pub grows : (s r t : Bytes) (o : Output) → P s r o → P (s ++ t) (r ++ t) o
  pub fails : (n : ℕ) → conn.accepts n ≡ false → B (suc n)
  pub later : (n m : ℕ) → n ≤ m → B n → B m

-- What is shown of the result of an operation that started after `n` writes.
pub record IsGood (P : Bytes → Bytes → Output → Type 0) (B : ℕ → Type 0) (n : ℕ) (s r : Bytes)
    (x : Output × Bool) : Type 0 where
  pub holds : P s r x.0
  pub failed : x.1 ≡ false → B x.0.writes
  pub since : n ≤ x.0.writes

module _ (conn : Connection) (P : Bytes → Bytes → Output → Type 0) (B : ℕ → Type 0)
    (k : IsKept conn P B) where
  write_frame-fails :
      (f : Frame) (o : Output)
      → (write_frame conn f o).1 ≡ false
      → B (write_frame conn f o).0.writes
  unfolding write_frame
  write_frame-fails f o =
      if_rule (λ (x : Output × Bool). x.1 ≡ false → B x.0.writes) (conn.accepts o.writes)
        (λ _ q. absurd (cc q)) (λ e _. k.fails o.writes e)

  flush-fails : (o : Output) → (flush conn o).1 ≡ false → B (flush conn o).0.writes
  unfolding flush
  flush-fails o =
      if_rule (λ (x : Output × Bool). x.1 ≡ false → B x.0.writes) (length o.buffered == 0)
        (λ _ q. absurd (cc q))
        (λ _. write_frame-fails (binary o.buffered) (record o { buffered = [] }))

  pub text-Good :
      (s r p : Bytes) (o : Output) → P s r o → IsGood P B o.writes s r (write_frame conn (text p) o)
  text-Good s r p o h = record {
    holds = k.texts s r p o h;
    failed = write_frame-fails (text p) o;
    since = omega (arith, write_frame-writes conn (text p) o);
  }

  pub flush-Good : (s r : Bytes) (o : Output) → P s r o → IsGood P B o.writes s r (flush conn o)
  flush-Good s r o h = record {
    holds = k.flushes s r o h;
    failed = flush-fails o;
    since = flush-writes conn o;
  }

  unchanged-Good : (s r : Bytes) (o : Output) → P s r o → IsGood P B o.writes s r (o, true)
  unchanged-Good s r o h = record { holds = h; failed = λ q. absurd (cc q); since = omega arith }

  stop-Good :
      (s r : Bytes) (o : Output) → P s r o → IsGood P B o.writes s r (flush conn (stop_timer o))
  stop-Good s r o h = flush-Good s r (stop_timer o) (k.timers s r idle o h)

  make_room-Good : (s r : Bytes) (o : Output) → P s r o → IsGood P B o.writes s r (make_room conn o)
  unfolding make_room
  make_room-Good s r o h =
      if_rule (IsGood P B o.writes s r) ((o.max_frame - length o.buffered) == 0)
        (λ _. stop-Good s r o h) (λ _. unchanged-Good s r o h)

  fill-Good :
      (s r part : Bytes) (o : Output)
      → length part ≤ o.max_frame - length o.buffered
      → P s (part ++ r) o
      → IsGood P B o.writes s r (fill conn part o)
  unfolding fill
  fill-Good s r part o l h =
      let o1 = record o { buffered = o.buffered ++ part } in
      let h1 = k.fills s r part o l h in
      if_rule (IsGood P B o.writes s r) (length o1.buffered == o1.max_frame)
        (λ _. stop-Good s r o1 h1)
        (λ _. unchanged-Good s r (reset_timer o1) (k.timers s r running o1 h1))

  and_then-Good :
      (n : ℕ) (s q r : Bytes) (x : Output × Bool) (f : Output → Option (Output × Bool))
      (y : Output × Bool)
      → IsGood P B n s q x
      → (P s q x.0 → n ≤ x.0.writes → f x.0 ≡ some y → IsGood P B n s r y)
      → and_then x f ≡ some y
      → IsGood P B n s r y
  and_then-Good n s q r (o, true) f y g h e = h g.holds g.since e
  and_then-Good n s q r (o, false) f y g h e =
      let eq : (o, false) ≡ y = cc e in
      let b = g.failed refl in
      subst (IsGood P B n s r) eq
        (record { holds = k.drops s q r o b g.holds; failed = λ _. b; since = g.since })

  later-Good :
      (n m : ℕ) (s r : Bytes) (x : Output × Bool) → n ≤ m → IsGood P B m s r x → IsGood P B n s r x
  later-Good n m s r x l g = record {
    holds = g.holds;
    failed = g.failed;
    since = omega (arith, g.since);
  }

  append_loop-Good :
      (n : ℕ) (s r chunk : Bytes) (o : Output) (y : Output × Bool)
      → P s (chunk ++ r) o
      → append_loop conn n chunk o ≡ some y
      → IsGood P B o.writes s r y
  unfolding append_loop
  append_loop-Good n s r [] o y h e =
      let eq : (o, true) ≡ y = cc e in subst (IsGood P B o.writes s r) eq (unchanged-Good s r o h)
  append_loop-Good zero s r (b ∷ chunk) o y h e = absurd (cc e)
  append_loop-Good (suc n) s r (b ∷ chunk) o y h e =
      let xs = b ∷ chunk in
      let count = min (available o) (length xs) in
      let q = take count xs ++ (drop count xs ++ r) in
      let split : xs ++ r ≡ q =
        rw (← append_assoc (take count xs) (drop count xs) r, take-append-drop count xs) refl in
      let o1 = (make_room conn o).0 in
      let l : length (take count xs) ≤ o1.max_frame - length o1.buffered =
        omega (arith, length-take count xs, make_room-available conn o) in
      and_then-Good o.writes s q r (make_room conn o) _ y
        (make_room-Good s q o (subst (λ q. P s q o) split h))
        (λ h1 w1 e1.
          and_then-Good o.writes s (drop count xs ++ r) r (fill conn (take count xs) o1) _ y
            (later-Good o.writes o1.writes _ _ _ w1
              (fill-Good s (drop count xs ++ r) (take count xs) o1 l h1))
            (λ h2 w2 e2.
              let o2 = (fill conn (take count xs) o1).0 in
              later-Good o.writes o2.writes _ _ _ w2
                (append_loop-Good n s r (drop count xs) o2 y h2 e2))
            e1)
        e

  pub append_chunk-Good :
      (s r chunk : Bytes) (o : Output) (y : Output × Bool)
      → P s (chunk ++ r) o
      → append_chunk conn chunk o ≡ some y
      → IsGood P B o.writes s r y
  unfolding append_chunk
  append_chunk-Good s r chunk o y h e = append_loop-Good (length chunk) s r chunk o y h e

  acknowledge-Good :
      (n : ℕ) (s r : Bytes) (cf : ControlFrame) (x : Output × Bool)
      → IsGood P B n s r x
      → IsGood P B n s r (acknowledge cf x)
  acknowledge-Good n s r cf (o, true) g = record {
    holds = k.acks s r _ o g.holds;
    failed = λ q. absurd (cc q);
    since = g.since;
  }
  acknowledge-Good n s r cf (o, false) g = g

  write_control-Good :
      (n : ℕ) (s r : Bytes) (cf : ControlFrame) (x : Output × Bool)
      → IsGood P B n s r x
      → IsGood P B n s r (write_control conn cf x)
  write_control-Good n s r cf (o, true) g =
      acknowledge-Good n s r cf _
        (later-Good n o.writes s r _ g.since (text-Good s r cf.payload o g.holds))
  write_control-Good n s r cf (o, false) g = g

  pub process_control-Good :
      (s r : Bytes) (cf : ControlFrame) (o : Output)
      → P s r o
      → IsGood P B o.writes s r (process_control conn cf o)
  unfolding process_control
  process_control-Good s r cf o h = write_control-Good o.writes s r cf _ (flush-Good s r o h)
