-- ===== src/Coalescer/Selects.antt =====
-- The selects of the goroutine that have a choice, and its steps as a whole: once the chunks are
-- closed each comes nearer to the end.
use termyard.Base.{
  zero, suc, [], ◌∷◌, ap, sym, subst, if_rule, ◌≤◌, ℕ, ◌+◌, ◌<◌, true, List, Option, none, some,
  length, ◌≡◌, refl, arith,
}
use termyard.Coalescer.Frames.{
  process_control, write_frame, flush, stop_timer, Timer, idle, running, fired, ControlFrame, Bytes,
  Connection,
}
use termyard.Coalescer.{
  pong_frame, Choice, take_chunk, take_pong, take_control, take_tick, finish, step_wait,
  wait_chunks, wait_pongs, wait_controls, wait_tick, wait_case, or_case, or_blocked, step_closing,
  step_discard, step_at, step, Place, at_pongs, at_chunks, at_controls, at_wait, closing,
  discarding, stopped, spins, crashed, OutputCoalescer, return_unless, pong_to, control_to,
}
use termyard.Coalescer.Measure.{
  rank, weight, load, measure, write_frame-timer, flush-timer, process_control-timer,
}
use termyard.Coalescer.Stops.{
  IsLive, Advances, continue_at-Advances, return_unless-Advances, chunk_to-Advances, pong_on,
  control_on, finish-Advances, step_pongs-Advances, step_chunks-Advances, step_controls-Advances,
}

-- A case that comes nearer to the end if it is ready; and one that is ready and does.
abbrev May : ℕ → Option OutputCoalescer → Type 0
May n none = Unit
May n (some d) = Advances n d

abbrev Goes : ℕ → Option OutputCoalescer → Type 0
Goes n none = ⊥
Goes n (some d) = Advances n d

May-of_Goes : (n : ℕ) (o : Option OutputCoalescer) → Goes n o → May n o
May-of_Goes n none h = absurd h
May-of_Goes n (some d) h = h

or_case-Goes : (n : ℕ) (o p : Option OutputCoalescer) → May n o → Goes n p → Goes n (or_case o p)
or_case-Goes n none p h k = k
or_case-Goes n (some d) p h k = h

or_case-Goes_left : (n : ℕ) (o p : Option OutputCoalescer) → Goes n o → Goes n (or_case o p)
or_case-Goes_left n none p h = absurd h
or_case-Goes_left n (some d) p h = h

or_blocked-Advances :
    (n : ℕ) (c : OutputCoalescer) (o : Option OutputCoalescer)
    → Goes n o
    → Advances n (or_blocked c o)
or_blocked-Advances n c none h = absurd h
or_blocked-Advances n c (some d) h = h

module _ (conn : Connection) where
  wait_chunks-Goes :
      (n : ℕ) (ch : List Bytes) (c : OutputCoalescer)
      → c.closed ≡ true
      → 0 < c.out.max_frame
      → length c.chunks ≡ length ch
      → load c + (weight c.out.timer + 2) ≤ n
      → Goes n (wait_chunks conn ch c)
  unfolding wait_chunks
  wait_chunks-Goes n (chunk ∷ rest) c q m e l =
      chunk_to-Advances conn n at_pongs chunk rest c q m tt (omega arith)
  wait_chunks-Goes n [] c q m e l =
      if_rule (Goes n) c.closed {x = some (finish conn c)} {y = none}
        (λ _. finish-Advances conn n c q (omega arith)) (λ f. absurd (cc (q, f)))

  wait_pongs-May :
      (n k : ℕ) (c : OutputCoalescer)
      → c.closed ≡ true
      → c.pongs ≡ k
      → load c + (weight c.out.timer + 2) ≤ n
      → May n (wait_pongs conn k c)
  wait_pongs-May n (suc k) c q e l = pong_on conn n k c q e (omega arith)
  wait_pongs-May n zero c q e l = tt

  wait_controls-May :
      (n : ℕ) (cs : List ControlFrame) (c : OutputCoalescer)
      → c.closed ≡ true
      → length c.controls ≡ length cs
      → load c + (weight c.out.timer + 2) ≤ n
      → May n (wait_controls conn cs c)
  wait_controls-May n (cf ∷ rest) c q e l = control_on conn n cf rest c q e (omega arith)
  wait_controls-May n [] c q e l = tt

  wait_tick-May :
      (n : ℕ) (t : Timer) (c : OutputCoalescer)
      → c.closed ≡ true
      → c.out.timer ≡ t
      → load c + (weight c.out.timer + 2) ≤ n
      → May n (wait_tick conn t c)
  wait_tick-May n fired c q e l =
      let w = ap weight e in
      let z = ap weight (flush-timer conn (stop_timer c.out)) in
      continue_at-Advances n at_pongs (flush conn (stop_timer c.out)) c q tt (omega arith)
  wait_tick-May n running c q e l = tt
  wait_tick-May n idle c q e l = tt

  wait_case-May :
      (n : ℕ) (choice : Choice) (c : OutputCoalescer)
      → c.closed ≡ true
      → 0 < c.out.max_frame
      → load c + (weight c.out.timer + 2) ≤ n
      → May n (wait_case conn choice c)
  wait_case-May n take_chunk c q m l = May-of_Goes n _ (wait_chunks-Goes n c.chunks c q m refl l)
  wait_case-May n take_pong c q m l = wait_pongs-May n c.pongs c q refl l
  wait_case-May n take_control c q m l = wait_controls-May n c.controls c q refl l
  wait_case-May n take_tick c q m l = wait_tick-May n c.out.timer c q refl l

  step_wait-Advances :
      (n : ℕ) (choice : Choice) (c : OutputCoalescer)
      → c.closed ≡ true
      → 0 < c.out.max_frame
      → load c + (weight c.out.timer + 2) ≤ n
      → Advances n (step_wait conn choice c)
  unfolding step_wait
  step_wait-Advances n choice c q m l =
      let chosen = wait_case-May n choice c q m l in
      let chunk = or_case-Goes_left n _ _ (wait_chunks-Goes n c.chunks c q m refl l) in
      or_blocked-Advances n c _ (or_case-Goes n _ _ chosen chunk)

  close_pong :
      (n k : ℕ) (c : OutputCoalescer)
      → c.closed ≡ true
      → c.pongs ≡ suc k
      → load c + (weight c.out.timer + 1) ≤ n
      → Advances n (pong_to conn return_unless k c)
  close_pong n k c q e l =
      let t = ap weight (write_frame-timer conn pong_frame c.out) in
      return_unless-Advances n (write_frame conn pong_frame c.out) (record c { pongs = k }) q
        (omega arith)

  close_control :
      (n : ℕ) (cf : ControlFrame) (rest : List ControlFrame) (c : OutputCoalescer)
      → c.closed ≡ true
      → length c.controls ≡ suc (length rest)
      → load c + (weight c.out.timer + 1) ≤ n
      → Advances n (control_to conn return_unless cf rest c)
  close_control n cf rest c q e l =
      let t = ap weight (process_control-timer conn cf c.out) in
      return_unless-Advances n (process_control conn cf c.out) (record c { controls = rest }) q
        (omega arith)

  step_closing-Advances :
      (n : ℕ) (choice : Choice) (k : ℕ) (cs : List ControlFrame) (c : OutputCoalescer)
      → c.closed ≡ true
      → c.pongs ≡ k
      → length c.controls ≡ length cs
      → load c + (weight c.out.timer + 1) ≤ n
      → Advances n (step_closing conn choice k cs c)
  unfolding step_closing
  step_closing-Advances n choice zero [] c q e f l = record {
    closed = q;
    live = tt;
    less = omega arith;
  }
  step_closing-Advances n choice (suc k) [] c q e f l = close_pong n k c q e l
  step_closing-Advances n choice zero (cf ∷ rest) c q e f l = close_control n cf rest c q f l
  step_closing-Advances n take_control (suc k) (cf ∷ rest) c q e f l =
      close_control n cf rest c q f l
  step_closing-Advances n take_pong (suc k) (cf ∷ rest) c q e f l = close_pong n k c q e l
  step_closing-Advances n take_chunk (suc k) (cf ∷ rest) c q e f l = close_pong n k c q e l
  step_closing-Advances n take_tick (suc k) (cf ∷ rest) c q e f l = close_pong n k c q e l

  step_discard-Advances :
      (n : ℕ) (ch : List Bytes) (c : OutputCoalescer)
      → c.closed ≡ true
      → c.place ≡ discarding
      → length c.chunks ≡ length ch
      → measure c ≤ n
      → Advances n (step_discard conn ch c)
  unfolding step_discard
  step_discard-Advances n (chunk ∷ rest) c q p e l = record {
    closed = q;
    live = subst IsLive (sym p) tt;
    less = omega arith;
  }
  step_discard-Advances n [] c q p e l =
      let r = ap rank p in
      if_rule (Advances n) c.closed {x = record c { place = stopped }}
        (λ _. record { closed = q; live = tt; less = omega arith }) (λ f. absurd (cc (q, f)))

  step_at-Advances :
      (place : Place) (choice : Choice) (c : OutputCoalescer)
      → c.place ≡ place
      → c.closed ≡ true
      → 0 < c.out.max_frame
      → IsLive place
      → 0 < rank place
      → Advances (measure c) (step_at conn place choice c)
  unfolding step_at
  step_at-Advances at_pongs choice c p q m v z =
      let r = ap rank p in step_pongs-Advances conn (measure c) c.pongs c q refl (omega arith)
  step_at-Advances at_chunks choice c p q m v z =
      let r = ap rank p in step_chunks-Advances conn (measure c) c.chunks c q m refl (omega arith)
  step_at-Advances at_controls choice c p q m v z =
      let r = ap rank p in step_controls-Advances conn (measure c) c.controls c q refl (omega arith)
  step_at-Advances at_wait choice c p q m v z =
      let r = ap rank p in step_wait-Advances (measure c) choice c q m (omega arith)
  step_at-Advances closing choice c p q m v z =
      let r = ap rank p in
      step_closing-Advances (measure c) choice c.pongs c.controls c q refl refl (omega arith)
  step_at-Advances discarding choice c p q m v z =
      step_discard-Advances (measure c) c.chunks c q p refl (omega arith)
  step_at-Advances stopped choice c p q m v z = absurd (omega arith)
  step_at-Advances spins choice c p q m v z = absurd v
  step_at-Advances crashed choice c p q m v z = absurd v

  pub step-Advances :
      (choice : Choice) (c : OutputCoalescer)
      → c.closed ≡ true
      → 0 < c.out.max_frame
      → IsLive c.place
      → 0 < rank c.place
      → Advances (measure c) (step conn choice c)
  unfolding step
  step-Advances choice c q m v z = step_at-Advances c.place choice c refl q m v z
