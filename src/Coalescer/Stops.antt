-- ===== src/Coalescer/Stops.antt =====
-- Once the chunks are closed, every step of the goroutine comes nearer to the end, whichever case
-- each `select` takes.
use termyard.Base.{
  if◌then◌else◌, suc, zero, [], ◌∷◌, ap, if_rule, ◌≤◌, ℕ, ◌+◌, ◌*◌, ◌<◌, Bool, true, false, List,
  none, some, length, ◌≡◌, refl, arith,
}
use termyard.Coalescer.Frames.{
  process_control, write_frame, stop_timer, ControlFrame, Bytes, Connection, Output, append_chunk,
}
use termyard.Coalescer.{
  pong_frame, finish, step_pongs, step_chunks, step_controls, Place, at_pongs, at_chunks,
  at_controls, at_wait, closing, discarding, stopped, spins, crashed, OutputCoalescer, continue_at,
  return_unless, appended, chunk_to, pong_to, control_to,
}
use termyard.Coalescer.Rounds.{append_chunk-none}
use termyard.Coalescer.Measure.{
  rank, weight, load, measure, weight_bound, write_frame-timer, flush-timer, process_control-timer,
}

abbrev pub IsLive : Place → Type 0
IsLive at_pongs = Unit
IsLive at_chunks = Unit
IsLive at_controls = Unit
IsLive at_wait = Unit
IsLive closing = Unit
IsLive discarding = Unit
IsLive stopped = Unit
IsLive spins = ⊥
IsLive crashed = ⊥

-- A step that comes nearer to the end.
pub record Advances (n : ℕ) (d : OutputCoalescer) : Type 0 where
  pub closed : d.closed ≡ true
  pub live : IsLive d.place
  pub less : measure d < n

pub continue_at-Advances :
    (n : ℕ) (place : Place) (x : Output × Bool) (c : OutputCoalescer)
    → c.closed ≡ true
    → IsLive place
    → load c + (weight x.0.timer + rank place) < n
    → Advances n (continue_at place x c)
continue_at-Advances n place (o, true) c q v l = record { closed = q; live = v; less = l }
continue_at-Advances n place (o, false) c q v l = record { closed = q; live = v; less = l }

pub return_unless-Advances :
    (n : ℕ) (x : Output × Bool) (c : OutputCoalescer)
    → c.closed ≡ true
    → load c + (weight x.0.timer + 1) < n
    → Advances n (return_unless x c)
return_unless-Advances n (o, true) c q l = record { closed = q; live = tt; less = l }
return_unless-Advances n (o, false) c q l = record { closed = q; live = tt; less = omega arith }

module _ (conn : Connection) where
  pub chunk_to-Advances :
      (n : ℕ) (place : Place) (chunk : Bytes) (rest : List Bytes) (c : OutputCoalescer)
      → c.closed ≡ true
      → 0 < c.out.max_frame
      → IsLive place
      → 4 * (c.pongs + length c.controls) + 10 * length rest + (5 + rank place) < n
      → Advances n (chunk_to conn place chunk rest c)
  unfolding chunk_to
  chunk_to-Advances n place chunk rest c q m v l =
      elim (append_chunk conn chunk c.out)
          as (λ r. append_chunk conn chunk c.out ≡ r → Advances n (appended place r rest c)) [
            | none ↦ λ e. let z = append_chunk-none conn chunk c.out e in absurd (omega arith)
            | some y ↦ λ e.
                let w = weight_bound y.0.timer in
                continue_at-Advances n place y (record c { chunks = rest }) q v (omega arith)
          ]
        refl

  pub pong_on :
      (n k : ℕ) (c : OutputCoalescer)
      → c.closed ≡ true
      → c.pongs ≡ suc k
      → load c + (weight c.out.timer + 1) < n
      → Advances n (pong_to conn (continue_at at_pongs) k c)
  pong_on n k c q e l =
      let t = ap weight (write_frame-timer conn pong_frame c.out) in
      continue_at-Advances n at_pongs (write_frame conn pong_frame c.out) (record c { pongs = k }) q
        tt (omega arith)

  pub control_on :
      (n : ℕ) (cf : ControlFrame) (rest : List ControlFrame) (c : OutputCoalescer)
      → c.closed ≡ true
      → length c.controls ≡ suc (length rest)
      → load c + (weight c.out.timer + 1) < n
      → Advances n (control_to conn (continue_at at_pongs) cf rest c)
  control_on n cf rest c q e l =
      let t = ap weight (process_control-timer conn cf c.out) in
      continue_at-Advances n at_pongs (process_control conn cf c.out) (record c { controls = rest })
        q tt (omega arith)

  pub finish-Advances :
      (n : ℕ) (c : OutputCoalescer) → c.closed ≡ true → load c + 1 < n → Advances n (finish conn c)
  unfolding finish
  finish-Advances n c q l =
      let t = ap weight (flush-timer conn (stop_timer c.out)) in
      record { closed = q; live = tt; less = omega arith }

  pub step_pongs-Advances :
      (n k : ℕ) (c : OutputCoalescer)
      → c.closed ≡ true
      → c.pongs ≡ k
      → load c + (weight c.out.timer + 5) ≤ n
      → Advances n (step_pongs conn k c)
  unfolding step_pongs
  step_pongs-Advances n (suc k) c q e l = pong_on n k c q e (omega arith)
  step_pongs-Advances n zero c q e l =
      elim c.write_failed
        as (λ b. Advances n (record c { place = if b then discarding else at_chunks })) [
          | true ↦ record { closed = q; live = tt; less = omega arith }
          | false ↦ record { closed = q; live = tt; less = omega arith }
        ]

  pub step_chunks-Advances :
      (n : ℕ) (ch : List Bytes) (c : OutputCoalescer)
      → c.closed ≡ true
      → 0 < c.out.max_frame
      → length c.chunks ≡ length ch
      → load c + (weight c.out.timer + 4) ≤ n
      → Advances n (step_chunks conn ch c)
  unfolding step_chunks
  step_chunks-Advances n (chunk ∷ rest) c q m e l =
      chunk_to-Advances n at_chunks chunk rest c q m tt (omega arith)
  step_chunks-Advances n [] c q m e l =
      if_rule (Advances n) c.closed {x = finish conn c} (λ _. finish-Advances n c q (omega arith))
        (λ f. absurd (cc (q, f)))

  pub step_controls-Advances :
      (n : ℕ) (cs : List ControlFrame) (c : OutputCoalescer)
      → c.closed ≡ true
      → length c.controls ≡ length cs
      → load c + (weight c.out.timer + 3) ≤ n
      → Advances n (step_controls conn cs c)
  unfolding step_controls
  step_controls-Advances n (cf ∷ rest) c q e l = control_on n cf rest c q e (omega arith)
  step_controls-Advances n [] c q e l = record { closed = q; live = tt; less = omega arith }
