-- ===== src/Coalescer/Runs.antt =====
-- The rule for histories: the loop after the chunks are closed, the callers, and whole runs.
use termyard.Base.{
  ℕ, zero, suc, if_rule, Bool, true, false, List, [], ◌∷◌, length, ◌≡◌, inl, inr, refl, sym, ◌∙◌,
  subst, ap,
}
use termyard.Coalescer.Frames.{Bytes, ControlFrame, Connection, Output}
use termyard.Coalescer.{
  Place, at_pongs, at_chunks, at_controls, at_wait, closing, discarding, stopped, spins, crashed,
  OutputCoalescer, return_unless, pong_frame, Choice, take_chunk, take_pong, take_control,
  take_tick, pong_to, control_to, step_closing, step_discard, step_at, step,
}
use termyard.Coalescer.History.{joined}
use termyard.Coalescer.Room.{write_frame-buffered, process_control-buffered}
use termyard.Coalescer.Rule.{IsKept, IsGood, text-Good, process_control-Good}
use termyard.Coalescer.Sound.{
  Fits, IsSound, moved, step_pongs-Sound, step_chunks-Sound, step_controls-Sound, step_wait-Sound,
}

module _ (conn : Connection) (P : Bytes → Bytes → Output → Type 0) (B : ℕ → Type 0)
    (k : IsKept conn P B) where
  return_unless-Sound :
      (s : Bytes) (x : Output × Bool) (c : OutputCoalescer)
      → (c.closed ≡ true) × ((c.chunks ≡ []) × (length x.0.buffered ≡ 0))
      → (c.write_failed ≡ true → B c.out.writes)
      → IsGood P B c.out.writes s (joined c.chunks) x
      → IsSound P B s (return_unless x c)
  return_unless-Sound s (o, true) c fit f g = record {
    holds = g.holds;
    failed = λ q. k.later c.out.writes o.writes g.since (f q);
    place = fit;
  }
  return_unless-Sound s (o, false) c fit f g = record {
    holds = g.holds;
    failed = λ q. k.later c.out.writes o.writes g.since (f q);
    place = (fit.0, (fit.1.0, inl fit.1.1));
  }

  close_pong :
      (s : Bytes) (n : ℕ) (c : OutputCoalescer)
      → Fits closing c
      → IsSound P B s c
      → IsSound P B s (pong_to conn return_unless n c)
  close_pong s n c (q, (e, l)) h =
      return_unless-Sound s _ (record c { pongs = n })
        (q, (e, ap length (write_frame-buffered conn pong_frame c.out) ∙ l)) h.failed
        (text-Good conn P B k s (joined c.chunks) _ c.out h.holds)

  close_control :
      (s : Bytes) (cf : ControlFrame) (rest : List ControlFrame) (c : OutputCoalescer)
      → Fits closing c
      → IsSound P B s c
      → IsSound P B s (control_to conn return_unless cf rest c)
  close_control s cf rest c (q, (e, l)) h =
      return_unless-Sound s _ (record c { controls = rest })
        (q, (e, process_control-buffered conn cf c.out)) h.failed
        (process_control-Good conn P B k s (joined c.chunks) cf c.out h.holds)

  step_closing-Sound :
      (s : Bytes) (choice : Choice) (n : ℕ) (cs : List ControlFrame) (c : OutputCoalescer)
      → Fits closing c
      → IsSound P B s c
      → IsSound P B s (step_closing conn choice n cs c)
  unfolding step_closing
  step_closing-Sound s choice zero [] c (q, (e, l)) h =
      moved conn P B k stopped s c h (q, (e, inl l))
  step_closing-Sound s choice (suc n) [] c f h = close_pong s n c f h
  step_closing-Sound s choice zero (cf ∷ rest) c f h = close_control s cf rest c f h
  step_closing-Sound s take_control (suc n) (cf ∷ rest) c f h = close_control s cf rest c f h
  step_closing-Sound s take_pong (suc n) (cf ∷ rest) c f h = close_pong s n c f h
  step_closing-Sound s take_chunk (suc n) (cf ∷ rest) c f h = close_pong s n c f h
  step_closing-Sound s take_tick (suc n) (cf ∷ rest) c f h = close_pong s n c f h

  step_discard-Sound :
      (s : Bytes) (ch : List Bytes) (c : OutputCoalescer)
      → c.chunks ≡ ch
      → c.place ≡ discarding
      → c.write_failed ≡ true
      → IsSound P B s c
      → IsSound P B s (step_discard conn ch c)
  unfolding step_discard
  step_discard-Sound s (chunk ∷ rest) c e p q h = record {
    holds = k.drops s (joined c.chunks) (joined rest) c.out (h.failed q) h.holds;
    failed = h.failed;
    place = subst (λ place. Fits place (record c { chunks = rest })) (sym p) q;
  }
  step_discard-Sound s [] c e p q h =
      if_rule (IsSound P B s) c.closed {x = record c { place = stopped }}
        (λ d. moved conn P B k stopped s c h (d, (e, inr q))) (λ _. h)

  step_at-Sound :
      (s : Bytes) (place : Place) (choice : Choice) (c : OutputCoalescer)
      → c.place ≡ place
      → Fits place c
      → IsSound P B s c
      → IsSound P B s (step_at conn place choice c)
  unfolding step_at
  step_at-Sound s at_pongs choice c e f h = step_pongs-Sound conn P B k s c.pongs c h
  step_at-Sound s at_chunks choice c e f h = step_chunks-Sound conn P B k s c.chunks c refl h
  step_at-Sound s at_controls choice c e f h = step_controls-Sound conn P B k s c.controls c h
  step_at-Sound s at_wait choice c e f h = step_wait-Sound conn P B k s choice c h
  step_at-Sound s closing choice c e f h = step_closing-Sound s choice c.pongs c.controls c f h
  step_at-Sound s discarding choice c e f h = step_discard-Sound s c.chunks c refl e f h
  step_at-Sound s stopped choice c e f h = h
  step_at-Sound s spins choice c e f h = h
  step_at-Sound s crashed choice c e f h = h

  pub step-Sound :
      (s : Bytes) (choice : Choice) (c : OutputCoalescer)
      → IsSound P B s c
      → IsSound P B s (step conn choice c)
  unfolding step
  step-Sound s choice c h = step_at-Sound s c.place choice c refl h.place h
