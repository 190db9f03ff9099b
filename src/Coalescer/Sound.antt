-- ===== src/Coalescer/Sound.antt =====
-- The rule for whole histories: what `IsKept` shows of the output stays true of it, with the chunks
-- that wait counted as bytes that have not reached it.
use termyard.Base.{
  ℕ, zero, suc, if_rule, if◌then◌else◌, Bool, true, false, List, [], ◌∷◌, ◌++◌, Option, none, some,
  length, append_assoc, append-nil, ◌≡◌, ◌⊎◌, refl, subst,
}
use termyard.Coalescer.Frames.{
  Bytes, Timer, idle, running, fired, ControlFrame, Connection, Output, stop_timer, append_chunk,
}
use termyard.Coalescer.{
  Place, at_pongs, at_chunks, at_controls, at_wait, closing, discarding, stopped, spins, crashed,
  OutputCoalescer, continue_at, appended, Choice, take_chunk, take_pong, take_control, take_tick,
  control_to, step_pongs, chunk_to, finish, step_chunks, step_controls, wait_chunks, wait_pongs,
  wait_controls, wait_tick, wait_case, or_case, or_blocked, step_wait,
}
use termyard.Coalescer.History.{joined}
use termyard.Coalescer.Room.{flush-buffered}
use termyard.Coalescer.Rounds.{append_chunk-none}
use termyard.Coalescer.Rule.{
  IsKept, IsGood, text-Good, flush-Good, append_chunk-Good, process_control-Good,
}

-- What the goroutine's place tells.
abbrev pub Fits : Place → OutputCoalescer → Type 0
Fits at_pongs c = Unit
Fits at_chunks c = Unit
Fits at_controls c = Unit
Fits at_wait c = Unit
Fits closing c = (c.closed ≡ true) × ((c.chunks ≡ []) × (length c.out.buffered ≡ 0))
Fits discarding c = c.write_failed ≡ true
Fits stopped c =
    (c.closed ≡ true) × ((c.chunks ≡ []) × ((length c.out.buffered ≡ 0) ⊎ (c.write_failed ≡ true)))
Fits spins c = c.out.max_frame ≡ 0
Fits crashed c = Unit

pub record IsSound (P : Bytes → Bytes → Output → Type 0) (B : ℕ → Type 0) (s : Bytes)
    (c : OutputCoalescer) : Type 0 where
  pub holds : P s (joined c.chunks) c.out
  pub failed : c.write_failed ≡ true → B c.out.writes
  pub place : Fits c.place c

pub joined-append : (xs : List Bytes) (x : Bytes) → joined (xs ++ (x ∷ [])) ≡ joined xs ++ x
joined-append [] x = append-nil x
joined-append (y ∷ xs) x = rw (joined-append xs x, append_assoc y (joined xs) x) refl

module _ (conn : Connection) (P : Bytes → Bytes → Output → Type 0) (B : ℕ → Type 0)
    (k : IsKept conn P B) where
  -- A case of the `select` that waits.
  abbrev IsCase : Bytes → Option OutputCoalescer → Type 0
  IsCase s (some d) = IsSound P B s d
  IsCase s none = Unit

  -- An operation of which `IsGood` holds, in a state that is sound but for its place.
  continue_at-Sound :
      (place : Place) (s : Bytes) (x : Output × Bool) (c : OutputCoalescer)
      → ((d : OutputCoalescer) → Fits place d)
      → (c.write_failed ≡ true → B c.out.writes)
      → IsGood P B c.out.writes s (joined c.chunks) x
      → IsSound P B s (continue_at place x c)
  continue_at-Sound place s (o, true) c fit f g = record {
    holds = g.holds;
    failed = λ q. k.later c.out.writes o.writes g.since (f q);
    place = fit (continue_at place (o, true) c);
  }
  continue_at-Sound place s (o, false) c fit f g = record {
    holds = g.holds;
    failed = λ q. g.failed refl;
    place = fit (continue_at place (o, false) c);
  }

  pub moved :
      (place : Place) (s : Bytes) (c : OutputCoalescer)
      → IsSound P B s c
      → Fits place (record c { place = place })
      → IsSound P B s (record c { place = place })
  moved place s c h fit = record { holds = h.holds; failed = h.failed; place = fit }

  -- The places without a condition that a chunk can lead to.
  chunk_to-Sound :
      (place : Place) (s : Bytes) (chunk : Bytes) (rest : List Bytes) (c : OutputCoalescer)
      → ((d : OutputCoalescer) → Fits place d)
      → c.chunks ≡ chunk ∷ rest
      → IsSound P B s c
      → IsSound P B s (chunk_to conn place chunk rest c)
  unfolding chunk_to
  chunk_to-Sound place s chunk rest c fit q h =
      let p : P s (chunk ++ joined rest) c.out = subst (λ m. P s (joined m) c.out) q h.holds in
      elim (append_chunk conn chunk c.out)
          as (λ r. append_chunk conn chunk c.out ≡ r → IsSound P B s (appended place r rest c)) [
            | none ↦ λ e. moved spins s c h (append_chunk-none conn chunk c.out e)
            | some y ↦ λ e.
                continue_at-Sound place s y (record c { chunks = rest }) fit h.failed
                  (append_chunk-Good conn P B k s (joined rest) chunk c.out y p e)
          ]
        refl

  finish-Sound :
      (s : Bytes) (c : OutputCoalescer)
      → c.closed ≡ true
      → c.chunks ≡ []
      → IsSound P B s c
      → IsSound P B s (finish conn c)
  unfolding finish
  finish-Sound s c q e h =
      let g =
        flush-Good conn P B k s (joined c.chunks) (stop_timer c.out)
          (k.timers s (joined c.chunks) idle c.out h.holds) in
      record {
        holds = g.holds;
        failed = λ f. k.later c.out.writes _ g.since (h.failed f);
        place = (q, (e, flush-buffered conn (stop_timer c.out)));
      }

  pub step_pongs-Sound :
      (s : Bytes) (n : ℕ) (c : OutputCoalescer)
      → IsSound P B s c
      → IsSound P B s (step_pongs conn n c)
  unfolding step_pongs
  step_pongs-Sound s (suc n) c h =
      continue_at-Sound at_pongs s _ (record c { pongs = n }) (λ d. tt) h.failed
        (text-Good conn P B k s (joined c.chunks) _ c.out h.holds)
  step_pongs-Sound s zero c h =
      elim c.write_failed
          as (λ b.
            c.write_failed ≡ b
            → IsSound P B s (record c { place = if b then discarding else at_chunks })) [
              | true ↦ λ e. moved discarding s c h e
              | false ↦ λ e. moved at_chunks s c h tt
            ]
        refl

  pub step_chunks-Sound :
      (s : Bytes) (ch : List Bytes) (c : OutputCoalescer)
      → c.chunks ≡ ch
      → IsSound P B s c
      → IsSound P B s (step_chunks conn ch c)
  unfolding step_chunks
  step_chunks-Sound s (chunk ∷ rest) c e h = chunk_to-Sound at_chunks s chunk rest c (λ d. tt) e h
  step_chunks-Sound s [] c e h =
      if_rule (IsSound P B s) c.closed {x = finish conn c} (λ q. finish-Sound s c q e h)
        (λ q. moved at_controls s c h tt)

  control_to-Sound :
      (s : Bytes) (cf : ControlFrame) (rest : List ControlFrame) (c : OutputCoalescer)
      → IsSound P B s c
      → IsSound P B s (control_to conn (continue_at at_pongs) cf rest c)
  control_to-Sound s cf rest c h =
      continue_at-Sound at_pongs s _ (record c { controls = rest }) (λ d. tt) h.failed
        (process_control-Good conn P B k s (joined c.chunks) cf c.out h.holds)

  pub step_controls-Sound :
      (s : Bytes) (cs : List ControlFrame) (c : OutputCoalescer)
      → IsSound P B s c
      → IsSound P B s (step_controls conn cs c)
  unfolding step_controls
  step_controls-Sound s (cf ∷ rest) c h = control_to-Sound s cf rest c h
  step_controls-Sound s [] c h = moved at_wait s c h tt

  wait_chunks-Sound :
      (s : Bytes) (ch : List Bytes) (c : OutputCoalescer)
      → c.chunks ≡ ch
      → IsSound P B s c
      → IsCase s (wait_chunks conn ch c)
  unfolding wait_chunks
  wait_chunks-Sound s (chunk ∷ rest) c e h = chunk_to-Sound at_pongs s chunk rest c (λ d. tt) e h
  wait_chunks-Sound s [] c e h =
      if_rule (IsCase s) c.closed {x = some (finish conn c)} {y = none}
        (λ q. finish-Sound s c q e h) (λ q. tt)

  wait_pongs-Sound :
      (s : Bytes) (n : ℕ) (c : OutputCoalescer) → IsSound P B s c → IsCase s (wait_pongs conn n c)
  wait_pongs-Sound s (suc n) c h =
      continue_at-Sound at_pongs s _ (record c { pongs = n }) (λ d. tt) h.failed
        (text-Good conn P B k s (joined c.chunks) _ c.out h.holds)
  wait_pongs-Sound s zero c h = tt

  wait_controls-Sound :
      (s : Bytes) (cs : List ControlFrame) (c : OutputCoalescer)
      → IsSound P B s c
      → IsCase s (wait_controls conn cs c)
  wait_controls-Sound s (cf ∷ rest) c h = control_to-Sound s cf rest c h
  wait_controls-Sound s [] c h = tt

  wait_tick-Sound :
      (s : Bytes) (t : Timer) (c : OutputCoalescer)
      → IsSound P B s c
      → IsCase s (wait_tick conn t c)
  wait_tick-Sound s fired c h =
      continue_at-Sound at_pongs s _ c (λ d. tt) h.failed
        (flush-Good conn P B k s (joined c.chunks) (stop_timer c.out)
          (k.timers s (joined c.chunks) idle c.out h.holds))
  wait_tick-Sound s running c h = tt
  wait_tick-Sound s idle c h = tt

  wait_case-Sound :
      (s : Bytes) (choice : Choice) (c : OutputCoalescer)
      → IsSound P B s c
      → IsCase s (wait_case conn choice c)
  wait_case-Sound s take_chunk c h = wait_chunks-Sound s c.chunks c refl h
  wait_case-Sound s take_pong c h = wait_pongs-Sound s c.pongs c h
  wait_case-Sound s take_control c h = wait_controls-Sound s c.controls c h
  wait_case-Sound s take_tick c h = wait_tick-Sound s c.out.timer c h

  or_case-Sound :
      (s : Bytes) (o p : Option OutputCoalescer) → IsCase s o → IsCase s p → IsCase s (or_case o p)
  or_case-Sound s (some d) p h k = h
  or_case-Sound s none p h k = k

  or_blocked-Sound :
      (s : Bytes) (c : OutputCoalescer) (o : Option OutputCoalescer)
      → IsSound P B s c
      → IsCase s o
      → IsSound P B s (or_blocked c o)
  or_blocked-Sound s c (some d) h k = k
  or_blocked-Sound s c none h k = h

  pub step_wait-Sound :
      (s : Bytes) (choice : Choice) (c : OutputCoalescer)
      → IsSound P B s c
      → IsSound P B s (step_wait conn choice c)
  unfolding step_wait
  step_wait-Sound s choice c h =
      let on : (choice : Choice) → IsCase s (wait_case conn choice c) =
        λ choice. wait_case-Sound s choice c h in
      or_blocked-Sound s c _ h (
        or_case-Sound s _ _ (on choice) (
          or_case-Sound s _ _ (on take_chunk) (
            or_case-Sound s _ _ (on take_pong)
              (or_case-Sound s _ _ (on take_control) (on take_tick)))))
