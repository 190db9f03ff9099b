-- ===== src/Coalescer/Traces.antt =====
-- The rule for histories, continued: the callers, the timer, and whole runs.
use termyard.Base.{
  ℕ, suc, ltb, if_rule, if◌then◌else◌, true, false, List, [], ◌∷◌, ◌++◌, length, append_assoc,
  append-nil, ◌≡◌, inl, inr, refl, sym, ◌∙◌, subst, ap,
}
use termyard.Coalescer.Frames.{Bytes, ControlFrame, Connection, Output}
use termyard.Coalescer.{
  Place, at_pongs, at_chunks, at_controls, at_wait, closing, discarding, stopped, spins, crashed,
  OutputCoalescer, output_queue_capacity, new_output, new_output_coalescer, submit, request_pong,
  send_control, submit_control, close_chunks, tick, fire,
}
use termyard.Coalescer.History.{
  Action, submits, asks_pong, submits_control, sends_control, closes, fires, takes_step, handle,
  run, taken, submitted, joined,
}
use termyard.Coalescer.Rule.{IsKept}
use termyard.Coalescer.Sound.{Fits, IsSound, joined-append}
use termyard.Coalescer.Runs.{step-Sound}

-- What the place tells stays true while the channel of the open coalescer fills.
Fits-grow :
    (place : Place) (chunks : List Bytes) (c : OutputCoalescer)
    → c.closed ≡ false
    → Fits place c
    → Fits place (record c { chunks = chunks })
Fits-grow at_pongs chunks c q f = tt
Fits-grow at_chunks chunks c q f = tt
Fits-grow at_controls chunks c q f = tt
Fits-grow at_wait chunks c q f = tt
Fits-grow closing chunks c q f = absurd (cc (q, f.0))
Fits-grow discarding chunks c q f = f
Fits-grow stopped chunks c q f = absurd (cc (q, f.0))
Fits-grow spins chunks c q f = f
Fits-grow crashed chunks c q f = tt

-- What the place tells is about a few fields.
Fits-same :
    (place : Place) (c d : OutputCoalescer)
    → (c.closed ≡ true → d.closed ≡ true)
    → c.chunks ≡ d.chunks
    → c.out.buffered ≡ d.out.buffered
    → c.out.max_frame ≡ d.out.max_frame
    → c.write_failed ≡ d.write_failed
    → Fits place c
    → Fits place d
Fits-same at_pongs c d p q r m w f = tt
Fits-same at_chunks c d p q r m w f = tt
Fits-same at_controls c d p q r m w f = tt
Fits-same at_wait c d p q r m w f = tt
Fits-same closing c d p q r m w f = (p f.0, (sym q ∙ f.1.0, ap length (sym r) ∙ f.1.1))
Fits-same discarding c d p q r m w f = sym w ∙ f
Fits-same stopped c d p q r m w f = (
  p f.0,
  (sym q ∙ f.1.0, elim f.1.1 [ inl l ↦ inl (ap length (sym r) ∙ l) | inr m ↦ inr (sym w ∙ m) ]),
)
Fits-same spins c d p q r m w f = sym m ∙ f
Fits-same crashed c d p q r m w f = tt

module _ (conn : Connection) (P : Bytes → Bytes → Output → Type 0) (B : ℕ → Type 0)
    (k : IsKept conn P B) where
  none_taken : (s : Bytes) (c : OutputCoalescer) → IsSound P B s c → IsSound P B (s ++ []) c
  none_taken s c h = subst (λ s. IsSound P B s c) (sym (append-nil s)) h

  submit-Sound :
      (s chunk : Bytes) (c : OutputCoalescer)
      → IsSound P B s c
      → IsSound P B (s ++ taken (submits chunk) c) (submit chunk c)
  unfolding submit
  submit-Sound s chunk c h =
      let full = ltb (length c.chunks) output_queue_capacity in
      let next = record c { chunks = c.chunks ++ (chunk ∷ []) } in
      elim c.closed
          as (λ b.
            c.closed ≡ b
            → IsSound P B (s ++ (if b then [] else if full then chunk else []))
                (if b then record c { place = crashed } else if full then next else c)) [
                  | true ↦ λ e.
                      none_taken s (record c { place = crashed })
                        (record { holds = h.holds; failed = h.failed; place = tt })
                  | false ↦ λ e.
                      elim full
                        as (λ b.
                          IsSound P B (s ++ (if b then chunk else [])) (if b then next else c)) [
                            | true ↦ record {
                              holds =
                                  subst (λ r. P (s ++ chunk) r c.out)
                                    (sym (joined-append c.chunks chunk))
                                    (k.grows s (joined c.chunks) chunk c.out h.holds);
                              failed = h.failed;
                              place = Fits-grow c.place (c.chunks ++ (chunk ∷ [])) c e h.place;
                            }
                            | false ↦ none_taken s c h
                          ]
                ]
        refl

  request_pong-Sound :
      (s : Bytes) (c : OutputCoalescer) → IsSound P B s c → IsSound P B s (request_pong c)
  unfolding request_pong
  request_pong-Sound s c h =
      if_rule (IsSound P B s) (ltb c.pongs 4) {x = record c { pongs = suc c.pongs }} {y = c}
        (λ _. record {
          holds = h.holds;
          failed = h.failed;
          place =
              Fits-same c.place c (record c { pongs = suc c.pongs }) (λ e. e) refl refl refl refl
                h.place;
        })
        (λ _. h)

  send_control-Sound :
      (s : Bytes) (cf : ControlFrame) (c : OutputCoalescer)
      → IsSound P B s c
      → IsSound P B s (send_control cf c)
  unfolding send_control
  send_control-Sound s cf c h =
      let next = record c { controls = c.controls ++ (cf ∷ []) } in
      if_rule (IsSound P B s) (ltb (length c.controls) 8) {x = next} {y = c}
        (λ _. record {
          holds = h.holds;
          failed = h.failed;
          place = Fits-same c.place c next (λ e. e) refl refl refl refl h.place;
        })
        (λ _. h)

  submit_control-Sound :
      (s : Bytes) (cf : ControlFrame) (c : OutputCoalescer)
      → IsSound P B s c
      → IsSound P B s (submit_control cf c)
  unfolding submit_control
  submit_control-Sound s cf c h =
      if_rule (IsSound P B s) c.closed {x = c} {y = send_control cf c} (λ _. h)
        (λ _. send_control-Sound s cf c h)

  close_chunks-Sound :
      (s : Bytes) (c : OutputCoalescer) → IsSound P B s c → IsSound P B s (close_chunks c)
  unfolding close_chunks
  close_chunks-Sound s c h = record {
    holds = h.holds;
    failed = h.failed;
    place =
        Fits-same c.place c (record c { closed = true }) (λ e. refl) refl refl refl refl h.place;
  }

  pub fire-Sound : (s : Bytes) (c : OutputCoalescer) → IsSound P B s c → IsSound P B s (fire c)
  unfolding fire
  fire-Sound s c h =
      let out = record c.out { timer = tick c.out.timer } in
      record {
        holds = k.timers s (joined c.chunks) (tick c.out.timer) c.out h.holds;
        failed = h.failed;
        place = Fits-same c.place c (record c { out = out }) (λ e. e) refl refl refl refl h.place;
      }

  handle-Sound :
      (s : Bytes) (e : Action) (c : OutputCoalescer)
      → IsSound P B s c
      → IsSound P B (s ++ taken e c) (handle conn e c)
  handle-Sound s (submits chunk) c h = submit-Sound s chunk c h
  handle-Sound s asks_pong c h = none_taken s (request_pong c) (request_pong-Sound s c h)
  handle-Sound s (submits_control cf) c h =
      none_taken s (submit_control cf c) (submit_control-Sound s cf c h)
  handle-Sound s (sends_control cf) c h =
      none_taken s (send_control cf c) (send_control-Sound s cf c h)
  handle-Sound s closes c h = none_taken s (close_chunks c) (close_chunks-Sound s c h)
  handle-Sound s fires c h = none_taken s (fire c) (fire-Sound s c h)
  handle-Sound s (takes_step choice) c h = none_taken s _ (step-Sound conn P B k s choice c h)

  pub run-Sound :
      (s : Bytes) (es : List Action) (c : OutputCoalescer)
      → IsSound P B s c
      → IsSound P B (s ++ submitted conn es c) (run conn es c)
  unfolding run submitted
  run-Sound s [] c h = none_taken s c h
  run-Sound s (e ∷ es) c h =
      subst (λ s. IsSound P B s (run conn es (handle conn e c)))
        (append_assoc s (taken e c) (submitted conn es (handle conn e c)))
        (run-Sound (s ++ taken e c) es (handle conn e c) (handle-Sound s e c h))

  pub new-Sound :
      (max_frame : ℕ)
      → P [] [] (new_output max_frame)
      → IsSound P B [] (new_output_coalescer max_frame)
  new-Sound max_frame h = record { holds = h; failed = λ q. absurd (cc q); place = tt }
