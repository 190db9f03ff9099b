-- ===== src/Coalescer/Close.antt =====
-- `CloseAndFlush`: it waits for the goroutine, which comes to its end by itself, whatever its selects
-- choose.
use termyard.Base.{
  ℕ, zero, suc, ◌≤◌, ◌<◌, true, List, [], ◌∷◌, ◌++◌, length, append-nil, ◌≡◌, inl, inr, refl, sym,
  ◌∙◌, subst, ap, arith,
}
use termyard.Coalescer.Frames.{Bytes, Connection, Output}
use termyard.Coalescer.{
  Place, at_pongs, at_chunks, at_controls, at_wait, closing, discarding, stopped, spins, crashed,
  OutputCoalescer, new_output_coalescer, fire, Choice, step, step_at,
}
use termyard.Coalescer.History.{Action, run, submitted, bytes_of, joined}
use termyard.Coalescer.Rule.{IsKept}
use termyard.Coalescer.Sound.{Fits, IsSound}
use termyard.Coalescer.Runs.{step-Sound}
use termyard.Coalescer.Traces.{run-Sound, new-Sound, fire-Sound}
use termyard.Coalescer.Bounds.{IsBounded, bounds, run-Sized}
use termyard.Coalescer.Delivery.{HasFailed, Delivers, delivery}
use termyard.Coalescer.Measure.{rank, measure, weight-tick}
use termyard.Coalescer.Stops.{IsLive}
use termyard.Coalescer.Selects.{step-Advances}

-- What still happens when no caller acts: a step of the goroutine, in which a `select` takes this case
-- if it can, and the timer.
pub data Move : Type 0 where
  takes : Choice → Move
  ticks : Move

abbrev pub move : Connection → Move → OutputCoalescer → OutputCoalescer
move conn (takes choice) c = step conn choice c
move conn ticks c = fire c

unfoldable pub moves : Connection → List Move → OutputCoalescer → OutputCoalescer
moves conn [] c = c
moves conn (m ∷ ms) c = moves conn ms (move conn m c)

-- The steps of the goroutine among the moves.
abbrev pub steps_of : List Move → ℕ
steps_of [] = 0
steps_of (takes choice ∷ ms) = suc (steps_of ms)
steps_of (ticks ∷ ms) = steps_of ms

at_end : (place : Place) → IsLive place → rank place ≤ 0 → place ≡ stopped
at_end at_pongs v l = absurd (omega arith)
at_end at_chunks v l = absurd (omega arith)
at_end at_controls v l = absurd (omega arith)
at_end at_wait v l = absurd (omega arith)
at_end closing v l = absurd (omega arith)
at_end discarding v l = absurd (omega arith)
at_end stopped v l = refl
at_end spins v l = absurd v
at_end crashed v l = absurd v

move-stopped :
    (conn : Connection) (m : Move) (c : OutputCoalescer)
    → c.place ≡ stopped
    → (move conn m c).place ≡ stopped
unfolding step step_at fire
move-stopped conn (takes choice) c e = ap (λ place. (step_at conn place choice c).place) e ∙ e
move-stopped conn ticks c e = e

moves-stopped :
    (conn : Connection) (ms : List Move) (c : OutputCoalescer)
    → c.place ≡ stopped
    → (moves conn ms c).place ≡ stopped
unfolding moves
moves-stopped conn [] c e = e
moves-stopped conn (m ∷ ms) c e = moves-stopped conn ms (move conn m c) (move-stopped conn m c e)

module _ (conn : Connection) (P : Bytes → Bytes → Output → Type 0) (B : ℕ → Type 0)
    (k : IsKept conn P B) where
  move-Sound :
      (m : Move) (s : Bytes) (c : OutputCoalescer) → IsSound P B s c → IsSound P B s (move conn m c)
  move-Sound (takes choice) s c h = step-Sound conn P B k s choice c h
  move-Sound ticks s c h = fire-Sound conn P B k s c h

  moves-Sound :
      (ms : List Move) (s : Bytes) (c : OutputCoalescer)
      → IsSound P B s c
      → IsSound P B s (moves conn ms c)
  unfolding moves
  moves-Sound [] s c h = h
  moves-Sound (m ∷ ms) s c h = moves-Sound ms s (move conn m c) (move-Sound m s c h)

fire-measure : (c : OutputCoalescer) → measure (fire c) ≤ measure c
unfolding fire
fire-measure c = let w = weight-tick c.out.timer in omega arith

fire-Live : (c : OutputCoalescer) → IsLive c.place → IsLive (fire c).place
unfolding fire
fire-Live c v = v

fire-closed : (c : OutputCoalescer) → (fire c).closed ≡ c.closed
unfolding fire
fire-closed c = refl

-- Enough steps from a closed coalescer that is not stuck.
module _ (conn : Connection) (m : ℕ) (pos : 0 < m) where
  moves-end :
      (ms : List Move) (s : Bytes) (c : OutputCoalescer)
      → IsSound (λ s r o. IsBounded m o) (λ n. Unit) s c
      → c.closed ≡ true
      → IsLive c.place
      → measure c ≤ steps_of ms
      → (moves conn ms c).place ≡ stopped
  unfolding moves
  moves-end [] s c h q v l = at_end c.place v (omega arith)
  moves-end (ticks ∷ ms) s c h q v l =
      let f = fire-measure c in
      moves-end ms s (fire c) (fire-Sound conn _ _ (bounds m conn) s c h) (fire-closed c ∙ q)
        (fire-Live c v) (omega arith)
  moves-end (takes choice ∷ ms) s c h q v l =
      elim (rank c.place)
          as (λ r. rank c.place ≡ r → (moves conn ms (step conn choice c)).place ≡ stopped) [
            | zero ↦ λ e. moves-stopped conn (takes choice ∷ ms) c (at_end c.place v (omega arith))
            | suc r ↦ λ e.
                let a =
                  step-Advances conn choice c q (omega (arith, h.holds.limit)) v (omega arith) in
                moves-end ms s (step conn choice c)
                  (step-Sound conn _ _ (bounds m conn) s choice c h) a.closed a.live
                  (omega (arith, a.less))
          ]
        refl

  live_place :
      (place : Place) (c : OutputCoalescer)
      → Fits place c
      → c.out.max_frame ≡ m
      → ¬ (place ≡ crashed)
      → IsLive place
  live_place at_pongs c f e n = tt
  live_place at_chunks c f e n = tt
  live_place at_controls c f e n = tt
  live_place at_wait c f e n = tt
  live_place closing c f e n = tt
  live_place discarding c f e n = tt
  live_place stopped c f e n = tt
  live_place spins c f e n = omega arith
  live_place crashed c f e n = n refl

-- Frames may have a byte. After any history of a new coalescer whose chunks are closed, and in which
-- nobody submitted after that, the goroutine reaches its end once it has taken `measure` steps or
-- more, whichever case every `select` takes, whenever the timer ticks in between, and also when
-- writes fail.
pub moves-Stopped :
    (conn : Connection) (max_frame : ℕ) (es : List Action) (ms : List Move)
    → 0 < max_frame
    → (run conn es (new_output_coalescer max_frame)).closed ≡ true
    → ¬ ((run conn es (new_output_coalescer max_frame)).place ≡ crashed)
    → measure (run conn es (new_output_coalescer max_frame)) ≤ steps_of ms
    → (moves conn ms (run conn es (new_output_coalescer max_frame))).place ≡ stopped
moves-Stopped conn m es ms pos q n l =
    let c = run conn es (new_output_coalescer m) in
    let h = run-Sized m conn es in
    moves-end conn m pos ms (submitted conn es (new_output_coalescer m)) c h q
      (live_place conn m pos c.place c h.place h.holds.limit n) l

empty : (xs : Bytes) → length xs ≡ 0 → xs ≡ []
empty [] e = refl
empty (x ∷ xs) e = absurd (omega arith)

delivered :
    (conn : Connection) (s : Bytes) (c : OutputCoalescer)
    → ((n : ℕ) → conn.accepts n ≡ true)
    → c.place ≡ stopped
    → IsSound (Delivers conn) (HasFailed conn) s c
    → bytes_of c.out.sent ≡ s
delivered conn s c ok p h =
    let (q, (e, f)) = subst (λ place. Fits place c) p h.place in
    let never : HasFailed conn c.out.writes → ⊥ =
      λ b. absurd (cc (b c.out.writes (omega arith), ok c.out.writes)) in
    let b : c.out.buffered ≡ [] = elim f [
      | inl l ↦ empty c.out.buffered l
      | inr w ↦ absurd (never (h.failed w))
    ] in
    let z : c.out.buffered ++ joined c.chunks ≡ [] = rw (b, e) refl in
    elim h.holds [
      | inl d ↦
          sym (append-nil (bytes_of c.out.sent)) ∙ ap (λ z. bytes_of c.out.sent ++ z) (sym z) ∙ d
      | inr (d, r) ↦ absurd (never d)
    ]

-- Frames may have a byte, and the connection accepts every write. After any history of a new
-- coalescer whose chunks are closed, and in which nobody submitted after that, once the goroutine has
-- taken `measure` steps or more the binary frames carry exactly the submitted bytes, in order,
-- whichever case every `select` takes and whenever the timer ticks in between.
pub moves-Delivers :
    (conn : Connection) (max_frame : ℕ) (es : List Action) (ms : List Move)
    → 0 < max_frame
    → ((n : ℕ) → conn.accepts n ≡ true)
    → (run conn es (new_output_coalescer max_frame)).closed ≡ true
    → ¬ ((run conn es (new_output_coalescer max_frame)).place ≡ crashed)
    → measure (run conn es (new_output_coalescer max_frame)) ≤ steps_of ms
    → bytes_of (moves conn ms (run conn es (new_output_coalescer max_frame))).out.sent
      ≡ submitted conn es (new_output_coalescer max_frame)
moves-Delivers conn m es ms pos ok q n l =
    let c = run conn es (new_output_coalescer m) in
    let s = submitted conn es (new_output_coalescer m) in
    let k = delivery conn (λ i j l e. absurd (cc (e, ok i))) in
    let h = run-Sound conn _ _ k [] es _ (new-Sound conn _ _ k m (inl refl)) in
    delivered conn s (moves conn ms c) ok (moves-Stopped conn m es ms pos q n l)
      (moves-Sound conn _ _ k ms s c h)
