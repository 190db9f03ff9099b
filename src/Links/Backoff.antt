-- ===== src/Links/Backoff.antt =====
-- The waiting times of `runReconnector`, in nanoseconds.
use termyard.Base.{
  ℕ, suc, ◌+◌, ◌-◌, ◌*◌, ◌/◌, ◌≤◌, ◌<◌, ltb, ◌==◌, if_rule, if◌then◌else◌, List, [], ◌∷◌, All,
  arith,
}

abbrev pub second : ℕ
second = 1000000000

abbrev pub max_backoff : ℕ
max_backoff = 30 * second

-- `d + jitter(d)`, where `draw n` is what `rand.Int63n(n)` returned.
unfoldable pub jittered : (ℕ → ℕ) → ℕ → ℕ
jittered draw d = let spread = d / 4 in if spread == 0 then d else (d + draw (spread * 2)) - spread

-- `backoff` once the dial cycle that lasted `up` is over.
unfoldable pub after_dial : ℕ → ℕ → ℕ
after_dial up backoff = if ltb max_backoff up then second else backoff

-- `backoff` after the timer.
unfoldable pub doubled : ℕ → ℕ
doubled backoff = if ltb max_backoff (backoff * 2) then max_backoff else backoff * 2

-- How long `runReconnector` sleeps after each dial cycle, from the `i`-th on and from how long each
-- lasted.
unfoldable pub sleeps : (ℕ → ℕ → ℕ) → ℕ → ℕ → List ℕ → List ℕ
sleeps draws i backoff [] = []
sleeps draws i backoff (up ∷ ups) =
    let b = after_dial up backoff in jittered (draws i) b ∷ sleeps draws (suc i) (doubled b) ups

InRange : ℕ → Type 0
InRange b = (second ≤ b) × (b ≤ max_backoff)

after_dial-InRange : (up b : ℕ) → InRange b → InRange (after_dial up b)
unfolding after_dial InRange
after_dial-InRange up b (l, u) =
    if_rule InRange (ltb max_backoff up) (λ _. (omega arith, omega arith)) (λ _. (l, u))

doubled-InRange : (b : ℕ) → InRange b → InRange (doubled b)
unfolding doubled InRange
doubled-InRange b (l, u) =
    if_rule InRange (ltb max_backoff (b * 2)) (λ _. (omega arith, omega arith))
      (λ q. (omega arith, ground (arith, q)))

-- Between three quarters and five quarters.
abbrev pub IsNear : ℕ → Type 0
IsNear t = (3 * second ≤ 4 * t) × (4 * t ≤ 5 * max_backoff)

jittered-Near :
    (draw : ℕ → ℕ) (b : ℕ) → ((n : ℕ) → 0 < n → draw n < n) → InRange b → IsNear (jittered draw b)
unfolding jittered InRange
jittered-Near draw b h (l, u) =
    let r = h (b / 4 * 2) (omega arith) in
    if_rule IsNear (b / 4 == 0) (λ _. (omega arith, omega arith)) (λ _. (omega arith, omega arith))

sleeps-Near :
    (draws : ℕ → ℕ → ℕ) (i b : ℕ) (ups : List ℕ)
    → ((k n : ℕ) → 0 < n → draws k n < n)
    → InRange b
    → All IsNear (sleeps draws i b ups)
unfolding sleeps
sleeps-Near draws i b [] h r = tt
sleeps-Near draws i b (up ∷ ups) h r =
    let j = after_dial-InRange up b r in
    (
      jittered-Near (draws i) (after_dial up b) (h i) j,
      sleeps-Near draws (suc i) (doubled (after_dial up b)) ups h
          (doubled-InRange (after_dial up b) j),
    )

-- When a draw below `n` is below `n`, `runReconnector` never sleeps for less than three quarters of a
-- second or more than thirty-seven and a half seconds, whatever the dial cycles before lasted.
pub sleeps-Bounded :
    (draws : ℕ → ℕ → ℕ) (ups : List ℕ)
    → ((k n : ℕ) → 0 < n → draws k n < n)
    → All IsNear (sleeps draws 0 second ups)
unfolding InRange
sleeps-Bounded draws ups h = sleeps-Near draws 0 second ups h (omega arith, omega arith)
