-- ===== src/Streams/History.antt =====
-- Any sequence of registrations, claims, expiries and time-outs, and the streams that claims get.
use termyard.Base.{ℕ, List, [], ◌∷◌, ◌++◌, Option, none, some, Str}
use termyard.Streams.{
  PendingStream, PendingWaiter, StreamRegistry, Message, sent, closed, drains, ClaimResult, got,
  not_found, wrong_peer, waits, register, claim, woken, expire, remove_waiter,
}

-- A claim with this fingerprint gets the stream.
pub record Delivery : Type 0 where
  pub token : Str
  pub fingerprint : Str
  pub ps : PendingStream

abbrev pub delivery : Str → Str → PendingStream → Delivery
delivery token fingerprint ps = record { token = token; fingerprint = fingerprint; ps = ps }

unfoldable pub gives : Str → Str → ClaimResult → List Delivery
gives token fingerprint (got ps) = delivery token fingerprint ps ∷ []
gives token fingerprint not_found = []
gives token fingerprint wrong_peer = []
gives token fingerprint (waits w) = []

-- The waiter that is sent a stream wakes up with it.
unfoldable pub wakes : Str → List Message → List Delivery
unfolding gives woken
wakes token [] = []
wakes token (sent w ps ∷ ms) =
    gives token w.fingerprint (woken w.fingerprint (some ps)) ++ wakes token ms
wakes token (closed w ∷ ms) = gives token w.fingerprint (woken w.fingerprint none) ++ wakes token ms
wakes token (drains ps ∷ ms) = wakes token ms

pub data Call : Type 0 where
  registers : Str → Option PendingStream → Call
  claims : Str → Str → Call
  expires : Str → ℕ → Call
  gives_up : Str → PendingWaiter → Call

abbrev pub plain_turn : Str → StreamRegistry × List Message → StreamRegistry × List Delivery
plain_turn token (s, ms) = (s, wakes token ms)

abbrev pub claim_turn :
    Str → Str → StreamRegistry × (ClaimResult × List Message) → StreamRegistry × List Delivery
claim_turn token fingerprint (s, (c, ms)) = (s, gives token fingerprint c ++ wakes token ms)

unfoldable pub step : Call → StreamRegistry → StreamRegistry × List Delivery
step (registers token ps) s = plain_turn token (register token ps s)
step (claims token fingerprint) s = claim_turn token fingerprint (claim token fingerprint s)
step (expires token number) s = plain_turn token (expire token number s)
step (gives_up token w) s = (remove_waiter token w s, [])

unfoldable pub run : List Call → StreamRegistry → StreamRegistry × List Delivery
run [] s = (s, [])
run (c ∷ calls) s = let r = step c s in let t = run calls r.0 in (t.0, r.1 ++ t.1)
