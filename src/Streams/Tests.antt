-- ===== src/Streams/Tests.antt =====
-- Runs of the stream registry, and uses of its theorems.
use termyard.Base.{◌≡◌, refl, List, [], ◌∷◌, some, codes, str_dec, mem_dec, map, Distinct, All}
use termyard.Streams.{
  PendingStream, new_stream_registry, register, claim, expire, remove_waiter, match_waiter,
}
use termyard.Streams.History.{Call, registers, claims, expires, step, run, delivery, wakes, gives}
use termyard.Streams.Safety.{run-Distinct, run-All}
use termyard.Streams.Ready.{IsReady}
use termyard.Streams.Matches.{run-IsReady}

program : Unit {0}
unfolding step run register claim expire remove_waiter match_waiter wakes gives str_dec mem_dec
program = tt

abbrev stream : PendingStream
stream = record {
  stream_id = codes "1";
  session = codes "s";
  cols = 80;
  rows = 24;
  host_id = codes "h";
  viewer_host_id = codes "v";
  expected_peer = codes "p";
}

-- A stranger claims the token before the right peer does, and again after it.
abbrev calls : List Call
calls =
    claims (codes "t") (codes "q")
    ∷ claims (codes "t") (codes "p")
    ∷ registers (codes "t") (some stream)
    ∷ registers (codes "t") (some stream)
    ∷ claims (codes "t") (codes "p")
    ∷ []

delivered : (run calls new_stream_registry).1 ≡ delivery (codes "t") (codes "p") stream ∷ []
unfolding program
delivered = refl

refused :
    (run
      (registers (codes "t") (some stream)
        ∷ claims (codes "t") (codes "q")
        ∷ expires (codes "t") 0
        ∷ claims (codes "t") (codes "p")
        ∷ [])
      new_stream_registry).1
    ≡ []
unfolding program
refused = refl

run-Distinct_example : Distinct (map (λ d. d.token) (run calls new_stream_registry).1)
run-Distinct_example = run-Distinct calls

run-All_example : All (λ d. d.ps.expected_peer ≡ d.fingerprint) (run calls new_stream_registry).1
run-All_example = run-All calls

run-IsReady_example : IsReady (run calls new_stream_registry).0
run-IsReady_example = run-IsReady calls
