-- ===== src/Ring/Tests.antt =====
-- Runs of the replay buffer on small inputs, and uses of its theorems.
use termyard.Base.{ℕ, ◌≡◌, refl, List, [], ◌∷◌, arith}
use termyard.Ring.{new_ring_buffer, write, snapshot, snapshot_tail}
use termyard.Ring.Slices.{last_bytes}
use termyard.Ring.History.{run, written, run-snapshot, run-snapshot_tail}

abbrev three_writes : List (List ℕ)
three_writes = (1 ∷ 2 ∷ 3 ∷ []) ∷ (4 ∷ 5 ∷ []) ∷ (6 ∷ []) ∷ []

snapshot_test : snapshot (run (new_ring_buffer 4) three_writes) ≡ 3 ∷ 4 ∷ 5 ∷ 6 ∷ []
unfolding snapshot run write new_ring_buffer
snapshot_test = refl

tail_test : snapshot_tail (run (new_ring_buffer 4) three_writes) 3 ≡ 4 ∷ 5 ∷ 6 ∷ []
unfolding snapshot_tail run write new_ring_buffer
tail_test = refl

long_test : snapshot (write (new_ring_buffer 2) (7 ∷ 8 ∷ 9 ∷ [])) ≡ 8 ∷ 9 ∷ []
unfolding snapshot write new_ring_buffer
long_test = refl

run-snapshot_example :
    snapshot (run (new_ring_buffer 4) three_writes) ≡ last_bytes 4 (written [] three_writes)
run-snapshot_example = run-snapshot 4 three_writes (omega arith)

run-snapshot_tail_example :
    snapshot_tail (run (new_ring_buffer 4) three_writes) 3
    ≡ last_bytes 3 (snapshot (run (new_ring_buffer 4) three_writes))
run-snapshot_tail_example = run-snapshot_tail 4 3 three_writes (omega arith)
