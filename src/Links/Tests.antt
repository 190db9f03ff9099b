-- ===== src/Links/Tests.antt =====
-- A small history of the supervisor.
use termyard.Base.{Bool, ℕ, ◌*◌, true, false, List, [], ◌∷◌, All, ◌≡◌, refl, str_dec}
use termyard.Peers.{Peer, Peers}
use termyard.Links.{
  connected, new_link_supervisor, cancel_all, drop_link, spawn_link, cancel_key, without, is_of,
  on_link, set_status, flip_role,
}
use termyard.Links.Backoff.{second, jittered, after_dial, doubled, sleeps, IsNear, sleeps-Bounded}
use termyard.Links.Single.{IsSingle}
use termyard.Links.Runs.{Step, starts, spawns, cancels, reports, flips, run}
use termyard.Links.Steps.{run-Single}
use termyard.Links.Synced.{IsSynced}
use termyard.Links.Methods.{
  Method, adds_peer, removes_peer, enables_peer, reconnects, is_connected, run_methods,
}
use termyard.Links.Together.{run_methods-Synced}

abbrev desktop : Peer
desktop = record {
  name = 100 ∷ [];
  public_key = 1 ∷ [];
  paired_at = 5;
  address = 97 ∷ [];
  enabled = true;
  initiated_by_us = true;
  last_seen = 0;
}

-- A reconnect while the first goroutine has not returned, which then answers too late.
abbrev reconnecting : List Step
reconnecting =
    starts
    ∷ spawns desktop
    ∷ reports 0 connected [] 0
    ∷ cancels (1 ∷ [])
    ∷ spawns desktop
    ∷ flips 0
    ∷ []

reconnected :
    (run reconnecting new_link_supervisor).reconnectors
    ≡ record { number = 1; key = 1 ∷ []; cancelled = false } ∷ []
unfolding run spawn_link drop_link cancel_key cancel_all without set_status on_link is_of flip_role
    str_dec
reconnected = refl

run-Single_example : IsSingle (run reconnecting new_link_supervisor)
run-Single_example = run-Single reconnecting

abbrev lowest : ℕ → ℕ → ℕ
lowest k n = 0

-- Three failed dials, and a session that lasted a minute.
short_sleeps :
    sleeps lowest 0 second (1 ∷ 2 ∷ 3 ∷ 60 * second ∷ [])
    ≡ 750000000 ∷ 1500000000 ∷ 3000000000 ∷ 750000000 ∷ []
unfolding sleeps jittered after_dial doubled
short_sleeps = refl

sleeps-Bounded_example : All IsNear (sleeps lowest 0 second (1 ∷ 2 ∷ 60 * second ∷ []))
sleeps-Bounded_example = sleeps-Bounded lowest (1 ∷ 2 ∷ 60 * second ∷ []) (λ k n l. l)

abbrev other_peer : Peer
other_peer = record desktop { public_key = 2 ∷ [] }

abbrev full_disk : Peers → Bool
full_disk ps = false

abbrev managing : List Method
managing =
    adds_peer other_peer
    ∷ enables_peer (1 ∷ []) true
    ∷ reconnects (1 ∷ [])
    ∷ is_connected 0 (1 ∷ [])
    ∷ removes_peer (1 ∷ [])
    ∷ []

run_methods-Synced_example :
    IsSynced (run_methods full_disk managing (desktop ∷ [], new_link_supervisor))
run_methods-Synced_example = run_methods-Synced full_disk managing (desktop ∷ []) ((λ i. i), tt)
