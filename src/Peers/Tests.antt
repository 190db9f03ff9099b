-- ===== src/Peers/Tests.antt =====
-- A small history of the store.
use termyard.Base.{Bool, true, false, List, [], ◌∷◌, none, ◌≡◌, refl, str_dec}
use termyard.Peers.{
  Peer, not_found, Peers, change_first, drop_first, add, remove_by_public_key, change, set_enabled,
}
use termyard.Peers.Refines.{
  Change, adds, removes, enables, run, run_view, Represents, run-Represents,
}

abbrev laptop : Peer
laptop = record {
  name = 108 ∷ [];
  public_key = 1 ∷ [];
  paired_at = 5;
  address = 97 ∷ [];
  enabled = true;
  initiated_by_us = true;
  last_seen = 0;
}

abbrev server : Peer
server = record laptop { public_key = 2 ∷ []; name = 115 ∷ [] }

abbrev unwritable : Peers → Bool
unwritable ps = false

abbrev pairing : List Change
pairing =
    adds laptop
    ∷ adds server
    ∷ adds (record laptop { paired_at = 9 })
    ∷ enables (1 ∷ []) false
    ∷ removes (2 ∷ [])
    ∷ []

pairing_left : run unwritable pairing [] ≡ record laptop { paired_at = 9; enabled = false } ∷ []
unfolding run add remove_by_public_key change change_first drop_first str_dec
pairing_left = refl

nobody_there : (set_enabled unwritable (3 ∷ []) true (laptop ∷ [])).1 ≡ not_found
unfolding change change_first str_dec
nobody_there = refl

run-Represents_example : Represents (run unwritable pairing []) (run_view pairing (λ q. none))
run-Represents_example = run-Represents unwritable pairing
