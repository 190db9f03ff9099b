-- ===== src/SessionAttrs/Tests.antt =====
-- The theorems on small stores.
use termyard.Base.{Bool, true, false, List, [], ◌∷◌, Str, str_dec, ite, get, ◌≡◌, refl}
use termyard.SessionOrder.{split_at_slash, split_key, owner_of}
use termyard.SessionAttrs.{
  Attr, Attrs, prune_loop, prune_changes, set_attr, prune, migrate_attrs, attr_moves, move_attrs,
}
use termyard.SessionAttrs.Rollback.{set_attr-Restores}
use termyard.SessionAttrs.Prune.{prune_twice}
use termyard.SessionAttrs.Schedules.{IsOwned, BitCall, sets, merges, run_bits, run_bits-Owned}

abbrev parked : Attr
parked = record { background = true; hidden = false; schedule_id = 7 ∷ []; updated_at = 5 }

-- The keys `1/2` and `3`.
abbrev two_sessions : Attrs
two_sessions = ((49 ∷ 47 ∷ 50 ∷ []), parked) ∷ ((51 ∷ []), parked) ∷ []

abbrev only_host : Str → Bool
only_host s = ite (str_dec s (49 ∷ [])) true false

abbrev nobody : Str → Bool
nobody s = false

abbrev full_disk : Attrs → Bool
full_disk m = false

-- The session of the host that is online is gone, the one of an unknown host is not.
two_pruned :
    (prune full_disk 9 nobody only_host two_sessions).0
    ≡ (
      (49 ∷ 47 ∷ 50 ∷ []),
      record { background = false; hidden = false; schedule_id = []; updated_at = 9 },
    )
      ∷ ((51 ∷ []), parked)
      ∷ []
unfolding prune prune_loop prune_changes owner_of split_key split_at_slash str_dec
two_pruned = refl

two_migrated :
    (migrate_attrs full_disk (λ i. 8) (49 ∷ []) (51 ∷ []) (52 ∷ []) two_sessions).0
    ≡ ((49 ∷ 47 ∷ 50 ∷ []), parked) ∷ ((52 ∷ []), record parked { updated_at = 8 }) ∷ []
unfolding migrate_attrs attr_moves move_attrs split_key split_at_slash str_dec
two_migrated = refl

set_fails : (set_attr full_disk 9 (51 ∷ []) false true two_sessions).1.1 ≡ true
unfolding set_attr
set_fails = refl

set_attr-Restores_example :
    get (51 ∷ []) (set_attr full_disk 9 (51 ∷ []) false true two_sessions).0
    ≡ get (51 ∷ []) two_sessions
set_attr-Restores_example =
    set_attr-Restores full_disk 9 (51 ∷ []) false true two_sessions (51 ∷ []) set_fails

prune_twice_example :
    prune full_disk 9 nobody only_host (prune full_disk 9 nobody only_host two_sessions).0
    ≡ ((prune full_disk 9 nobody only_host two_sessions).0, ([], (false, false)))
prune_twice_example = prune_twice 9 nobody only_host full_disk two_sessions

abbrev changes : List BitCall
changes =
    sets 8 (51 ∷ []) false false
    ∷ merges (51 ∷ [])
        (record { background = true; hidden = true; schedule_id = []; updated_at = 30 })
    ∷ []

run_bits-Owned_example : IsOwned (51 ∷ []) (run_bits full_disk changes two_sessions)
unfolding str_dec
run_bits-Owned_example =
    run_bits-Owned full_disk (51 ∷ []) changes two_sessions (parked, (refl, refl))
