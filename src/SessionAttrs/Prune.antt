-- ===== src/SessionAttrs/Prune.antt =====
-- `Prune` does all its work at once.
use termyard.Base.{Bool, false, ◌≡◌, refl, sym, subst, arith, List, [], ◌∷◌, Str}
use termyard.SessionOrder.{Time}
use termyard.SessionAttrs.{
  Attr, Attrs, zero_attr, Verdict, stays, expires, dies, verdict, prune_entry, prune_loop,
  prune_changes, prune,
}

module _ (now : Time) (live_keys online_hosts : Str → Bool) where
  -- Nothing is left to do.
  Settled : Attrs → Type 0
  Settled [] = Unit
  Settled ((k, a) ∷ m) = (verdict now live_keys online_hosts k a ≡ stays) × Settled m

  tombstone_stays :
      (k : Str)
      → verdict now live_keys online_hosts k (record zero_attr { updated_at = now }) ≡ stays
  tombstone_stays k = ground arith

  prune_entry-Settled :
      (v : Verdict) (k : Str) (a : Attr) (r : Attrs × List Str)
      → verdict now live_keys online_hosts k a ≡ v
      → Settled r.0
      → Settled (prune_entry now live_keys online_hosts v k a r).0
  unfolding Settled
  prune_entry-Settled stays k a (m, gone) e h = (e, h)
  prune_entry-Settled expires k a (m, gone) e h = h
  prune_entry-Settled dies k a (m, gone) e h = (tombstone_stays k, h)

  prune_loop-Settled : (m : Attrs) → Settled (prune_loop now live_keys online_hosts m).0
  unfolding prune_loop Settled
  prune_loop-Settled [] = tt
  prune_loop-Settled ((k, a) ∷ m) =
      prune_entry-Settled (verdict now live_keys online_hosts k a) k a _ refl (prune_loop-Settled m)

  Settled-prune_loop : (m : Attrs) → Settled m → prune_loop now live_keys online_hosts m ≡ (m, [])
  unfolding prune_loop Settled
  Settled-prune_loop [] h = refl
  Settled-prune_loop ((k, a) ∷ m) (e, h) = rw (e, Settled-prune_loop m h) refl

  Settled-prune_changes :
      (m : Attrs) → Settled m → prune_changes now live_keys online_hosts m ≡ false
  unfolding prune_changes Settled
  Settled-prune_changes [] h = refl
  Settled-prune_changes ((k, a) ∷ m) (e, h) = rw (e, Settled-prune_changes m h) refl

  -- The map that `Prune` leaves, whether the file was written or not.
  prune_left :
      (saves : Attrs → Bool) (m : Attrs)
      → (prune saves now live_keys online_hosts m).0 ≡ (prune_loop now live_keys online_hosts m).0
  unfolding prune
  prune_left saves m = ground arith

  Settled-prune :
      (saves : Attrs → Bool) (m : Attrs)
      → Settled m
      → prune saves now live_keys online_hosts m ≡ (m, ([], (false, false)))
  unfolding prune
  Settled-prune saves m h = rw (Settled-prune_changes m h, Settled-prune_loop m h) refl

  -- Right after a `Prune`, the same `Prune` again does nothing and reports nothing, also when the
  -- file could not be written.
  pub prune_twice :
      (saves : Attrs → Bool) (m : Attrs)
      → prune saves now live_keys online_hosts (prune saves now live_keys online_hosts m).0
        ≡ ((prune saves now live_keys online_hosts m).0, ([], (false, false)))
  prune_twice saves m =
      Settled-prune saves (prune saves now live_keys online_hosts m).0
        (subst Settled (sym (prune_left saves m)) (prune_loop-Settled m))
