-- ===== src/GroupSync/Heal/History.antt =====
-- Any history of calls of `SetTree`, `SetName`, `SetRank`, `Delete`, `ApplyRemote`, `ApplySnapshot`,
-- `MigrateKey` and `Reconcile`. `Restore`, which puts old records back, and `RemoveSessionKey` are not
-- among them.
use termyard.Base.{
  ◌≡◌, ◌<◌, inl, inr, Bool, false, List, [], ◌∷◌, Option, none, some, Str, str_dec, refl, arith,
  Bool-cases, get, ite,
}
use termyard.GroupSync.Tree.{RawMessage}
use termyard.GroupSync.Group.{Group, Time, accepts}
use termyard.GroupSync.Store.{Groups, group_at, ids_of, is_live, enforce}
use termyard.GroupSync.Store.Order.{IsMap, put-IsMap}
use termyard.GroupSync.Store.Dead.{IsDead, enforce_dead, enforce_keeps}
use termyard.GroupSync.Ops.{
  Error, set_tree, set_name, set_rank, delete_group, apply_remote, apply_snapshot, snapshot_end,
  merge_snapshot, no_id, update_known,
}
use termyard.GroupSync.Heal.{
  migrate_key, migrate_end, migrate_all, renames, reconcile, reconcile_end, reconcile_all,
  add_enforced, Pruning,
}
use termyard.GroupSync.Heal.Tombstones.{
  Keeps, Keeps-refl, Keeps-trans, Keeps-put, Keeps-merge, merge_snapshot-Keeps, migrate_all-Keeps,
  reconcile_all-Keeps,
}

-- A call, with the times that it reads from the clock.
pub data Call : Type 0 where
  sets_tree : Time → Str → RawMessage → Call
  sets_name : Time → Time → Str → Str → Str → Call
  sets_rank : Time → Str → Str → Call
  deletes : Time → Str → Call
  applies_remote : Time → Str → Group → Call
  applies_snapshot : Time → List (Str × Group) → Call
  migrates : Time → Time → Str → Str → Str → Call
  reconciles : Time → (Str → Bool) → Call

module _ (saves : Groups → Bool) where
  -- The store after a call.
  pub step : Call → Groups → Groups
  step (sets_tree now id tree) m = (set_tree saves now id tree m).0
  step (sets_name now later id name mode) m = (set_name saves now later id name mode m).0
  step (sets_rank now id rank) m = (set_rank saves now id rank m).0
  step (deletes now id) m = (delete_group saves now id m).0
  step (applies_remote now id incoming) m = (apply_remote saves now id incoming m).0
  step (applies_snapshot now snap) m = (apply_snapshot saves now snap m).0
  step (migrates now later host old new) m = (migrate_key saves now later host old new m).0
  step (reconciles now gone) m = (reconcile saves gone now m).0

  pub run : List Call → Groups → Groups
  run [] m = m
  run (c ∷ cs) m = run cs (step c m)

  -- The clock never reads zero when a call may write a tombstone.
  abbrev pub IsTimed : Call → Type 0
  IsTimed (sets_tree now id tree) = Unit
  IsTimed (sets_name now later id name mode) = Unit
  IsTimed (sets_rank now id rank) = Unit
  IsTimed (deletes now id) = 0 < now
  IsTimed (applies_remote now id incoming) = Unit
  IsTimed (applies_snapshot now snap) = Unit
  IsTimed (migrates now later host old new) = Unit
  IsTimed (reconciles now gone) = 0 < now

-- So for every call of a history.
abbrev pub AllTimed : (Groups → Bool) → List Call → Type 0
AllTimed saves [] = Unit
AllTimed saves (c ∷ cs) = IsTimed saves c × AllTimed saves cs

Keeps-enforce :
    (q : Str) (now : Time) (winner : Str) (m : Groups) → Keeps q m (enforce now winner m).groups
Keeps-enforce q now winner m = record {
  map = enforce_keeps IsMap put-IsMap now winner m;
  dead = λ x d. rw (enforce_dead now winner q m x d) d;
}

module _ (saves : Groups → Bool) (q : Str) where
  known-Keeps :
      (o : Option Group) (f : Group → Group) (id : Str) (m : Groups)
      → get id m ≡ o
      → ((g : Group) → is_live g ≡ false → is_live (f g) ≡ false)
      → Keeps q m (update_known saves o f id m).0
  unfolding update_known
  known-Keeps none f id m e k = Keeps-refl q m
  known-Keeps (some g) f id m e k = Keeps-put q id (f g) m (λ d. k g (rw e at d))

  snapshot-Keeps : (now : Time) (t : Groups × List Str) → Keeps q t.0 (snapshot_end saves now t).0
  snapshot-Keeps now (m, []) = Keeps-refl q m
  snapshot-Keeps now (m, id ∷ ids) = Keeps-enforce q now no_id m

  migrated-Keeps :
      (now : Time) (t : Groups × Option (List Str)) → Keeps q t.0 (migrate_end saves now t).0
  unfolding migrate_end
  migrated-Keeps now (m, none) = Keeps-refl q m
  migrated-Keeps now (m, some []) = Keeps-refl q m
  migrated-Keeps now (m, some (id ∷ ids)) = Keeps-enforce q now no_id m

  reconciled-Keeps : (t : Pruning) (m : Groups) → Keeps q m (reconcile_end saves t m).0
  unfolding reconcile_end
  reconciled-Keeps ([], prior) m = Keeps-refl q m
  reconciled-Keeps (e ∷ changed, prior) m = Keeps-refl q m

  set_tree-Keeps :
      (now : Time) (id : Str) (tree : RawMessage) (m : Groups)
      → Keeps q m (set_tree saves now id tree m).0
  unfolding set_tree
  set_tree-Keeps now id tree m = elim (Bool-cases (is_live (group_at id m))) [
    | inl l ↦ rw l (Keeps-trans (Keeps-put q id _ m (λ d. cc)) (Keeps-enforce q now id _))
    | inr d ↦ rw d (Keeps-refl q m)
  ]

  apply_remote-Keeps :
      (now : Time) (id : Str) (incoming : Group) (m : Groups)
      → Keeps q m (apply_remote saves now id incoming m).0
  unfolding apply_remote
  apply_remote-Keeps now id incoming m = elim (Bool-cases (accepts (group_at id m) incoming)) [
    | inl a ↦ rw a (Keeps-trans (Keeps-merge q id incoming m) (Keeps-enforce q now _ _))
    | inr r ↦ rw r (Keeps-refl q m)
  ]

  Keeps-ite :
      {P : Type 0} (d : Dec P) (m : Groups) (r t : Groups × (List Str × Option Error))
      → Keeps q m r.0
      → Keeps q m t.0
      → Keeps q m (ite d r t).0
  Keeps-ite (yes p) m r t a b = a
  Keeps-ite (no n) m r t a b = b

  migrate_key-Keeps :
      (now later : Time) (host old new : Str) (m : Groups)
      → Keeps q m (migrate_key saves now later host old new m).0
  unfolding migrate_key
  migrate_key-Keeps now later host old new m = Keeps-ite (str_dec old []) m _ _ (Keeps-refl q m) (
      Keeps-ite (str_dec new []) m _ _ (Keeps-refl q m) (
        Keeps-ite (str_dec old new) m _ _ (Keeps-refl q m) (
          Keeps-trans (migrate_all-Keeps q (renames host old new) now (ids_of m) (m, []))
            (migrated-Keeps later (migrate_all (renames host old new) now (ids_of m) (m, []))))))

  reconcile-Keeps :
      (gone : Str → Bool) (now : Time) (m : Groups)
      → 0 < now
      → Keeps q m (reconcile saves gone now m).0
  unfolding reconcile
  reconcile-Keeps gone now m pos =
      let n = reconcile_all gone now (ids_of m) (m, ([], [])) in
      let e = enforce now no_id n.0 in
      Keeps-trans (reconcile_all-Keeps q gone now pos (ids_of m) (m, ([], []))) (
        Keeps-trans (Keeps-enforce q now no_id n.0)
          (reconciled-Keeps (add_enforced e.prior e.changed n.1) e.groups))

  step-Keeps : (c : Call) (m : Groups) → IsTimed saves c → Keeps q m (step saves c m)
  unfolding step set_name set_rank delete_group apply_snapshot
  step-Keeps (sets_tree now id tree) m t = set_tree-Keeps now id tree m
  step-Keeps (sets_name now later id name mode) m t = known-Keeps (get id m) _ id m refl (λ g d. d)
  step-Keeps (sets_rank now id rank) m t = known-Keeps (get id m) _ id m refl (λ g d. d)
  step-Keeps (deletes now id) m t = Keeps-put q id _ m (λ d. ground arith)
  step-Keeps (applies_remote now id incoming) m t = apply_remote-Keeps now id incoming m
  step-Keeps (applies_snapshot now snap) m t =
      Keeps-trans (merge_snapshot-Keeps q snap m [])
        (snapshot-Keeps now (merge_snapshot snap (m, [])))
  step-Keeps (migrates now later host old new) m t = migrate_key-Keeps now later host old new m
  step-Keeps (reconciles now gone) m t = reconcile-Keeps gone now m t

  -- In a store with distinct ids a tombstone stays a tombstone through any history of these calls, saves
  -- that fail included, when `Delete` and `Reconcile` run at times after the zero time.
  pub run-IsDead :
      (cs : List Call) (m : Groups)
      → AllTimed saves cs
      → IsMap m
      → IsDead q m
      → IsDead q (run saves cs m)
  unfolding run
  run-IsDead [] m t x d = d
  run-IsDead (c ∷ cs) m (t, ts) x d =
      let k = step-Keeps c m t in run-IsDead cs (step saves c m) ts (k.map x) (k.dead x d)
