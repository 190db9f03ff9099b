-- ===== src/GroupSync/Heal.antt =====
-- The methods of `Store` that rewrite the trees of many groups: `MigrateKey`, `RemoveSessionKey`,
-- `Restore` and `Reconcile` (pkg/groupsync/groupsync.go).
pub mod Pruned
pub mod Rollback
pub mod Tombstones
pub mod History
use termyard.Base.{
  Bool, true, false, ◌||◌, not, leb, List, [], ◌∷◌, ◌++◌, Option, none, some, Str, str_dec, codes,
  ite, if◌then◌else◌, get, put, length,
}
use termyard.GroupSync.Json.{Json, is_nil, replace_strings}
use termyard.GroupSync.Tree.{RawMessage, absent, malformed, json, remove_leaf_any, member_keys}
use termyard.GroupSync.Group.{Group, Time}
use termyard.GroupSync.Store.{
  Groups, Enforcing, or_else, group_at, ids_of, is_live, is_absent, remember, prune_keys, enforce,
}
use termyard.GroupSync.Ops.{Error, save_failed, bad_json, no_id, after_save, all_changed}

-- `oldKeys` and `newKeys`, zipped.
unfoldable pub renames : Str → Str → Str → List (Str × Str)
renames host old new =
    ite (str_dec host []) ((old, new) ∷ [])
      ((old, new) ∷ (host ++ codes "/" ++ old, host ++ codes "/" ++ new) ∷ [])

abbrev keep_renamed : Time → Str → Group → Json × Bool → Groups × List Str → Groups × List Str
keep_renamed now id g (updated, changed) (m, ids) =
    if changed
    then (put id (record g { tree = json updated; tree_updated_at = now }) m, ids ++ id ∷ [])
    else (m, ids)

abbrev migrate_raw :
    List (Str × Str)
    → Time
    → Str
    → Group
    → RawMessage
    → Groups × List Str
    → Option (Groups × List Str)
migrate_raw rs now id g absent t = some t
migrate_raw rs now id g (malformed raw) t = none
migrate_raw rs now id g (json v) t = some (keep_renamed now id g (replace_strings v rs) t)

-- The loop body of `MigrateKey`; `none` is the error of `json.Unmarshal`.
unfoldable pub migrate_one :
    List (Str × Str) → Time → Str → Groups × List Str → Option (Groups × List Str)
migrate_one rs now id (m, ids) = migrate_raw rs now id (group_at id m) (group_at id m).tree (m, ids)

-- The loop of `MigrateKey`: an error leaves the store as it is then.
unfoldable pub migrate_all :
    List (Str × Str) → Time → List Str → Groups × List Str → Groups × Option (List Str)
unfolding migrate_one
migrate_all rs now [] t = (t.0, some t.1)
migrate_all rs now (id ∷ ids) t = elim (migrate_one rs now id t) [
  | none ↦ (t.0, none)
  | some u ↦ migrate_all rs now ids u
]

-- What `RemoveSessionKey` carries along: `pruned` and `prior`.
abbrev pub Pruning : Type 0
Pruning = Groups × Groups

abbrev pruned_group : Time → Group → Json → Group
pruned_group now g updated =
    if is_nil updated
    then record g { deleted_at = now }
    else record g { tree = json updated; tree_updated_at = now }

abbrev note_pruned : Time → Str → Group → Json × Bool → Pruning → Pruning
note_pruned now id g (updated, removed) (pruned, prior) =
    if removed
    then (put id (pruned_group now g updated) pruned, put id g prior)
    else (pruned, prior)

abbrev prune_raw : Str → Time → Str → Group → RawMessage → Pruning → Option Pruning
prune_raw key now id g absent t = some t
prune_raw key now id g (malformed raw) t = none
prune_raw key now id g (json v) t = some (note_pruned now id g (remove_leaf_any v key) t)

-- The loop body of the first pass of `RemoveSessionKey`; `none` is the error of `json.Unmarshal`.
unfoldable pub prune_one : Str → Time → Str → Group → Pruning → Option Pruning
prune_one key now id g t = if is_live g then prune_raw key now id g g.tree t else some t

unfoldable pub prune_groups : Str → Time → Groups → Pruning → Option Pruning
unfolding prune_one
prune_groups key now [] t = some t
prune_groups key now ((id, g) ∷ m) t = elim (prune_one key now id g t) [
  | none ↦ none
  | some u ↦ prune_groups key now m u
]

-- `for id, g := range from { to[id] = g }`
unfoldable pub put_all : Groups → Groups → Groups
put_all [] m = m
put_all ((id, g) ∷ from) m = put id g (put_all from m)

-- A pruned group that keeps fewer than two leaves dies.
unfoldable pub few_leaves : Group → Bool
few_leaves g =
    if is_live g
    then not (is_absent g.tree || leb 2 (length (or_else (member_keys g.tree) [])))
    else false

-- The loop over `pruned` after the assignment: the store, and `pruned`.
unfoldable pub bury_pruned : Time → Groups → Groups × Pruning → Groups × Pruning
unfolding few_leaves
bury_pruned now [] t = t
bury_pruned now ((id, g) ∷ from) (m, (pruned, prior)) = bury_pruned now from (
    if few_leaves g
    then (
      put id (record g { deleted_at = now }) m,
      (
        put id (record g { deleted_at = now }) pruned,
        remember (get id prior) id (group_at id m) prior,
      ),
    )
    else (m, (pruned, prior)))

-- `for id, g := range enforcedChanged { … }`: the changed groups and their prior states.
unfoldable pub add_enforced : Groups → Groups → Pruning → Pruning
add_enforced enforced_prior [] t = t
add_enforced enforced_prior ((id, g) ∷ enforced) t =
    let (changed, prior) = add_enforced enforced_prior enforced t in
    (put id g changed, remember (get id prior) id (group_at id enforced_prior) prior)

-- The loop body of the first pass of `Reconcile`: the store, `changed` and `prior`.
abbrev reconciled_group : Time → Group → Json → Group
reconciled_group now g v =
    if is_nil v
    then record g { deleted_at = now }
    else (if leb 2 (length (or_else (member_keys (json v)) []))
        then record g { tree = json v; tree_updated_at = now }
        else record g { tree = json v; tree_updated_at = now; deleted_at = now })

abbrev keep_reconciled : Time → Str → Group → Json × Bool → Groups × Pruning → Groups × Pruning
keep_reconciled now id g (v, modified) (m, (changed, prior)) =
    if modified
    then (
      put id (reconciled_group now g v) m,
      (
        put id (reconciled_group now g v) changed,
        remember (get id changed) id (group_at id m) prior,
      ),
    )
    else (m, (changed, prior))

abbrev reconcile_raw :
    (Str → Bool) → Time → Str → Group → RawMessage → Groups × Pruning → Groups × Pruning
reconcile_raw gone now id g absent t = t
reconcile_raw gone now id g (malformed raw) t = t
reconcile_raw gone now id g (json v) t =
    keep_reconciled now id g (prune_keys gone (or_else (member_keys (json v)) []) (v, false)) t

unfoldable pub reconcile_one : (Str → Bool) → Time → Str → Groups × Pruning → Groups × Pruning
reconcile_one gone now id t =
    let g = group_at id t.0 in if is_live g then reconcile_raw gone now id g g.tree t else t

unfoldable pub reconcile_all : (Str → Bool) → Time → List Str → Groups × Pruning → Groups × Pruning
unfolding reconcile_one
reconcile_all gone now [] t = t
reconcile_all gone now (id ∷ ids) t = reconcile_all gone now ids (reconcile_one gone now id t)

module _ (saves : Groups → Bool) where
  unfoldable pub migrate_end :
      Time → Groups × Option (List Str) → Groups × (List Str × Option Error)
  migrate_end now (m, none) = (m, ([], some bad_json))
  migrate_end now (m, some []) = (m, ([], none))
  migrate_end now (m, some (id ∷ ids)) =
      let e = enforce now no_id m in
      (
        e.groups,
        after_save (saves e.groups) (all_changed (id ∷ ids) e.changed, none)
            (all_changed (id ∷ ids) e.changed, some save_failed),
      )

  -- `MigrateKey`; `now` stamps the trees, `later` is the time that `enforce` gets.
  unfoldable pub migrate_key :
      Time → Time → Str → Str → Str → Groups → Groups × (List Str × Option Error)
  unfolding renames migrate_all migrate_end
  migrate_key now later host old new m =
      ite (str_dec old []) (m, ([], none))
        (ite (str_dec new []) (m, ([], none))
          (ite (str_dec old new) (m, ([], none))
            (migrate_end later (migrate_all (renames host old new) now (ids_of m) (m, [])))))

  -- `RemoveSessionKey` from the second pass on. A failed save puts the prior states back.
  unfoldable pub remove_finish : Time → Pruning → Groups → Groups × (Groups × Groups × Option Error)
  unfolding put_all bury_pruned add_enforced
  remove_finish now (pruned, prior) m =
      let (n, (pruned', prior')) = bury_pruned now pruned (put_all pruned m, (pruned, prior)) in
      let e = enforce now no_id n in
      let (changed, priors) = add_enforced e.prior e.changed (pruned', prior') in
      after_save (saves e.groups) (e.groups, (changed, priors, none))
        (put_all priors e.groups, ([], [], some save_failed))

  unfoldable pub remove_end :
      Time → Option Pruning → Groups → Groups × (Groups × Groups × Option Error)
  unfolding remove_finish
  remove_end now none m = (m, ([], [], some bad_json))
  remove_end now (some ([], prior)) m = (m, ([], [], none))
  remove_end now (some (e ∷ pruned, prior)) m = remove_finish now (e ∷ pruned, prior) m

  -- `RemoveSessionKey`
  unfoldable pub remove_session_key :
      Time → Str → Groups → Groups × (Groups × Groups × Option Error)
  unfolding prune_groups remove_end
  remove_session_key now key m = remove_end now (prune_groups key now m ([], [])) m

  -- `Restore`
  unfoldable pub restore : Groups → Groups → Groups × Option Error
  unfolding put_all
  restore groups m =
      (put_all groups m, after_save (saves (put_all groups m)) none (some save_failed))

  unfoldable pub reconcile_end : Pruning → Groups → Groups × (Groups × Groups × Option Error)
  reconcile_end ([], prior) m = (m, ([], [], none))
  reconcile_end (e ∷ changed, prior) m =
      (m, after_save (saves m) (e ∷ changed, prior, none) ([], [], some save_failed))

  -- `Reconcile`
  unfoldable pub reconcile :
      (Str → Bool) → Time → Groups → Groups × (Groups × Groups × Option Error)
  unfolding reconcile_all add_enforced reconcile_end
  reconcile gone now m =
      let (n, t) = reconcile_all gone now (ids_of m) (m, ([], [])) in
      let e = enforce now no_id n in reconcile_end (add_enforced e.prior e.changed t) e.groups
