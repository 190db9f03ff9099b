-- ===== src/GroupSync/Ops.antt =====
-- The methods of `Store` (pkg/groupsync/groupsync.go). Each takes the times that `time.Now` gave it
-- and `saves`, which says whether `config.WriteJSON` can write a store; the lock makes it one step.
-- A nil map or slice is empty.
use termyard.Base.{
  Bool, true, false, List, [], ◌∷◌, ◌++◌, Option, none, some, Str, str_dec, ite, if◌then◌else◌,
  mem_dec, get, put,
}
use termyard.GroupSync.Tree.{RawMessage, sort_strings}
use termyard.GroupSync.Group.{Group, Time, zero_group, accepts, merge, tree_newer}
use termyard.GroupSync.Store.{Groups, group_at, ids_of, is_live, enforce}

pub data Error : Type 0 where
  tombstoned unknown_group save_failed bad_json : Error

abbrev pub no_id : Str
no_id = []

-- `if err := s.save(); err != nil { return failed }; return done`
abbrev pub after_save {ℓ} : {A : Type ℓ} → Bool → A → A → A
after_save true done failed = done
after_save false done failed = failed

-- The loop of `ApplySnapshot`: the store and the ids changed so far.
unfoldable pub merge_snapshot : List (Str × Group) → Groups × List Str → Groups × List Str
merge_snapshot [] t = t
merge_snapshot ((id, incoming) ∷ snap) (m, changed) = merge_snapshot snap (
    if accepts (group_at id m) incoming
    then (put id (merge (group_at id m) incoming) m, changed ++ id ∷ [])
    else (m, changed))

-- `changed` with the ids that `enforce` changed besides.
unfoldable pub add_unseen : List Str → List Str → List Str → List Str
add_unseen seen [] changed = changed
add_unseen seen (id ∷ ids) changed =
    add_unseen seen ids (ite (mem_dec str_dec id seen) changed (changed ++ id ∷ []))

abbrev pub all_changed : List Str → Groups → List Str
all_changed changed enforced = sort_strings (add_unseen changed (ids_of enforced) changed)

module _ (saves : Groups → Bool) where
  -- `SetTree`
  unfoldable pub set_tree :
      Time → Str → RawMessage → Groups → Groups × (Group × Groups × Groups × Option Error)
  set_tree now id tree m =
      if is_live (group_at id m)
      then (let g = record (group_at id m) { tree = tree; tree_updated_at = now; deleted_at = 0 } in
          let e = enforce now id (put id g m) in
          (
            e.groups,
            after_save (saves e.groups) (group_at id e.groups, e.changed, e.prior, none)
                (zero_group, [], [], some save_failed),
          ))
      else (m, (group_at id m, [], [], some tombstoned))

  -- The end of `SetName`, `SetRank` and `Delete`: store the record, then save.
  unfoldable pub store_group : Str → Group → Groups → Groups × (Group × Option Error)
  store_group id g m =
      (put id g m, after_save (saves (put id g m)) (g, none) (zero_group, some save_failed))

  unfoldable pub update_known :
      Option Group → (Group → Group) → Str → Groups → Groups × (Group × Option Error)
  unfolding store_group
  update_known none f id m = (m, (zero_group, some unknown_group))
  update_known (some g) f id m = store_group id (f g) m

  -- `SetName`; the two stamps come from two calls of `time.Now`.
  unfoldable pub set_name : Time → Time → Str → Str → Str → Groups → Groups × (Group × Option Error)
  unfolding update_known
  set_name now later id name mode m =
      update_known (get id m)
        (λ g. record g {
          name = name;
          name_updated_at = now;
          name_mode = mode;
          name_mode_updated_at = later;
        })
        id m

  -- `SetRank`
  unfoldable pub set_rank : Time → Str → Str → Groups → Groups × (Group × Option Error)
  unfolding update_known
  set_rank now id rank m =
      update_known (get id m) (λ g. record g { rank = rank; rank_updated_at = now }) id m

  -- `Delete`
  unfoldable pub delete_group : Time → Str → Groups → Groups × (Group × Option Error)
  unfolding store_group
  delete_group now id m = store_group id (record (group_at id m) { deleted_at = now }) m

  -- `ApplyRemote`
  unfoldable pub apply_remote :
      Time → Str → Group → Groups → Groups × (Group × Bool × Groups × Groups × Option Error)
  apply_remote now id incoming m =
      let cur = group_at id m in
      let e =
        enforce now (if tree_newer incoming cur then id else no_id)
          (put id (merge cur incoming) m) in
      if accepts cur incoming
      then (
        e.groups,
        after_save (saves e.groups) (group_at id e.groups, true, e.changed, e.prior, none)
            (zero_group, false, [], [], some save_failed),
      )
      else (m, (cur, false, [], [], none))

  abbrev pub snapshot_end :
      Time → Groups × List Str → Groups × (List Str × Groups × Groups × Option Error)
  snapshot_end now (m, []) = (m, ([], [], [], none))
  snapshot_end now (m, id ∷ ids) =
      let e = enforce now no_id m in
      (
        e.groups,
        after_save (saves e.groups) (all_changed (id ∷ ids) e.changed, e.changed, e.prior, none)
            ([], [], [], some save_failed),
      )

  -- `ApplySnapshot`
  unfoldable pub apply_snapshot :
      Time → List (Str × Group) → Groups → Groups × (List Str × Groups × Groups × Option Error)
  unfolding merge_snapshot add_unseen
  apply_snapshot now snap m = snapshot_end now (merge_snapshot snap (m, []))
