-- ===== src/GroupSync/Store.antt =====
-- `Store` (pkg/groupsync/groupsync.go): the records by id, without the lock and the file.
pub mod Keys
pub mod Enforce
pub mod Order
pub mod Exclusive
pub mod Trace
pub mod Less
pub mod Changed
pub mod Dead
use termyard.Base.{
  ℕ, ◌==◌, Bool, true, false, ◌||◌, not, leb, List, [], ◌∷◌, ◌++◌, map, Option, none, some, Str,
  str_dec, str_ltb, ite, if◌then◌else◌, mem_dec, get, put, length,
}
use termyard.GroupSync.Json.{Json, is_nil}
use termyard.GroupSync.Tree.{RawMessage, absent, malformed, json, remove_leaf_any, member_keys}
use termyard.GroupSync.Group.{Group, Time, is_zero, after, zero_group}

abbrev pub Groups : Type 0
Groups = List (Str × Group)

abbrev pub or_else {ℓ} : {A : Type ℓ} → Option A → A → A
or_else none d = d
or_else (some a) d = a

-- `s.groups[id]`, the zero record for a missing id.
abbrev pub group_at : Str → Groups → Group
group_at id m = or_else (get id m) zero_group

abbrev pub ids_of {ℓ} : {V : Type ℓ} → List (Str × V) → List Str
ids_of = map (λ e. e.0)

abbrev pub is_live : Group → Bool
is_live g = is_zero g.deleted_at

-- `Live`
unfoldable pub live : Groups → Groups
live [] = []
live ((id, g) ∷ m) = if is_live g then (id, g) ∷ live m else live m

abbrev by_time : Groups → Str → Str → Bool
by_time m i j =
    if (group_at i m).tree_updated_at == (group_at j m).tree_updated_at
    then str_ltb i j
    else after (group_at i m).tree_updated_at (group_at j m).tree_updated_at

-- The order of `sort.Slice` in `enforce`: the winner, then the newest tree, then the id.
unfoldable pub precedes : Groups → Str → Str → Str → Bool
precedes m winner i j =
    ite (str_dec i winner) (ite (str_dec j winner) (by_time m i j) true)
      (ite (str_dec j winner) false (by_time m i j))

unfoldable pub insert_id : (Str → Str → Bool) → Str → List Str → List Str
insert_id less i [] = i ∷ []
insert_id less i (j ∷ js) = if less j i then j ∷ insert_id less i js else i ∷ j ∷ js

-- `sort.Slice` by an order in which distinct ids differ.
unfoldable pub sort_ids : (Str → Str → Bool) → List Str → List Str
unfolding insert_id
sort_ids less [] = []
sort_ids less (i ∷ is) = insert_id less i (sort_ids less is)

abbrev pub take_removed : Json → Bool → Json × Bool → Json × Bool
take_removed tree modified (updated, removed) =
    if removed then (updated, true) else (tree, modified)

-- One round of the loop over `keys`: the tree, and whether it was modified.
unfoldable pub prune_step : (Str → Bool) → Str → Json × Bool → Json × Bool
prune_step drop key (tree, modified) =
    if drop key then take_removed tree modified (remove_leaf_any tree key) else (tree, modified)

-- The loop that removes the keys that are to be dropped, in `enforce` and in `Reconcile`.
unfoldable pub prune_keys : (Str → Bool) → List Str → Json × Bool → Json × Bool
unfolding prune_step
prune_keys drop [] t = t
prune_keys drop (key ∷ keys) t = prune_keys drop keys (prune_step drop key t)

abbrev pub owns : List Str → Str → Bool
owns owned key = ite (mem_dec str_dec key owned) true false

-- `finalKeys`: those left after `json.Marshal`, nil on an error.
unfoldable pub final_keys : Json → List Str
final_keys tree = if is_nil tree then [] else or_else (member_keys (json tree)) []

-- What `enforce` carries along: the store, `ownedKeys`, `changed` and `prior`.
pub record Enforcing : Type 0 where
  pub groups : Groups
  pub owned : List Str
  pub changed : Groups
  pub prior : Groups

-- `if _, ok := seen[id]; !ok { prior[id] = g }`
abbrev pub remember : Option Group → Str → Group → Groups → Groups
remember none id g prior = put id g prior
remember (some h) id g prior = prior

-- `s.groups[id] = g; changed[id] = g`, with the prior state kept unless `seen` has one.
unfoldable pub write : Option Group → Str → Group → Enforcing → Enforcing
write seen id g s = record s {
  groups = put id g s.groups;
  changed = put id g s.changed;
  prior = remember seen id (group_at id s.groups) s.prior;
}

-- The record of a group whose tree lost leaves, or that has too few.
unfoldable pub shrunk : Time → Group → Json → Bool → Group
shrunk now g tree survivor =
    if is_nil tree || not survivor
    then record g { deleted_at = now }
    else record g { tree = json tree; tree_updated_at = now }

-- The end of the loop body of `enforce`, from the pruned tree on.
unfoldable pub settle : Time → Str → Group → Enforcing → Json × Bool → Enforcing
unfolding write shrunk
settle now id g s (tree, modified) =
    let final = final_keys tree in
    let survivor = leb 2 (length final) in
    let claimed = record s { owned = if survivor then final ++ s.owned else s.owned } in
    if modified || not survivor
    then write (get id s.changed) id (shrunk now g tree survivor) claimed
    else claimed

abbrev enforce_tree : Time → Str → Group → Enforcing → Json → Option (List Str) → Enforcing
enforce_tree now id g s tree none = s
enforce_tree now id g s tree (some keys) =
    settle now id g s (prune_keys (owns s.owned) keys (tree, false))

abbrev enforce_raw : Time → Str → Group → Enforcing → RawMessage → Enforcing
enforce_raw now id g s absent = s
enforce_raw now id g s (malformed raw) = s
enforce_raw now id g s (json tree) = enforce_tree now id g s tree (member_keys (json tree))

-- The loop body of `enforce`.
unfoldable pub enforce_one : Time → Enforcing → Str → Enforcing
unfolding settle prune_keys
enforce_one now s id = enforce_raw now id (group_at id s.groups) s (group_at id s.groups).tree

unfoldable pub enforce_all : Time → Enforcing → List Str → Enforcing
unfolding enforce_one
enforce_all now s [] = s
enforce_all now s (id ∷ ids) = enforce_all now (enforce_one now s id) ids

abbrev pub is_absent : RawMessage → Bool
is_absent absent = true
is_absent (malformed raw) = false
is_absent (json v) = false

abbrev pub untouched : Option Group → Bool
untouched none = true
untouched (some g) = false

-- The second pass goes past a group that is dead, has no tree, was changed by the first pass, or
-- has two leaves.
unfoldable pub spared : Enforcing → Str → Bool
spared s id =
    let g = group_at id s.groups in
    not (is_live g)
    || (is_absent g.tree
        || (not (untouched (get id s.changed)) || leb 2 (length (or_else (member_keys g.tree) []))))

-- The loop body of the second pass: any other group dies.
unfoldable pub bury_one : Time → Enforcing → Str → Enforcing
unfolding write
bury_one now s id =
    let g = group_at id s.groups in
    if spared s id then s else write (get id s.prior) id (record g { deleted_at = now }) s

unfoldable pub bury_all : Time → Enforcing → List Str → Enforcing
unfolding bury_one
bury_all now s [] = s
bury_all now s (id ∷ ids) = bury_all now (bury_one now s id) ids

abbrev pub enforce_start : Groups → Enforcing
enforce_start m = record { groups = m; owned = []; changed = []; prior = [] }

abbrev pub live_ids : Groups → List Str
live_ids m = ids_of (live m)

-- `enforce`. The range of the second pass visits the ids of the store.
unfoldable pub enforce : Time → Str → Groups → Enforcing
unfolding live precedes sort_ids final_keys enforce_all spared bury_all
enforce now winner m =
    let first = enforce_all now (enforce_start m) (sort_ids (precedes m winner) (live_ids m)) in
    bury_all now first (ids_of first.groups)
