-- ===== src/GroupSync/Tests.antt =====
-- Runs of pkg/groupsync on small layouts, and the theorems at inputs that meet their hypotheses.
use termyard.Base.{
  ◌≡◌, refl, true, false, List, [], ◌∷◌, some, Str, codes, str_dec, str_ltb, mem_dec, arith, inl,
  inr, In, get,
}
use termyard.GroupSync.Json.{Json, num, str, obj, end, field, get_field, put_field, replace_strings}
use termyard.GroupSync.Tree.{
  json, remove_leaf_any, member_keys, collect_member_keys, add_key, sort_strings,
  membership_fingerprint, type_name, leaf_name, split_name, key_name, first_name, second_name,
}
use termyard.GroupSync.Tree.Panes.{Pane, leaf, split, pane_keys, Shows, shows_leaf, shows_split}
use termyard.GroupSync.Json.Rename.{Pairwise, IsRenamed, IsOld, strings, replace_strings-IsRenamed}
use termyard.GroupSync.Tree.Prune.{Removes, remove_leaf_any-Removes}
use termyard.GroupSync.Tree.Members.{member_keys-Shows}
use termyard.GroupSync.Tree.Fingerprint.{membership_fingerprint-Shows}
use termyard.GroupSync.Group.{Group, zero_group, accepts, merge}
use termyard.GroupSync.Group.Merge.{Agrees, merge_comm, merge_twice}
use termyard.GroupSync.Store.{Groups, group_at, enforce, is_live}
use termyard.GroupSync.Store.Keys.{IsTidy, IsTidy-nil, IsTidy-cons}
use termyard.GroupSync.Store.Order.{IsMap}
use termyard.GroupSync.Store.Exclusive.{IsExclusive, enforce-IsExclusive}
use termyard.GroupSync.Store.Trace.{IsTraced}
use termyard.GroupSync.Store.Changed.{AreReported, enforce-AreReported}
use termyard.GroupSync.Store.Dead.{IsDead}
use termyard.GroupSync.Ops.{save_failed, set_tree}
use termyard.GroupSync.Heal.{remove_session_key, restore}
use termyard.GroupSync.Heal.Rollback.{remove_session_key_failed, restore-remove_session_key}
use termyard.GroupSync.Heal.History.{sets_tree, applies_remote, reconciles, run, run-IsDead}

-- All that a run of the store computes with.
program : Unit {0}
unfolding enforce remove_session_key restore set_tree remove_leaf_any member_keys
    collect_member_keys add_key sort_strings get_field put_field str_dec str_ltb mem_dec
program = tt

abbrev leaf_of : Str → Json
leaf_of k = obj (field type_name (str leaf_name) (field key_name (str k) end))

abbrev split_of : Json → Json → Json
split_of a b = obj (
    field type_name (str split_name)
      (field (codes "ratio") (num (codes "0.5")) (field first_name a (field second_name b end))))

leaf_of-Shows : (k : Str) → Shows (leaf_of k) (leaf k)
unfolding program
leaf_of-Shows k = shows_leaf _ k refl refl

split_of-Shows :
    {a b : Json} {p q : Pane} → Shows a p → Shows b q → Shows (split_of a b) (split p q)
unfolding program
split_of-Shows s t =
    shows_split _ refl
      ((refl, inr (inr refl), (refl, inr (inr refl), (refl, inl refl, (refl, inr (inl refl), tt)))))
      refl refl s t

abbrev ab : Json
ab = split_of (leaf_of (codes "a")) (leaf_of (codes "b"))

abbrev bcd : Json
bcd = split_of (leaf_of (codes "b")) (split_of (leaf_of (codes "c")) (leaf_of (codes "d")))

ab-Shows : Shows ab (split (leaf (codes "a")) (leaf (codes "b")))
ab-Shows = split_of-Shows (leaf_of-Shows (codes "a")) (leaf_of-Shows (codes "b"))

bcd-Shows : Shows bcd (split (leaf (codes "b")) (split (leaf (codes "c")) (leaf (codes "d"))))
bcd-Shows =
    split_of-Shows (leaf_of-Shows (codes "b"))
      (split_of-Shows (leaf_of-Shows (codes "c")) (leaf_of-Shows (codes "d")))

remove_leaf_any-Removes_example :
    Removes ab
      (split (leaf (codes "a")) (leaf (codes "b")))
      (codes "a")
      (remove_leaf_any ab (codes "a"))
remove_leaf_any-Removes_example = remove_leaf_any-Removes (codes "a") ab-Shows

remove_a : remove_leaf_any ab (codes "a") ≡ (leaf_of (codes "b"), true)
unfolding program
remove_a = refl

members : member_keys (json bcd) ≡ some (codes "b" ∷ codes "c" ∷ codes "d" ∷ [])
unfolding program
members = refl

member_keys-Shows_example :
    (keys : List Str) × (member_keys (json bcd) ≡ some keys)
    × ((k : Str)
        → (In k keys
            → In k (
                pane_keys (split (leaf (codes "b")) (split (leaf (codes "c")) (leaf (codes "d"))))))
          × (In k
                (pane_keys (split (leaf (codes "b")) (split (leaf (codes "c")) (leaf (codes "d")))))
              → In k keys))
member_keys-Shows_example = member_keys-Shows bcd-Shows

-- The same two leaves the other way round, with a key for a hash.
ba-Shows :
    Shows
      (split_of (leaf_of (codes "b")) (leaf_of (codes "a")))
      (split (leaf (codes "b")) (leaf (codes "a")))
ba-Shows = split_of-Shows (leaf_of-Shows (codes "b")) (leaf_of-Shows (codes "a"))

swap : (x y k : Str) → In k (x ∷ y ∷ []) → In k (y ∷ x ∷ [])
swap x y k i = elim i [ inl e ↦ inr (inl e) | inr j ↦ elim j [ inl e ↦ inl e | inr z ↦ absurd z ] ]

membership_fingerprint-Shows_example :
    membership_fingerprint (λ k. k) (json ab)
    ≡ membership_fingerprint (λ k. k) (json (split_of (leaf_of (codes "b")) (leaf_of (codes "a"))))
membership_fingerprint-Shows_example =
    membership_fingerprint-Shows (λ k. k) ab-Shows ba-Shows (swap (codes "a") (codes "b"))
      (swap (codes "b") (codes "a"))

abbrev renaming : List (Str × Str)
renaming = (codes "b", codes "z") ∷ []

replace_strings-IsRenamed_example :
    Pairwise (IsRenamed renaming) (strings ab) (strings (replace_strings ab renaming).0)
    × (((replace_strings ab renaming).1 ≡ false → (replace_strings ab renaming).0 ≡ ab)
        × ((replace_strings ab renaming).1 ≡ true
            → (s : Str) × (In s (strings ab) × IsOld renaming s)))
replace_strings-IsRenamed_example = replace_strings-IsRenamed ab renaming

-- Two groups that both hold "b": the older one, and a newer one with three leaves.
abbrev group_g : Group
group_g = record zero_group { tree = json ab; tree_updated_at = 5 }

abbrev group_h : Group
group_h = record zero_group { tree = json bcd; tree_updated_at = 4 }

abbrev two_groups : Groups
two_groups = (codes "g", group_g) ∷ (codes "h", group_h) ∷ []

two_groups-IsMap : IsMap two_groups
two_groups-IsMap = ground arith

two_groups-IsTidy : IsTidy two_groups
two_groups-IsTidy =
    IsTidy-cons (codes "g") group_g ((codes "h", group_h) ∷ []) (_, ab-Shows)
      (IsTidy-cons (codes "h") group_h [] (_, bcd-Shows) IsTidy-nil)

enforced : group_at (codes "h") (enforce 9 [] two_groups).groups ≡ record zero_group {
  tree = json (split_of (leaf_of (codes "c")) (leaf_of (codes "d")));
  tree_updated_at = 9;
}
unfolding program
enforced = refl

enforce-IsExclusive_example : IsExclusive (enforce 9 [] two_groups).groups
enforce-IsExclusive_example =
    enforce-IsExclusive 9 [] two_groups (omega arith) two_groups-IsMap two_groups-IsTidy

enforce-AreReported_example :
    IsTraced two_groups (enforce 9 [] two_groups)
    × AreReported 9 two_groups (enforce 9 [] two_groups).changed
enforce-AreReported_example = enforce-AreReported 9 [] two_groups two_groups-IsMap

-- `RemoveSessionKey` of "a" kills the group "g", whose tree falls to one leaf.
removed :
    is_live (group_at (codes "g") (remove_session_key (λ n. true) 9 (codes "a") two_groups).0)
    ≡ false
unfolding program
removed = refl

remove_session_key_failed_example :
    get (codes "g") (remove_session_key (λ n. false) 9 (codes "a") two_groups).0
    ≡ get (codes "g") two_groups
unfolding program
remove_session_key_failed_example =
    remove_session_key_failed (λ n. false) 9 (codes "a") two_groups save_failed two_groups-IsMap
      refl (codes "g")

restore-remove_session_key_example :
    let r = remove_session_key (λ n. true) 9 (codes "a") two_groups in
    get (codes "g") (restore (λ n. true) r.1.1 r.0).0 ≡ get (codes "g") two_groups
restore-remove_session_key_example =
    restore-remove_session_key (λ n. true) 9 (codes "a") two_groups two_groups-IsMap (codes "g")

-- A peer renames the group while another moves it.
abbrev renamed : Group
renamed = record zero_group { name = codes "n"; name_updated_at = 3; rank_updated_at = 1 }

abbrev moved : Group
moved = record zero_group { rank = codes "r"; rank_updated_at = 4; name_updated_at = 1 }

renamed-Agrees : Agrees renamed moved
renamed-Agrees = record {
  tree = λ e. refl;
  name = λ e. absurd (omega arith);
  mode = λ e. refl;
  rank = λ e. absurd (omega arith);
}

merge_comm_example : merge (merge zero_group renamed) moved ≡ merge (merge zero_group moved) renamed
merge_comm_example = merge_comm zero_group renamed moved renamed-Agrees

merge_twice_example :
    (accepts (merge zero_group moved) moved ≡ false)
    × (merge (merge zero_group moved) moved ≡ merge zero_group moved)
merge_twice_example = merge_twice zero_group moved

abbrev buried : Groups
buried = (codes "g", record zero_group { tree = json ab; deleted_at = 3 }) ∷ []

-- Late calls on a dead id: a new tree, a stale record from a peer, a reconciliation.
run-IsDead_example : IsDead (codes "g") (
    run
      (λ n. true)
      (sets_tree 5 (codes "g") (json bcd)
        ∷ applies_remote 6 (codes "g") moved
        ∷ reconciles 7 (λ k. false)
        ∷ [])
      buried)
unfolding str_dec
run-IsDead_example =
    run-IsDead (λ n. true) (codes "g")
      (sets_tree 5 (codes "g") (json bcd)
        ∷ applies_remote 6 (codes "g") moved
        ∷ reconciles 7 (λ k. false)
        ∷ [])
      buried (tt, (tt, (omega arith, tt))) ((λ h. h), tt) refl
