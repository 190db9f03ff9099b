-- ===== src/GroupSync/Heal/Tombstones.antt =====
-- What each loop of the store's methods keeps: tombstones, and the keys of the map distinct.
use termyard.Base.{
  ◌≡◌, ◌<◌, inl, inr, Bool, true, false, List, [], ◌∷◌, Option, none, some, Str, arith, Bool-cases,
  put,
}
use termyard.GroupSync.Json.{Json, replace_strings}
use termyard.GroupSync.Tree.{RawMessage, absent, malformed, json, member_keys}
use termyard.GroupSync.Group.{Group, Time, accepts, merge}
use termyard.GroupSync.Store.{Groups, group_at, is_live, or_else, prune_keys}
use termyard.GroupSync.Store.Order.{IsMap, put-IsMap}
use termyard.GroupSync.Store.Dead.{IsDead, put-IsDead}
use termyard.GroupSync.Ops.{merge_snapshot}
use termyard.GroupSync.Heal.{
  Pruning, migrate_raw, migrate_one, migrate_all, keep_renamed, reconcile_raw, keep_reconciled,
  reconcile_one, reconcile_all,
}

-- A store as good as an older one: still a map, and the tombstone still there.
pub record Keeps (q : Str) (m n : Groups) : Type 0 where
  pub map : IsMap m → IsMap n
  pub dead : IsMap m → IsDead q m → IsDead q n

pub Keeps-refl : (q : Str) (m : Groups) → Keeps q m m
Keeps-refl q m = record { map = λ x. x; dead = λ x d. d }

pub Keeps-trans : {q : Str} {m n l : Groups} → Keeps q m n → Keeps q n l → Keeps q m l
Keeps-trans a b = record { map = λ x. b.map (a.map x); dead = λ x d. b.dead (a.map x) (a.dead x d) }

pub Keeps-put :
    (q id : Str) (g : Group) (m : Groups)
    → (is_live (group_at id m) ≡ false → is_live g ≡ false)
    → Keeps q m (put id g m)
Keeps-put q id g m h = record {
  map = put-IsMap id g m;
  dead = λ x d. put-IsDead q id g m (λ e. h (rw e at d)) d;
}

-- A record that is merged, and one that is deleted, is dead if it was.
merge_dead : (cur incoming : Group) → is_live cur ≡ false → is_live (merge cur incoming) ≡ false
unfolding merge
merge_dead cur incoming d = ground arith

pub Keeps-merge :
    (q id : Str) (incoming : Group) (m : Groups)
    → Keeps q m (put id (merge (group_at id m) incoming) m)
Keeps-merge q id incoming m = Keeps-put q id _ m (merge_dead (group_at id m) incoming)

pub merge_snapshot-Keeps :
    (q : Str) (snap : List (Str × Group)) (m : Groups) (changed : List Str)
    → Keeps q m (merge_snapshot snap (m, changed)).0
unfolding merge_snapshot
merge_snapshot-Keeps q [] m changed = Keeps-refl q m
merge_snapshot-Keeps q ((id, incoming) ∷ snap) m changed =
    elim (Bool-cases (accepts (group_at id m) incoming)) [
      | inl e ↦
          rw (e, merge_snapshot)
            (Keeps-trans (Keeps-merge q id incoming m) (merge_snapshot-Keeps q snap _ _))
      | inr e ↦ rw (e, merge_snapshot) (merge_snapshot-Keeps q snap m changed)
    ]

abbrev Keeps? : Str → Groups → Option (Groups × List Str) → Type 0
Keeps? q m none = Unit
Keeps? q m (some t) = Keeps q m t.0

migrate_one-Keeps :
    (q : Str) (rs : List (Str × Str)) (now : Time) (id : Str) (t : Groups × List Str)
    → Keeps? q t.0 (migrate_one rs now id t)
unfolding migrate_one
migrate_one-Keeps q rs now id (m, ids) = raw (group_at id m).tree
  where
    renamed : (r : Json × Bool) → Keeps q m (keep_renamed now id (group_at id m) r (m, ids)).0
    renamed r = elim (Bool-cases r.1) [
      | inl e ↦ rw e (Keeps-put q id _ m (λ d. d))
      | inr e ↦ rw e (Keeps-refl q m)
    ]

    raw : (x : RawMessage) → Keeps? q m (migrate_raw rs now id (group_at id m) x (m, ids))
    raw absent = Keeps-refl q m
    raw (malformed r) = tt
    raw (json v) = renamed (replace_strings v rs)

pub migrate_all-Keeps :
    (q : Str) (rs : List (Str × Str)) (now : Time) (ids : List Str) (t : Groups × List Str)
    → Keeps q t.0 (migrate_all rs now ids t).0
unfolding migrate_all
migrate_all-Keeps q rs now [] t = Keeps-refl q t.0
migrate_all-Keeps q rs now (id ∷ ids) t =
    next (migrate_one rs now id t) (migrate_one-Keeps q rs now id t)
      (λ u. migrate_all-Keeps q rs now ids u)
  where
    next :
        (o : Option (Groups × List Str))
        → Keeps? q t.0 o
        → ((u : Groups × List Str) → Keeps q u.0 (migrate_all rs now ids u).0)
        → Keeps q t.0
            (elim o as (λ x. Groups × Option (List Str)) [
              | none ↦ (t.0, none)
              | some u ↦ migrate_all rs now ids u
            ]).0
    next none h k = Keeps-refl q t.0
    next (some u) h k = Keeps-trans h (k u)

module _ (q : Str) (gone : Str → Bool) (now : Time) (positive : 0 < now) where
  reconcile_one-Keeps :
      (id : Str) (t : Groups × Pruning) → Keeps q t.0 (reconcile_one gone now id t).0
  unfolding reconcile_one
  reconcile_one-Keeps id t = elim (Bool-cases (is_live (group_at id t.0))) [
    | inr e ↦ rw e (Keeps-refl q t.0)
    | inl e ↦ rw e (raw (group_at id t.0).tree e)
  ]
    where
      kept :
          (r : Json × Bool)
          → is_live (group_at id t.0) ≡ true
          → Keeps q t.0 (keep_reconciled now id (group_at id t.0) r t).0
      kept r l = elim (Bool-cases r.1) [
        | inl e ↦ rw e (Keeps-put q id _ t.0 (λ d. cc))
        | inr e ↦ rw e (Keeps-refl q t.0)
      ]

      raw :
          (x : RawMessage)
          → is_live (group_at id t.0) ≡ true
          → Keeps q t.0 (reconcile_raw gone now id (group_at id t.0) x t).0
      raw absent l = Keeps-refl q t.0
      raw (malformed r) l = Keeps-refl q t.0
      raw (json v) l = kept (prune_keys gone (or_else (member_keys (json v)) []) (v, false)) l

  pub reconcile_all-Keeps :
      (ids : List Str) (t : Groups × Pruning) → Keeps q t.0 (reconcile_all gone now ids t).0
  unfolding reconcile_all
  reconcile_all-Keeps [] t = Keeps-refl q t.0
  reconcile_all-Keeps (id ∷ ids) t =
      Keeps-trans (reconcile_one-Keeps id t) (reconcile_all-Keeps ids (reconcile_one gone now id t))
