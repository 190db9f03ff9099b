-- ===== src/GroupSync/Store/Dead.antt =====
-- `enforce` lets tombstones be.
use termyard.Base.{
  ◌≡◌, ◌≢◌, inl, inr, Bool, false, List, [], ◌∷◌, Option, none, some, Str, str_dec, refl,
  Bool-cases, ◌∙◌, ap, put, ◌||◌, not, leb, length,
}
use termyard.GroupSync.Json.{Json}
use termyard.GroupSync.Tree.{RawMessage, absent, malformed, json, member_keys}
use termyard.GroupSync.Group.{Group, Time}
use termyard.GroupSync.Store.{
  Groups, group_at, is_live, live_ids, ids_of, precedes, sort_ids, Enforcing, settle, enforce_raw,
  enforce_tree, enforce_start, enforce_one, enforce_all, bury_one, bury_all, spared, enforce,
  final_keys,
}
use termyard.GroupSync.Store.Keys.{group_at-put_ne, group_at-put_self}
use termyard.GroupSync.Store.Order.{IsMap, AllLive, live_ids-AllLive, sort_ids-AllLive}

-- The record is a tombstone.
abbrev pub IsDead : Str → Groups → Type 0
IsDead q m = is_live (group_at q m) ≡ false

-- A write keeps a tombstone when it writes no live record over it.
pub put-IsDead :
    (q id : Str) (g : Group) (m : Groups)
    → (q ≡ id → is_live g ≡ false)
    → IsDead q m
    → IsDead q (put id g m)
put-IsDead q id g m h d = elim (str_dec q id) [
  | yes e ↦ rw (e, group_at-put_self id g m) (h e)
  | no n ↦ rw (group_at-put_ne q id g m n) d
]

settle-frame :
    (now : Time) (id q : Str) (g : Group) (s : Enforcing) (t : Json × Bool)
    → q ≢ id
    → group_at q (settle now id g s t).groups ≡ group_at q s.groups
unfolding settle
settle-frame now id q g s t n = elim (Bool-cases (t.1 || not (leb 2 (length (final_keys t.0))))) [
  | inl e ↦ rw e (group_at-put_ne q id _ s.groups n)
  | inr e ↦ rw e
]

enforce_one-frame :
    (now : Time) (id q : Str) (s : Enforcing)
    → q ≢ id
    → group_at q (enforce_one now s id).groups ≡ group_at q s.groups
unfolding enforce_one
enforce_one-frame now id q s n = raw (group_at id s.groups).tree
  where
    tree :
        (v : Json) (keys : Option (List Str))
        → group_at q (enforce_tree now id (group_at id s.groups) s v keys).groups
          ≡ group_at q s.groups
    tree v none = refl
    tree v (some keys) = settle-frame now id q (group_at id s.groups) s _ n

    raw :
        (r : RawMessage)
        → group_at q (enforce_raw now id (group_at id s.groups) s r).groups ≡ group_at q s.groups
    raw absent = refl
    raw (malformed r) = refl
    raw (json v) = tree v (member_keys (json v))

enforce_all-frame :
    (now : Time) (q : Str) (m : Groups) (ids : List Str) (s : Enforcing)
    → IsDead q m
    → AllLive m ids
    → group_at q (enforce_all now s ids).groups ≡ group_at q s.groups
unfolding enforce_all
enforce_all-frame now q m [] s d a = refl
enforce_all-frame now q m (id ∷ ids) s d (l, a) =
    enforce_all-frame now q m ids (enforce_one now s id) d a
    ∙ enforce_one-frame now id q s (λ e. cc (ap (λ x. is_live (group_at x m)) e))

bury_one-frame :
    (now : Time) (id q : Str) (s : Enforcing)
    → IsDead q s.groups
    → group_at q (bury_one now s id).groups ≡ group_at q s.groups
unfolding bury_one
bury_one-frame now id q s d = elim (Bool-cases (spared s id)) [
  | inl e ↦ rw e
  | inr e ↦ elim (str_dec q id) [
    | yes p ↦ absurd (spare p e)
    | no n ↦ rw e (group_at-put_ne q id _ s.groups n)
  ]
]
  where
    spare : q ≡ id → spared s id ≡ false → ⊥
    spare p = unfold spared in rw (← p, d) (λ x. cc)

bury_all-frame :
    (now : Time) (q : Str) (ids : List Str) (s : Enforcing)
    → IsDead q s.groups
    → group_at q (bury_all now s ids).groups ≡ group_at q s.groups
unfolding bury_all
bury_all-frame now q [] s d = refl
bury_all-frame now q (id ∷ ids) s d =
    let e = bury_one-frame now id q s d in bury_all-frame now q ids (bury_one now s id) (rw e d) ∙ e

-- `enforce` leaves a tombstone exactly as it is.
pub enforce_dead :
    (now : Time) (winner q : Str) (m : Groups)
    → IsMap m
    → IsDead q m
    → group_at q (enforce now winner m).groups ≡ group_at q m
unfolding enforce
enforce_dead now winner q m map d =
    let ids = sort_ids (precedes m winner) (live_ids m) in
    let first = enforce_all now (enforce_start m) ids in
    let e : group_at q first.groups ≡ group_at q m =
      enforce_all-frame now q m ids (enforce_start m) d
        (sort_ids-AllLive (precedes m winner) m (live_ids m) (live_ids-AllLive m map)) in
    bury_all-frame now q (ids_of first.groups) first (rw e d) ∙ e

-- What every write keeps, `enforce` keeps.
module _ (P : Groups → Type 0)
    (write_keeps : (id : Str) (g : Group) (m : Groups) → P m → P (put id g m)) where
  settle_keeps :
      (now : Time) (id : Str) (g : Group) (s : Enforcing) (t : Json × Bool)
      → P s.groups
      → P (settle now id g s t).groups
  unfolding settle
  settle_keeps now id g s t p = elim (Bool-cases (t.1 || not (leb 2 (length (final_keys t.0))))) [
    | inl e ↦ rw e (write_keeps id _ s.groups p)
    | inr e ↦ rw e p
  ]

  enforce_one_keeps :
      (now : Time) (id : Str) (s : Enforcing) → P s.groups → P (enforce_one now s id).groups
  unfolding enforce_one
  enforce_one_keeps now id s p = raw (group_at id s.groups).tree
    where
      tree :
          (v : Json) (keys : Option (List Str))
          → P (enforce_tree now id (group_at id s.groups) s v keys).groups
      tree v none = p
      tree v (some keys) = settle_keeps now id (group_at id s.groups) s _ p

      raw : (r : RawMessage) → P (enforce_raw now id (group_at id s.groups) s r).groups
      raw absent = p
      raw (malformed r) = p
      raw (json v) = tree v (member_keys (json v))

  enforce_all_keeps :
      (now : Time) (ids : List Str) (s : Enforcing) → P s.groups → P (enforce_all now s ids).groups
  unfolding enforce_all
  enforce_all_keeps now [] s p = p
  enforce_all_keeps now (id ∷ ids) s p =
      enforce_all_keeps now ids (enforce_one now s id) (enforce_one_keeps now id s p)

  bury_all_keeps :
      (now : Time) (ids : List Str) (s : Enforcing) → P s.groups → P (bury_all now s ids).groups
  unfolding bury_all bury_one
  bury_all_keeps now [] s p = p
  bury_all_keeps now (id ∷ ids) s p =
      bury_all_keeps now ids (bury_one now s id) (elim (Bool-cases (spared s id)) [
        | inl e ↦ rw e p
        | inr e ↦ rw e (write_keeps id _ s.groups p)
      ])

  pub enforce_keeps :
      (now : Time) (winner : Str) (m : Groups) → P m → P (enforce now winner m).groups
  unfolding enforce
  enforce_keeps now winner m p =
      let ids = sort_ids (precedes m winner) (live_ids m) in
      let first = enforce_all now (enforce_start m) ids in
      bury_all_keeps now (ids_of first.groups) first (enforce_all_keeps now ids (enforce_start m) p)
