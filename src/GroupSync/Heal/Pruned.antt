-- ===== src/GroupSync/Heal/Pruned.antt =====
-- The first pass of `RemoveSessionKey`: what it prunes stands in both of its maps, and putting the
-- prior records back undoes a change.
use termyard.Base.{
  ◌≡◌, ◌⊎◌, inl, inr, Bool, [], ◌∷◌, Option, none, some, Str, str_dec, refl, arith, In, sym,
  Bool-cases, ◌∙◌, get, put, get-put,
}
use termyard.GroupSync.Json.{Json}
use termyard.GroupSync.Tree.{RawMessage, absent, malformed, json, remove_leaf_any}
use termyard.GroupSync.Group.{Group, Time}
use termyard.GroupSync.Store.{Groups, ids_of, is_live}
use termyard.GroupSync.Store.Order.{IsMap}
use termyard.GroupSync.Store.Trace.{Trace, same, moved, get-put_self, get-put_ne}
use termyard.GroupSync.Heal.{Pruning, note_pruned, prune_raw, prune_one, prune_groups, put_all}

-- Every id is traced from `m` to the store, through the two maps.
abbrev pub AllTraced : Groups → Groups → Pruning → Type 0
AllTraced m n t = (q : Str) → Trace q m n t.0 t.1

abbrev pub first_of : Option Group → Option Group → Option Group
first_of none b = b
first_of (some a) b = some a

pub get-put_all :
    (q : Str) (from m : Groups) → get q (put_all from m) ≡ first_of (get q from) (get q m)
unfolding put_all
get-put_all q [] m = refl
get-put_all q ((id, g) ∷ from) m =
    ground (arith, get-put_all q from m, get-put q id g (put_all from m))

-- Putting the prior records back undoes a traced change.
pub undo :
    (m n : Groups) (t : Pruning) → AllTraced m n t → (q : Str) → get q (put_all t.1 n) ≡ get q m
undo m n t d q = get-put_all q t.1 n ∙ back (d q)
  where
    back : Trace q m n t.0 t.1 → first_of (get q t.1) (get q n) ≡ get q m
    back (same p c e) = rw (p, e)
    back (moved old new p o c e) = rw (p, o)

-- The first pass: what is pruned stands in both maps, the rest in neither.
abbrev pub IsPruned : Groups → Pruning → Type 0
IsPruned m t =
    (q : Str)
    → ((get q t.1 ≡ none) × (get q t.0 ≡ none))
      ⊎ ((old : Group) × (new : Group) × (get q t.1 ≡ some old)
          × (get q m ≡ some old)
          × (get q t.0 ≡ some new))

abbrev pub IsPruned? : Groups → Option Pruning → Type 0
IsPruned? m none = Unit
IsPruned? m (some t) = IsPruned m t

pub prune_one-IsPruned :
    (key : Str) (now : Time) (m : Groups) (id : Str) (g : Group) (t : Pruning)
    → get id m ≡ some g
    → IsPruned m t
    → IsPruned? m (prune_one key now id g t)
unfolding prune_one
prune_one-IsPruned key now m id g t here p = elim (Bool-cases (is_live g)) [
  | inr dead ↦ rw dead p
  | inl l ↦ rw l (raw g.tree)
]
  where
    written : (h : Group) → IsPruned m (put id h t.0, put id g t.1)
    written h q = elim (str_dec q id) [
      | yes e ↦ inr (g, h, rw e (get-put_self id g t.1), rw e here, rw e (get-put_self id h t.0))
      | no n ↦ rw (get-put_ne q id h t.0 n, get-put_ne q id g t.1 n) (p q)
    ]

    noted : (r : Json × Bool) → IsPruned m (note_pruned now id g r t)
    noted r = elim (Bool-cases r.1) [ inl e ↦ rw e (written _) | inr e ↦ rw e p ]

    raw : (x : RawMessage) → IsPruned? m (prune_raw key now id g x t)
    raw absent = p
    raw (malformed r) = tt
    raw (json v) = noted (remove_leaf_any v key)

-- The entries of a map are what it returns.
abbrev pub AllStored : Groups → Groups → Type 0
AllStored m [] = Unit
AllStored m ((id, g) ∷ es) = (get id m ≡ some g) × AllStored m es

pub AllStored-cons :
    (id : Str) (g : Group) (m es : Groups)
    → (¬ In id (ids_of es))
    → AllStored m es
    → AllStored ((id, g) ∷ m) es
AllStored-cons id g m [] n a = tt
AllStored-cons id g m ((j, h) ∷ es) n (e, a) =
    (ground (arith, (λ (x : j ≡ id). n (inl (sym x)))), AllStored-cons id g m es (λ i. n (inr i)) a)

pub AllStored-self : (m : Groups) → IsMap m → AllStored m m
AllStored-self [] d = tt
AllStored-self ((id, g) ∷ m) (n, d) = (ground arith, AllStored-cons id g m m n (AllStored-self m d))

pub prune_groups-IsPruned :
    (key : Str) (now : Time) (m es : Groups) (t : Pruning)
    → AllStored m es
    → IsPruned m t
    → IsPruned? m (prune_groups key now es t)
unfolding prune_groups
prune_groups-IsPruned key now m [] t a p = p
prune_groups-IsPruned key now m ((id, g) ∷ es) t (e, a) p =
    next (prune_one key now id g t) (prune_one-IsPruned key now m id g t e p)
      (λ u h. prune_groups-IsPruned key now m es u a h)
  where
    next :
        (o : Option Pruning)
        → IsPruned? m o
        → ((u : Pruning) → IsPruned m u → IsPruned? m (prune_groups key now es u))
        → IsPruned? m (elim o [ none ↦ none | some u ↦ prune_groups key now es u ])
    next none h k = tt
    next (some u) h k = k u h
