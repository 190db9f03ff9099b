-- ===== src/SessionOrder.antt =====
-- `Store` (pkg/sessionorder/sessionorder.go): the rank of each session in the sidebar, by its global
-- key, a name or `host/name`.
pub mod Merge
pub mod Keys
mod Tests
use termyard.Base.{
  ℕ, suc, ltb, leb, ◌==◌, if◌then◌else◌, ite, Bool, true, false, not, ◌&&◌, ◌||◌, List, [], ◌∷◌,
  ◌++◌, map, Option, none, some, Str, str_dec, get, put, delete,
}

abbrev pub Time : Type 0
Time = ℕ

pub record Order : Type 0 where
  pub rank : Str
  pub updated_at : Time

abbrev pub zero_order : Order
zero_order = record { rank = []; updated_at = 0 }

abbrev pub Orders : Type 0
Orders = List (Str × Order)

abbrev pub or_zero : Option Order → Order
or_zero none = zero_order
or_zero (some o) = o

-- The stored order is as new as the one that comes in.
abbrev pub keeps : Option Order → Order → Bool
keeps none in_order = false
keeps (some cur) in_order = not (ltb cur.updated_at in_order.updated_at)

abbrev pub new_order : Str → Time → Order
new_order rank now = record { rank = rank; updated_at = now }

abbrev pub cons_host : ℕ → Option (Str × Str) → Option (Str × Str)
cons_host c none = none
cons_host c (some (host, name)) = some (c ∷ host, name)

-- The host and the name, for a key that has a slash.
unfoldable pub split_at_slash : Str → Option (Str × Str)
split_at_slash [] = none
split_at_slash (c ∷ s) =
    let rest = split_at_slash s in if c == 47 then some ([], s) else cons_host c rest

abbrev or_bare : Str → Option (Str × Str) → Str × Str
or_bare key none = ([], key)
or_bare key (some p) = p

-- `splitKey`
unfoldable pub split_key : Str → Str × Str
unfolding split_at_slash
split_key key = or_bare key (split_at_slash key)

-- `ownerOf`
unfoldable pub owner_of : Str → Str
unfolding split_key
owner_of key = (split_key key).0

abbrev pub is_blank : Str → Bool
is_blank [] = true
is_blank (c ∷ s) = false

abbrev pub same : Str → Str → Bool
same a b = ite (str_dec a b) true false

abbrev pub renamed : Str × Str → Str → Str
renamed (host, name) new_name = if is_blank host then new_name else host ++ 47 ∷ new_name

-- The keys that `MigrateKey` moves, with their new keys, in the order of the map.
unfoldable pub moves : Str → Str → Str → Orders → List (Str × Str)
unfolding split_key
moves local_host old_name new_name [] = []
moves local_host old_name new_name ((key, o) ∷ m) =
    let rest = moves local_host old_name new_name m in
    let (host, name) = split_key key in
    let new_key = renamed (host, name) new_name in
    if not (same name old_name) || (not (is_blank host) && not (same host local_host))
    then rest
    else (if same new_key key then rest else (key, new_key) ∷ rest)

-- `now i` is what the `i`-th call of `time.Now` returned.
unfoldable pub move_all : (ℕ → Time) → ℕ → List (Str × Str) → Orders → Orders
move_all now i [] m = m
move_all now i ((old_key, new_key) ∷ ms) m =
    let order = new_order (or_zero (get old_key m)).rank (now i) in
    move_all now (suc i) ms (put new_key order (delete old_key m))

-- The loop of `ApplySnapshot`.
unfoldable pub merge_all : Orders → Orders × List Str → Orders × List Str
merge_all [] r = r
merge_all ((k, o) ∷ snap) (m, changed) =
    merge_all snap (if keeps (get k m) o then (m, changed) else (put k o m, changed ++ k ∷ []))

-- `saves` tells which maps the file takes. The Boolean is the error of `save`.
module _ (saves : Orders → Bool) where
  -- `Set`
  unfoldable pub set : Time → Str → Str → Orders → Orders × (Order × Bool)
  set now key rank m =
      let cur = new_order rank now in
      let n = put key cur m in if saves n then (n, (cur, false)) else (n, (zero_order, true))

  -- `ApplyRemote`
  unfoldable pub apply_remote : Str → Order → Orders → Orders × (Order × (Bool × Bool))
  apply_remote key in_order m =
      let n = put key in_order m in
      if keeps (get key m) in_order
      then (m, (or_zero (get key m), (false, false)))
      else (if saves n then (n, (in_order, (true, false))) else (n, (zero_order, (false, true))))

  abbrev pub finish_snapshot : Orders × List Str → Orders × (List Str × Bool)
  finish_snapshot (m, []) = (m, ([], false))
  finish_snapshot (m, k ∷ changed) = if saves m then (m, (k ∷ changed, false)) else (m, ([], true))

  -- `ApplySnapshot`
  unfoldable pub apply_snapshot : Orders → Orders → Orders × (List Str × Bool)
  unfolding merge_all
  apply_snapshot snap m = finish_snapshot (merge_all snap (m, []))

  abbrev finish_moves : (ℕ → Time) → List (Str × Str) → Orders → Orders × (List Str × Bool)
  finish_moves now [] m = (m, ([], false))
  finish_moves now (p ∷ ms) m =
      let n = move_all now 0 (p ∷ ms) m in (n, (map (λ q. q.1) (p ∷ ms), not (saves n)))

  -- `MigrateKey`
  unfoldable pub migrate_key : (ℕ → Time) → Str → Str → Str → Orders → Orders × (List Str × Bool)
  unfolding moves move_all
  migrate_key now local_host old_name new_name m =
      if is_blank old_name || (is_blank new_name || same old_name new_name)
      then (m, ([], false))
      else finish_moves now (moves local_host old_name new_name m) m
