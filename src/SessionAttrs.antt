-- ===== src/SessionAttrs.antt =====
-- `Store` (pkg/sessionattrs/sessionattrs.go): which sessions are parked or hidden, and the schedule
-- that owns one, by global key. `splitKey` is that of pkg/sessionorder, word for word.
pub mod Rollback
pub mod Prune
pub mod Schedules
mod Tests
use termyard.Base.{
  ℕ, suc, ltb, leb, ◌==◌, ◌-◌, ◌*◌, if◌then◌else◌, ite, Bool, true, false, not, ◌&&◌, ◌||◌, List,
  [], ◌∷◌, ◌++◌, map, Option, none, some, Str, str_dec, get, put, delete,
}
use termyard.SessionOrder.{Time, is_blank, same, split_key, owner_of, renamed}

pub record Attr : Type 0 where
  pub background : Bool
  pub hidden : Bool
  pub schedule_id : Str
  pub updated_at : Time

abbrev pub Attrs : Type 0
Attrs = List (Str × Attr)

abbrev pub zero_attr : Attr
zero_attr = record { background = false; hidden = false; schedule_id = []; updated_at = 0 }

-- `empty`
abbrev pub is_empty : Attr → Bool
is_empty a = not a.background && not a.hidden

-- A day, in nanoseconds.
abbrev pub tombstone_ttl : Time
tombstone_ttl = 24 * 3600 * 1000000000

abbrev pub or_zero_attr : Option Attr → Attr
or_zero_attr none = zero_attr
or_zero_attr (some a) = a

-- `put`
unfoldable pub put_attr : Str → Attr → Attrs → Attrs
put_attr key a m =
    let p = put key a m in
    let d = delete key m in if is_empty a && (a.updated_at == 0) then d else p

-- The stored attributes are as new as the ones that come in.
abbrev pub is_stale : Option Attr → Attr → Bool
is_stale none a = false
is_stale (some cur) a = not (ltb cur.updated_at a.updated_at)

-- What comes in keeps the schedule that is stored, unless it has one.
abbrev pub with_schedule : Option Attr → Attr → Attr
with_schedule none a = a
with_schedule (some cur) a =
    if is_blank a.schedule_id then record a { schedule_id = cur.schedule_id } else a

-- `Set` puts the stored attributes back.
abbrev pub restore : Str → Option Attr → Attrs → Attrs
restore key none m = delete key m
restore key (some cur) m = put key cur m

-- The loop of `ApplySnapshot`.
unfoldable pub merge_attrs : Attrs → Attrs × List Str → Attrs × List Str
merge_attrs [] r = r
merge_attrs ((k, a) ∷ snap) (m, changed) = merge_attrs snap (
    if is_stale (get k m) a
    then (m, changed)
    else (put_attr k (with_schedule (get k m) a) m, changed ++ k ∷ []))

-- What the loop of `Prune` does to an entry: it leaves it, drops it, or puts a tombstone.
pub data Verdict : Type 0 where
  stays : Verdict
  expires : Verdict
  dies : Verdict

module _ (now : Time) (live_keys online_hosts : Str → Bool) where
  abbrev pub verdict : Str → Attr → Verdict
  verdict k a =
      if is_empty a
      then (if ltb tombstone_ttl (now - a.updated_at) then expires else stays)
      else if live_keys k
      then stays
      else if is_blank (owner_of k) || not (online_hosts (owner_of k))
      then stays
      else dies

  abbrev pub prune_entry : Verdict → Str → Attr → Attrs × List Str → Attrs × List Str
  prune_entry stays k a (m, gone) = ((k, a) ∷ m, gone)
  prune_entry expires k a (m, gone) = (m, gone)
  prune_entry dies k a (m, gone) = ((k, record zero_attr { updated_at = now }) ∷ m, k ∷ gone)

  -- The loop of `Prune`: the map that it leaves and the keys that it turned into tombstones.
  unfoldable pub prune_loop : Attrs → Attrs × List Str
  prune_loop [] = ([], [])
  prune_loop ((k, a) ∷ m) = prune_entry (verdict k a) k a (prune_loop m)

  abbrev pub is_stays : Verdict → Bool
  is_stays stays = true
  is_stays expires = false
  is_stays dies = false

  -- Whether the loop of `Prune` sets `changed`.
  unfoldable pub prune_changes : Attrs → Bool
  prune_changes [] = false
  prune_changes ((k, a) ∷ m) = not (is_stays (verdict k a)) || prune_changes m

-- The keys that `MigrateKey` moves, with their new keys, in the order of the map.
unfoldable pub attr_moves : Str → Str → Str → Attrs → List (Str × Str)
unfolding split_key
attr_moves local_host old_name new_name [] = []
attr_moves local_host old_name new_name ((key, a) ∷ m) =
    let rest = attr_moves local_host old_name new_name m in
    let (host, name) = split_key key in
    let new_key = renamed (host, name) new_name in
    if not (same name old_name) || (not (is_blank host) && not (same host local_host))
    then rest
    else (if same new_key key then rest else (key, new_key) ∷ rest)

-- `now i` is what the `i`-th call of `time.Now` returned.
unfoldable pub move_attrs : (ℕ → Time) → ℕ → List (Str × Str) → Attrs → Attrs
move_attrs now i [] m = m
move_attrs now i ((old_key, new_key) ∷ ms) m =
    let attr = record (or_zero_attr (get old_key m)) { updated_at = now i } in
    move_attrs now (suc i) ms (put new_key attr (delete old_key m))

-- `saves` tells which maps the file takes. The last Boolean of a result is the error of `save`.
module _ (saves : Attrs → Bool) where
  -- `Set`
  unfoldable pub set_attr : Time → Str → Bool → Bool → Attrs → Attrs × (Attr × Bool)
  set_attr now key background hidden m =
      let cur = or_zero_attr (get key m) in
      let a : Attr = record {
        background = background;
        hidden = hidden;
        schedule_id = cur.schedule_id;
        updated_at = now;
      } in
      let n = put_attr key a m in
      let back = restore key (get key m) n in
      if saves n then (n, (a, false)) else (back, (zero_attr, true))

  -- `ApplyRemote`
  unfoldable pub apply_remote_attr : Str → Attr → Attrs → Attrs × (Attr × (Bool × Bool))
  apply_remote_attr key in_attr m =
      let a = with_schedule (get key m) in_attr in
      let n = put_attr key a m in
      if is_stale (get key m) in_attr
      then (m, (or_zero_attr (get key m), (false, false)))
      else (if saves n then (n, (a, (true, false))) else (n, (zero_attr, (false, true))))

  abbrev pub finish_attrs : Attrs × List Str → Attrs × (List Str × Bool)
  finish_attrs (m, []) = (m, ([], false))
  finish_attrs (m, k ∷ changed) = if saves m then (m, (k ∷ changed, false)) else (m, ([], true))

  -- `ApplySnapshot`
  unfoldable pub apply_attrs : Attrs → Attrs → Attrs × (List Str × Bool)
  unfolding merge_attrs
  apply_attrs snap m = finish_attrs (merge_attrs snap (m, []))

  -- `Prune`
  unfoldable pub prune :
      Time → (Str → Bool) → (Str → Bool) → Attrs → Attrs × (List Str × (Bool × Bool))
  prune now live_keys online_hosts m =
      let (n, gone) = prune_loop now live_keys online_hosts m in
      if prune_changes now live_keys online_hosts m
      then (if saves n then (n, (gone, (true, false))) else (n, ([], (false, true))))
      else (n, (gone, (false, false)))

  -- `SetScheduleID`
  unfoldable pub set_schedule_id : Time → Str → Str → Attrs → Attrs × (Attr × Bool)
  set_schedule_id now key schedule_id m =
      let cur = record (or_zero_attr (get key m)) { schedule_id = schedule_id; updated_at = now } in
      let n = put_attr key cur m in if saves n then (n, (cur, false)) else (n, (zero_attr, true))

  abbrev pub finish_moved : (ℕ → Time) → List (Str × Str) → Attrs → Attrs × (List Str × Bool)
  finish_moved now [] m = (m, ([], false))
  finish_moved now (p ∷ ms) m =
      let n = move_attrs now 0 (p ∷ ms) m in (n, (map (λ q. q.1) (p ∷ ms), not (saves n)))

  -- `MigrateKey`
  unfoldable pub migrate_attrs : (ℕ → Time) → Str → Str → Str → Attrs → Attrs × (List Str × Bool)
  unfolding attr_moves move_attrs
  migrate_attrs now local_host old_name new_name m =
      if is_blank old_name || (is_blank new_name || same old_name new_name)
      then (m, ([], false))
      else finish_moved now (attr_moves local_host old_name new_name m) m
