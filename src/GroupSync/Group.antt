-- ===== src/GroupSync/Group.antt =====
-- `Group`, one saved layout, and its merge field by field (pkg/groupsync/groupsync.go).
pub mod Merge
use termyard.Base.{
  ℕ, Bool, true, false, ◌||◌, [], Str, codes, ltb, ◌==◌, if◌then◌else◌, str_dec, ite, Option, none,
  some,
}
use termyard.GroupSync.Tree.{RawMessage, absent}

-- A `time.Time` in nanoseconds; 0 is the zero time. `after a b` is `a.After(b)`.
abbrev pub Time : Type 0
Time = ℕ

abbrev pub is_zero : Time → Bool
is_zero t = t == 0

abbrev pub after : Time → Time → Bool
after a b = ltb b a

-- `NameMode` is a string type; the zero value is the empty string.
abbrev pub name_mode_auto : Str
name_mode_auto = codes "auto"

abbrev pub name_mode_manual : Str
name_mode_manual = codes "manual"

pub record Group : Type 0 where
  pub tree : RawMessage
  pub tree_updated_at : Time
  pub name : Str
  pub name_updated_at : Time
  pub name_mode : Str
  pub name_mode_updated_at : Time
  pub rank : Str
  pub rank_updated_at : Time
  pub deleted_at : Time

-- `Group{}`
abbrev pub zero_group : Group
zero_group = record {
  tree = absent;
  tree_updated_at = 0;
  name = [];
  name_updated_at = 0;
  name_mode = [];
  name_mode_updated_at = 0;
  rank = [];
  rank_updated_at = 0;
  deleted_at = 0;
}

-- `EffectiveNameMode`
unfoldable pub effective_name_mode : Group → Str
effective_name_mode g =
    ite (str_dec g.name_mode []) (ite (str_dec g.name []) name_mode_auto name_mode_manual)
      g.name_mode

-- Whether each field of the incoming record is newer.
abbrev pub tree_newer : Group → Group → Bool
tree_newer incoming cur = after incoming.tree_updated_at cur.tree_updated_at

abbrev pub name_newer : Group → Group → Bool
name_newer incoming cur = after incoming.name_updated_at cur.name_updated_at

abbrev pub mode_newer : Group → Group → Bool
mode_newer incoming cur = after incoming.name_mode_updated_at cur.name_mode_updated_at

abbrev pub rank_newer : Group → Group → Bool
rank_newer incoming cur = after incoming.rank_updated_at cur.rank_updated_at

abbrev pub deleted_newer : Group → Group → Bool
deleted_newer incoming cur = after incoming.deleted_at cur.deleted_at

-- `accepted` at the end of the merge.
unfoldable pub accepts : Group → Group → Bool
accepts cur incoming =
    tree_newer incoming cur
    || (name_newer incoming cur
        || (mode_newer incoming cur || (rank_newer incoming cur || deleted_newer incoming cur)))

-- `merged` at the end of the merge, in `ApplyRemote` and in the loop of `ApplySnapshot`.
unfoldable pub merge : Group → Group → Group
merge cur incoming = record {
  tree = if tree_newer incoming cur then incoming.tree else cur.tree;
  tree_updated_at =
      if tree_newer incoming cur then incoming.tree_updated_at else cur.tree_updated_at;
  name = if name_newer incoming cur then incoming.name else cur.name;
  name_updated_at =
      if name_newer incoming cur then incoming.name_updated_at else cur.name_updated_at;
  name_mode = if mode_newer incoming cur then incoming.name_mode else cur.name_mode;
  name_mode_updated_at =
      if mode_newer incoming cur then incoming.name_mode_updated_at else cur.name_mode_updated_at;
  rank = if rank_newer incoming cur then incoming.rank else cur.rank;
  rank_updated_at =
      if rank_newer incoming cur then incoming.rank_updated_at else cur.rank_updated_at;
  deleted_at = if deleted_newer incoming cur then incoming.deleted_at else cur.deleted_at;
}
