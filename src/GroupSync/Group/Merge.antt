-- ===== src/GroupSync/Group/Merge.antt =====
-- Merging is last-writer-wins on each field: replicas converge.
use termyard.Base.{ℕ, ◌≡◌, false, arith, if◌then◌else◌, ltb}
use termyard.GroupSync.Group.{Group, accepts, merge}

-- Equal stamps carry equal values: what one writer stamped once reads the same everywhere.
pub record Agrees (a b : Group) : Type 0 where
  pub tree : a.tree_updated_at ≡ b.tree_updated_at → a.tree ≡ b.tree
  pub name : a.name_updated_at ≡ b.name_updated_at → a.name ≡ b.name
  pub mode : a.name_mode_updated_at ≡ b.name_mode_updated_at → a.name_mode ≡ b.name_mode
  pub rank : a.rank_updated_at ≡ b.rank_updated_at → a.rank ≡ b.rank

-- One register: the later stamp wins, and on a tie the current value stays.
later {ℓ} : {A : Type ℓ} → ℕ → A → ℕ → A → A
later s x t y = if ltb s t then y else x

module _ {A : Type 0} (r : ℕ) (x : A) (s : ℕ) (y : A) (t : ℕ) (z : A) where
  later_comm :
      (s ≡ t → y ≡ z)
      → later (if ltb r s then s else r) (later r x s y) t z
        ≡ later (if ltb r t then t else r) (later r x t z) s y
  unfolding later
  later_comm h = ground arith

  stamp_comm :
      later (if ltb r s then s else r) (if ltb r s then s else r) t t
      ≡ later (if ltb r t then t else r) (if ltb r t then t else r) s s
  unfolding later
  stamp_comm = ground arith

-- Two updates merged in either order give the same record, when equal stamps carry equal values.
pub merge_comm : (g a b : Group) → Agrees a b → merge (merge g a) b ≡ merge (merge g b) a
unfolding merge later
merge_comm g a b h = λ i. record {
  tree =
      later_comm g.tree_updated_at g.tree a.tree_updated_at a.tree b.tree_updated_at b.tree h.tree
        i;
  tree_updated_at =
      stamp_comm g.tree_updated_at g.tree a.tree_updated_at a.tree b.tree_updated_at b.tree i;
  name =
      later_comm g.name_updated_at g.name a.name_updated_at a.name b.name_updated_at b.name h.name
        i;
  name_updated_at =
      stamp_comm g.name_updated_at g.name a.name_updated_at a.name b.name_updated_at b.name i;
  name_mode =
      later_comm g.name_mode_updated_at g.name_mode a.name_mode_updated_at a.name_mode
        b.name_mode_updated_at b.name_mode h.mode i;
  name_mode_updated_at =
      stamp_comm g.name_mode_updated_at g.name_mode a.name_mode_updated_at a.name_mode
        b.name_mode_updated_at b.name_mode i;
  rank =
      later_comm g.rank_updated_at g.rank a.rank_updated_at a.rank b.rank_updated_at b.rank h.rank
        i;
  rank_updated_at =
      stamp_comm g.rank_updated_at g.rank a.rank_updated_at a.rank b.rank_updated_at b.rank i;
  deleted_at = stamp_comm g.deleted_at g.rank a.deleted_at a.rank b.deleted_at b.rank i;
}

-- An update that is not accepted leaves every field as it is.
pub merge_refused : (g a : Group) → accepts g a ≡ false → merge g a ≡ g
unfolding merge accepts
merge_refused g a h = ground arith

settled : (s t : ℕ) → ltb (if ltb s t then t else s) t ≡ false
settled s t = ground arith

-- A second merge of the same update is not accepted and changes nothing.
pub merge_twice :
    (g a : Group) → (accepts (merge g a) a ≡ false) × (merge (merge g a) a ≡ merge g a)
merge_twice g a =
    let r : accepts (merge g a) a ≡ false = refused in (r, merge_refused (merge g a) a r)
  where
    refused : accepts (merge g a) a ≡ false
    refused = unfold merge accepts in simp settled
