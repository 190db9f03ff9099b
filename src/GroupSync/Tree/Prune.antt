-- ===== src/GroupSync/Tree/Prune.antt =====
-- `removeLeafAny` prunes the layout.
use termyard.Base.{
  ◌≡◌, inl, inr, Bool, true, false, Option, none, some, Str, str_dec, arith, In, In-append_left,
  In-append_right, In-append, sym, if_pos,
}
use termyard.GroupSync.Json.{Json, null, obj, Fields, end, field, get_field, as_string}
use termyard.GroupSync.Tree.{
  remove_leaf_any, remove_at, type_name, leaf_name, split_name, key_name, first_name, second_name,
  remove_here, remove_split, join_children,
}
use termyard.GroupSync.Tree.Panes.{
  Pane, leaf, split, pane_keys, join, prune, IsNode, Shows, shows_leaf, shows_split, Holds,
  Shows-is_nil, Shows-put_children, prune_absent,
}

remove_at_lem :
    (fs : Fields) (name key : Str) (v : Json)
    → get_field name fs ≡ some v
    → remove_at fs name key ≡ some (remove_leaf_any v key)
unfolding remove_leaf_any remove_at get_field
remove_at_lem end name key v e = cc
remove_at_lem (field k w fs) name key v e = ground (arith, remove_at_lem fs name key v)

-- What removal leaves when the two children are left as they say.
Holds-join :
    (fs : Fields) (a b : Json) (o r : Option Pane)
    → as_string (get_field type_name fs) ≡ some split_name
    → IsNode fs
    → Holds a o
    → Holds b r
    → Holds (join_children fs a b) (join o r)
Holds-join fs a b none none t n h k = rw (h, k)
Holds-join fs a b none (some q) t n h k = rw (h, Shows-is_nil k) k
Holds-join fs a b (some p) none t n h k = rw (k, Shows-is_nil h) h
Holds-join fs a b (some p) (some q) t n h k =
    rw (Shows-is_nil h, Shows-is_nil k) (Shows-put_children fs a b p q t n h k)

-- The result of a removal: nothing, or the pruned layout with the flag set.
pub data Removes (v : Json) (p : Pane) (key : Str) (r : Json × Bool) : Type 0 where
  kept : r ≡ (v, false) → (¬ In key (pane_keys p)) → Removes v p key r
  cut : r.1 ≡ true → In key (pane_keys p) → Holds r.0 (prune key p) → Removes v p key r

pub Removes-Holds :
    {v : Json} {p : Pane} {key : Str} {r : Json × Bool}
    → Shows v p
    → Removes v p key r
    → Holds r.0 (prune key p)
Removes-Holds {p = p} {key = key} s (kept e n) = rw (e, prune_absent key p n) s
Removes-Holds s (cut e i h) = h

split_Removes :
    (fs : Fields) (key : Str) {a b : Json} {p q : Pane} (ra rb : Json × Bool)
    → as_string (get_field type_name fs) ≡ some split_name
    → IsNode fs
    → Shows a p
    → Shows b q
    → Removes a p key ra
    → Removes b q key rb
    → Removes (obj fs) (split p q) key (remove_split fs (some ra) (some rb))
split_Removes fs key {p = p} {q = q} ra rb t n s u (kept e h) (kept f k) =
    kept (rw (e, f))
      (λ i. elim (In-append key (pane_keys p) (pane_keys q) i) [ inl x ↦ h x | inr y ↦ k y ])
split_Removes fs key {p = p} {q = q} ra rb t n s u (kept e h) (cut f i k) =
    cut (rw (e, f)) (In-append_right key (pane_keys p) _ i) (
      rw (e, f) (Holds-join fs _ _ (prune key p) (prune key q) t n (rw (prune_absent key p h) s) k))
split_Removes fs key {b = b} {p = p} {q = q} ra rb t n s u (cut e i h) (kept f k) =
    cut (rw e) (In-append_left key _ (pane_keys q) i) (
      rw (e, f)
        (Holds-join fs ra.0 b (prune key p) (prune key q) t n h (rw (prune_absent key q k) u)))
split_Removes fs key {p = p} {q = q} ra rb t n s u (cut e i h) (cut f j k) =
    cut (rw e) (In-append_left key _ (pane_keys q) i)
      (rw e (Holds-join fs _ _ (prune key p) (prune key q) t n h k))

here_Removes :
    (fs : Fields) (k key : Str)
    → as_string (get_field type_name fs) ≡ some leaf_name
    → as_string (get_field key_name fs) ≡ some k
    → Removes (obj fs) (leaf k) key (remove_here fs key (some k))
here_Removes fs k key t e = elim (str_dec k key) [
  | yes d ↦ cut (ground arith) (inl (sym d)) (
      rw (
        if_pos {C = Json × Bool} (str_dec k key) d (null, true) (obj fs, false),
        if_pos (str_dec k key) d none (some (leaf k)),
      ))
  | no d ↦ kept (ground arith) (λ i. elim i [ inl g ↦ d (sym g) | inr x ↦ x ])
]

-- On a well-formed tree, `removeLeafAny` removes exactly the leaves of the key: its flag says
-- whether the key was there, and what it returns shows the pruned layout (nil for none).
pub remove_leaf_any-Removes :
    (key : Str) {v : Json} {p : Pane} → Shows v p → Removes v p key (remove_leaf_any v key)
unfolding remove_leaf_any str_dec
remove_leaf_any-Removes key (shows_leaf fs k t e) = rw (t, e) (here_Removes fs k key t e)
remove_leaf_any-Removes key (shows_split fs {a} {b} t n e f s u) =
    rw (t, remove_at_lem fs first_name key a e, remove_at_lem fs second_name key b f)
      (split_Removes fs key (remove_leaf_any a key) (remove_leaf_any b key) t n s u
        (remove_leaf_any-Removes key s) (remove_leaf_any-Removes key u))
