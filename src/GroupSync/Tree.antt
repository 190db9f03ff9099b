-- ===== src/GroupSync/Tree.antt =====
-- Pane trees: the leaves of a layout (pkg/groupsync/groupsync.go and membership.go).
pub mod Panes
pub mod Prune
pub mod Members
pub mod Fingerprint
pub mod Size
use termyard.Base.{
  Bool, true, false, not, ◌&&◌, List, [], ◌∷◌, ◌++◌, Option, none, some, Str, codes, str_dec,
  str_ltb, ite, if◌then◌else◌, mem_dec,
}
use termyard.GroupSync.Json.{
  Json, null, bool, num, str, arr, obj, Items, nil, cons, Fields, end, field, get_field, put_field,
  as_string, is_nil,
}

abbrev pub type_name : Str
type_name = codes "type"

abbrev pub leaf_name : Str
leaf_name = codes "leaf"

abbrev pub split_name : Str
split_name = codes "split"

abbrev pub key_name : Str
key_name = codes "sessionKey"

abbrev pub first_name : Str
first_name = codes "first"

abbrev pub second_name : Str
second_name = codes "second"

-- Which child of a split survives, when at least one of the two changed.
abbrev pub join_children : Fields → Json → Json → Json
join_children fs a b =
    if is_nil a
    then (if is_nil b then null else b)
    else (if is_nil b then a else obj (put_field second_name b (put_field first_name a fs)))

abbrev pub remove_split : Fields → Option (Json × Bool) → Option (Json × Bool) → Json × Bool
remove_split fs (some (a, removed₁)) (some (b, removed₂)) =
    if not removed₁ && not removed₂ then (obj fs, false) else (join_children fs a b, true)
remove_split fs (some a) none = (obj fs, false)
remove_split fs none b = (obj fs, false)

abbrev pub remove_here : Fields → Str → Option Str → Json × Bool
remove_here fs key none = (obj fs, false)
remove_here fs key (some k) = ite (str_dec k key) (null, true) (obj fs, false)

abbrev pub remove_node :
    Fields → Str → Option Str → Option (Json × Bool) → Option (Json × Bool) → Json × Bool
remove_node fs key none first second = (obj fs, false)
remove_node fs key (some typ) first second =
    ite (str_dec typ leaf_name) (remove_here fs key (as_string (get_field key_name fs)))
      (ite (str_dec typ split_name) (remove_split fs first second) (obj fs, false))

-- `removeLeafAny`. `remove_at` is the call on a field of the node.
unfoldable mutual
  pub remove_leaf_any : Json → Str → Json × Bool
  remove_leaf_any null key = (null, false)
  remove_leaf_any (bool b) key = (bool b, false)
  remove_leaf_any (num n) key = (num n, false)
  remove_leaf_any (str s) key = (str s, false)
  remove_leaf_any (arr xs) key = (arr xs, false)
  remove_leaf_any (obj fs) key =
      remove_node fs key (as_string (get_field type_name fs)) (remove_at fs first_name key)
        (remove_at fs second_name key)

  pub remove_at : Fields → Str → Str → Option (Json × Bool)
  remove_at end name key = none
  remove_at (field k v fs) name key =
      ite (str_dec name k) (some (remove_leaf_any v key)) (remove_at fs name key)

-- `seen[k] = struct{}{}`
unfoldable pub add_key : Str → List Str → List Str
add_key k seen = ite (mem_dec str_dec k seen) seen (k ∷ seen)

abbrev collect_leaf : Option Str → List Str → Option (List Str)
collect_leaf none seen = none
collect_leaf (some k) seen = some (add_key k seen)

abbrev is_leaf : Option Str → Bool
is_leaf none = false
is_leaf (some typ) = ite (str_dec typ leaf_name) true false

-- A bind on the error result; `none` is the error "leaf node missing string sessionKey".
abbrev pub and_then : Option (List Str) → (List Str → Option (List Str)) → Option (List Str)
and_then none f = none
and_then (some s) f = f s

-- `collectMemberKeys`, over the keys seen so far.
unfoldable mutual
  pub collect_member_keys : Json → List Str → Option (List Str)
  collect_member_keys null seen = some seen
  collect_member_keys (bool b) seen = some seen
  collect_member_keys (num n) seen = some seen
  collect_member_keys (str s) seen = some seen
  collect_member_keys (arr xs) seen = collect_items xs seen
  collect_member_keys (obj fs) seen =
      if is_leaf (as_string (get_field type_name fs))
      then collect_leaf (as_string (get_field key_name fs)) seen
      else collect_fields fs seen

  pub collect_items : Items → List Str → Option (List Str)
  collect_items nil seen = some seen
  collect_items (cons v xs) seen = and_then (collect_member_keys v seen) (collect_items xs)

  pub collect_fields : Fields → List Str → Option (List Str)
  collect_fields end seen = some seen
  collect_fields (field k v fs) seen = and_then (collect_member_keys v seen) (collect_fields fs)

unfoldable pub insert_sorted : Str → List Str → List Str
insert_sorted k [] = k ∷ []
insert_sorted k (j ∷ js) = if str_ltb j k then j ∷ insert_sorted k js else k ∷ j ∷ js

-- `sort.Strings`
unfoldable pub sort_strings : List Str → List Str
unfolding insert_sorted
sort_strings [] = []
sort_strings (k ∷ ks) = insert_sorted k (sort_strings ks)

-- A `json.RawMessage`: empty, text that does not parse, or the text of a value.
pub data RawMessage : Type 0 where
  absent : RawMessage
  malformed : Str → RawMessage
  json : Json → RawMessage

abbrev sorted_keys : Option (List Str) → Option (List Str)
sorted_keys none = none
sorted_keys (some seen) = some (sort_strings seen)

-- `MemberKeys`; `none` is its error.
unfoldable pub member_keys : RawMessage → Option (List Str)
member_keys absent = some []
member_keys (malformed s) = none
member_keys (json v) = sorted_keys (collect_member_keys v [])

-- What `MembershipFingerprint` hashes: each key and a newline.
unfoldable pub key_lines : List Str → Str
key_lines [] = []
key_lines (k ∷ ks) = k ++ 10 ∷ key_lines ks

abbrev fingerprint_of : (Str → Str) → Option (List Str) → Option (Str × List Str)
fingerprint_of hex_digest none = none
fingerprint_of hex_digest (some keys) = some (hex_digest (key_lines keys), keys)

-- `MembershipFingerprint`, over the hash and its encoding; `none` is its error.
unfoldable pub membership_fingerprint : (Str → Str) → RawMessage → Option (Str × List Str)
unfolding key_lines
membership_fingerprint hex_digest tree = fingerprint_of hex_digest (member_keys tree)
