-- ===== src/GroupSync/Json.antt =====
-- Decoded JSON, as `json.Unmarshal` into `any` leaves it (pkg/groupsync/groupsync.go).
pub mod Rename
use termyard.Base.{
  ◌≡◌, ◌≢◌, refl, arith, Bool, true, false, ◌||◌, List, [], ◌∷◌, Option, none, some, Str, str_dec,
  ite,
}

-- `null` is Go's nil. A number keeps its literal, which no code here reads.
mutual
  pub data Json : Type 0 where
    null : Json
    bool : Bool → Json
    num : Str → Json
    str : Str → Json
    arr : Items → Json
    obj : Fields → Json

  pub data Items : Type 0 where
    nil : Items
    cons : Json → Items → Items

  pub data Fields : Type 0 where
    end : Fields
    field : Str → Json → Fields → Fields

-- `x[name]` with its second result.
unfoldable pub get_field : Str → Fields → Option Json
get_field name end = none
get_field name (field k v fs) = ite (str_dec name k) (some v) (get_field name fs)

-- `x[name] = v`
unfoldable pub put_field : Str → Json → Fields → Fields
put_field name v end = field name v end
put_field name v (field k w fs) =
    ite (str_dec name k) (field k v fs) (field k w (put_field name v fs))

-- `x[name].(string)`
abbrev pub as_string : Option Json → Option Str
as_string none = none
as_string (some null) = none
as_string (some (bool b)) = none
as_string (some (num n)) = none
as_string (some (str s)) = some s
as_string (some (arr xs)) = none
as_string (some (obj fs)) = none

-- `v == nil`
abbrev pub is_nil : Json → Bool
is_nil null = true
is_nil (bool b) = false
is_nil (num n) = false
is_nil (str s) = false
is_nil (arr xs) = false
is_nil (obj fs) = false

-- The inner loop of `replaceStrings`: the new name of the first old name that fits.
unfoldable pub new_name : Str → List (Str × Str) → Option Str
new_name s [] = none
new_name s ((old, new) ∷ rs) = ite (str_dec s old) (some new) (new_name s rs)

abbrev pub renamed : Str → Option Str → Json × Bool
renamed s none = (str s, false)
renamed s (some t) = (str t, true)

-- `replaceStrings`, with `olds` and `news` zipped. The map and slice cases change in place.
unfoldable mutual
  unfolding new_name

  pub replace_strings : Json → List (Str × Str) → Json × Bool
  replace_strings null rs = (null, false)
  replace_strings (bool b) rs = (bool b, false)
  replace_strings (num n) rs = (num n, false)
  replace_strings (str s) rs = renamed s (new_name s rs)
  replace_strings (arr xs) rs = let (ys, changed) = replace_items xs rs in (arr ys, changed)
  replace_strings (obj fs) rs = let (gs, changed) = replace_fields fs rs in (obj gs, changed)

  pub replace_items : Items → List (Str × Str) → Items × Bool
  replace_items nil rs = (nil, false)
  replace_items (cons v xs) rs =
      let (w, here) = replace_strings v rs in
      let (ys, there) = replace_items xs rs in (cons w ys, here || there)

  pub replace_fields : Fields → List (Str × Str) → Fields × Bool
  replace_fields end rs = (end, false)
  replace_fields (field k v fs) rs =
      let (w, here) = replace_strings v rs in
      let (gs, there) = replace_fields fs rs in (field k w gs, here || there)

pub get_field-put_field :
    (q name : Str) (v : Json) (fs : Fields)
    → get_field q (put_field name v fs) ≡ ite (str_dec q name) (some v) (get_field q fs)
unfolding get_field put_field
get_field-put_field q name v end = refl
get_field-put_field q name v (field k w fs) = ground (arith, get_field-put_field q name v fs)

pub get_field_here :
    (name k : Str) (v : Json) (fs : Fields) → name ≡ k → get_field name (field k v fs) ≡ some v
unfolding get_field
get_field_here name k v fs e = ground arith

pub get_field_there :
    (name k : Str) (v : Json) (fs : Fields)
    → name ≢ k
    → get_field name (field k v fs) ≡ get_field name fs
unfolding get_field
get_field_there name k v fs n = ground arith
