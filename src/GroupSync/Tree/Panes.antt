-- ===== src/GroupSync/Tree/Panes.antt =====
-- The layouts that a pane tree stands for: a binary tree of session keys.
use termyard.Base.{
  ◌≡◌, ◌⊎◌, inl, inr, Bool, true, false, List, [], ◌∷◌, ◌++◌, Option, none, some, Str, str_dec, ite,
  refl, arith, In, In-append, In-append_left, In-append_right, ◌≢◌, sym, append-nil, if_pos,
}
use termyard.GroupSync.Json.{
  Json, null, bool, num, str, arr, obj, Fields, end, field, get_field, put_field, as_string, is_nil,
  get_field-put_field,
}
use termyard.GroupSync.Tree.{type_name, leaf_name, split_name, key_name, first_name, second_name}

pub data Pane : Type 0 where
  leaf : Str → Pane
  split : Pane → Pane → Pane

abbrev pub pane_keys : Pane → List Str
pane_keys (leaf k) = k ∷ []
pane_keys (split p q) = pane_keys p ++ pane_keys q

abbrev pub keys_of : Option Pane → List Str
keys_of none = []
keys_of (some p) = pane_keys p

abbrev pub join : Option Pane → Option Pane → Option Pane
join none q = q
join (some p) none = some p
join (some p) (some q) = some (split p q)

-- The layout without the leaves of a key.
abbrev pub prune : Str → Pane → Option Pane
prune key (leaf k) = ite (str_dec k key) none (some (leaf k))
prune key (split p q) = join (prune key p) (prune key q)

abbrev pub is_scalar : Json → Bool
is_scalar null = true
is_scalar (bool b) = true
is_scalar (num n) = true
is_scalar (str s) = true
is_scalar (arr xs) = false
is_scalar (obj fs) = false

-- The names of a node differ, and only its two children hold further nodes.
abbrev pub IsNode : Fields → Type 0
IsNode end = Unit
IsNode (field k v fs) =
    (get_field k fs ≡ none)
    × ((k ≡ first_name) ⊎ (k ≡ second_name) ⊎ (is_scalar v ≡ true))
    × IsNode fs

-- The JSON value is a well-formed tree with this layout.
pub data Shows : Json → Pane → Type 0 where
  shows_leaf :
      (fs : Fields) (k : Str)
      → as_string (get_field type_name fs) ≡ some leaf_name
      → as_string (get_field key_name fs) ≡ some k
      → Shows (obj fs) (leaf k)
  shows_split :
      (fs : Fields) {a b : Json} {p q : Pane}
      → as_string (get_field type_name fs) ≡ some split_name
      → IsNode fs
      → get_field first_name fs ≡ some a
      → get_field second_name fs ≡ some b
      → Shows a p
      → Shows b q
      → Shows (obj fs) (split p q)

-- What is left of a tree: nil, or a layout.
abbrev pub Holds : Json → Option Pane → Type 0
Holds v none = v ≡ null
Holds v (some p) = Shows v p

pub Shows-is_nil : {v : Json} {p : Pane} → Shows v p → is_nil v ≡ false
Shows-is_nil (shows_leaf fs k t e) = refl
Shows-is_nil (shows_split fs t n e f s u) = refl

put_field-IsNode :
    (name : Str) (v : Json) (fs : Fields)
    → (name ≡ first_name) ⊎ (name ≡ second_name)
    → IsNode fs
    → IsNode (put_field name v fs)
unfolding put_field get_field
put_field-IsNode name v end (inl e) n = (refl, inl e, tt)
put_field-IsNode name v end (inr e) n = (refl, inr (inl e), tt)
put_field-IsNode name v (field k w fs) c n = elim (str_dec name k) [
  | yes e ↦ ground arith
  | no d ↦ ground (arith, put_field-IsNode name v fs c n.2, get_field-put_field k name v fs)
]

-- A split whose children are replaced shows the new children.
pub Shows-put_children :
    (fs : Fields) (a b : Json) (p q : Pane)
    → as_string (get_field type_name fs) ≡ some split_name
    → IsNode fs
    → Shows a p
    → Shows b q
    → Shows (obj (put_field second_name b (put_field first_name a fs))) (split p q)
unfolding str_dec
Shows-put_children fs a b p q t n s u =
    shows_split _
      (ground (
        arith,
        get_field-put_field type_name second_name b (put_field first_name a fs),
        get_field-put_field type_name first_name a fs,
      ))
      (put_field-IsNode second_name b _ (inr refl) (put_field-IsNode first_name a fs (inl refl) n))
      (ground (
        arith,
        get_field-put_field first_name second_name b (put_field first_name a fs),
        get_field-put_field first_name first_name a fs,
      ))
      (ground (arith, get_field-put_field second_name second_name b (put_field first_name a fs))) s
      u

pub keys_of-join : (o r : Option Pane) → keys_of (join o r) ≡ keys_of o ++ keys_of r
keys_of-join none r = refl
keys_of-join (some p) none = sym (append-nil (pane_keys p))
keys_of-join (some p) (some q) = refl

pub In_of_In-prune :
    (key k : Str) (p : Pane) → In k (keys_of (prune key p)) → In k (pane_keys p) × (k ≢ key)
In_of_In-prune key k (leaf j) h = elim (str_dec j key) [
  | yes e ↦ absurd (rw (if_pos (str_dec j key) e) at h)
  | no n ↦ ground arith
]
In_of_In-prune key k (split p q) h =
    elim (In-append k (keys_of (prune key p)) (keys_of (prune key q))
      (rw (keys_of-join (prune key p) (prune key q)) at h)) [
        | inl i ↦ let (m, n) = In_of_In-prune key k p i in (In-append_left k _ (pane_keys q) m, n)
        | inr i ↦ let (m, n) = In_of_In-prune key k q i in (In-append_right k (pane_keys p) _ m, n)
      ]

pub In-prune :
    (key k : Str) (p : Pane) → In k (pane_keys p) → k ≢ key → In k (keys_of (prune key p))
In-prune key k (leaf j) h n = ground arith
In-prune key k (split p q) h n =
    rw (keys_of-join (prune key p) (prune key q))
      (elim (In-append k (pane_keys p) (pane_keys q) h) [
        | inl i ↦ In-append_left k _ _ (In-prune key k p i n)
        | inr i ↦ In-append_right k (keys_of (prune key p)) _ (In-prune key k q i n)
      ])

-- A key that is not there changes nothing.
pub prune_absent : (key : Str) (p : Pane) → (¬ In key (pane_keys p)) → prune key p ≡ some p
prune_absent key (leaf k) h = ground arith
prune_absent key (split p q) h = rw (
  prune_absent key p (λ i. h (In-append_left key _ _ i)),
  prune_absent key q (λ i. h (In-append_right key (pane_keys p) _ i)),
)
