-- ===== src/GroupSync/Tree/Size.antt =====
-- A layout from which `removeLeafAny` removes a leaf gets smaller, whatever JSON it is.
use termyard.Base.{
  ◌≡◌, refl, ◌∙◌, ap, arith, ℕ, suc, ◌+◌, ◌≤◌, ◌<◌, Bool, true, false, not, ◌&&◌, Option, none,
  some, if_neg, if_rule, Str, str_dec, ite, if◌then◌else◌,
}
use termyard.GroupSync.Json.{
  Json, null, bool, num, str, arr, obj, Fields, end, field, get_field, put_field, as_string, is_nil,
  get_field-put_field,
}
use termyard.GroupSync.Tree.{
  first_name, second_name, leaf_name, split_name, key_name, type_name, join_children, remove_split,
  remove_here, remove_node, remove_leaf_any, remove_at,
}

-- The number of nodes; a nil counts for nothing, and neither does what is in a list.
abbrev mutual
  pub size : Json → ℕ
  size null = 0
  size (bool b) = 1
  size (num n) = 1
  size (str s) = 1
  size (arr xs) = 1
  size (obj fs) = suc (field_sizes fs)

  pub field_sizes : Fields → ℕ
  field_sizes end = 0
  field_sizes (field k v fs) = size v + field_sizes fs

field_sizes-get_field :
    (name : Str) (fs : Fields) (v : Json) → get_field name fs ≡ some v → size v ≤ field_sizes fs
unfolding get_field
field_sizes-get_field name end v e = absurd (cc e)
field_sizes-get_field name (field k w fs) v e = elim (str_dec name k) [
  | yes p ↦ let z : w ≡ v = ground arith in let y = ap size z in omega arith
  | no n ↦
      let z : get_field name fs ≡ some v = ground arith in
      let y = field_sizes-get_field name fs v z in omega arith
]

field_sizes-put_field :
    (name : Str) (fs : Fields) (v w : Json)
    → get_field name fs ≡ some v
    → field_sizes (put_field name w fs) + size v ≡ field_sizes fs + size w
unfolding get_field put_field
field_sizes-put_field name end v w e = absurd (cc e)
field_sizes-put_field name (field k u fs) v w e =
    elim (str_dec name k)
        as (λ d.
          ite d (some u) (get_field name fs) ≡ some v
          → field_sizes (ite d (field k w fs) (field k u (put_field name w fs))) + size v
            ≡ size u + field_sizes fs + size w) [
              | yes p ↦ λ e. let y = ap (λ o. size_or o) e in omega arith
              | no n ↦ λ e. let y = field_sizes-put_field name fs v w e in omega arith
            ]
      e
  where
    size_or : Option Json → ℕ
    size_or none = 0
    size_or (some v) = size v

-- A result against the value before.
pub record Smaller (v : Json) (r : Json × Bool) : Type 0 where
  pub bound : size r.0 ≤ size v
  pub less : r.1 ≡ true → size r.0 < size v

-- The result at a field that is there.
abbrev IsFound : Option Json → Option (Json × Bool) → Type 0
IsFound o none = Unit
IsFound o (some r) = (v : Json) × ((o ≡ some v) × Smaller v r)

abbrev IsField : Fields → Str → Option (Json × Bool) → Type 0
IsField fs name r = IsFound (get_field name fs) r

pub unchanged-Smaller : (v : Json) → Smaller v (v, false)
unchanged-Smaller v = record { bound = omega arith; less = λ e. absurd (cc e) }

-- Two fields of an object are replaced.
two_fields :
    (fs : Fields) (va vb a b : Json)
    → get_field first_name fs ≡ some va
    → get_field second_name fs ≡ some vb
    → field_sizes (put_field second_name b (put_field first_name a fs)) + (size va + size vb)
      ≡ field_sizes fs + (size a + size b)
two_fields fs va vb a b e f =
    let other : ¬ (second_name ≡ first_name) = λ e. absurd (cc e) in
    let g : get_field second_name (put_field first_name a fs) ≡ some vb =
      get_field-put_field second_name first_name a fs
      ∙ if_neg (str_dec second_name first_name) other (some a) (get_field second_name fs)
      ∙ f in
    let x = field_sizes-put_field first_name fs va a e in
    let y = field_sizes-put_field second_name (put_field first_name a fs) vb b g in omega arith

join_children-size :
    (fs : Fields) (va vb a b : Json)
    → get_field first_name fs ≡ some va
    → get_field second_name fs ≡ some vb
    → size a ≤ size va
    → size b ≤ size vb
    → size a + size b < size va + size vb
    → size (join_children fs a b) < size (obj fs)
join_children-size fs va vb a b e f la lb l =
    let x = field_sizes-get_field first_name fs va e in
    let y = field_sizes-get_field second_name fs vb f in
    let z = two_fields fs va vb a b e f in
    if_rule (λ (t : Json). size t < size (obj fs)) (is_nil a) {x = if is_nil b then null else b}
      {y = if is_nil b then a else obj (put_field second_name b (put_field first_name a fs))}
      (λ _.
        if_rule (λ (t : Json). size t < size (obj fs)) (is_nil b) {x = null} {y = b}
          (λ _. omega arith) (λ _. omega arith))
      (λ _.
        if_rule (λ (t : Json). size t < size (obj fs)) (is_nil b) {x = a}
          {y = obj (put_field second_name b (put_field first_name a fs))} (λ _. omega arith)
          (λ _. omega arith))

size-Smaller :
    (va vb : Json) (x y : Json × Bool)
    → Smaller va x
    → Smaller vb y
    → (not x.1 && not y.1) ≡ false
    → size x.0 + size y.0 < size va + size vb
size-Smaller va vb (a, true) (b, r) h k e = let l = h.less refl in let m = k.bound in omega arith
size-Smaller va vb (a, false) (b, true) h k e =
    let l = h.bound in let m = k.less refl in omega arith
size-Smaller va vb (a, false) (b, false) h k e = absurd (cc e)

remove_split-Smaller :
    (fs : Fields) (x y : Option (Json × Bool))
    → IsField fs first_name x
    → IsField fs second_name y
    → Smaller (obj fs) (remove_split fs x y)
remove_split-Smaller fs (some (a, r)) (some (b, q)) (va, (e, h)) (vb, (f, k)) =
    if_rule (Smaller (obj fs)) (not r && not q) {x = (obj fs, false)}
      {y = (join_children fs a b, true)} (λ _. unchanged-Smaller (obj fs))
      (λ n.
        let l =
          join_children-size fs va vb a b e f h.bound k.bound
            (size-Smaller va vb (a, r) (b, q) h k n) in
        record { bound = omega arith; less = λ _. l })
remove_split-Smaller fs (some x) none h k = unchanged-Smaller (obj fs)
remove_split-Smaller fs none y h k = unchanged-Smaller (obj fs)

remove_here-Smaller :
    (fs : Fields) (key : Str) (o : Option Str) → Smaller (obj fs) (remove_here fs key o)
remove_here-Smaller fs key none = unchanged-Smaller (obj fs)
remove_here-Smaller fs key (some k) =
    elim (str_dec k key) as (λ d. Smaller (obj fs) (ite d (null, true) (obj fs, false))) [
      | yes e ↦ record { bound = omega arith; less = λ _. omega arith }
      | no n ↦ unchanged-Smaller (obj fs)
    ]

remove_node-Smaller :
    (fs : Fields) (key : Str) (typ : Option Str) (x y : Option (Json × Bool))
    → IsField fs first_name x
    → IsField fs second_name y
    → Smaller (obj fs) (remove_node fs key typ x y)
remove_node-Smaller fs key none x y h k = unchanged-Smaller (obj fs)
remove_node-Smaller fs key (some typ) x y h k =
    let here = remove_here fs key (as_string (get_field key_name fs)) in
    let deeper = ite (str_dec typ split_name) (remove_split fs x y) (obj fs, false) in
    elim (str_dec typ leaf_name) as (λ d. Smaller (obj fs) (ite d here deeper)) [
      | yes e ↦ remove_here-Smaller fs key (as_string (get_field key_name fs))
      | no n ↦
          elim (str_dec typ split_name)
            as (λ d. Smaller (obj fs) (ite d (remove_split fs x y) (obj fs, false))) [
              | yes e ↦ remove_split-Smaller fs x y h k
              | no n ↦ unchanged-Smaller (obj fs)
            ]
    ]

mutual
  unfolding remove_leaf_any get_field

  pub remove_leaf_any-Smaller : (v : Json) (key : Str) → Smaller v (remove_leaf_any v key)
  remove_leaf_any-Smaller null key = unchanged-Smaller null
  remove_leaf_any-Smaller (bool b) key = unchanged-Smaller (bool b)
  remove_leaf_any-Smaller (num n) key = unchanged-Smaller (num n)
  remove_leaf_any-Smaller (str s) key = unchanged-Smaller (str s)
  remove_leaf_any-Smaller (arr xs) key = unchanged-Smaller (arr xs)
  remove_leaf_any-Smaller (obj fs) key =
      remove_node-Smaller fs key (as_string (get_field type_name fs)) (remove_at fs first_name key)
        (remove_at fs second_name key) (remove_at-IsField fs first_name key)
        (remove_at-IsField fs second_name key)

  remove_at-IsField : (fs : Fields) (name key : Str) → IsField fs name (remove_at fs name key)
  remove_at-IsField end name key = tt
  remove_at-IsField (field k v fs) name key =
      let rest = remove_at-IsField fs name key in
      let here = remove_leaf_any-Smaller v key in
      elim (str_dec name k)
        as (λ d.
          IsFound (ite d (some v) (get_field name fs))
            (ite d (some (remove_leaf_any v key)) (remove_at fs name key))) [
              | yes e ↦ (v, (refl, here))
              | no n ↦ rest
            ]
