-- ===== src/GroupSync/Tree/Members.antt =====
-- `MemberKeys` collects the keys of the layout.
use termyard.Base.{
  ◌≡◌, ◌⊎◌, inl, inr, true, List, [], ◌∷◌, ◌++◌, Option, none, some, Str, str_dec, refl, arith, In,
  In-append_left, In-append_right, In-append, ◌≢◌, sym, mem_dec, append-nil,
}
use termyard.GroupSync.Json.{
  Json, null, bool, num, str, arr, obj, Fields, end, field, get_field, get_field_here,
  get_field_there,
}
use termyard.GroupSync.Tree.{
  collect_member_keys, collect_fields, add_key, insert_sorted, sort_strings, member_keys, json,
  first_name, second_name, and_then,
}
use termyard.GroupSync.Tree.Panes.{
  Pane, pane_keys, IsNode, is_scalar, Shows, shows_leaf, shows_split,
}

-- A result list holds the keys seen before and those of a layout.
pub record Gathers (keys seen out : List Str) : Type 0 where
  pub old : (k : Str) → In k seen → In k out
  pub new : (k : Str) → In k keys → In k out
  pub only : (k : Str) → In k out → In k seen ⊎ In k keys

-- A collecting step succeeds from every list and adds these keys.
abbrev Adds : (List Str → Option (List Str)) → List Str → Type 0
Adds f keys = (seen : List Str) → (out : List Str) × (f seen ≡ some out) × Gathers keys seen out

add_key-Gathers : (k : Str) (seen : List Str) → Gathers (k ∷ []) seen (add_key k seen)
unfolding add_key
add_key-Gathers k seen = elim (mem_dec str_dec k seen) [
  | yes i ↦ record {
    old = λ j h. ground arith;
    new = λ j h. ground arith;
    only = λ j h. ground arith;
  }
  | no n ↦ record {
    old = λ j h. ground arith;
    new = λ j h. ground arith;
    only = λ j h. ground arith;
  }
]

Gathers-nil : (seen : List Str) → Gathers [] seen seen
Gathers-nil seen = record { old = λ k h. h; new = λ k h. absurd h; only = λ k h. inl h }

Gathers-append : {ks js s t u : List Str} → Gathers ks s t → Gathers js t u → Gathers (ks ++ js) s u
Gathers-append {ks} {js} g h = record {
  old = λ k i. h.old k (g.old k i);
  new = λ k i. elim (In-append k ks js i) [ inl x ↦ h.old k (g.new k x) | inr y ↦ h.new k y ];
  only = λ k i. elim (h.only k i) [
    | inl x ↦ elim (g.only k x) [ inl y ↦ inl y | inr y ↦ inr (In-append_left k ks js y) ]
    | inr y ↦ inr (In-append_right k ks js y)
  ];
}

Adds-and_then :
    (f g : List Str → Option (List Str)) (ks js : List Str)
    → Adds f ks
    → Adds g js
    → Adds (λ s. and_then (f s) g) (ks ++ js)
Adds-and_then f g ks js a b seen =
    let (t, e, m) = a seen in let (u, d, n) = b t in (u, rw (e, d), Gathers-append m n)

-- A field adds the keys of its value; a missing one adds none.
abbrev AddsAt : Option Json → List Str → Type 0
AddsAt none keys = keys ≡ []
AddsAt (some v) keys = Adds (collect_member_keys v) keys

scalar-Adds : (v : Json) → is_scalar v ≡ true → Adds (collect_member_keys v) []
unfolding collect_member_keys
scalar-Adds (arr xs) e seen = cc
scalar-Adds (obj fs) e seen = cc
scalar-Adds null e seen = (seen, refl, Gathers-nil seen)
scalar-Adds (bool b) e seen = (seen, refl, Gathers-nil seen)
scalar-Adds (num n) e seen = (seen, refl, Gathers-nil seen)
scalar-Adds (str s) e seen = (seen, refl, Gathers-nil seen)

-- Both orders of the two children give the same set.
Gathers-swap : (ks js : List Str) {s t : List Str} → Gathers (ks ++ js) s t → Gathers (js ++ ks) s t
Gathers-swap ks js g = record {
  old = g.old;
  new = λ k i. elim (In-append k js ks i) [
    | inl x ↦ g.new k (In-append_right k ks js x)
    | inr y ↦ g.new k (In-append_left k ks js y)
  ];
  only = λ k i. elim (g.only k i) [
    | inl x ↦ inl x
    | inr y ↦ elim (In-append k ks js y) [
      | inl z ↦ inr (In-append_right k js ks z)
      | inr z ↦ inr (In-append_left k js ks z)
    ]
  ];
}

scalar_kind :
    (k : Str) (v : Json)
    → first_name ≢ k
    → second_name ≢ k
    → (k ≡ first_name) ⊎ (k ≡ second_name) ⊎ (is_scalar v ≡ true)
    → is_scalar v ≡ true
scalar_kind k v x y (inl e) = absurd (x (sym e))
scalar_kind k v x y (inr (inl e)) = absurd (y (sym e))
scalar_kind k v x y (inr (inr e)) = e

first_ne_second : first_name ≢ second_name
first_ne_second e = ground arith

collect_fields-Adds :
    (fs : Fields) (ks js : List Str)
    → IsNode fs
    → AddsAt (get_field first_name fs) ks
    → AddsAt (get_field second_name fs) js
    → Adds (collect_fields fs) (ks ++ js)
unfolding collect_member_keys get_field
collect_fields-Adds end ks js n a b seen = (seen, refl, rw (a, b) (Gathers-nil seen))
collect_fields-Adds (field k v fs) ks js (fresh, kind, n) a b seen = elim (str_dec first_name k) [
  | yes p ↦
      Adds-and_then (collect_member_keys v) (collect_fields fs) ks js
        (rw (get_field_here first_name k v fs p) at a)
        (collect_fields-Adds fs [] js n (rw (p, fresh) refl)
          (rw (get_field_there second_name k v fs (λ q. first_ne_second (cc))) at b))
        seen
  | no x ↦ elim (str_dec second_name k) [
    | yes p ↦
        let (out, d, g) =
          Adds-and_then (collect_member_keys v) (collect_fields fs) js (ks ++ [])
            (rw (get_field_here second_name k v fs p) at b)
            (collect_fields-Adds fs ks [] n (rw (get_field_there first_name k v fs x) at a)
              (rw (p, fresh) refl))
            seen in
        (out, d, Gathers-swap js ks (rw append-nil at g))
    | no y ↦
        Adds-and_then (collect_member_keys v) (collect_fields fs) [] (ks ++ js)
          (scalar-Adds v (scalar_kind k v x y kind))
          (collect_fields-Adds fs ks js n (rw (get_field_there first_name k v fs x) at a)
            (rw (get_field_there second_name k v fs y) at b))
          seen
  ]
]

-- On a well-formed tree the keys collected are those of the layout.
collect-Adds : {v : Json} {p : Pane} → Shows v p → Adds (collect_member_keys v) (pane_keys p)
unfolding collect_member_keys str_dec
collect-Adds (shows_leaf fs k t e) seen = (add_key k seen, rw (t, e), add_key-Gathers k seen)
collect-Adds (shows_split fs {p = p} {q = q} t n e f s u) seen = rw t (
    collect_fields-Adds fs (pane_keys p) (pane_keys q) n (rw e (collect-Adds s))
      (rw f (collect-Adds u)) seen)

insert_sorted-In : (k j : Str) (ks : List Str) → In j (k ∷ ks) → In j (insert_sorted k ks)
unfolding insert_sorted
insert_sorted-In k j [] h = h
insert_sorted-In k j (x ∷ xs) (inl e) = ground (arith, insert_sorted-In k j xs (inl e))
insert_sorted-In k j (x ∷ xs) (inr (inl e)) = ground arith
insert_sorted-In k j (x ∷ xs) (inr (inr h)) = ground (arith, insert_sorted-In k j xs (inr h))

pub In_of_In-insert_sorted : (k j : Str) (ks : List Str) → In j (insert_sorted k ks) → In j (k ∷ ks)
unfolding insert_sorted
In_of_In-insert_sorted k j [] h = h
In_of_In-insert_sorted k j (x ∷ xs) h = ground (arith, In_of_In-insert_sorted k j xs)

pub In-sort_strings : (j : Str) (ks : List Str) → In j ks → In j (sort_strings ks)
unfolding sort_strings
In-sort_strings j (k ∷ ks) (inl e) = insert_sorted-In k j (sort_strings ks) (inl e)
In-sort_strings j (k ∷ ks) (inr h) =
    insert_sorted-In k j (sort_strings ks) (inr (In-sort_strings j ks h))
In-sort_strings j [] h = absurd h

pub In_of_In-sort_strings : (j : Str) (ks : List Str) → In j (sort_strings ks) → In j ks
unfolding sort_strings
In_of_In-sort_strings j [] h = h
In_of_In-sort_strings j (k ∷ ks) h = elim (In_of_In-insert_sorted k j (sort_strings ks) h) [
  | inl e ↦ inl e
  | inr i ↦ inr (In_of_In-sort_strings j ks i)
]

-- On a well-formed tree `MemberKeys` succeeds, and returns exactly the keys of the layout.
pub member_keys-Shows :
    {v : Json} {p : Pane}
    → Shows v p
    → (keys : List Str) × (member_keys (json v) ≡ some keys)
      × ((k : Str) → (In k keys → In k (pane_keys p)) × (In k (pane_keys p) → In k keys))
unfolding member_keys
member_keys-Shows s =
    let (seen, e, g) = collect-Adds s [] in
    (
      sort_strings seen,
      rw e,
      λ k. (
        λ i. elim (g.only k (In_of_In-sort_strings k seen i)) [ inl x ↦ absurd x | inr y ↦ y ],
        λ i. In-sort_strings k seen (g.new k i),
      ),
    )
