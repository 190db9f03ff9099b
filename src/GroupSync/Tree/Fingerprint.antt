-- ===== src/GroupSync/Tree/Fingerprint.antt =====
-- `MemberKeys` returns a canonical list, so the fingerprint depends on the set of keys alone.
use termyard.Base.{
  ◌≡◌, ◌⊎◌, inl, inr, true, false, List, [], ◌∷◌, Option, none, some, Str, refl, arith, In, sym,
  str_ltb, str_ltb_irrefl, str_ltb_trans, str_ltb_total, Bool-cases, subst, Distinct, All,
}
use mathlib.Core.Path.{ap₂}
use termyard.GroupSync.Json.{
  Json, null, bool, num, str, arr, obj, Items, nil, cons, Fields, end, field, get_field, as_string,
}
use termyard.GroupSync.Tree.{
  collect_member_keys, collect_items, collect_fields, add_key, insert_sorted, sort_strings,
  member_keys, sorted_keys, json, type_name, key_name, and_then, is_leaf, collect_leaf,
  membership_fingerprint,
}
use termyard.GroupSync.Tree.Panes.{Pane, pane_keys, Shows}
use termyard.GroupSync.Tree.Members.{
  In_of_In-insert_sorted, In_of_In-sort_strings, member_keys-Shows,
}

-- Each string is below all that follow.
abbrev pub IsSorted : List Str → Type 0
IsSorted [] = Unit
IsSorted (x ∷ xs) = All (λ y. str_ltb x y ≡ true) xs × IsSorted xs

above-All :
    (x : Str) (ys : List Str)
    → ((y : Str) → In y ys → str_ltb x y ≡ true)
    → All (λ y. str_ltb x y ≡ true) ys
above-All x [] h = tt
above-All x (y ∷ ys) h = (h y (inl refl), above-All x ys (λ z i. h z (inr i)))

above :
    (x y : Str) (ys : List Str) → All (λ z. str_ltb x z ≡ true) ys → In y ys → str_ltb x y ≡ true
above x y [] a i = absurd i
above x y (z ∷ ys) (h, a) (inl e) = rw e h
above x y (z ∷ ys) (h, a) (inr i) = above x y ys a i

insert_sorted-IsSorted :
    (k : Str) (js : List Str) → (¬ In k js) → IsSorted js → IsSorted (insert_sorted k js)
unfolding insert_sorted
insert_sorted-IsSorted k [] n s = (tt, tt)
insert_sorted-IsSorted k (j ∷ js) n (a, s) = elim (Bool-cases (str_ltb j k)) [
  | inl l ↦
      rw (l, insert_sorted)
        (
          above-All j (insert_sorted k js) (λ y i. elim (In_of_In-insert_sorted k y js i) [
            | inl e ↦ rw e l
            | inr m ↦ above j y js a m
          ]),
          insert_sorted-IsSorted k js (λ i. n (inr i)) s,
        )
  | inr g ↦
      let l = below g (str_ltb_total k j (λ e. n (inl e))) in
      rw (g, insert_sorted)
        ((l, above-All k js (λ y i. str_ltb_trans k j y l (above j y js a i))), (a, s))
]
  where
    below : str_ltb j k ≡ false → (str_ltb k j ≡ true) ⊎ (str_ltb j k ≡ true) → str_ltb k j ≡ true
    below g (inl h) = h
    below g (inr h) = cc

sort_strings-IsSorted : (ks : List Str) → Distinct ks → IsSorted (sort_strings ks)
unfolding sort_strings
sort_strings-IsSorted [] d = tt
sort_strings-IsSorted (k ∷ ks) (n, d) =
    insert_sorted-IsSorted k (sort_strings ks) (λ i. n (In_of_In-sort_strings k ks i))
      (sort_strings-IsSorted ks d)

-- The collected keys are distinct.
abbrev Distinct? : Option (List Str) → Type 0
Distinct? none = Unit
Distinct? (some ks) = Distinct ks

and_then-Distinct :
    (o : Option (List Str)) (f : List Str → Option (List Str))
    → Distinct? o
    → ((ks : List Str) → Distinct ks → Distinct? (f ks))
    → Distinct? (and_then o f)
and_then-Distinct none f d h = tt
and_then-Distinct (some ks) f d h = h ks d

add_key-Distinct : (k : Str) (seen : List Str) → Distinct seen → Distinct (add_key k seen)
unfolding add_key
add_key-Distinct k seen d = ground arith

leaf-Distinct : (o : Option Str) (seen : List Str) → Distinct seen → Distinct? (collect_leaf o seen)
leaf-Distinct none seen d = tt
leaf-Distinct (some k) seen d = add_key-Distinct k seen d

mutual
  unfolding collect_member_keys

  value-Distinct :
      (v : Json) (seen : List Str) → Distinct seen → Distinct? (collect_member_keys v seen)
  value-Distinct null seen d = d
  value-Distinct (bool b) seen d = d
  value-Distinct (num n) seen d = d
  value-Distinct (str s) seen d = d
  value-Distinct (arr xs) seen d = items-Distinct xs seen d
  value-Distinct (obj fs) seen d =
      let rest = fields-Distinct fs seen d in
      elim (Bool-cases (is_leaf (as_string (get_field type_name fs)))) [
        | inl e ↦ rw e (leaf-Distinct (as_string (get_field key_name fs)) seen d)
        | inr e ↦ rw e rest
      ]

  items-Distinct :
      (xs : Items) (seen : List Str) → Distinct seen → Distinct? (collect_items xs seen)
  items-Distinct nil seen d = d
  items-Distinct (cons v xs) seen d =
      and_then-Distinct (collect_member_keys v seen) (collect_items xs) (value-Distinct v seen d)
        (items-Distinct xs)

  fields-Distinct :
      (fs : Fields) (seen : List Str) → Distinct seen → Distinct? (collect_fields fs seen)
  fields-Distinct end seen d = d
  fields-Distinct (field k v fs) seen d =
      and_then-Distinct (collect_member_keys v seen) (collect_fields fs) (value-Distinct v seen d)
        (fields-Distinct fs)

-- What `MemberKeys` returns is sorted without duplicates.
member_keys-IsSorted :
    (v : Json) (keys : List Str) → member_keys (json v) ≡ some keys → IsSorted keys
unfolding member_keys
member_keys-IsSorted v keys e = go (collect_member_keys v []) (value-Distinct v [] tt) e
  where
    go : (o : Option (List Str)) → Distinct? o → sorted_keys o ≡ some keys → IsSorted keys
    go none d e = cc
    go (some seen) d e =
        let same : sort_strings seen ≡ keys = cc in
        subst IsSorted same (sort_strings-IsSorted seen d)

same_head :
    (x y : Str) (xs ys : List Str)
    → IsSorted (x ∷ xs)
    → IsSorted (y ∷ ys)
    → In x (y ∷ ys)
    → In y (x ∷ xs)
    → x ≡ y
same_head x y xs ys s t (inl e) j = e
same_head x y xs ys s t (inr i) (inl e) = sym e
same_head x y xs ys (a, s) (b, t) (inr i) (inr j) =
    cc (str_ltb_trans x y x (above x y xs a j) (above y x ys b i), str_ltb_irrefl x)

same_tail :
    (x : Str) (xs ys : List Str)
    → IsSorted (x ∷ xs)
    → ((k : Str) → In k (x ∷ xs) → In k (x ∷ ys))
    → (k : Str) → In k xs
    → In k ys
same_tail x xs ys (a, s) h k i = elim (h k (inr i)) [
  | inl e ↦ cc (above x k xs a i, e, str_ltb_irrefl x)
  | inr j ↦ j
]

-- Two sorted lists with the same elements are one list.
sorted_unique :
    (xs ys : List Str)
    → IsSorted xs
    → IsSorted ys
    → ((k : Str) → In k xs → In k ys)
    → ((k : Str) → In k ys → In k xs)
    → xs ≡ ys
sorted_unique [] [] s t f g = refl
sorted_unique [] (y ∷ ys) s t f g = absurd (g y (inl refl))
sorted_unique (x ∷ xs) [] s t f g = absurd (f x (inl refl))
sorted_unique (x ∷ xs) (y ∷ ys) s t f g =
    let e = same_head x y xs ys s t (f x (inl refl)) (g y (inl refl)) in
    ap₂ ◌∷◌ e (
      sorted_unique xs ys s.1 t.1 (same_tail x xs ys s (λ k i. rw e (f k i)))
        (same_tail y ys xs t (λ k i. rw (← e) (g k i))))

-- Trees that show layouts with the same set of keys have the same fingerprint and the same key list,
-- whatever their shape, their split directions and their leaf order.
pub membership_fingerprint-Shows :
    (hex_digest : Str → Str) {v w : Json} {p q : Pane}
    → Shows v p
    → Shows w q
    → ((k : Str) → In k (pane_keys p) → In k (pane_keys q))
    → ((k : Str) → In k (pane_keys q) → In k (pane_keys p))
    → membership_fingerprint hex_digest (json v) ≡ membership_fingerprint hex_digest (json w)
unfolding membership_fingerprint
membership_fingerprint-Shows hex_digest {v} {w} s t f g =
    let (xs, d, a) = member_keys-Shows s in
    let (ys, e, b) = member_keys-Shows t in
    let same : xs ≡ ys =
      sorted_unique xs ys (member_keys-IsSorted v xs d) (member_keys-IsSorted w ys e)
        (λ k i. (b k).1 (f k ((a k).0 i))) (λ k i. (a k).1 (g k ((b k).0 i))) in
    rw (d, e, same)
