-- ===== src/GroupSync/Json/Rename.antt =====
-- What `replaceStrings` does to the strings of a value.
use termyard.Base.{
  ◌≡◌, refl, Bool, true, false, ◌||◌, List, [], ◌∷◌, ◌++◌, map, Option, none, some, Str, str_dec,
  sym, ap, ◌∙◌, subst, ite, In, In-append_left, In-append_right, ◌⊎◌, inl, inr,
}
use termyard.GroupSync.Json.{
  Json, null, bool, num, str, arr, obj, Items, nil, cons, Fields, end, field, new_name, renamed,
  replace_strings, replace_items, replace_fields,
}

-- The string values of a value, in order; names of fields do not count.
abbrev mutual
  pub strings : Json → List Str
  strings null = []
  strings (bool b) = []
  strings (num n) = []
  strings (str s) = s ∷ []
  strings (arr xs) = item_strings xs
  strings (obj fs) = field_strings fs

  pub item_strings : Items → List Str
  item_strings nil = []
  item_strings (cons v xs) = strings v ++ item_strings xs

  pub field_strings : Fields → List Str
  field_strings end = []
  field_strings (field k v fs) = strings v ++ field_strings fs

-- The string `t` is what the list makes of `s`: the new name of the first entry whose old name is
-- `s`, and `s` itself when there is no such entry.
abbrev pub IsRenamed : List (Str × Str) → Str → Str → Type 0
IsRenamed [] s t = t ≡ s
IsRenamed ((old, new) ∷ rs) s t = ((s ≡ old) × (t ≡ new)) ⊎ ((¬ (s ≡ old)) × IsRenamed rs s t)

-- The two lists are as long, and the relation holds of their entries, place by place.
abbrev pub Pairwise : (Str → Str → Type 0) → List Str → List Str → Type 0
Pairwise R [] [] = Unit
Pairwise R [] (t ∷ ts) = ⊥
Pairwise R (s ∷ ss) [] = ⊥
Pairwise R (s ∷ ss) (t ∷ ts) = R s t × Pairwise R ss ts

Pairwise-append :
    (R : Str → Str → Type 0) (ss ts ss2 ts2 : List Str)
    → Pairwise R ss ts
    → Pairwise R ss2 ts2
    → Pairwise R (ss ++ ss2) (ts ++ ts2)
Pairwise-append R [] [] ss2 ts2 h k = k
Pairwise-append R [] (t ∷ ts) ss2 ts2 h k = absurd h
Pairwise-append R (s ∷ ss) [] ss2 ts2 h k = absurd h
Pairwise-append R (s ∷ ss) (t ∷ ts) ss2 ts2 (h, hs) k = (h, Pairwise-append R ss ts ss2 ts2 hs k)

-- The string is the old name of an entry.
abbrev pub IsOld : List (Str × Str) → Str → Type 0
IsOld rs s = In s (map (λ r. r.0) rs)

-- What `new_name` finds for a string.
abbrev IsNamed : List (Str × Str) → Str → Option Str → Type 0
IsNamed rs s none = IsRenamed rs s s
IsNamed rs s (some t) = IsRenamed rs s t × IsOld rs s

IsNamed-later :
    (old new : Str) (rs : List (Str × Str)) (s : Str) (o : Option Str)
    → ¬ (s ≡ old)
    → IsNamed rs s o
    → IsNamed ((old, new) ∷ rs) s o
IsNamed-later old new rs s none n h = inr (n, h)
IsNamed-later old new rs s (some t) n (h, i) = (inr (n, h), inr i)

new_name-IsNamed : (s : Str) (rs : List (Str × Str)) → IsNamed rs s (new_name s rs)
unfolding new_name
new_name-IsNamed s [] = refl
new_name-IsNamed s ((old, new) ∷ rs) =
    elim (str_dec s old) as (λ d. IsNamed ((old, new) ∷ rs) s (ite d (some new) (new_name s rs))) [
      | yes e ↦ (inl (e, refl), inl e)
      | no n ↦ IsNamed-later old new rs s (new_name s rs) n (new_name-IsNamed s rs)
    ]

-- A value and what it is renamed to, with the flag.
record Renames {ℓ} {A : Type ℓ} (strs : A → List Str) (rs : List (Str × Str)) (v : A) (r : A × Bool)
    : Type ℓ where
  content : Pairwise (IsRenamed rs) (strs v) (strs r.0)
  still : r.1 ≡ false → r.0 ≡ v
  found : r.1 ≡ true → (s : Str) × (In s (strs v) × IsOld rs s)

renamed-Renames :
    (s : Str) (rs : List (Str × Str)) (o : Option Str)
    → IsNamed rs s o
    → Renames strings rs (str s) (renamed s o)
renamed-Renames s rs none h = record {
  content = (h, tt);
  still = λ e. refl;
  found = λ e. absurd (cc e);
}
renamed-Renames s rs (some t) (h, i) = record {
  content = (h, tt);
  still = λ e. absurd (cc e);
  found = λ e. (s, (inl refl, i));
}

-- An old name in either of two parts.
found_either :
    (rs : List (Str × Str)) (ss ts : List Str) (a b : Bool)
    → (a ≡ true → (s : Str) × (In s ss × IsOld rs s))
    → (b ≡ true → (s : Str) × (In s ts × IsOld rs s))
    → (a || b) ≡ true
    → (s : Str) × (In s (ss ++ ts) × IsOld rs s)
found_either rs ss ts true b f g e = let (s, (i, o)) = f refl in (s, (In-append_left s ss ts i, o))
found_either rs ss ts false b f g e = let (s, (i, o)) = g e in (s, (In-append_right s ss ts i, o))

or_false : (a b : Bool) → (a || b) ≡ false → (a ≡ false) × (b ≡ false)
or_false true b e = absurd (cc e)
or_false false b e = (refl, e)

unchanged : (v : Json) (rs : List (Str × Str)) → strings v ≡ [] → Renames strings rs v (v, false)
unchanged v rs e = record {
  content = subst (λ ss. Pairwise (IsRenamed rs) ss ss) (sym e) tt;
  still = λ e. refl;
  found = λ e. absurd (cc e);
}

mutual
  unfolding replace_strings

  value-Renames : (v : Json) (rs : List (Str × Str)) → Renames strings rs v (replace_strings v rs)
  value-Renames null rs = unchanged null rs refl
  value-Renames (bool b) rs = unchanged (bool b) rs refl
  value-Renames (num n) rs = unchanged (num n) rs refl
  value-Renames (str s) rs = renamed-Renames s rs (new_name s rs) (new_name-IsNamed s rs)
  value-Renames (arr xs) rs =
      let h = items-Renames xs rs in
      record { content = h.content; still = λ e. ap arr (h.still e); found = h.found }
  value-Renames (obj fs) rs =
      let h = fields-Renames fs rs in
      record { content = h.content; still = λ e. ap obj (h.still e); found = h.found }

  items-Renames :
      (xs : Items) (rs : List (Str × Str)) → Renames item_strings rs xs (replace_items xs rs)
  items-Renames nil rs = record { content = tt; still = λ e. refl; found = λ e. absurd (cc e) }
  items-Renames (cons v xs) rs =
      let h = value-Renames v rs in
      let k = items-Renames xs rs in
      record {
        content =
            Pairwise-append (IsRenamed rs) (strings v) _ (item_strings xs) _ h.content k.content;
        still = λ e.
            let (a, b) = or_false (replace_strings v rs).1 (replace_items xs rs).1 e in
            ap (λ w. cons w (replace_items xs rs).0) (h.still a) ∙ ap (cons v) (k.still b);
        found = found_either rs (strings v) (item_strings xs) _ _ h.found k.found;
      }

  fields-Renames :
      (fs : Fields) (rs : List (Str × Str)) → Renames field_strings rs fs (replace_fields fs rs)
  fields-Renames end rs = record { content = tt; still = λ e. refl; found = λ e. absurd (cc e) }
  fields-Renames (field n v fs) rs =
      let h = value-Renames v rs in
      let k = fields-Renames fs rs in
      record {
        content =
            Pairwise-append (IsRenamed rs) (strings v) _ (field_strings fs) _ h.content k.content;
        still = λ e.
            let (a, b) = or_false (replace_strings v rs).1 (replace_fields fs rs).1 e in
            ap (λ w. field n w (replace_fields fs rs).0) (h.still a) ∙ ap (field n v) (k.still b);
        found = found_either rs (strings v) (field_strings fs) _ _ h.found k.found;
      }

-- `replaceStrings` renames every string value by the first entry whose old name it is, and leaves
-- the other strings: the strings of the result are, place by place, what the list of entries makes
-- of the strings of the value. Where its flag is false the value is as it was, and where it is true
-- some string of the value is an old name.
pub replace_strings-IsRenamed :
    (v : Json) (rs : List (Str × Str))
    → Pairwise (IsRenamed rs) (strings v) (strings (replace_strings v rs).0)
      × (((replace_strings v rs).1 ≡ false → (replace_strings v rs).0 ≡ v)
          × ((replace_strings v rs).1 ≡ true → (s : Str) × (In s (strings v) × IsOld rs s)))
replace_strings-IsRenamed v rs = let h = value-Renames v rs in (h.content, (h.still, h.found))
