-- ===== src/GroupSync/Store/Order.antt =====
-- The ids that `enforce` goes through: the live ones, each once, in the order of priority.
use termyard.Base.{
  put, ◌≡◌, ◌⊎◌, inl, inr, Bool, true, List, [], ◌∷◌, some, Str, str_dec, refl, arith, In, sym,
  Distinct, get, Bool-cases, if_pos, if_neg, All,
}
use termyard.GroupSync.Group.{Group}
use termyard.GroupSync.Store.{
  Groups, group_at, is_live, live, live_ids, ids_of, insert_id, sort_ids,
}

-- Each key stands once, as in any Go map.
abbrev pub IsMap {ℓ} : {V : Type ℓ} → List (Str × V) → Type 0
IsMap m = Distinct (ids_of m)

-- Every id of the list is live.
abbrev pub AllLive : Groups → List Str → Type 0
AllLive m ids = All (λ id. is_live (group_at id m) ≡ true) ids

In-ids_of-put :
    (q id : Str) (g : Group) (m : Groups) → In q (ids_of (put id g m)) → (q ≡ id) ⊎ In q (ids_of m)
In-ids_of-put q id g [] (inl e) = inl e
In-ids_of-put q id g [] (inr h) = absurd h
In-ids_of-put q id g ((j, h) ∷ m) i = ground (arith, In-ids_of-put q id g m)

-- A write keeps the keys distinct.
pub put-IsMap : (id : Str) (g : Group) (m : Groups) → IsMap m → IsMap (put id g m)
put-IsMap id g [] d = ((λ h. h), tt)
put-IsMap id g ((j, h) ∷ m) (n, d) = elim (str_dec id j) [
  | yes e ↦ ground arith
  | no k ↦ rw (if_neg (str_dec id j) k ((j, g) ∷ m) ((j, h) ∷ put id g m)) (
    (λ i. elim (In-ids_of-put j id g m i) [ inl e ↦ k (sym e) | inr x ↦ n x ]),
    put-IsMap id g m d,
  )
]

pub In-ids_of : (id : Str) (g : Group) (m : Groups) → get id m ≡ some g → In id (ids_of m)
In-ids_of id g [] e = cc
In-ids_of id g ((j, h) ∷ m) e = elim (str_dec id j) [
  | yes p ↦ inl p
  | no n ↦ inr (In-ids_of id g m (ground arith))
]

pub In-live_ids : (q : Str) (m : Groups) → In q (live_ids m) → In q (ids_of m)
unfolding live
In-live_ids q [] i = i
In-live_ids q ((id, g) ∷ m) i = ground (arith, In-live_ids q m)

pub live_ids-Distinct : (m : Groups) → IsMap m → Distinct (live_ids m)
unfolding live
live_ids-Distinct [] d = tt
live_ids-Distinct ((id, g) ∷ m) (n, d) = elim (Bool-cases (is_live g)) [
  | inl l ↦ rw l ((λ i. n (In-live_ids id m i)), live_ids-Distinct m d)
  | inr l ↦ rw l (live_ids-Distinct m d)
]

-- A record that is stored and live is among them.
pub In-live_ids_of_live :
    (q : Str) (g : Group) (m : Groups) → get q m ≡ some g → is_live g ≡ true → In q (live_ids m)
unfolding live
In-live_ids_of_live q g [] e l = cc
In-live_ids_of_live q g ((id, h) ∷ m) e l = elim (str_dec q id) [
  | yes p ↦ ground arith
  | no n ↦ ground (arith, In-live_ids_of_live q g m)
]

weaken :
    (id : Str) (g : Group) (m : Groups) (ids : List Str)
    → (¬ In id ids)
    → AllLive m ids
    → AllLive ((id, g) ∷ m) ids
weaken id g m [] n a = tt
weaken id g m (q ∷ ids) n (l, a) = (
  rw (if_neg (str_dec q id) (λ e. n (inl (sym e))) (some g) (get q m)) l,
  weaken id g m ids (λ i. n (inr i)) a,
)

pub live_ids-AllLive : (m : Groups) → IsMap m → AllLive m (live_ids m)
unfolding live
live_ids-AllLive [] d = tt
live_ids-AllLive ((id, g) ∷ m) (n, d) =
    let rest = weaken id g m (live_ids m) (λ i. n (In-live_ids id m i)) (live_ids-AllLive m d) in
    elim (Bool-cases (is_live g)) [
      | inl l ↦ rw l (rw (if_pos (str_dec id id) refl (some g) (get id m)) l, rest)
      | inr l ↦ rw l rest
    ]

module _ (less : Str → Str → Bool) where
  insert_id-In : (q i : Str) (js : List Str) → In q (i ∷ js) → In q (insert_id less i js)
  unfolding insert_id
  insert_id-In q i [] h = h
  insert_id-In q i (j ∷ js) (inl e) = ground (arith, insert_id-In q i js (inl e))
  insert_id-In q i (j ∷ js) (inr (inl e)) = ground arith
  insert_id-In q i (j ∷ js) (inr (inr h)) = ground (arith, insert_id-In q i js (inr h))

  In-insert_id : (q i : Str) (js : List Str) → In q (insert_id less i js) → In q (i ∷ js)
  unfolding insert_id
  In-insert_id q i [] h = h
  In-insert_id q i (j ∷ js) h = ground (arith, In-insert_id q i js)

  insert_id-Distinct :
      (i : Str) (js : List Str) → (¬ In i js) → Distinct js → Distinct (insert_id less i js)
  unfolding insert_id
  insert_id-Distinct i [] n d = (n, tt)
  insert_id-Distinct i (j ∷ js) n (m, d) = elim (Bool-cases (less j i)) [
    | inl l ↦ rw l (
      (λ h. elim (In-insert_id j i js h) [ inl e ↦ n (inl (sym e)) | inr x ↦ m x ]),
      insert_id-Distinct i js (λ h. n (inr h)) d,
    )
    | inr l ↦ rw l (n, (m, d))
  ]

  pub sort_ids-In : (q : Str) (is : List Str) → In q is → In q (sort_ids less is)
  unfolding sort_ids
  sort_ids-In q [] h = h
  sort_ids-In q (i ∷ is) (inl e) = insert_id-In q i (sort_ids less is) (inl e)
  sort_ids-In q (i ∷ is) (inr h) = insert_id-In q i (sort_ids less is) (inr (sort_ids-In q is h))

  pub In-sort_ids : (q : Str) (is : List Str) → In q (sort_ids less is) → In q is
  unfolding sort_ids
  In-sort_ids q [] h = h
  In-sort_ids q (i ∷ is) h = elim (In-insert_id q i (sort_ids less is) h) [
    | inl e ↦ inl e
    | inr x ↦ inr (In-sort_ids q is x)
  ]

  pub sort_ids-Distinct : (is : List Str) → Distinct is → Distinct (sort_ids less is)
  unfolding sort_ids
  sort_ids-Distinct [] d = tt
  sort_ids-Distinct (i ∷ is) (n, d) =
      insert_id-Distinct i (sort_ids less is) (λ h. n (In-sort_ids i is h)) (sort_ids-Distinct is d)

AllLive-of_In :
    (m : Groups) (ids : List Str)
    → ((q : Str) → In q ids → is_live (group_at q m) ≡ true)
    → AllLive m ids
AllLive-of_In m [] h = tt
AllLive-of_In m (id ∷ ids) h = (h id (inl refl), AllLive-of_In m ids (λ q i. h q (inr i)))

live_of_AllLive :
    (m : Groups) (ids : List Str) (q : Str)
    → AllLive m ids
    → In q ids
    → is_live (group_at q m) ≡ true
live_of_AllLive m [] q a i = absurd i
live_of_AllLive m (id ∷ ids) q (l, a) (inl e) = rw e l
live_of_AllLive m (id ∷ ids) q (l, a) (inr i) = live_of_AllLive m ids q a i

-- Sorting keeps them live.
pub sort_ids-AllLive :
    (less : Str → Str → Bool) (m : Groups) (ids : List Str)
    → AllLive m ids
    → AllLive m (sort_ids less ids)
sort_ids-AllLive less m ids a =
    AllLive-of_In m (sort_ids less ids)
      (λ q i. live_of_AllLive m ids q a (In-sort_ids less q ids i))
