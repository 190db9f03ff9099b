-- ===== src/SessionOrder/Merge.antt =====
-- Each key is last-writer-wins: replicas that see the same updates agree.
use termyard.Base.{
  if_pos, if_neg, if◌then◌else◌, ite, Bool, true, false, Bool-cases, ◌≡◌, refl, sym, ap, ◌∙◌, arith,
  List, [], ◌∷◌, ◌++◌, Option, none, some, Str, str_dec, get, put, get-put, if_rule, ltb, inl, inr,
  map, Distinct, In, subst,
}
use termyard.SessionOrder.{
  Order, Orders, keeps, apply_remote, merge_all, finish_snapshot, apply_snapshot,
}

-- The newer of the stored order and the one that comes in: the later time wins, and at the same time
-- the stored order stays.
abbrev pub newer : Option Order → Order → Order
newer none o = o
newer (some c) o = if ltb c.updated_at o.updated_at then o else c

newer-kept : (cur : Option Order) (o : Order) → keeps cur o ≡ true → cur ≡ some (newer cur o)
newer-kept none o e = absurd (cc e)
newer-kept (some c) o e =
    if_rule (λ x. some c ≡ some x) (ltb c.updated_at o.updated_at) {x = o} {y = c}
      (λ l. absurd (cc (e, l))) (λ l. refl)

newer-changed : (cur : Option Order) (o : Order) → keeps cur o ≡ false → newer cur o ≡ o
newer-changed none o e = refl
newer-changed (some c) o e =
    if_rule (λ x. x ≡ o) (ltb c.updated_at o.updated_at) {x = o} {y = c} (λ l. refl)
      (λ l. absurd (cc (e, l)))

-- What a key holds once an order for `k` came in.
abbrev pub merged : Str → Str → Order → Orders → Option Order
merged q k o m = ite (str_dec q k) (some (newer (get k m) o)) (get q m)

kept-merged :
    (q k : Str) (o : Order) (m : Orders) → keeps (get k m) o ≡ true → get q m ≡ merged q k o m
kept-merged q k o m e =
    elim (str_dec q k) as (λ d. get q m ≡ ite d (some (newer (get k m) o)) (get q m)) [
      | yes p ↦ ap (λ k. get k m) p ∙ newer-kept (get k m) o e
      | no n ↦ refl
    ]

put-merged :
    (q k : Str) (o : Order) (m : Orders)
    → keeps (get k m) o ≡ false
    → get q (put k o m) ≡ merged q k o m
put-merged q k o m e = rw (newer-changed (get k m) o e) (get-put q k o m)

apply_remote-kept :
    (saves : Orders → Bool) (k : Str) (o : Order) (m : Orders)
    → keeps (get k m) o ≡ true
    → (apply_remote saves k o m).0 ≡ m
unfolding apply_remote
apply_remote-kept saves k o m e = rw e refl

apply_remote-put :
    (saves : Orders → Bool) (k : Str) (o : Order) (m : Orders)
    → keeps (get k m) o ≡ false
    → (apply_remote saves k o m).0 ≡ put k o m
unfolding apply_remote
apply_remote-put saves k o m e = elim (Bool-cases (saves (put k o m))) [
  | inl f ↦ rw (e, f) refl
  | inr f ↦ rw (e, f) refl
]

get-apply_remote :
    (saves : Orders → Bool) (q k : Str) (o : Order) (m : Orders)
    → get q (apply_remote saves k o m).0 ≡ merged q k o m
get-apply_remote saves q k o m = elim (Bool-cases (keeps (get k m) o)) [
  | inl e ↦ ap (get q) (apply_remote-kept saves k o m e) ∙ kept-merged q k o m e
  | inr e ↦ ap (get q) (apply_remote-put saves k o m e) ∙ put-merged q k o m e
]

newer_comm :
    (cur : Option Order) (o p : Order)
    → (o.updated_at ≡ p.updated_at → o ≡ p)
    → newer (some (newer cur o)) p ≡ newer (some (newer cur p)) o
newer_comm none o p h = ground (arith, h)
newer_comm (some c) o p h = ground (arith, h)

-- What a key holds after two updates.
get-apply_remote_twice :
    (saves : Orders → Bool) (k j : Str) (o p : Order) (m : Orders) (q : Str)
    → get q (apply_remote saves j p (apply_remote saves k o m).0).0
      ≡ ite (str_dec q j) (some (newer (merged j k o m) p)) (merged q k o m)
get-apply_remote_twice saves k j o p m q = rw (
  get-apply_remote saves q j p (apply_remote saves k o m).0,
  get-apply_remote saves j k o m,
  get-apply_remote saves q k o m,
)

merged_same : (k : Str) (o : Order) (m : Orders) → merged k k o m ≡ some (newer (get k m) o)
merged_same k o m = if_pos (str_dec k k) refl (some (newer (get k m) o)) (get k m)

merged_other : (q k : Str) (o : Order) (m : Orders) → ¬ (q ≡ k) → merged q k o m ≡ get q m
merged_other q k o m n = if_neg (str_dec q k) n (some (newer (get k m) o)) (get q m)

same_key :
    (k : Str) (o p : Order) (m : Orders) (q : Str)
    → (o.updated_at ≡ p.updated_at → o ≡ p)
    → ite (str_dec q k) (some (newer (merged k k o m) p)) (merged q k o m)
      ≡ ite (str_dec q k) (some (newer (merged k k p m) o)) (merged q k p m)
same_key k o p m q h =
    elim (str_dec q k)
      as (λ d.
        ite d (some (newer (merged k k o m) p)) (ite d (some (newer (get k m) o)) (get q m))
        ≡ ite d (some (newer (merged k k p m) o)) (ite d (some (newer (get k m) p)) (get q m))) [
          | yes e ↦ rw (merged_same k o m, merged_same k p m) (ap some (newer_comm (get k m) o p h))
          | no n ↦ refl
        ]

other_key :
    (k j : Str) (o p : Order) (m : Orders) (q : Str)
    → ¬ (k ≡ j)
    → ite (str_dec q j) (some (newer (merged j k o m) p)) (merged q k o m)
      ≡ ite (str_dec q k) (some (newer (merged k j p m) o)) (merged q j p m)
other_key k j o p m q n =
    rw (merged_other j k o m (λ e. n (sym e)), merged_other k j p m n) (ground arith)

-- Two updates give the same order for every key, whichever comes first, when updates of one key that
-- carry the same time are the same.
pub apply_remote_comm :
    (saves : Orders → Bool) (k j : Str) (o p : Order) (m : Orders)
    → (k ≡ j → o.updated_at ≡ p.updated_at → o ≡ p)
    → (q : Str)
    → get q (apply_remote saves j p (apply_remote saves k o m).0).0
      ≡ get q (apply_remote saves k o (apply_remote saves j p m).0).0
apply_remote_comm saves k j o p m h q =
    get-apply_remote_twice saves k j o p m q
    ∙ elim (str_dec k j) [
      | yes e ↦
          subst
            (λ j.
              ite (str_dec q j) (some (newer (merged j k o m) p)) (merged q k o m)
              ≡ ite (str_dec q k) (some (newer (merged k j p m) o)) (merged q j p m))
            e (same_key k o p m q (h e))
      | no n ↦ other_key k j o p m q n
    ]
    ∙ sym (get-apply_remote_twice saves j k p o m q)

-- What a snapshot leaves, by what it has and what was there.
abbrev pub newest : Option Order → Option Order → Option Order
newest none cur = cur
newest (some o) cur = some (newer cur o)

get_absent : (k : Str) (m : Orders) → ¬ In k (map (λ e. e.0) m) → get k m ≡ none
get_absent k [] n = refl
get_absent k ((j, o) ∷ m) n =
    if_neg (str_dec k j) (λ e. n (inl e)) (some o) (get k m) ∙ get_absent k m (λ i. n (inr i))

-- The first update of a snapshot counts as one that came before the others.
newest-merged :
    (k : Str) (o : Order) (snap m : Orders) (q : Str)
    → ¬ In k (map (λ e. e.0) snap)
    → newest (get q snap) (merged q k o m) ≡ newest (get q ((k, o) ∷ snap)) (get q m)
newest-merged k o snap m q n =
    elim (str_dec q k)
      as (λ d.
        newest (get q snap) (ite d (some (newer (get k m) o)) (get q m))
        ≡ newest (ite d (some o) (get q snap)) (get q m)) [
          | yes e ↦
              ap (λ c. newest c (some (newer (get k m) o)))
                (ap (λ q. get q snap) e ∙ get_absent k snap n)
              ∙ ap (λ k. some (newer (get k m) o)) (sym e)
          | no i ↦ refl
        ]

merge_all-get :
    (snap m : Orders) (changed : List Str) (q : Str)
    → Distinct (map (λ e. e.0) snap)
    → get q (merge_all snap (m, changed)).0 ≡ newest (get q snap) (get q m)
unfolding merge_all
merge_all-get [] m changed q d = refl
merge_all-get ((k, o) ∷ snap) m changed q (n, d) = elim (Bool-cases (keeps (get k m) o)) [
  | inl e ↦
      ap
        (λ b. get q (merge_all snap (if b then (m, changed) else (put k o m, changed ++ k ∷ []))).0)
        e
      ∙ merge_all-get snap m changed q d
      ∙ ap (newest (get q snap)) (kept-merged q k o m e)
      ∙ newest-merged k o snap m q n
  | inr e ↦
      ap
        (λ b. get q (merge_all snap (if b then (m, changed) else (put k o m, changed ++ k ∷ []))).0)
        e
      ∙ merge_all-get snap (put k o m) (changed ++ k ∷ []) q d
      ∙ ap (newest (get q snap)) (put-merged q k o m e)
      ∙ newest-merged k o snap m q n
]

finish_snapshot-state :
    (saves : Orders → Bool) (r : Orders × List Str) → (finish_snapshot saves r).0 ≡ r.0
finish_snapshot-state saves (m, []) = refl
finish_snapshot-state saves (m, k ∷ changed) =
    elim (saves m) as (λ b. (finish_with b (k ∷ changed) m).0 ≡ m) [ true ↦ refl | false ↦ refl ]
  where
    finish_with : Bool → List Str → Orders → Orders × (List Str × Bool)
    finish_with b changed m = if b then (m, (changed, false)) else (m, ([], true))

-- A snapshot, whose keys are distinct as those of a map are, leaves under every key the newer of what
-- was there and what the snapshot has: the later time wins, and at the same time what was there stays.
pub apply_snapshot-newest :
    (saves : Orders → Bool) (snap m : Orders) (q : Str)
    → Distinct (map (λ e. e.0) snap)
    → get q (apply_snapshot saves snap m).0 ≡ newest (get q snap) (get q m)
unfolding apply_snapshot
apply_snapshot-newest saves snap m q d =
    ap (get q) (finish_snapshot-state saves (merge_all snap (m, []))) ∙ merge_all-get snap m [] q d
