-- ===== src/GroupSync/Store/Trace.antt =====
-- `changed` and `prior`, the two maps that `enforce` returns: what was done, and what undoes it.
use termyard.Base.{
  ◌≡◌, ◌≢◌, ◌⊎◌, inl, inr, Bool, List, [], ◌∷◌, Option, none, some, Str, str_dec, refl, arith, In,
  sym, Bool-cases, ◌∙◌, get, put, get-put, ◌||◌, not, leb, length,
}
use termyard.GroupSync.Json.{Json}
use termyard.GroupSync.Tree.{RawMessage, absent, malformed, json, member_keys}
use termyard.GroupSync.Group.{Group, Time}
use termyard.GroupSync.Store.{
  Groups, group_at, live_ids, ids_of, precedes, sort_ids, Enforcing, remember, settle, enforce_raw,
  enforce_tree, enforce_start, enforce_one, enforce_all, bury_one, bury_all, spared, enforce,
  final_keys,
}
use termyard.GroupSync.Store.Order.{In-sort_ids, In-live_ids}

-- One id: untouched, or with its old record in `prior` and its new one in `changed`.
pub data Trace (q : Str) (m groups changed prior : Groups) : Type 0 where
  same :
      get q prior ≡ none
      → get q changed ≡ none
      → get q groups ≡ get q m
      → Trace q m groups changed prior
  moved :
      (old new : Group)
      → get q prior ≡ some old
      → get q m ≡ some old
      → get q changed ≡ some new
      → get q groups ≡ some new
      → Trace q m groups changed prior

abbrev pub IsTraced : Groups → Enforcing → Type 0
IsTraced m s = (q : Str) → Trace q m s.groups s.changed s.prior

abbrev pub IsPresent : Groups → List Str → Type 0
IsPresent m ids = (q : Str) → In q ids → (g : Group) × (get q m ≡ some g)

pub get-put_self : (id : Str) (g : Group) (m : Groups) → get id (put id g m) ≡ some g
get-put_self id g m = ground (arith, get-put id id g m)

pub get-put_ne : (q id : Str) (g : Group) (m : Groups) → q ≢ id → get q (put id g m) ≡ get q m
get-put_ne q id g m n = ground (arith, get-put q id g m)

pub remember-get_ne :
    (seen : Option Group) (q id : Str) (g : Group) (m : Groups)
    → q ≢ id
    → get q (remember seen id g m) ≡ get q m
remember-get_ne none q id g m n = get-put_ne q id g m n
remember-get_ne (some h) q id g m n = refl

-- Writing one id, with its old record kept unless there is one, keeps the trace.
pub Trace-put :
    (m groups changed prior : Groups) (seen : Option Group) (id : Str) (g x : Group)
    → (seen ≡ get id changed) ⊎ (seen ≡ get id prior)
    → get id m ≡ some x
    → ((q : Str) → Trace q m groups changed prior)
    → (q : Str)
    → Trace q m (put id g groups) (put id g changed) (remember seen id (group_at id groups) prior)
Trace-put m groups changed prior seen id g x s here t q = elim (str_dec q id) [
  | no n ↦ elsewhere n (t q)
  | yes e ↦ rw e (own (t id))
]
  where
    elsewhere :
        q ≢ id
        → Trace q m groups changed prior
        → Trace q m
            (put id g groups)
            (put id g changed)
            (remember seen id (group_at id groups) prior)
    elsewhere n (same p c e) =
        same (remember-get_ne seen q id _ prior n ∙ p) (get-put_ne q id g changed n ∙ c)
          (get-put_ne q id g groups n ∙ e)
    elsewhere n (moved old new p o c e) =
        moved old new (remember-get_ne seen q id _ prior n ∙ p) o (get-put_ne q id g changed n ∙ c)
          (get-put_ne q id g groups n ∙ e)

    unseen : get id changed ≡ none → get id prior ≡ none → seen ≡ none
    unseen c p = ground arith

    was_seen :
        (old new : Group)
        → get id changed ≡ some new
        → get id prior ≡ some old
        → (h : Group) × (seen ≡ some h)
    was_seen old new c p = elim s [ inl e ↦ (new, e ∙ c) | inr e ↦ (old, e ∙ p) ]

    own :
        Trace id m groups changed prior
        → Trace id m
            (put id g groups)
            (put id g changed)
            (remember seen id (group_at id groups) prior)
    own (same p c e) =
        moved x g (rw (unseen c p, e, here) (get-put_self id x prior)) here
          (get-put_self id g changed) (get-put_self id g groups)
    own (moved old new p o c e) =
        let (h, k) = was_seen old new c p in
        moved old g (rw k p) o (get-put_self id g changed) (get-put_self id g groups)

settle-IsTraced :
    (m : Groups) (now : Time) (id : Str) (g x : Group) (s : Enforcing) (t : Json × Bool)
    → get id m ≡ some x
    → IsTraced m s
    → IsTraced m (settle now id g s t)
unfolding settle
settle-IsTraced m now id g x s t here traced =
    elim (Bool-cases (t.1 || not (leb 2 (length (final_keys t.0))))) [
      | inl e ↦
          rw e (
            Trace-put m s.groups s.changed s.prior (get id s.changed) id _ x (inl refl) here traced)
      | inr e ↦ rw e traced
    ]

pub enforce_one-IsTraced :
    (m : Groups) (now : Time) (id : Str) (x : Group) (s : Enforcing)
    → get id m ≡ some x
    → IsTraced m s
    → IsTraced m (enforce_one now s id)
unfolding enforce_one
enforce_one-IsTraced m now id x s here traced = raw (group_at id s.groups).tree
  where
    tree :
        (v : Json) (keys : Option (List Str))
        → IsTraced m (enforce_tree now id (group_at id s.groups) s v keys)
    tree v none = traced
    tree v (some keys) = settle-IsTraced m now id (group_at id s.groups) x s _ here traced

    raw : (r : RawMessage) → IsTraced m (enforce_raw now id (group_at id s.groups) s r)
    raw absent = traced
    raw (malformed r) = traced
    raw (json v) = tree v (member_keys (json v))

enforce_all-IsTraced :
    (m : Groups) (now : Time) (ids : List Str) (s : Enforcing)
    → IsPresent m ids
    → IsTraced m s
    → IsTraced m (enforce_all now s ids)
unfolding enforce_all
enforce_all-IsTraced m now [] s here traced = traced
enforce_all-IsTraced m now (id ∷ ids) s here traced =
    let (x, e) = here id (inl refl) in
    enforce_all-IsTraced m now ids (enforce_one now s id) (λ q i. here q (inr i))
      (enforce_one-IsTraced m now id x s e traced)

pub bury_one-IsTraced :
    (m : Groups) (now : Time) (id : Str) (x : Group) (s : Enforcing)
    → get id m ≡ some x
    → IsTraced m s
    → IsTraced m (bury_one now s id)
unfolding bury_one
bury_one-IsTraced m now id x s here traced = elim (Bool-cases (spared s id)) [
  | inl e ↦ rw e traced
  | inr e ↦
      rw e (Trace-put m s.groups s.changed s.prior (get id s.prior) id _ x (inr refl) here traced)
]

bury_all-IsTraced :
    (m : Groups) (now : Time) (ids : List Str) (s : Enforcing)
    → IsPresent m ids
    → IsTraced m s
    → IsTraced m (bury_all now s ids)
unfolding bury_all
bury_all-IsTraced m now [] s here traced = traced
bury_all-IsTraced m now (id ∷ ids) s here traced =
    let (x, e) = here id (inl refl) in
    bury_all-IsTraced m now ids (bury_one now s id) (λ q i. here q (inr i))
      (bury_one-IsTraced m now id x s e traced)

pub IsPresent-ids_of : (m : Groups) → IsPresent m (ids_of m)
IsPresent-ids_of [] q i = absurd i
IsPresent-ids_of ((id, g) ∷ m) q i = elim (str_dec q id) [
  | yes e ↦ (g, ground arith)
  | no n ↦ elim i [
    | inl e ↦ absurd (n e)
    | inr j ↦ let (h, f) = IsPresent-ids_of m q j in (h, ground arith)
  ]
]

-- An id that is stored after a traced change was stored before.
pub IsPresent-before :
    (m groups changed prior : Groups) (q : Str) (g : Group)
    → Trace q m groups changed prior
    → get q groups ≡ some g
    → (h : Group) × (get q m ≡ some h)
IsPresent-before m groups changed prior q g (same p c e) h = (g, sym e ∙ h)
IsPresent-before m groups changed prior q g (moved old new p o c e) h = (old, o)

pub sort_ids-IsPresent :
    (m : Groups) (winner : Str) → IsPresent m (sort_ids (precedes m winner) (live_ids m))
sort_ids-IsPresent m winner q i =
    IsPresent-ids_of m q (In-live_ids q m (In-sort_ids (precedes m winner) q (live_ids m) i))

-- What the first loop of `enforce` leaves.
abbrev pub first_pass : Time → Str → Groups → Enforcing
first_pass now winner m =
    enforce_all now (enforce_start m) (sort_ids (precedes m winner) (live_ids m))

pub first_pass-IsTraced :
    (now : Time) (winner : Str) (m : Groups) → IsTraced m (first_pass now winner m)
first_pass-IsTraced now winner m =
    enforce_all-IsTraced m now _ (enforce_start m) (sort_ids-IsPresent m winner)
      (λ q. same refl refl refl)

pub first_pass-IsPresent :
    (now : Time) (winner : Str) (m : Groups) → IsPresent m (ids_of (first_pass now winner m).groups)
first_pass-IsPresent now winner m q i =
    let s = first_pass now winner m in
    let (g, e) = IsPresent-ids_of s.groups q i in
    IsPresent-before m s.groups s.changed s.prior q g (first_pass-IsTraced now winner m q) e

-- Every id is in `changed` with its new record and in `prior` with its old one, or it is in neither
-- and its record is as it was.
pub enforce-IsTraced : (now : Time) (winner : Str) (m : Groups) → IsTraced m (enforce now winner m)
unfolding enforce
enforce-IsTraced now winner m =
    let s = first_pass now winner m in
    bury_all-IsTraced m now (ids_of s.groups) s (first_pass-IsPresent now winner m)
      (first_pass-IsTraced now winner m)
