-- ===== src/GroupSync/Store/Changed.antt =====
-- What `enforce` reports as changed was really changed.
use termyard.Base.{
  ◌≡◌, inl, inr, Bool, true, false, ◌||◌, not, leb, List, [], ◌∷◌, Option, none, some, Str, str_dec,
  refl, arith, sym, ap, subst, Bool-cases, ◌∙◌, get, put, length,
}
use termyard.GroupSync.Json.{Json}
use termyard.GroupSync.Tree.{RawMessage, absent, malformed, json, member_keys}
use termyard.GroupSync.Tree.Size.{Smaller, unchanged-Smaller}
use termyard.GroupSync.Group.{Group, Time, zero_group}
use termyard.GroupSync.Store.{
  Groups, group_at, or_else, is_live, live_ids, ids_of, precedes, sort_ids, prune_keys, owns,
  Enforcing, settle, enforce_raw, enforce_tree, enforce_start, enforce_one, enforce_all, bury_one,
  bury_all, spared, enforce, final_keys,
}
use termyard.GroupSync.Store.Order.{IsMap, AllLive, live_ids-AllLive, sort_ids-AllLive}
use termyard.GroupSync.Store.Less.{IsLess, IsLess-trans, prune_keys-Smaller, shrunk-IsLess}
use termyard.GroupSync.Store.Trace.{
  Trace, same, moved, IsTraced, IsPresent, get-put_self, get-put_ne, enforce_one-IsTraced,
  bury_one-IsTraced, sort_ids-IsPresent, first_pass-IsTraced, first_pass, first_pass-IsPresent,
  enforce-IsTraced,
}

-- The id was live, and its record became less.
abbrev pub IsReported : Time → Groups → Str → Group → Type 0
IsReported now m q new =
    (old : Group) × ((get q m ≡ some old) × ((is_live old ≡ true) × IsLess now old new))

abbrev pub AreReported : Time → Groups → Groups → Type 0
AreReported now m changed =
    (q : Str) → (new : Group) → get q changed ≡ some new → IsReported now m q new

group_at-some : (id : Str) (x : Group) (m : Groups) → get id m ≡ some x → group_at id m ≡ x
group_at-some id x m e = ap (λ o. or_else o zero_group) e

-- A record is written that is less than the one there; the id was live at first.
AreReported-put :
    (now : Time) (m groups changed prior : Groups) (id : Str) (g x : Group)
    → get id m ≡ some x
    → is_live x ≡ true
    → IsLess now (group_at id groups) g
    → Trace id m groups changed prior
    → AreReported now m changed
    → AreReported now m (put id g changed)
AreReported-put now m groups changed prior id g x here live less t reports q new e =
    elim (str_dec q id) [
      | no n ↦ reports q new (sym (get-put_ne q id g changed n) ∙ e)
      | yes p ↦
          subst (λ q. IsReported now m q new) (sym p)
            (subst (IsReported now m id) (own_record p) (own t))
    ]
  where
    own_record : q ≡ id → g ≡ new
    own_record p =
        let z : some g ≡ some new =
          sym (get-put_self id g changed) ∙ ap (λ q. get q (put id g changed)) (sym p) ∙ e in
        ap (λ o. or_else o g) z

    own : Trace id m groups changed prior → IsReported now m id g
    own (same p c k) =
        (x, (here, (live, subst (λ f. IsLess now f g) (group_at-some id x groups (k ∙ here)) less)))
    own (moved old h p o c k) =
        let (first, (f, (l, w))) = reports id h c in
        (
          first,
          (
            f,
            (
              l,
              IsLess-trans now first h g w
                  (subst (λ f. IsLess now f g) (group_at-some id h groups k) less),
            ),
          ),
        )

settle-Reported :
    (now : Time) (m : Groups) (id : Str) (x : Group) (s : Enforcing) (v : Json) (t : Json × Bool)
    → get id m ≡ some x
    → is_live x ≡ true
    → (group_at id s.groups).tree ≡ json v
    → Smaller v t
    → IsTraced m s
    → AreReported now m s.changed
    → AreReported now m (settle now id (group_at id s.groups) s t).changed
unfolding settle
settle-Reported now m id x s v (tree, modified) here live e h traced reports =
    elim (Bool-cases (modified || not (leb 2 (length (final_keys tree))))) [
      | inl f ↦ rw f (
          AreReported-put now m s.groups s.changed s.prior id _ x here live
            (shrunk-IsLess now (group_at id s.groups) v tree modified
              (leb 2 (length (final_keys tree))) h e f)
            (traced id) reports)
      | inr f ↦ rw f reports
    ]

enforce_one-Reported :
    (now : Time) (m : Groups) (id : Str) (x : Group) (s : Enforcing)
    → get id m ≡ some x
    → is_live x ≡ true
    → IsTraced m s
    → AreReported now m s.changed
    → AreReported now m (enforce_one now s id).changed
unfolding enforce_one
enforce_one-Reported now m id x s here live traced reports = raw (group_at id s.groups).tree refl
  where
    tree :
        (v : Json) (keys : Option (List Str))
        → (group_at id s.groups).tree ≡ json v
        → AreReported now m (enforce_tree now id (group_at id s.groups) s v keys).changed
    tree v none e = reports
    tree v (some keys) e =
        settle-Reported now m id x s v (prune_keys (owns s.owned) keys (v, false)) here live e
          (prune_keys-Smaller (owns s.owned) v keys (v, false) (unchanged-Smaller v)) traced reports

    raw :
        (r : RawMessage)
        → (group_at id s.groups).tree ≡ r
        → AreReported now m (enforce_raw now id (group_at id s.groups) s r).changed
    raw absent e = reports
    raw (malformed r) e = reports
    raw (json v) e = tree v (member_keys (json v)) e

enforce_all-Reported :
    (now : Time) (m : Groups) (ids : List Str) (s : Enforcing)
    → IsPresent m ids
    → AllLive m ids
    → IsTraced m s
    → AreReported now m s.changed
    → AreReported now m (enforce_all now s ids).changed
unfolding enforce_all
enforce_all-Reported now m [] s here live traced reports = reports
enforce_all-Reported now m (id ∷ ids) s here (l, live) traced reports =
    let (x, e) = here id (inl refl) in
    let y = ap is_live (sym (group_at-some id x m e)) ∙ l in
    enforce_all-Reported now m ids (enforce_one now s id) (λ q i. here q (inr i)) live
      (enforce_one-IsTraced m now id x s e traced)
      (enforce_one-Reported now m id x s e y traced reports)

spared-Live :
    (s : Enforcing) (id : Str) → spared s id ≡ false → is_live (group_at id s.groups) ≡ true
unfolding spared
spared-Live s id e = ground (arith, e)

bury_one-Reported :
    (now : Time) (m : Groups) (id : Str) (s : Enforcing)
    → IsTraced m s
    → ((x : Group) × (get id m ≡ some x))
    → AreReported now m s.changed
    → AreReported now m (bury_one now s id).changed
unfolding bury_one
bury_one-Reported now m id s traced (x, here) reports = elim (Bool-cases (spared s id)) [
  | inl e ↦ rw e reports
  | inr e ↦ rw e (
      AreReported-put now m s.groups s.changed s.prior id _ x here (was_live e (traced id))
        (refl, inl refl) (traced id) reports)
]
  where
    was_live : spared s id ≡ false → Trace id m s.groups s.changed s.prior → is_live x ≡ true
    was_live e (same p c k) =
        ap is_live (sym (group_at-some id x s.groups (k ∙ here))) ∙ spared-Live s id e
    was_live e (moved old h p o c k) =
        let (first, (f, (l, w))) = reports id h c in
        let z : some first ≡ some x = sym f ∙ here in
        ap (λ o. is_live (or_else o first)) (sym z) ∙ l

bury_all-Reported :
    (now : Time) (m : Groups) (ids : List Str) (s : Enforcing)
    → IsPresent m ids
    → IsTraced m s
    → AreReported now m s.changed
    → AreReported now m (bury_all now s ids).changed
unfolding bury_all
bury_all-Reported now m [] s here traced reports = reports
bury_all-Reported now m (id ∷ ids) s here traced reports =
    let (x, e) = here id (inl refl) in
    bury_all-Reported now m ids (bury_one now s id) (λ q i. here q (inr i))
      (bury_one-IsTraced m now id x s e traced) (bury_one-Reported now m id s traced (x, e) reports)

reported :
    (now : Time) (winner : Str) (m : Groups)
    → IsMap m
    → AreReported now m (enforce now winner m).changed
unfolding enforce
reported now winner m d =
    bury_all-Reported now m (ids_of (first_pass now winner m).groups) (first_pass now winner m)
      (first_pass-IsPresent now winner m) (first_pass-IsTraced now winner m)
      (enforce_all-Reported now m (sort_ids (precedes m winner) (live_ids m)) (enforce_start m)
        (sort_ids-IsPresent m winner)
        (sort_ids-AllLive (precedes m winner) m (live_ids m) (live_ids-AllLive m d))
        (λ q. same refl refl refl) (λ q new e. absurd (cc e)))

-- In a store with distinct ids `enforce` returns its work exactly. An id is in `changed` with its new
-- record and in `prior` with its old one, or it is in neither and its record is as it was. The old
-- record of an id in `changed` is live; the new one has the same name and rank, and it has the time
-- `now` of deletion, or a tree with fewer nodes that was updated at `now`.
pub enforce-AreReported :
    (now : Time) (winner : Str) (m : Groups)
    → IsMap m
    → IsTraced m (enforce now winner m) × AreReported now m (enforce now winner m).changed
enforce-AreReported now winner m d = (enforce-IsTraced now winner m, reported now winner m d)
