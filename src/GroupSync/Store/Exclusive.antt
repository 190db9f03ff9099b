-- ===== src/GroupSync/Store/Exclusive.antt =====
-- `enforce` as a whole: the loop over the live groups, then the second pass.
use termyard.Base.{
  ◌≡◌, ◌≢◌, ◌<◌, inl, inr, true, List, [], ◌∷◌, none, Str, str_dec, refl, In, sym, Bool-cases, ◌∙◌,
  subst, mem_dec, Distinct, get, put, Option-cases,
}
use termyard.GroupSync.Tree.{member_keys}
use termyard.GroupSync.Group.{Group, Time}
use termyard.GroupSync.Store.{
  Groups, group_at, is_live, live_ids, ids_of, precedes, sort_ids, Enforcing, enforce_start,
  enforce_one, enforce_all, bury_one, bury_all, spared, enforce,
}
use termyard.GroupSync.Store.Order.{
  IsMap, AllLive, live_ids-Distinct, In-live_ids_of_live, live_ids-AllLive, sort_ids-In,
  sort_ids-Distinct, sort_ids-AllLive,
}
use termyard.GroupSync.Store.Keys.{LiveKey, IsTidy, IsTidyTree, group_at-put_self, group_at-put_ne}
use termyard.GroupSync.Store.Enforce.{Outcome, enforce_one-Outcome, dead}

-- Each session key is in at most one live group.
abbrev pub IsExclusive : Groups → Type 0
IsExclusive m = (i j k : Str) → LiveKey k (group_at i m) → LiveKey k (group_at j m) → i ≡ j

-- Between two rounds: the live groups that were treated hold owned keys, each its own.
record Progress (m : Groups) (s : Enforcing) (done : List Str) : Type 0 where
  tidy : IsTidy s.groups
  claimed : (id k : Str) → In id done → LiveKey k (group_at id s.groups) → In k s.owned
  exclusive :
      (i j k : Str)
      → In i done
      → In j done
      → LiveKey k (group_at i s.groups)
      → LiveKey k (group_at j s.groups)
      → i ≡ j
  frame : (id : Str) → (¬ In id done) → group_at id s.groups ≡ group_at id m

Progress-start : (m : Groups) → IsTidy m → Progress m (enforce_start m) []
Progress-start m t = record {
  tidy = t;
  claimed = λ id k i l. absurd i;
  exclusive = λ i j k a. absurd a;
  frame = λ id n. refl;
}

Progress-step :
    (m : Groups) (s r : Enforcing) (done : List Str) (id : Str)
    → (¬ In id done)
    → Outcome id s r
    → Progress m s done
    → Progress m r (id ∷ done)
Progress-step m s r done id new o p = record {
  tidy = λ q l. tidy q (str_dec q id) l;
  claimed = λ q k i l. claimed q k (str_dec q id) i l;
  exclusive = λ i j k a b x y. exclusive i j k (str_dec i id) (str_dec j id) a b x y;
  frame = λ q n. o.others q (λ e. n (inl e)) ∙ p.frame q (λ i. n (inr i));
}
  where
    tidy :
        (q : Str)
        → Dec (q ≡ id)
        → is_live (group_at q r.groups) ≡ true
        → IsTidyTree (group_at q r.groups).tree
    tidy q (yes e) l = rw e (o.tidy (rw e at l))
    tidy q (no n) l = rw (o.others q n) (p.tidy q (rw (o.others q n) at l))

    old : (q : Str) → q ≢ id → In q (id ∷ done) → In q done
    old q n (inl e) = absurd (n e)
    old q n (inr i) = i

    earlier :
        (q k : Str) → q ≢ id → LiveKey k (group_at q r.groups) → LiveKey k (group_at q s.groups)
    earlier q k n l = rw (o.others q n) at l

    mine : (q k : Str) → q ≡ id → LiveKey k (group_at q r.groups) → LiveKey k (group_at id r.groups)
    mine q k e l = rw e at l

    claimed :
        (q k : Str)
        → Dec (q ≡ id)
        → In q (id ∷ done)
        → LiveKey k (group_at q r.groups)
        → In k r.owned
    claimed q k (yes e) i l = o.claimed k (mine q k e l)
    claimed q k (no n) i l = o.owned k (p.claimed q k (old q n i) (earlier q k n l))

    exclusive :
        (i j k : Str)
        → Dec (i ≡ id)
        → Dec (j ≡ id)
        → In i (id ∷ done)
        → In j (id ∷ done)
        → LiveKey k (group_at i r.groups)
        → LiveKey k (group_at j r.groups)
        → i ≡ j
    exclusive i j k (yes e) (yes f) a b x y = e ∙ sym f
    exclusive i j k (yes e) (no n) a b x y =
        absurd (o.fresh k (mine i k e x) (p.claimed j k (old j n b) (earlier j k n y)))
    exclusive i j k (no n) (yes f) a b x y =
        absurd (o.fresh k (mine j k f y) (p.claimed i k (old i n a) (earlier i k n x)))
    exclusive i j k (no n) (no l) a b x y =
        p.exclusive i j k (old i n a) (old j l b) (earlier i k n x) (earlier j k l y)

-- The ids that a list adds to those treated.
abbrev treat : List Str → List Str → List Str
treat [] done = done
treat (id ∷ ids) done = treat ids (id ∷ done)

In-treat_done : (q : Str) (ids done : List Str) → In q done → In q (treat ids done)
In-treat_done q [] done i = i
In-treat_done q (id ∷ ids) done i = In-treat_done q ids (id ∷ done) (inr i)

In-treat : (q : Str) (ids done : List Str) → In q ids → In q (treat ids done)
In-treat q (id ∷ ids) done (inl e) = In-treat_done q ids (id ∷ done) (inl e)
In-treat q (id ∷ ids) done (inr i) = In-treat q ids (id ∷ done) i
In-treat q [] done i = absurd i

-- No id of the list is among those treated.
abbrev Apart : List Str → List Str → Type 0
Apart ids done = (q : Str) → In q ids → ¬ In q done

enforce_all-Progress :
    (now : Time) (m : Groups) (s : Enforcing) (ids done : List Str)
    → 0 < now
    → AllLive m ids
    → Distinct ids
    → Apart ids done
    → Progress m s done
    → Progress m (enforce_all now s ids) (treat ids done)
unfolding enforce_all
enforce_all-Progress now m s [] done pos l d a p = p
enforce_all-Progress now m s (id ∷ ids) done pos (l, ls) (n, d) a p =
    enforce_all-Progress now m (enforce_one now s id) ids (id ∷ done) pos ls d
      (λ q i j. elim j [ inl e ↦ n (subst (λ x. In x ids) e i) | inr o ↦ a q (inr i) o ])
      (Progress-step m s (enforce_one now s id) done id (a id (inl refl))
        (enforce_one-Outcome now pos id s (p.tidy id (rw (p.frame id (a id (inl refl))) l))) p)

-- The second pass only writes dead records.
bury_one_lem :
    (now : Time) (s : Enforcing) (id q : Str)
    → 0 < now
    → is_live (group_at q (bury_one now s id).groups) ≡ true
    → group_at q (bury_one now s id).groups ≡ group_at q s.groups
unfolding bury_one
bury_one_lem now s id q pos l = elim (Bool-cases (spared s id)) [
  | inl e ↦ rw e
  | inr e ↦ elim (str_dec q id) [
    | yes p ↦ absurd (written p (rw e at l))
    | no n ↦ rw e (group_at-put_ne q id _ s.groups n)
  ]
]
  where
    g : Group
    g = record (group_at id s.groups) { deleted_at = now }

    written : q ≡ id → is_live (group_at q (put id g s.groups)) ≡ true → ⊥
    written p h = cc (dead now pos, rw (p, group_at-put_self id g s.groups) at h)

bury_all_lem :
    (now : Time) (s : Enforcing) (ids : List Str) (q : Str)
    → 0 < now
    → is_live (group_at q (bury_all now s ids).groups) ≡ true
    → group_at q (bury_all now s ids).groups ≡ group_at q s.groups
unfolding bury_all
bury_all_lem now s [] q pos l = refl
bury_all_lem now s (id ∷ ids) q pos l =
    let e = bury_all_lem now (bury_one now s id) ids q pos l in
    e ∙ bury_one_lem now s id q pos (rw e at l)

keys_of_missing : (id k : Str) (m : Groups) → get id m ≡ none → ¬ LiveKey k (group_at id m)
unfolding member_keys
keys_of_missing id k m e l = rw e at l.1

-- A group with a live key is among those that the loop treats.
In-treated :
    (m : Groups) (winner id k : Str)
    → LiveKey k (group_at id m)
    → In id (treat (sort_ids (precedes m winner) (live_ids m)) [])
In-treated m winner id k l = elim (Option-cases (get id m)) [
  | inl e ↦ absurd (keys_of_missing id k m e l)
  | inr (g, e) ↦
      In-treat id _ [] (
        sort_ids-In (precedes m winner) id (live_ids m)
          (In-live_ids_of_live id g m e (rw e at l.0)))
]

module _ (m : Groups) (s : Enforcing) (done : List Str) (p : Progress m s done) where
  -- When all groups with keys were treated, the keys are exclusive.
  Progress-IsExclusive :
      ((id k : Str) → LiveKey k (group_at id m) → In id done) → IsExclusive s.groups
  Progress-IsExclusive all i j k x y = p.exclusive i j k (treated i k x) (treated j k y) x y
    where
      treated : (q k : Str) → LiveKey k (group_at q s.groups) → In q done
      treated q k l = elim (mem_dec str_dec q done) [
        | yes d ↦ d
        | no n ↦ all q k (rw (p.frame q n) at l)
      ]

-- After `enforce`, at a time after the zero time, each session key is in at most one live group,
-- whatever the order of the map and whoever wins: for a store with distinct ids whose live trees that
-- parse are well-formed pane trees.
pub enforce-IsExclusive :
    (now : Time) (winner : Str) (m : Groups)
    → 0 < now
    → IsMap m
    → IsTidy m
    → IsExclusive (enforce now winner m).groups
unfolding enforce
enforce-IsExclusive now winner m pos d t i j k x y =
    Progress-IsExclusive m first (treat ids []) progress (In-treated m winner) i j k (back i x)
      (back j y)
  where
    ids : List Str
    ids = sort_ids (precedes m winner) (live_ids m)

    first : Enforcing
    first = enforce_all now (enforce_start m) ids

    progress : Progress m first (treat ids [])
    progress =
        enforce_all-Progress now m (enforce_start m) ids [] pos
          (sort_ids-AllLive (precedes m winner) m (live_ids m) (live_ids-AllLive m d))
          (sort_ids-Distinct (precedes m winner) (live_ids m) (live_ids-Distinct m d))
          (λ q i. λ x. x) (Progress-start m t)

    back :
        (q : Str)
        → LiveKey k (group_at q (bury_all now first (ids_of first.groups)).groups)
        → LiveKey k (group_at q first.groups)
    back q l = rw (bury_all_lem now first (ids_of first.groups) q pos l.0) at l
