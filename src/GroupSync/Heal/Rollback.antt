-- ===== src/GroupSync/Heal/Rollback.antt =====
-- `RemoveSessionKey` can be undone: by itself when the save fails, and by `Restore` later.
use termyard.Base.{
  ◌≡◌, inl, inr, Bool, [], ◌∷◌, Option, none, some, Str, str_dec, refl, arith, sym, Bool-cases,
  Option-cases, ◌∙◌, get, if_pos,
}
use termyard.GroupSync.Group.{Group, Time}
use termyard.GroupSync.Store.{Groups, Enforcing, group_at, ids_of, remember, enforce}
use termyard.GroupSync.Store.Order.{IsMap}
use termyard.GroupSync.Store.Trace.{
  Trace, same, moved, IsPresent, Trace-put, enforce-IsTraced, IsPresent-ids_of, get-put_self,
  get-put_ne, remember-get_ne,
}
use termyard.GroupSync.Ops.{Error, no_id}
use termyard.GroupSync.Heal.{
  Pruning, prune_groups, put_all, few_leaves, bury_pruned, add_enforced, remove_finish, remove_end,
  remove_session_key, restore,
}
use termyard.GroupSync.Heal.Pruned.{
  AllTraced, first_of, get-put_all, undo, IsPruned, IsPruned?, AllStored-self,
  prune_groups-IsPruned,
}

-- The second pass makes the traces true of the store.
put_all-AllTraced : (m : Groups) (t : Pruning) → IsPruned m t → AllTraced m (put_all t.0 m) t
put_all-AllTraced m t p q = elim (p q) [
  | inl (e, f) ↦ same e f (get-put_all q t.0 m ∙ rw f)
  | inr (old, new, e, f, g) ↦ moved old new e f g (get-put_all q t.0 m ∙ rw g)
]

bury_pruned-AllTraced :
    (m : Groups) (now : Time) (from n : Groups) (t : Pruning)
    → IsPresent m (ids_of from)
    → AllTraced m n t
    → let r = bury_pruned now from (n, t) in AllTraced m r.0 r.1
unfolding bury_pruned
bury_pruned-AllTraced m now [] n t here d = d
bury_pruned-AllTraced m now ((id, g) ∷ from) n t here d = elim (Bool-cases (few_leaves g)) [
  | inl e ↦
      let (x, f) = here id (inl refl) in
      rw (e, bury_pruned)
        (bury_pruned-AllTraced m now from _ _ (λ q i. here q (inr i))
          (Trace-put m n t.0 t.1 (get id t.1) id _ x (inr refl) f d))
  | inr e ↦ rw (e, bury_pruned) (bury_pruned-AllTraced m now from n t (λ q i. here q (inr i)) d)
]

abbrev kept_prior : Option Group → Option Group → Group → Option Group
kept_prior none prior g = prior
kept_prior (some h) none g = some g
kept_prior (some h) (some old) g = some old

get-remember :
    (q : Str) (g : Group) (m : Groups)
    → get q (remember (get q m) q g m) ≡ first_of (get q m) (some g)
get-remember q g m = elim (Option-cases (get q m)) [
  | inl e ↦ rw e (get-put_self q g m)
  | inr (h, e) ↦ rw e e
]

kept_twice :
    (a b : Option Group) (g x : Group)
    → first_of (kept_prior a b x) (some x) ≡ kept_prior (some g) b x
kept_twice none none g x = refl
kept_twice none (some b) g x = refl
kept_twice (some a) none g x = refl
kept_twice (some a) (some b) g x = refl

add_enforced-get :
    (q : Str) (priors enforced : Groups) (t : Pruning)
    → (get q (add_enforced priors enforced t).0 ≡ first_of (get q enforced) (get q t.0))
      × (get q (add_enforced priors enforced t).1
          ≡ kept_prior (get q enforced) (get q t.1) (group_at q priors))
unfolding add_enforced
add_enforced-get q priors [] t = (refl, refl)
add_enforced-get q priors ((id, g) ∷ enforced) t =
    let (c, p) = add_enforced-get q priors enforced t in
    elim (str_dec q id) [
      | no n ↦ (
        get-put_ne q id g _ n ∙ c ∙ ground arith,
        remember-get_ne (get id _) q id _ (add_enforced priors enforced t).1 n ∙ p ∙ ground arith,
      )
      | yes e ↦ (
        rw (← e, if_pos (str_dec q q) refl (some g) (get q enforced)) (get-put_self q g _),
        rw (← e, if_pos (str_dec q q) refl (some g) (get q enforced))
            (get-remember q (group_at q priors) (add_enforced priors enforced t).1
              ∙ rw p (kept_twice (get q enforced) (get q t.1) g (group_at q priors))),
      )
    ]

-- A change traced from `m` and then the work of `enforce`: traced from `m`.
add_enforced-AllTraced :
    (m n : Groups) (e : Enforcing) (t : Pruning)
    → AllTraced m n t
    → AllTraced n e.groups (e.changed, e.prior)
    → AllTraced m e.groups (add_enforced e.prior e.changed t)
add_enforced-AllTraced m n e t d er q = join (d q) (er q)
  where
    c : get q (add_enforced e.prior e.changed t).0 ≡ first_of (get q e.changed) (get q t.0)
    c = (add_enforced-get q e.prior e.changed t).0

    p :
        get q (add_enforced e.prior e.changed t).1
        ≡ kept_prior (get q e.changed) (get q t.1) (group_at q e.prior)
    p = (add_enforced-get q e.prior e.changed t).1

    join :
        Trace q m n t.0 t.1
        → Trace q n e.groups e.changed e.prior
        → Trace q m e.groups
            (add_enforced e.prior e.changed t).0
            (add_enforced e.prior e.changed t).1
    join (same a b d) (same a' b' d') = same (p ∙ rw (b', a)) (c ∙ rw (b', b)) (d' ∙ d)
    join (same a b d) (moved old new a' o' b' d') =
        moved old new (p ∙ rw (b', a, a')) (sym d ∙ o') (c ∙ rw b') d'
    join (moved old new a o b d) (same a' b' d') =
        moved old new (p ∙ rw (b', a)) o (c ∙ rw (b', b)) (d' ∙ d)
    join (moved old new a o b d) (moved old' new' a' o' b' d') =
        moved old new' (p ∙ rw (b', a)) o (c ∙ rw b') d'

-- All that `RemoveSessionKey` does from the second pass on is traced, whatever the save says.
module _ (m : Groups) (now : Time) (t : Pruning) (p : IsPruned m t) where
  finish_store : Groups × Pruning
  finish_store = bury_pruned now t.0 (put_all t.0 m, t)

  finish_maps : Pruning
  finish_maps =
      let e = enforce now no_id finish_store.0 in add_enforced e.prior e.changed finish_store.1

  finish-AllTraced : AllTraced m (enforce now no_id finish_store.0).groups finish_maps
  unfolding finish_store finish_maps
  finish-AllTraced =
      add_enforced-AllTraced m _ (enforce now no_id finish_store.0) finish_store.1
        (bury_pruned-AllTraced m now t.0 (put_all t.0 m) t
          (λ q i.
            let (g, e) = IsPresent-ids_of t.0 q i in
            elim (p q) [
              | inl (a, b) ↦ absurd (none_some (sym b ∙ e))
              | inr (old, new, a, o, b) ↦ (old, o)
            ])
          (put_all-AllTraced m t p))
        (enforce-IsTraced now no_id finish_store.0)
    where
      none_some : {g : Group} → none ≡ some g → ⊥
      none_some e = cc

module _ (saves : Groups → Bool) (now : Time) (m : Groups) (q : Str) where
  finish_failed :
      (t : Pruning) (err : Error)
      → IsPruned m t
      → (remove_finish saves now t m).1.2 ≡ some err
      → get q (remove_finish saves now t m).0 ≡ get q m
  unfolding remove_finish finish_store finish_maps
  finish_failed t err p e =
      elim (Bool-cases (saves (enforce now no_id (finish_store m now t p).0).groups)) [
        | inl b ↦ absurd (none_some (rw b at e))
        | inr b ↦ rw b (undo m _ (finish_maps m now t p) (finish-AllTraced m now t p) q)
      ]
    where
      none_some : none ≡ some err → ⊥
      none_some e = cc

  end_failed :
      (o : Option Pruning) (err : Error)
      → IsPruned? m o
      → (remove_end saves now o m).1.2 ≡ some err
      → get q (remove_end saves now o m).0 ≡ get q m
  unfolding remove_end
  end_failed none err p e = refl
  end_failed (some ([], prior)) err p e = refl
  end_failed (some (x ∷ pruned, prior)) err p e = finish_failed (x ∷ pruned, prior) err p e

  finish_restored :
      (t : Pruning)
      → IsPruned m t
      → let r = remove_finish saves now t m in get q (put_all r.1.1 r.0) ≡ get q m
  unfolding remove_finish finish_store finish_maps put_all
  finish_restored t p =
      elim (Bool-cases (saves (enforce now no_id (finish_store m now t p).0).groups)) [
        | inl b ↦ rw b (undo m _ (finish_maps m now t p) (finish-AllTraced m now t p) q)
        | inr b ↦ rw b (undo m _ (finish_maps m now t p) (finish-AllTraced m now t p) q)
      ]

  end_restored :
      (o : Option Pruning)
      → IsPruned? m o
      → let r = remove_end saves now o m in get q (put_all r.1.1 r.0) ≡ get q m
  unfolding remove_end put_all
  end_restored none p = refl
  end_restored (some ([], prior)) p = refl
  end_restored (some (x ∷ pruned, prior)) p = finish_restored (x ∷ pruned, prior) p

none_pruned :
    (key : Str) (now : Time) (m : Groups) → IsMap m → IsPruned? m (prune_groups key now m ([], []))
none_pruned key now m d =
    prune_groups-IsPruned key now m m ([], []) (AllStored-self m d) (λ q. inl (refl, refl))

-- When `RemoveSessionKey` on a store with distinct ids reports an error (a tree that does not parse,
-- or a save that failed), every record of the store is as it was.
pub remove_session_key_failed :
    (saves : Groups → Bool) (now : Time) (key : Str) (m : Groups) (err : Error)
    → IsMap m
    → (remove_session_key saves now key m).1.2 ≡ some err
    → (q : Str) → get q (remove_session_key saves now key m).0 ≡ get q m
unfolding remove_session_key
remove_session_key_failed saves now key m err d e q =
    end_failed saves now m q (prune_groups key now m ([], [])) err (none_pruned key now m d) e

-- `Restore` with the prior states that `RemoveSessionKey` returned for a store with distinct ids puts
-- every record back.
pub restore-remove_session_key :
    (saves : Groups → Bool) (now : Time) (key : Str) (m : Groups)
    → IsMap m
    → (q : Str)
    → let r = remove_session_key saves now key m in get q (restore saves r.1.1 r.0).0 ≡ get q m
unfolding remove_session_key restore
restore-remove_session_key saves now key m d q =
    end_restored saves now m q (prune_groups key now m ([], [])) (none_pruned key now m d)
