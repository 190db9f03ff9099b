-- ===== src/Peers/Refines.antt =====
-- The store is a map from public keys to peers.
use termyard.Base.{
  ℕ, ite, Bool, List, [], ◌∷◌, ◌++◌, Option, none, some, Str, str_dec, Distinct, ◌≡◌, refl, sym, ap,
  ◌∙◌, subst, arith,
}
use termyard.Peers.{
  Peer, Outcome, Peers, get_by_public_key, change_first, drop_first, saved, or_not_found,
  or_appended, add, remove_by_public_key, change, update_address, set_enabled, set_initiated_by_us,
  update_last_seen,
}
use termyard.Peers.Finds.{keys, apply, or_old, KeepsKey, get-change_first}
use termyard.Peers.Keys.{get_empty, get-missing, Tells, change_first-Tells, keys-change_first}
use termyard.Peers.Drops.{get-drop_first, drop_first-Distinct, get-append, appended-Distinct}

pub data Change : Type 0 where
  adds : Peer → Change
  removes : Str → Change
  addresses : Str → Str → Change
  enables : Str → Bool → Change
  initiates : Str → Bool → Change
  sees : ℕ → Str → Change

abbrev pub call : (Peers → Bool) → Change → Peers → Peers × Outcome
call saves (adds peer) ps = add saves peer ps
call saves (removes key) ps = remove_by_public_key saves key ps
call saves (addresses key address) ps = update_address saves key address ps
call saves (enables key enabled) ps = set_enabled saves key enabled ps
call saves (initiates key initiated) ps = set_initiated_by_us saves key initiated ps
call saves (sees now key) ps = update_last_seen saves now key ps

unfoldable pub run : (Peers → Bool) → List Change → Peers → Peers
run saves [] ps = ps
run saves (c ∷ cs) ps = run saves cs (call saves c ps).0

-- The abstract store: what is found under each key.
abbrev pub View : Type 0
View = Str → Option Peer

abbrev pub at : Str → (Option Peer → Option Peer) → View → View
at key f v q = ite (str_dec q key) (f (v q)) (v q)

abbrev pub call_view : Change → View → View
call_view (adds peer) v = at peer.public_key (λ o. some peer) v
call_view (removes key) v = at key (λ o. none) v
call_view (addresses key address) v =
    at key (apply (λ (p : Peer). record p { address = address })) v
call_view (enables key enabled) v = at key (apply (λ (p : Peer). record p { enabled = enabled })) v
call_view (initiates key initiated) v =
    at key (apply (λ (p : Peer). record p { initiated_by_us = initiated })) v
call_view (sees now key) v = at key (apply (λ (p : Peer). record p { last_seen = now })) v

unfoldable pub run_view : List Change → View → View
run_view [] v = v
run_view (c ∷ cs) v = run_view cs (call_view c v)

-- The list stands for the view.
pub record Represents (ps : Peers) (v : View) : Type 0 where
  pub distinct : Distinct (keys ps)
  pub finds : (q : Str) → get_by_public_key q ps ≡ v q

saved-same : (saves : Peers → Bool) (ps : Peers) → (saved saves ps).0 ≡ ps
saved-same saves ps = ground arith

or_not_found-old :
    (saves : Peers → Bool) (r : Option Peers) (ps : Peers)
    → (or_not_found saves r ps).0 ≡ or_old r ps
or_not_found-old saves none ps = refl
or_not_found-old saves (some n) ps = saved-same saves n

change-Represents :
    (saves : Peers → Bool) (key : Str) (f : Peer → Peer) (ps : Peers) (v : View)
    → KeepsKey key f
    → Represents ps v
    → Represents (change saves key f ps).0 (at key (apply f) v)
unfolding change
change-Represents saves key f ps v k h =
    subst (λ n. Represents n (at key (apply f) v))
      (sym (or_not_found-old saves (change_first key f ps) ps))
      (record {
        distinct = subst Distinct (sym (keys-change_first key f ps k)) h.distinct;
        finds = λ q. rw (get-change_first q key f ps k, h.finds q) refl;
      })

remove-Represents :
    (saves : Peers → Bool) (key : Str) (ps : Peers) (v : View)
    → Represents ps v
    → Represents (remove_by_public_key saves key ps).0 (at key (λ o. none) v)
unfolding remove_by_public_key
remove-Represents saves key ps v h =
    subst (λ n. Represents n (at key (λ o. none) v))
      (sym (or_not_found-old saves (drop_first key ps) ps))
      (record {
        distinct = drop_first-Distinct key ps h.distinct;
        finds = λ q. rw (get-drop_first q key ps h.distinct, h.finds q) refl;
      })

-- A peer that is found is replaced.
replaced :
    (q key : Str) (peer : Peer) (ps : Peers) (x : Peer)
    → get_by_public_key key ps ≡ some x
    → ite (str_dec q key) (apply (λ p. peer) (get_by_public_key q ps)) (get_by_public_key q ps)
      ≡ ite (str_dec q key) (some peer) (get_by_public_key q ps)
replaced q key peer ps x e =
    elim (str_dec q key)
      as (λ d.
        ite d (apply (λ p. peer) (get_by_public_key q ps)) (get_by_public_key q ps)
        ≡ ite d (some peer) (get_by_public_key q ps)) [
          | yes r ↦ ap (apply (λ p. peer)) (ap (λ q. get_by_public_key q ps) r ∙ e)
          | no n ↦ refl
        ]

add-Represents :
    (saves : Peers → Bool) (peer : Peer) (ps : Peers) (v : View)
    → Represents ps v
    → Represents (add saves peer ps).0 (at peer.public_key (λ o. some peer) v)
unfolding add
add-Represents saves peer ps v h =
    let key = peer.public_key in
    let f : Peer → Peer = λ p. peer in
    let goal : Peers → Type 0 = λ n. Represents n (at key (λ o. some peer) v) in
    elim (change_first key f ps)
        as (λ r.
          change_first key f ps ≡ r
          → Tells key ps r
          → Represents (or_appended saves r peer ps).0 (at key (λ o. some peer) v)) [
            | none ↦ λ e t.
                let n = get-missing key ps t in
                subst goal (sym (saved-same saves (ps ++ (peer ∷ [])))) (record {
                  distinct = appended-Distinct peer ps n h.distinct;
                  finds = λ q. rw (get-append q peer ps n, h.finds q) refl;
                })
            | some n ↦ λ e (x, t).
                let o : or_old (change_first key f ps) ps ≡ n = ap (λ r. or_old r ps) e in
                subst goal (sym (saved-same saves n)) (
                  subst goal o (record {
                    distinct =
                        subst Distinct (sym (keys-change_first key f ps (λ p r. refl))) h.distinct;
                    finds = λ q.
                        get-change_first q key f ps (λ p r. refl)
                        ∙ replaced q key peer ps x t
                        ∙ ap (λ z. ite (str_dec q key) (some peer) z) (h.finds q);
                  }))
          ]
      refl (change_first-Tells key f ps)

pub call-Represents :
    (saves : Peers → Bool) (c : Change) (ps : Peers) (v : View)
    → Represents ps v
    → Represents (call saves c ps).0 (call_view c v)
call-Represents saves (adds peer) ps v h = add-Represents saves peer ps v h
call-Represents saves (removes key) ps v h = remove-Represents saves key ps v h
call-Represents saves (addresses key address) ps v h =
    change-Represents saves key _ ps v (λ p e. e) h
call-Represents saves (enables key enabled) ps v h = change-Represents saves key _ ps v (λ p e. e) h
call-Represents saves (initiates key initiated) ps v h =
    change-Represents saves key _ ps v (λ p e. e) h
call-Represents saves (sees now key) ps v h = change-Represents saves key _ ps v (λ p e. e) h

history-Represents :
    (saves : Peers → Bool) (cs : List Change) (ps : Peers) (v : View)
    → Represents ps v
    → Represents (run saves cs ps) (run_view cs v)
unfolding run run_view
history-Represents saves [] ps v h = h
history-Represents saves (c ∷ cs) ps v h =
    history-Represents saves cs (call saves c ps).0 (call_view c v) (call-Represents saves c ps v h)

-- After any history of an empty store, no two peers have the same public key, and `GetByPublicKey`
-- finds what the same history leaves in a map from public keys to peers, also when the file could not
-- be written.
pub run-Represents :
    (saves : Peers → Bool) (cs : List Change)
    → Represents (run saves cs []) (run_view cs (λ q. none))
run-Represents saves cs =
    history-Represents saves cs [] (λ q. none) (record { distinct = tt; finds = get_empty })
