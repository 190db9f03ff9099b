-- ===== src/Links/Together.antt =====
-- Histories of the methods, on the store of peers and the links together.
use termyard.Base.{
  ℕ, if_neg, if_pos, Bool, true, false, List, [], ◌∷◌, none, some, Str, str_dec, get, In, Distinct,
  ◌≡◌, inl, inr, refl, sym, ap, ◌∙◌, subst,
}
use termyard.Peers.{
  Peer, Peers, done, not_found, not_saved, get_by_public_key, add, set_enabled, set_initiated_by_us,
}
use termyard.Peers.Finds.{keys, apply}
use termyard.Peers.Keys.{found_key, In-get}
use termyard.Peers.Refines.{adds, removes, enables, initiates}
use termyard.Links.{
  LinkSupervisor, PeerLink, new_link_supervisor, spawn_link, disable_link, cancel_key, on_link,
  flip_role, set_status,
}
use termyard.Links.Methods.{
  Method, starts, adds_peer, removes_peer, enables_peer, reconnects, is_connected, reports_status,
  call_method, run_methods, State, spawn_all, start, spawn_if_done, toggle, toggle_found,
  reconnect_found, add_peer, remove_found, remove_peer, enable_peer, reconnect_now,
  already_connected,
}
use termyard.Links.Synced.{
  IsKnown, IsSynced, drop_link-From, spawn_link-From, disable_link-From, on_link-From, changed,
  call-still_Known, step-Synced, store-Synced,
}

add_peer-Synced :
    (saves : Peers → Bool) (p : Peer) (t : State) → IsSynced t → IsSynced (add_peer saves p t).0
unfolding add_peer
add_peer-Synced saves p (ps, s) h =
    let c = changed saves (adds p) ps h.distinct in
    let key = p.public_key in
    let now : IsKnown key (add saves p ps).0 =
      (p, c.finds key ∙ if_pos (str_dec key key) refl _ _) in
    let g =
      store-Synced ps (add saves p ps).0 s c.distinct
        (λ q.
          call-still_Known saves (adds p) key (λ o. some p) ps q h.distinct refl (λ x. (p, refl)))
        h in
    elim (add saves p ps).1 as (λ o. IsSynced ((add saves p ps).0, spawn_if_done o p s)) [
      | done ↦ step-Synced key (add saves p ps).0 s (spawn_link p s) (spawn_link-From p s) now g
      | not_found ↦ g
      | not_saved ↦ g
    ]

remove_peer-Synced :
    (saves : Peers → Bool) (key : Str) (t : State)
    → IsSynced t
    → IsSynced (remove_peer saves key t).0
unfolding remove_peer
remove_peer-Synced saves key (ps, s) h =
    let c = changed saves (removes key) ps h.distinct in
    elim (get_by_public_key key ps) as (λ o. IsSynced (remove_found saves key o (ps, s)).0) [
      | none ↦ h
      | some p ↦ record {
        distinct = c.distinct;
        linked = λ q j.
            let (n, i) = drop_link-From q key s j in
            let (x, e) = h.linked q i in (x, c.finds q ∙ if_neg (str_dec q key) n _ _ ∙ e);
      }
    ]

applied : (f : Peer → Peer) (x : Peer) → (y : Peer) × (apply f (some x) ≡ some y)
applied f x = (f x, refl)

-- A peer that was found under a key has that key.
toggled :
    (key : Str) (enabled : Bool) (ps : Peers) (s : LinkSupervisor)
    → IsSynced (ps, s)
    → IsSynced (ps, (toggle_found done enabled (get_by_public_key key ps) s).0)
toggled key enabled ps s h =
    elim (get_by_public_key key ps)
        as (λ o. get_by_public_key key ps ≡ o → IsSynced (ps, (toggle_found done enabled o s).0)) [
          | none ↦ λ e. h
          | some p ↦ λ e.
              let k : IsKnown p.public_key ps =
                subst (λ k. IsKnown k ps) (sym (found_key key ps p e)) (p, e) in
              elim enabled as (λ b. IsSynced (ps, toggle b p s)) [
                | true ↦ step-Synced p.public_key ps s (spawn_link p s) (spawn_link-From p s) k h
                | false ↦
                    step-Synced p.public_key ps s (disable_link p s) (disable_link-From p s) k h
              ]
        ]
      refl

enable_peer-Synced :
    (saves : Peers → Bool) (key : Str) (enabled : Bool) (t : State)
    → IsSynced t
    → IsSynced (enable_peer saves key enabled t).0
unfolding enable_peer
enable_peer-Synced saves key enabled (ps, s) h =
    let ns = (set_enabled saves key enabled ps).0 in
    let c = changed saves (enables key enabled) ps h.distinct in
    let g =
      store-Synced ps ns s c.distinct
        (λ q.
          call-still_Known saves (enables key enabled) key
            (apply (λ (p : Peer). record p { enabled = enabled })) ps q h.distinct refl
            (applied (λ (p : Peer). record p { enabled = enabled })))
        h in
    elim (set_enabled saves key enabled ps).1
      as (λ o. IsSynced (ns, (toggle_found o enabled (get_by_public_key key ns) s).0)) [
        | not_found ↦ g
        | not_saved ↦ g
        | done ↦ toggled key enabled ns s g
      ]

-- Nothing but the links matters.
links-Synced :
    (ps : Peers) (s n : LinkSupervisor) → n.links ≡ s.links → IsSynced (ps, s) → IsSynced (ps, n)
links-Synced ps s n e h = record {
  distinct = h.distinct;
  linked = λ q (l, g). h.linked q (l, ap (get q) (sym e) ∙ g);
}

reconnect_now-Synced : (key : Str) (t : State) → IsSynced t → IsSynced (reconnect_now key t)
unfolding reconnect_now cancel_key
reconnect_now-Synced key (ps, s) h =
    elim (get_by_public_key key ps)
        as (λ o. get_by_public_key key ps ≡ o → IsSynced (ps, reconnect_found key o s)) [
          | none ↦ λ e. h
          | some p ↦ λ e.
              let k : IsKnown p.public_key ps =
                subst (λ k. IsKnown k ps) (sym (found_key key ps p e)) (p, e) in
              step-Synced p.public_key ps (cancel_key key s) (spawn_link p (cancel_key key s))
                (spawn_link-From p (cancel_key key s)) k
                (links-Synced ps s (cancel_key key s) refl h)
        ]
      refl

spawn_all-Synced :
    (ps l : Peers) (s : LinkSupervisor)
    → ((q : Str) → In q (keys l) → IsKnown q ps)
    → IsSynced (ps, s)
    → IsSynced (ps, spawn_all l s)
unfolding spawn_all
spawn_all-Synced ps [] s k h = h
spawn_all-Synced ps (p ∷ l) s k h =
    spawn_all-Synced ps l (spawn_link p s) (λ q i. k q (inr i))
      (step-Synced p.public_key ps s (spawn_link p s) (spawn_link-From p s)
        (k p.public_key (inl refl)) h)

start-Synced : (t : State) → IsSynced t → IsSynced (start t)
unfolding start
start-Synced (ps, s) h =
    spawn_all-Synced ps ps (record s { started = true }) (λ q i. In-get q ps i)
      (links-Synced ps s (record s { started = true }) refl h)

on_link-Synced :
    (ps : Peers) (s : LinkSupervisor) (i : ℕ) (f : PeerLink → PeerLink) (n : LinkSupervisor)
    → n.links ≡ on_link i f s.links
    → IsSynced (ps, s)
    → IsSynced (ps, n)
on_link-Synced ps s i f n e h = record {
  distinct = h.distinct;
  linked = λ q (l, g). h.linked q (on_link-From q i f s.links l (ap (get q) (sym e) ∙ g));
}

already_connected-Synced :
    (saves : Peers → Bool) (n : ℕ) (key : Str) (t : State)
    → IsSynced t
    → IsSynced (already_connected saves n key t)
unfolding already_connected flip_role
already_connected-Synced saves n key (ps, s) h =
    let f : Peer → Peer = λ p. record p { initiated_by_us = false } in
    let c = changed saves (initiates key false) ps h.distinct in
    let ns = (set_initiated_by_us saves key false ps).0 in
    on_link-Synced ns s n _ (flip_role n s) refl (
      store-Synced ps ns s c.distinct
        (λ q.
          call-still_Known saves (initiates key false) key (apply f) ps q h.distinct refl
            (applied f))
        h)

call_method-Synced :
    (saves : Peers → Bool) (c : Method) (t : State) → IsSynced t → IsSynced (call_method saves c t)
unfolding set_status
call_method-Synced saves starts t h = start-Synced t h
call_method-Synced saves (adds_peer p) t h = add_peer-Synced saves p t h
call_method-Synced saves (removes_peer key) t h = remove_peer-Synced saves key t h
call_method-Synced saves (enables_peer key enabled) t h = enable_peer-Synced saves key enabled t h
call_method-Synced saves (reconnects key) t h = reconnect_now-Synced key t h
call_method-Synced saves (is_connected n key) t h = already_connected-Synced saves n key t h
call_method-Synced saves (reports_status n status err next) (ps, s) h =
    on_link-Synced ps s n _ (set_status n status err next s) refl h

run_from :
    (saves : Peers → Bool) (cs : List Method) (t : State)
    → IsSynced t
    → IsSynced (run_methods saves cs t)
unfolding run_methods
run_from saves [] t h = h
run_from saves (c ∷ cs) t h =
    run_from saves cs (call_method saves c t) (call_method-Synced saves c t h)

-- After any sequence of the methods and of the goroutines' reports, on a store of peers with distinct
-- public keys and a new supervisor, the keys stay distinct and every key with a link is that of a peer
-- in the store, also when the file could not be written.
pub run_methods-Synced :
    (saves : Peers → Bool) (cs : List Method) (ps : Peers)
    → Distinct (keys ps)
    → IsSynced (run_methods saves cs (ps, new_link_supervisor))
run_methods-Synced saves cs ps d =
    run_from saves cs (ps, new_link_supervisor)
      (record { distinct = d; linked = λ q (l, e). absurd (cc e) })
