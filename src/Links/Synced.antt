-- ===== src/Links/Synced.antt =====
-- The links and the store of peers stay in step.
use termyard.Base.{
  subst, ℕ, if_rule, if◌then◌else◌, ite, Bool, not, List, [], ◌∷◌, Option, none, some, Str, str_dec,
  get, put, get-put, get-delete, Distinct, ◌≡◌, ◌⊎◌, inl, inr, refl, sym, ap, ◌∙◌,
}
use termyard.Peers.{Peer, Peers, get_by_public_key}
use termyard.Peers.Finds.{keys}
use termyard.Peers.Refines.{Change, call, View, at, call_view, Represents, call-Represents}
use termyard.Links.{
  idle, listener, backoff, LinkSupervisor, PeerLink, new_link, drop_link, spawn_link, disable_link,
  is_of, on_link,
}
use termyard.Links.Steps.{on_cons}
use termyard.Links.Methods.{State}

-- The store has a peer with this key.
abbrev pub IsKnown : Str → Peers → Type 0
IsKnown key ps = (p : Peer) × (get_by_public_key key ps ≡ some p)

-- The key has a link.
abbrev pub IsLinked : Str → LinkSupervisor → Type 0
IsLinked key s = (l : PeerLink) × (get key s.links ≡ some l)

pub record IsSynced (t : State) : Type 0 where
  pub distinct : Distinct (keys t.0)
  pub linked : (key : Str) → IsLinked key t.1 → IsKnown key t.0

-- Where the links of a step come from.
abbrev pub IsFrom : Str → LinkSupervisor → List (Str × PeerLink) → Type 0
IsFrom key s m = (q : Str) (l : PeerLink) → get q m ≡ some l → (q ≡ key) ⊎ IsLinked q s

pub drop_link-From :
    (q key : Str) (s : LinkSupervisor) → IsLinked q (drop_link key s) → (¬ (q ≡ key)) × IsLinked q s
unfolding drop_link
drop_link-From q key s (l, e) =
    elim (str_dec q key)
        as (λ d. ite d none (get q s.links) ≡ some l → (¬ (q ≡ key)) × IsLinked q s) [
          | yes r ↦ λ e. absurd (cc e)
          | no n ↦ λ e. (n, (l, e))
        ]
      (sym (get-delete q key s.links) ∙ e)

put-From :
    (key : Str) (x : PeerLink) (s : LinkSupervisor)
    → IsFrom key s (put key x (drop_link key s).links)
put-From key x s q l g =
    let d = drop_link key s in
    elim (str_dec q key)
        as (λ c. ite c (some x) (get q d.links) ≡ some l → (q ≡ key) ⊎ IsLinked q s) [
          | yes r ↦ λ e. inl r
          | no m ↦ λ e. inr (drop_link-From q key s (l, e)).1
        ]
      (sym (get-put q key x d.links) ∙ g)

pub spawn_link-From : (p : Peer) (s : LinkSupervisor) → IsFrom p.public_key s (spawn_link p s).links
unfolding spawn_link
spawn_link-From p s =
    let d = drop_link p.public_key s in
    let from : (x : PeerLink) → IsFrom p.public_key s (put p.public_key x d.links) =
      λ x. put-From p.public_key x s in
    if_rule (λ (n : LinkSupervisor). IsFrom p.public_key s n.links) (not p.enabled)
      (λ _. from (new_link p idle none))
      (λ _.
        if_rule (λ (n : LinkSupervisor). IsFrom p.public_key s n.links) (not p.initiated_by_us)
          (λ _. from (new_link p listener none))
          (λ _.
            if_rule (λ (n : LinkSupervisor). IsFrom p.public_key s n.links) d.started
              (λ _. from (new_link p backoff (some d.next))) (λ _. from (new_link p backoff none))))

pub disable_link-From :
    (p : Peer) (s : LinkSupervisor) → IsFrom p.public_key s (disable_link p s).links
unfolding disable_link
disable_link-From p s = put-From p.public_key (new_link p idle none) s

none_from :
    (q : Str) (n : ℕ) (f : PeerLink → PeerLink) (l : PeerLink)
    → get q (on_link n f []) ≡ some l
    → (x : PeerLink) × (get q [] ≡ some x)
unfolding on_link
none_from q n f l e = absurd (cc e)

pub on_link-From :
    (q : Str) (n : ℕ) (f : PeerLink → PeerLink) (m : List (Str × PeerLink)) (l : PeerLink)
    → get q (on_link n f m) ≡ some l
    → (x : PeerLink) × (get q m ≡ some x)
on_link-From q n f [] l e = none_from q n f l e
on_link-From q n f ((k, x) ∷ m) l e =
    elim (str_dec q k)
        as (λ d.
          ite d (some (if is_of n x then f x else x)) (get q (on_link n f m)) ≡ some l
          → (y : PeerLink) × (ite d (some x) (get q m) ≡ some y)) [
            | yes r ↦ λ e. (x, refl)
            | no r ↦ λ e. on_link-From q n f m l e
          ]
      (sym (on_cons q n f k x m) ∙ e)

-- A change of the store that keeps what is known.
pub changed :
    (saves : Peers → Bool) (c : Change) (ps : Peers)
    → Distinct (keys ps)
    → Represents (call saves c ps).0 (call_view c (λ q. get_by_public_key q ps))
changed saves c ps d =
    call-Represents saves c ps (λ q. get_by_public_key q ps)
      (record { distinct = d; finds = λ q. refl })

at_known :
    (q key : Str) (f : Option Peer → Option Peer) (v : View)
    → ((x : Peer) → (y : Peer) × (f (some x) ≡ some y))
    → (p : Peer) × (v q ≡ some p)
    → (p : Peer) × (at key f v q ≡ some p)
at_known q key f v k (p, e) =
    elim (str_dec q key) as (λ d. (x : Peer) × (ite d (f (v q)) (v q) ≡ some x)) [
      | yes r ↦ ((k p).0, ap f e ∙ (k p).1)
      | no n ↦ (p, e)
    ]

-- After a change that removes nobody, everybody who was known is known.
pub call-still_Known :
    (saves : Peers → Bool) (c : Change) (key : Str) (f : Option Peer → Option Peer) (ps : Peers)
    (q : Str)
    → Distinct (keys ps)
    → call_view c (λ q. get_by_public_key q ps) ≡ at key f (λ q. get_by_public_key q ps)
    → ((x : Peer) → (y : Peer) × (f (some x) ≡ some y))
    → IsKnown q ps
    → IsKnown q (call saves c ps).0
call-still_Known saves c key f ps q d e k h =
    let (y, g) = at_known q key f (λ q. get_by_public_key q ps) k h in
    (y, (changed saves c ps d).finds q ∙ ap (λ v. v q) e ∙ g)

-- A step on a key that is known.
pub step-Synced :
    (key : Str) (ps : Peers) (s n : LinkSupervisor)
    → IsFrom key s n.links
    → IsKnown key ps
    → IsSynced (ps, s)
    → IsSynced (ps, n)
step-Synced key ps s n f k h = record {
  distinct = h.distinct;
  linked = λ q (l, e). elim (f q l e) [
    | inl r ↦ subst (λ q. IsKnown q ps) (sym r) k
    | inr j ↦ h.linked q j
  ];
}

-- A change of the store.
pub store-Synced :
    (ps ns : Peers) (s : LinkSupervisor)
    → Distinct (keys ns)
    → ((q : Str) → IsKnown q ps → IsKnown q ns)
    → IsSynced (ps, s)
    → IsSynced (ns, s)
store-Synced ps ns s d k h = record { distinct = d; linked = λ q j. k q (h.linked q j) }
