-- ===== src/Links/Runs.antt =====
-- Histories of the supervisor: the locked parts of its methods and of its goroutines, in any order.
use termyard.Base.{
  ℕ, suc, if_rule, if_neg, if_pos, Bool, true, false, not, List, [], ◌∷◌, none, some, Str, str_dec,
  get, put, delete, get-put, get-delete, All, ◌≡◌, refl, ap, ◌∙◌, arith,
}
use termyard.Peers.{Peer}
use termyard.Links.{
  LinkStatus, idle, backoff, listener, PeerLink, Reconnector, LinkSupervisor, new_link, drop_link,
  spawn_dialer, spawn_link, disable_link, cancel_key, set_status, finish_reconnector, flip_role,
}
use termyard.Links.Single.{
  IsLive, Descends, IsSingle, IsQuiet, All-map, cancel_link-Descends, cancel_link-Quiet,
}

pub data Step : Type 0 where
  starts : Step
  spawns : Peer → Step
  drops : Str → Step
  disables : Peer → Step
  cancels : Str → Step
  reports : ℕ → LinkStatus → Str → ℕ → Step
  finishes : ℕ → Step
  flips : ℕ → Step

abbrev pub handle : Step → LinkSupervisor → LinkSupervisor
handle starts s = record s { started = true }
handle (spawns p) s = spawn_link p s
handle (drops key) s = drop_link key s
handle (disables p) s = disable_link p s
handle (cancels key) s = cancel_key key s
handle (reports n status err next) s = set_status n status err next s
handle (finishes n) s = finish_reconnector n s
handle (flips n) s = flip_role n s

unfoldable pub run : List Step → LinkSupervisor → LinkSupervisor
run [] s = s
run (e ∷ es) s = run es (handle e s)

-- What holds of the goroutines once the link of `key` is out of the map and cancelled.
pub record IsCleared (key : Str) (links : List (Str × PeerLink)) (s : LinkSupervisor) : Type 0 where
  pub numbers : Descends s.next s.reconnectors
  pub quiet : All (IsQuiet links key) s.reconnectors
  pub left : s.links ≡ delete key links

pub drop_link-Cleared :
    (key : Str) (s : LinkSupervisor) → IsSingle s → IsCleared key s.links (drop_link key s)
unfolding drop_link
drop_link-Cleared key s h = record {
  numbers = cancel_link-Descends (get key s.links) s.next s.reconnectors h.numbers;
  quiet = cancel_link-Quiet s.links key s.reconnectors h.live;
  left = refl;
}

-- A live goroutine of another key keeps its link.
kept :
    (links m : List (Str × PeerLink)) (key : Str)
    → ((q : Str) → ¬ (q ≡ key) → get q m ≡ get q links)
    → (r : Reconnector) → IsQuiet links key r
    → IsLive m r
kept links m key f r (h, n) q = let (l, (g, s)) = h q in (l, (f r.key (n q) ∙ g, s))

put_other :
    (key : Str) (l : PeerLink) (links m : List (Str × PeerLink))
    → m ≡ delete key links
    → (q : Str) → ¬ (q ≡ key)
    → get q (put key l m) ≡ get q links
put_other key l links m e q n =
    get-put q key l m
    ∙ if_neg (str_dec q key) n _ _
    ∙ ap (get q) e
    ∙ get-delete q key links
    ∙ if_neg (str_dec q key) n _ _

-- A link without a goroutine.
put_passive :
    (key : Str) (l : PeerLink) (links : List (Str × PeerLink)) (s : LinkSupervisor)
    → IsCleared key links s
    → IsSingle (record s { links = put key l s.links })
put_passive key l links s c = record {
  numbers = c.numbers;
  live =
      All-map (IsQuiet links key) (IsLive (put key l s.links)) s.reconnectors
        (kept links (put key l s.links) key (put_other key l links s.links c.left)) c.quiet;
}

spawn_dialer-Single :
    (p : Peer) (links : List (Str × PeerLink)) (s : LinkSupervisor)
    → p.enabled ≡ true
    → p.initiated_by_us ≡ true
    → IsCleared p.public_key links s
    → IsSingle (spawn_dialer p s)
spawn_dialer-Single p links s e i c =
    let key = p.public_key in
    let l = new_link p backoff (some s.next) in
    let m = put key l s.links in
    let here : get key m ≡ some l = get-put key key l s.links ∙ if_pos (str_dec key key) refl _ _ in
    if_rule IsSingle s.started
      {x = record s {
        links = m;
        reconnectors = record { number = s.next; key = key; cancelled = false } ∷ s.reconnectors;
        next = suc s.next;
      }}
      {y = record s { links = put key (new_link p backoff none) s.links }}
      (λ _. record {
        numbers = (omega arith, c.numbers);
        live = (
          λ q. (l, (here, record { cancel = refl; enabled = e; initiated = i })),
          All-map (IsQuiet links key) (IsLive m) s.reconnectors
              (kept links m key (put_other key l links s.links c.left)) c.quiet,
        );
      })
      (λ _. put_passive key (new_link p backoff none) links s c)

not-not : (b : Bool) → not b ≡ false → b ≡ true
not-not true e = refl
not-not false e = absurd (cc e)

pub spawn_link-Single : (p : Peer) (s : LinkSupervisor) → IsSingle s → IsSingle (spawn_link p s)
unfolding spawn_link
spawn_link-Single p s h =
    let d = drop_link p.public_key s in
    let c = drop_link-Cleared p.public_key s h in
    if_rule IsSingle (not p.enabled)
      (λ _. put_passive p.public_key (new_link p idle none) s.links d c)
      (λ e.
        if_rule IsSingle (not p.initiated_by_us)
          (λ _. put_passive p.public_key (new_link p listener none) s.links d c)
          (λ i.
            spawn_dialer-Single p s.links d (not-not p.enabled e) (not-not p.initiated_by_us i) c))

pub disable_link-Single : (p : Peer) (s : LinkSupervisor) → IsSingle s → IsSingle (disable_link p s)
unfolding disable_link
disable_link-Single p s h =
    put_passive p.public_key (new_link p idle none) s.links (drop_link p.public_key s)
      (drop_link-Cleared p.public_key s h)

pub Cleared-Single :
    (key : Str) (links : List (Str × PeerLink)) (s : LinkSupervisor)
    → IsCleared key links s
    → IsSingle s
Cleared-Single key links s c = record {
  numbers = c.numbers;
  live =
      All-map (IsQuiet links key) (IsLive s.links) s.reconnectors
        (kept links s.links key
          (λ q n. ap (get q) c.left ∙ get-delete q key links ∙ if_neg (str_dec q key) n _ _))
        c.quiet;
}

pub cancel_key-Single : (key : Str) (s : LinkSupervisor) → IsSingle s → IsSingle (cancel_key key s)
unfolding cancel_key
cancel_key-Single key s h = record {
  numbers = cancel_link-Descends (get key s.links) s.next s.reconnectors h.numbers;
  live =
      All-map (IsQuiet s.links key) (IsLive s.links) _ (λ r q. q.0)
        (cancel_link-Quiet s.links key s.reconnectors h.live);
}
