-- ===== src/Links/Single.antt =====
-- No peer is dialled by two goroutines.
use termyard.Base.{
  ℕ, ◌≤◌, ◌<◌, ◌==◌, if_rule, true, false, List, [], ◌∷◌, Option, none, some, Str, get, All, ◌≡◌,
  refl, sym, ap, ◌∙◌, arith,
}
use termyard.Links.{PeerLink, Reconnector, LinkSupervisor, cancel_all, cancel_link, without}

-- The link is the one of this goroutine, enabled and ours to dial.
pub record Serves (n : ℕ) (l : PeerLink) : Type 0 where
  pub cancel : l.cancel ≡ some n
  pub enabled : l.peer.enabled ≡ true
  pub initiated : l.peer.initiated_by_us ≡ true

abbrev pub IsLive : List (Str × PeerLink) → Reconnector → Type 0
IsLive links r =
    r.cancelled ≡ false → (l : PeerLink) × ((get r.key links ≡ some l) × Serves r.number l)

-- The numbers go down in the list, from below `n`.
abbrev pub Descends : ℕ → List Reconnector → Type 0
Descends n [] = Unit
Descends n (r ∷ rs) = (r.number < n) × Descends r.number rs

pub record IsSingle (s : LinkSupervisor) : Type 0 where
  pub numbers : Descends s.next s.reconnectors
  pub live : All (IsLive s.links) s.reconnectors

pub All-map :
    (P Q : Reconnector → Type 0) (rs : List Reconnector)
    → ((r : Reconnector) → P r → Q r)
    → All P rs
    → All Q rs
All-map P Q [] f h = tt
All-map P Q (r ∷ rs) f (h, hs) = (f r h, All-map P Q rs f hs)

pub Descends-later : (n m : ℕ) (rs : List Reconnector) → n ≤ m → Descends n rs → Descends m rs
Descends-later n m [] l d = tt
Descends-later n m (r ∷ rs) l (k, d) = (omega arith, d)

cancel_all-Descends :
    (k n : ℕ) (rs : List Reconnector) → Descends n rs → Descends n (cancel_all k rs)
unfolding cancel_all
cancel_all-Descends k n [] d = tt
cancel_all-Descends k n (r ∷ rs) (l, d) =
    let rest = cancel_all-Descends k r.number rs d in
    if_rule (Descends n) (r.number == k) {x = record r { cancelled = true } ∷ cancel_all k rs}
      {y = r ∷ cancel_all k rs} (λ _. (l, rest)) (λ _. (l, rest))

pub cancel_link-Descends :
    (o : Option PeerLink) (n : ℕ) (rs : List Reconnector)
    → Descends n rs
    → Descends n (cancel_link o rs)
cancel_link-Descends none n rs d = d
cancel_link-Descends (some l) n rs d =
    elim l.cancel as (λ c. Descends n (elim c [ none ↦ rs | some k ↦ cancel_all k rs ])) [
      | none ↦ d
      | some k ↦ cancel_all-Descends k n rs d
    ]

pub without-Descends : (k n : ℕ) (rs : List Reconnector) → Descends n rs → Descends n (without k rs)
unfolding without
without-Descends k n [] d = tt
without-Descends k n (r ∷ rs) (l, d) =
    let rest = without-Descends k r.number rs d in
    if_rule (Descends n) (r.number == k) {x = without k rs} {y = r ∷ without k rs}
      (λ _. Descends-later r.number n (without k rs) (omega arith) rest) (λ _. (l, rest))

-- After its link is cancelled, no goroutine of the key is live.
abbrev pub IsQuiet : List (Str × PeerLink) → Str → Reconnector → Type 0
IsQuiet links key r = IsLive links r × (r.cancelled ≡ false → ¬ (r.key ≡ key))

other :
    (l : PeerLink) (r : Reconnector) (n : ℕ) (key : Str) (links : List (Str × PeerLink))
    → get key links ≡ some l
    → l.cancel ≡ some n
    → (r.number == n) ≡ false
    → (x : PeerLink) × ((get r.key links ≡ some x) × Serves r.number x)
    → ¬ (r.key ≡ key)
other l r n key links e c d (x, (g, s)) k =
    let same : x ≡ l = cc (sym g ∙ ap (λ k. get k links) k ∙ e) in
    let number : r.number ≡ n = cc (sym s.cancel ∙ ap (λ (x : PeerLink). x.cancel) same ∙ c) in
    absurd (ground (arith, d, number))

cancel_all-Quiet :
    (links : List (Str × PeerLink)) (key : Str) (l : PeerLink) (n : ℕ) (rs : List Reconnector)
    → get key links ≡ some l
    → l.cancel ≡ some n
    → All (IsLive links) rs
    → All (IsQuiet links key) (cancel_all n rs)
unfolding cancel_all
cancel_all-Quiet links key l n [] e c h = tt
cancel_all-Quiet links key l n (r ∷ rs) e c (h, hs) =
    let rest = cancel_all-Quiet links key l n rs e c hs in
    if_rule (All (IsQuiet links key)) (r.number == n)
      {x = record r { cancelled = true } ∷ cancel_all n rs} {y = r ∷ cancel_all n rs}
      (λ _. ((λ q. absurd (cc q), λ q. absurd (cc q)), rest))
      (λ d. ((h, λ q k. other l r n key links e c d (h q) k), rest))

absent :
    (links : List (Str × PeerLink)) (r : Reconnector)
    → (x : PeerLink) × ((get r.key links ≡ some x) × Serves r.number x)
    → get r.key links ≡ none
    → ⊥
absent links r (x, (g, s)) e = absurd (cc (g, e))

unserved :
    (l : PeerLink) (r : Reconnector) (key : Str) (links : List (Str × PeerLink))
    → get key links ≡ some l
    → l.cancel ≡ none
    → (x : PeerLink) × ((get r.key links ≡ some x) × Serves r.number x)
    → ¬ (r.key ≡ key)
unserved l r key links e c (x, (g, s)) k =
    let same : x ≡ l = cc (sym g ∙ ap (λ k. get k links) k ∙ e) in
    absurd (cc (sym s.cancel ∙ ap (λ (x : PeerLink). x.cancel) same ∙ c))

pub cancel_link-Quiet :
    (links : List (Str × PeerLink)) (key : Str) (rs : List Reconnector)
    → All (IsLive links) rs
    → All (IsQuiet links key) (cancel_link (get key links) rs)
cancel_link-Quiet links key rs h =
    elim (get key links) as (λ o. get key links ≡ o → All (IsQuiet links key) (cancel_link o rs)) [
      | none ↦ λ e.
          All-map (IsLive links) (IsQuiet links key) rs
            (λ r h. (h, λ q k. absent links r (h q) (ap (λ k. get k links) k ∙ e))) h
      | some l ↦ λ e.
          elim l.cancel
              as (λ c.
                l.cancel ≡ c
                → All (IsQuiet links key) (elim c [ none ↦ rs | some n ↦ cancel_all n rs ])) [
                  | none ↦ λ c.
                      All-map (IsLive links) (IsQuiet links key) rs
                        (λ r h. (h, λ q k. unserved l r key links e c (h q) k)) h
                  | some n ↦ λ c. cancel_all-Quiet links key l n rs e c h
                ]
            refl
    ]
      refl
