-- ===== src/Streams/Ready.antt =====
-- When a claim waits in vain: the predicate, token by token, and how updates of the maps keep it.
use termyard.Base.{
  ◌≡◌, refl, sym, ◌∙◌, subst, List, [], ◌∷◌, Option, none, some, Str, str_dec, get, put, delete,
  get-put, get-delete, All, arith, ite,
}
use termyard.Streams.{
  PendingEntry, PendingWaiter, StreamRegistry, waiting, match_waiter, before, or_none,
}

-- Under this token no waiter has the fingerprint that the pending stream expects.
unfoldable pub IsReadyAt : Str → StreamRegistry → Type 0
IsReadyAt t s =
    (e : PendingEntry)
    → get t s.pending ≡ some e
    → All (λ w. ¬ (w.fingerprint ≡ e.ps.expected_peer)) (waiting t s)

unfoldable pub IsReady : StreamRegistry → Type 0
unfolding IsReadyAt
IsReady s = (t : Str) → IsReadyAt t s

pub same_at :
    (t : Str) (s r : StreamRegistry)
    → get t r.pending ≡ get t s.pending
    → get t r.waiters ≡ get t s.waiters
    → IsReadyAt t s
    → IsReadyAt t r
unfolding IsReadyAt
same_at t s r p q h e i =
    subst (λ ws. All (λ w. ¬ (w.fingerprint ≡ e.ps.expected_peer)) (or_none ws)) (sym q)
      (h e (sym p ∙ i))

pub none_at : (t : Str) (r : StreamRegistry) → get t r.pending ≡ none → IsReadyAt t r
unfolding IsReadyAt
none_at t r p e i = absurd (cc (p, i))

pub idle_at : (t : Str) (r : StreamRegistry) → get t r.waiters ≡ none → IsReadyAt t r
unfolding IsReadyAt
idle_at t r p e i = rw p tt

pub entry_at :
    (t : Str) (r : StreamRegistry) (e : PendingEntry)
    → get t r.pending ≡ some e
    → All (λ w. ¬ (w.fingerprint ≡ e.ps.expected_peer)) (waiting t r)
    → IsReadyAt t r
unfolding IsReadyAt
entry_at t r e p h f i =
    let q : e ≡ f = cc (p, i) in
    subst (λ f. All (λ w. ¬ (w.fingerprint ≡ f.ps.expected_peer)) (waiting t r)) q h

pub put_other :
    {V : Type 0} (t k : Str) (v : V) (m : List (Str × V)) → ¬ (t ≡ k) → get t (put k v m) ≡ get t m
put_other t k v m n = rw (get-put t k v m) (ground (arith, n))

pub delete_other :
    {V : Type 0} (t k : Str) (m : List (Str × V)) → ¬ (t ≡ k) → get t (delete k m) ≡ get t m
delete_other t k m n = rw (get-delete t k m) (ground (arith, n))

pub put_same : {V : Type 0} (k : Str) (v : V) (m : List (Str × V)) → get k (put k v m) ≡ some v
put_same k v m = rw (get-put k k v m) (ground arith)

pub delete_same : {V : Type 0} (k : Str) (m : List (Str × V)) → get k (delete k m) ≡ none
delete_same k m = rw (get-delete k k m) (ground arith)

pub before-none :
    (v : PendingWaiter) (rest : Option (PendingWaiter × List PendingWaiter))
    → before v rest ≡ none
    → rest ≡ none
before-none v none e = refl
before-none v (some (m, ws)) e = absurd (cc e)

pub match_waiter-none :
    (peer : Str) (ws : List PendingWaiter)
    → match_waiter peer ws ≡ none
    → All (λ w. ¬ (w.fingerprint ≡ peer)) ws
unfolding match_waiter
match_waiter-none peer [] e = tt
match_waiter-none peer (v ∷ ws) e =
    elim (str_dec v.fingerprint peer)
        as (λ d.
          ite d (some (v, ws)) (before v (match_waiter peer ws)) ≡ none
          → All (λ w. ¬ (w.fingerprint ≡ peer)) (v ∷ ws)) [
            | yes p ↦ λ q. absurd (cc q)
            | no n ↦ λ q. (n, match_waiter-none peer ws (before-none v (match_waiter peer ws) q))
          ]
      e
