-- ===== src/Streams/Safety.antt =====
-- Which claim gets which stream.
use termyard.Base.{
  ℕ, ◌≡◌, refl, sym, subst, ◌==◌, if◌then◌else◌, true, false, List, [], ◌∷◌, ◌++◌, map, Option,
  none, some, Str, str_dec, mem_dec, get, In, All, Distinct, inl, inr, arith, ite,
}
use termyard.Streams.{
  PendingStream, PendingEntry, PendingWaiter, StreamRegistry, closed, drains, got, not_found,
  wrong_peer, new_stream_registry, is_blank, waiting, match_waiter, before, register_live, register,
  spend, claim_live, claim, woken, expire_entry, expire, remove_waiter, remove_from, keep_waiters,
  others_of,
}
use termyard.Streams.History.{
  Delivery, delivery, gives, wakes, Call, plain_turn, claim_turn, step, run, registers, claims,
  expires, gives_up,
}

-- What one step may do: nothing is delivered, or one stream to the peer that it is meant for, under
-- a token that was good before and is spent after. Spent tokens stay spent.
data Fired (s : StreamRegistry) (r : StreamRegistry × List Delivery) : Type 0 where
  quiet : r.1 ≡ [] → ((t : Str) → In t s.expired → In t r.0.expired) → Fired s r
  fires :
      (d : Delivery)
      → r.1 ≡ d ∷ []
      → ¬ In d.token s.expired
      → In d.token r.0.expired
      → d.ps.expected_peer ≡ d.fingerprint
      → ((t : Str) → In t s.expired → In t r.0.expired)
      → Fired s r

wakes-closed : (token : Str) (ws : List PendingWaiter) → wakes token (map closed ws) ≡ []
unfolding wakes
wakes-closed token [] = refl
wakes-closed token (w ∷ ws) = wakes-closed token ws

before-some :
    (peer : Str) (v : PendingWaiter) (rest : Option (PendingWaiter × List PendingWaiter))
    → ((others : List PendingWaiter) (w : PendingWaiter)
        → rest ≡ some (w, others)
        → w.fingerprint ≡ peer)
    → (others : List PendingWaiter) (w : PendingWaiter) → before v rest ≡ some (w, others)
    → w.fingerprint ≡ peer
before-some peer v none h others w e = absurd (cc e)
before-some peer v (some (m, ws)) h others w e = let p : m ≡ w = cc e in h ws w (rw p)

match_waiter-peer :
    (peer : Str) (ws others : List PendingWaiter) (w : PendingWaiter)
    → match_waiter peer ws ≡ some (w, others)
    → w.fingerprint ≡ peer
unfolding match_waiter
match_waiter-peer peer [] others w e = absurd (cc e)
match_waiter-peer peer (v ∷ ws) others w e =
    let h = match_waiter-peer peer ws in
    elim (str_dec v.fingerprint peer)
        as (λ d.
          ite d (some (v, ws)) (before v (match_waiter peer ws)) ≡ some (w, others)
          → w.fingerprint ≡ peer) [
            | yes p ↦ λ q. let r : v ≡ w = cc q in rw (← r) p
            | no n ↦ before-some peer v (match_waiter peer ws) h others w
          ]
      e

woken-got : (ps : PendingStream) (w : Str) → w ≡ ps.expected_peer → woken w (some ps) ≡ got ps
unfolding woken
woken-got ps w e = ground (arith, e)

register_live-Fired :
    (token : Str) (ps : PendingStream) (s : StreamRegistry)
    (m : Option (PendingWaiter × List PendingWaiter))
    → match_waiter ps.expected_peer (waiting token s) ≡ m
    → ¬ In token s.expired
    → Fired s (plain_turn token (register_live token ps s m))
unfolding register_live wakes gives
register_live-Fired token ps s none e n = quiet refl (λ t i. i)
register_live-Fired token ps s (some (w, others)) e n =
    let p = match_waiter-peer ps.expected_peer (waiting token s) others w e in
    fires (delivery token w.fingerprint ps)
      (rw (woken-got ps w.fingerprint p, wakes-closed token others)) n (inl refl) (sym p)
      (λ t i. inr i)

register-Fired :
    (token : Str) (ps : Option PendingStream) (s : StreamRegistry)
    → Fired s (plain_turn token (register token ps s))
unfolding register wakes
register-Fired token none s = quiet refl (λ t i. i)
register-Fired token (some ps) s =
    let m = match_waiter ps.expected_peer (waiting token s) in
    elim (is_blank token)
      as (λ b. Fired s (
        plain_turn token (
          if b
          then (s, [])
          else ite (mem_dec str_dec token s.expired) (s, []) (register_live token ps s m)))) [
            | true ↦ quiet refl (λ t i. i)
            | false ↦
                elim (mem_dec str_dec token s.expired)
                  as (λ d.
                    Fired s (plain_turn token (ite d (s, []) (register_live token ps s m)))) [
                      | yes i ↦ quiet refl (λ t i. i)
                      | no n ↦ register_live-Fired token ps s m refl n
                    ]
          ]

claim_live-Fired :
    (token fingerprint : Str) (s : StreamRegistry) (m : Option PendingEntry)
    → ¬ In token s.expired
    → Fired s (claim_turn token fingerprint (claim_live token fingerprint s m))
unfolding claim_live wakes gives
claim_live-Fired token fingerprint s none n = quiet refl (λ t i. i)
claim_live-Fired token fingerprint s (some e) n =
    elim (str_dec e.ps.expected_peer fingerprint)
      as (λ d. Fired s (
        claim_turn token fingerprint (
          ite d (spend token s, (got e.ps, map closed (waiting token s))) (s, (wrong_peer, []))))) [
            | yes p ↦
                fires (delivery token fingerprint e.ps) (rw (wakes-closed token (waiting token s)))
                  n (inl refl) p (λ t i. inr i)
            | no p ↦ quiet refl (λ t i. i)
          ]

claim-Fired :
    (token fingerprint : Str) (s : StreamRegistry)
    → Fired s (claim_turn token fingerprint (claim token fingerprint s))
unfolding claim wakes gives
claim-Fired token fingerprint s =
    let live = claim_live token fingerprint s (get token s.pending) in
    elim (is_blank token)
      as (λ b. Fired s (
        claim_turn token fingerprint (
          if b
          then (s, (not_found, []))
          else ite (mem_dec str_dec token s.expired) (s, (not_found, [])) live))) [
            | true ↦ quiet refl (λ t i. i)
            | false ↦
                elim (mem_dec str_dec token s.expired)
                  as (λ d.
                    Fired s (claim_turn token fingerprint (ite d (s, (not_found, [])) live))) [
                      | yes i ↦ quiet refl (λ t i. i)
                      | no n ↦ claim_live-Fired token fingerprint s (get token s.pending) n
                    ]
          ]

expire_entry-Fired :
    (token : Str) (number : ℕ) (s : StreamRegistry) (m : Option PendingEntry)
    → Fired s (plain_turn token (expire_entry token number s m))
unfolding expire_entry wakes
expire_entry-Fired token number s none = quiet refl (λ t i. i)
expire_entry-Fired token number s (some e) =
    elim (e.number == number)
      as (λ b. Fired s (
        plain_turn token
          (if b then (spend token s, drains e.ps ∷ map closed (waiting token s)) else (s, [])))) [
            | true ↦ quiet (wakes-closed token (waiting token s)) (λ t i. inr i)
            | false ↦ quiet refl (λ t i. i)
          ]

keep_waiters-expired :
    (token : Str) (s : StreamRegistry) (ws : List PendingWaiter)
    → (keep_waiters token s ws).expired ≡ s.expired
unfolding keep_waiters
keep_waiters-expired token s [] = refl
keep_waiters-expired token s (w ∷ ws) = refl

remove_from-expired :
    (token : Str) (w : PendingWaiter) (s : StreamRegistry) (ws : List PendingWaiter)
    → (remove_from token w s ws).expired ≡ s.expired
unfolding remove_from
remove_from-expired token w s [] = refl
remove_from-expired token w s (v ∷ ws) = keep_waiters-expired token s (others_of w (v ∷ ws))

remove_waiter-expired :
    (token : Str) (w : PendingWaiter) (s : StreamRegistry)
    → (remove_waiter token w s).expired ≡ s.expired
unfolding remove_waiter
remove_waiter-expired token w s = remove_from-expired token w s (waiting token s)

step-Fired : (c : Call) (s : StreamRegistry) → Fired s (step c s)
unfolding step expire
step-Fired (registers token ps) s = register-Fired token ps s
step-Fired (claims token fingerprint) s = claim-Fired token fingerprint s
step-Fired (expires token number) s = expire_entry-Fired token number s (get token s.pending)
step-Fired (gives_up token w) s =
    quiet refl (λ t i. subst (In t) (sym (remove_waiter-expired token w s)) i)

-- What is delivered: streams to the peers that they are meant for, under tokens that were good at
-- the start, and no token twice.
record Delivers (s : StreamRegistry) (ds : List Delivery) : Type 0 where
  peers : All (λ d. d.ps.expected_peer ≡ d.fingerprint) ds
  good : (t : Str) → In t (map (λ d. d.token) ds) → ¬ In t s.expired
  once : Distinct (map (λ d. d.token) ds)

first_Delivers :
    (s : StreamRegistry) (r : StreamRegistry × List Delivery) (ds : List Delivery)
    → Fired s r
    → Delivers r.0 ds
    → Delivers s (r.1 ++ ds)
first_Delivers s r ds (quiet e g) h =
    rw e (record { peers = h.peers; good = λ t i j. h.good t i (g t j); once = h.once })
first_Delivers s r ds (fires d e n i p g) h = rw e (record {
  peers = (p, h.peers);
  good = λ t k. elim k [
    | inl q ↦ subst (λ t. ¬ In t s.expired) (sym q) n
    | inr k ↦ λ j. h.good t k (g t j)
  ];
  once = ((λ k. h.good d.token k i), h.once);
})

run-Delivers : (calls : List Call) (s : StreamRegistry) → Delivers s (run calls s).1
unfolding run
run-Delivers [] s = record { peers = tt; good = λ t i. absurd i; once = tt }
run-Delivers (c ∷ calls) s =
    first_Delivers s (step c s) (run calls (step c s).0).1 (step-Fired c s)
      (run-Delivers calls (step c s).0)

-- In any history of a new registry, a token delivers a stream to at most one claim.
pub run-Distinct :
    (calls : List Call) → Distinct (map (λ d. d.token) (run calls new_stream_registry).1)
run-Distinct calls = (run-Delivers calls new_stream_registry).once

-- In any history of a new registry, every stream is delivered to a claim whose fingerprint is the
-- peer that the stream expects.
pub run-All :
    (calls : List Call)
    → All (λ d. d.ps.expected_peer ≡ d.fingerprint) (run calls new_stream_registry).1
run-All calls = (run-Delivers calls new_stream_registry).peers
