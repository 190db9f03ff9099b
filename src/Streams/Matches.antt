-- ===== src/Streams/Matches.antt =====
-- No claim waits for a stream that is there for it.
use termyard.Base.{
  ℕ, ◌≡◌, refl, sym, ap, ◌∙◌, subst, ◌==◌, if◌then◌else◌, true, false, List, [], ◌∷◌, map, Option,
  none, some, Str, str_dec, mem_dec, get, put, All, ite,
}
use termyard.Streams.{
  PendingStream, PendingEntry, PendingWaiter, StreamRegistry, Message, closed, drains, ClaimResult,
  got, not_found, wrong_peer, new_stream_registry, is_blank, waiting, match_waiter, register_live,
  register, spend, claim_live, claim, expire_entry, expire, remove_waiter, remove_from,
  keep_waiters, others_of, or_none,
}
use termyard.Streams.History.{Call, registers, claims, expires, gives_up, step, run}
use termyard.Streams.Ready.{
  IsReadyAt, IsReady, same_at, none_at, idle_at, entry_at, put_other, delete_other, put_same,
  delete_same, match_waiter-none,
}

spend-IsReady : (token : Str) (s : StreamRegistry) → IsReady s → IsReady (spend token s)
unfolding IsReady
spend-IsReady token s h t = elim (str_dec t token) [
  | yes p ↦
      subst (λ k. IsReadyAt k (spend token s)) (sym p)
        (none_at token (spend token s) (delete_same token s.pending))
  | no n ↦
      same_at t s (spend token s) (delete_other t token s.pending n)
        (delete_other t token s.waiters n) (h t)
]

register_live-IsReady :
    (token : Str) (ps : PendingStream) (s : StreamRegistry)
    (m : Option (PendingWaiter × List PendingWaiter))
    → match_waiter ps.expected_peer (waiting token s) ≡ m
    → IsReady s
    → IsReady (register_live token ps s m).0
unfolding register_live IsReady
register_live-IsReady token ps s (some (w, others)) e h t =
    let r = (register_live token ps s (some (w, others))).0 in
    elim (str_dec t token) [
      | yes p ↦ subst (λ k. IsReadyAt k r) (sym p) (idle_at token r (delete_same token s.waiters))
      | no n ↦ same_at t s r refl (delete_other t token s.waiters n) (h t)
    ]
register_live-IsReady token ps s none e h t =
    let r = (register_live token ps s none).0 in
    elim (str_dec t token) [
      | yes p ↦
          subst (λ k. IsReadyAt k r) (sym p)
            (entry_at token r (record { number = s.next; ps = ps }) (put_same token _ s.pending)
              (match_waiter-none ps.expected_peer (waiting token s) e))
      | no n ↦ same_at t s r (put_other t token _ s.pending n) refl (h t)
    ]

-- A claim that waits: nothing is pending under its token.
wait-IsReady :
    (token : Str) (s : StreamRegistry) (ws : List PendingWaiter) (number : ℕ)
    → get token s.pending ≡ none
    → IsReady s
    → IsReady (record s { waiters = put token ws s.waiters; next = number })
unfolding IsReady
wait-IsReady token s ws number e h t =
    let r : StreamRegistry = record s { waiters = put token ws s.waiters; next = number } in
    elim (str_dec t token) [
      | yes p ↦ subst (λ k. IsReadyAt k r) (sym p) (none_at token r e)
      | no n ↦ same_at t s r refl (put_other t token ws s.waiters n) (h t)
    ]

claim_live-IsReady :
    (token fingerprint : Str) (s : StreamRegistry) (m : Option PendingEntry)
    → get token s.pending ≡ m
    → IsReady s
    → IsReady (claim_live token fingerprint s m).0
unfolding claim_live
claim_live-IsReady token fingerprint s none e h = wait-IsReady token s _ _ e h
claim_live-IsReady token fingerprint s (some p) e h =
    elim (str_dec p.ps.expected_peer fingerprint)
      as (λ d.
        IsReady
          (ite {C = StreamRegistry × (ClaimResult × List Message)} d
            (spend token s, (got p.ps, map closed (waiting token s))) (s, (wrong_peer, []))).0) [
              | yes q ↦ spend-IsReady token s h
              | no n ↦ h
            ]

expire_entry-IsReady :
    (token : Str) (number : ℕ) (s : StreamRegistry) (m : Option PendingEntry)
    → IsReady s
    → IsReady (expire_entry token number s m).0
unfolding expire_entry
expire_entry-IsReady token number s none h = h
expire_entry-IsReady token number s (some e) h =
    let r : StreamRegistry × List Message =
      (spend token s, drains e.ps ∷ map closed (waiting token s)) in
    elim (e.number == number) as (λ b. IsReady (if b then r else (s, [])).0) [
      | true ↦ spend-IsReady token s h
      | false ↦ h
    ]

All-others_of :
    (P : PendingWaiter → Type 0) (w : PendingWaiter) (ws : List PendingWaiter)
    → All P ws
    → All P (others_of w ws)
unfolding others_of
All-others_of P w [] h = tt
All-others_of P w (v ∷ ws) (h, k) =
    elim (v.number == w.number) as (λ b. All P (if b then others_of w ws else v ∷ others_of w ws)) [
      | true ↦ All-others_of P w ws k
      | false ↦ (h, All-others_of P w ws k)
    ]

-- Fewer waiters under one token.
fewer-IsReady :
    (token : Str) (s r : StreamRegistry) (ws : List PendingWaiter)
    → ((P : PendingWaiter → Type 0) → All P (waiting token s) → All P ws)
    → r.pending ≡ s.pending
    → ((t : Str) → ¬ (t ≡ token) → get t r.waiters ≡ get t s.waiters)
    → waiting token r ≡ ws
    → IsReady s
    → IsReady r
unfolding IsReady IsReadyAt
fewer-IsReady token s r ws g p q f h t = elim (str_dec t token) [
  | yes n ↦
      subst (λ k. IsReadyAt k r) (sym n)
        (λ e i. subst (All (λ w. ¬ (w.fingerprint ≡ e.ps.expected_peer))) (sym f) (
          g (λ w. ¬ (w.fingerprint ≡ e.ps.expected_peer)) (h token e (ap (get token) (sym p) ∙ i))))
  | no n ↦ same_at t s r (ap (get t) p) (q t n) (h t)
]

keep_waiters-IsReady :
    (token : Str) (s : StreamRegistry) (ws : List PendingWaiter)
    → ((P : PendingWaiter → Type 0) → All P (waiting token s) → All P ws)
    → IsReady s
    → IsReady (keep_waiters token s ws)
unfolding keep_waiters
keep_waiters-IsReady token s [] g h =
    fewer-IsReady token s _ [] g refl (λ t n. delete_other t token s.waiters n)
      (ap or_none (delete_same token s.waiters)) h
keep_waiters-IsReady token s (w ∷ ws) g h =
    fewer-IsReady token s _ (w ∷ ws) g refl (λ t n. put_other t token (w ∷ ws) s.waiters n)
      (ap or_none (put_same token (w ∷ ws) s.waiters)) h

remove_from-IsReady :
    (token : Str) (w : PendingWaiter) (s : StreamRegistry) (ws : List PendingWaiter)
    → waiting token s ≡ ws
    → IsReady s
    → IsReady (remove_from token w s ws)
unfolding remove_from
remove_from-IsReady token w s [] e h = h
remove_from-IsReady token w s (v ∷ ws) e h =
    keep_waiters-IsReady token s (others_of w (v ∷ ws))
      (λ P k. All-others_of P w (v ∷ ws) (subst (All P) e k)) h

register-IsReady :
    (token : Str) (ps : Option PendingStream) (s : StreamRegistry)
    → IsReady s
    → IsReady (register token ps s).0
unfolding register
register-IsReady token none s h = h
register-IsReady token (some ps) s h =
    let live = register_live token ps s (match_waiter ps.expected_peer (waiting token s)) in
    let same : StreamRegistry × List Message = (s, []) in
    elim (is_blank token)
      as (λ b. IsReady (if b then same else ite (mem_dec str_dec token s.expired) same live).0) [
        | true ↦ h
        | false ↦ elim (mem_dec str_dec token s.expired) as (λ d. IsReady (ite d same live).0) [
          | yes i ↦ h
          | no n ↦ register_live-IsReady token ps s _ refl h
        ]
      ]

claim-IsReady :
    (token fingerprint : Str) (s : StreamRegistry)
    → IsReady s
    → IsReady (claim token fingerprint s).0
unfolding claim
claim-IsReady token fingerprint s h =
    let live = claim_live token fingerprint s (get token s.pending) in
    let same : StreamRegistry × (ClaimResult × List Message) = (s, (not_found, [])) in
    elim (is_blank token)
      as (λ b. IsReady (if b then same else ite (mem_dec str_dec token s.expired) same live).0) [
        | true ↦ h
        | false ↦ elim (mem_dec str_dec token s.expired) as (λ d. IsReady (ite d same live).0) [
          | yes i ↦ h
          | no n ↦ claim_live-IsReady token fingerprint s _ refl h
        ]
      ]

step-IsReady : (c : Call) (s : StreamRegistry) → IsReady s → IsReady (step c s).0
unfolding step expire remove_waiter
step-IsReady (registers token ps) s h = register-IsReady token ps s h
step-IsReady (claims token fingerprint) s h = claim-IsReady token fingerprint s h
step-IsReady (expires token number) s h =
    expire_entry-IsReady token number s (get token s.pending) h
step-IsReady (gives_up token w) s h = remove_from-IsReady token w s (waiting token s) refl h

run_from-IsReady : (calls : List Call) (s : StreamRegistry) → IsReady s → IsReady (run calls s).0
unfolding run
run_from-IsReady [] s h = h
run_from-IsReady (c ∷ calls) s h = run_from-IsReady calls (step c s).0 (step-IsReady c s h)

-- In any history of a new registry no claim waits under a token that has a stream pending for the
-- claim's fingerprint.
pub run-IsReady : (calls : List Call) → IsReady (run calls new_stream_registry).0
unfolding IsReady
run-IsReady calls =
    run_from-IsReady calls new_stream_registry (λ t. none_at t new_stream_registry refl)
