-- ===== src/Streams.antt =====
-- `StreamRegistry` (pkg/peer/streamreg.go): a viewer's token waits for the stream that a peer opens.
-- The lock makes each method one step. A pointer is a number that the registry gave out, and what a
-- method sends on a channel or closes after it released the lock is the list of messages it returns.
pub mod History
pub mod Safety
pub mod Ready
pub mod Matches
mod Tests
use termyard.Base.{
  ℕ, suc, ◌==◌, if◌then◌else◌, ite, Bool, true, false, List, [], ◌∷◌, ◌++◌, map, Option, none, some,
  Str, str_dec, mem_dec, get, put, delete,
}

-- Without the channel `resolved`.
pub record PendingStream : Type 0 where
  pub stream_id : Str
  pub session : Str
  pub cols : ℕ
  pub rows : ℕ
  pub host_id : Str
  pub viewer_host_id : Str
  pub expected_peer : Str

pub record PendingEntry : Type 0 where
  pub number : ℕ
  pub ps : PendingStream

pub record PendingWaiter : Type 0 where
  pub number : ℕ
  pub fingerprint : Str

pub record StreamRegistry : Type 0 where
  pub pending : List (Str × PendingEntry)
  pub waiters : List (Str × List PendingWaiter)
  pub expired : List Str
  pub next : ℕ

-- `matched.ch <- ps`, `close(waiter.ch)`, and closing the connection that waits in `ps.resolved`.
pub data Message : Type 0 where
  sent : PendingWaiter → PendingStream → Message
  closed : PendingWaiter → Message
  drains : PendingStream → Message

-- What `Claim` returns, or the waiter whose channel it reads.
pub data ClaimResult : Type 0 where
  got : PendingStream → ClaimResult
  not_found : ClaimResult
  wrong_peer : ClaimResult
  waits : PendingWaiter → ClaimResult

-- `NewStreamRegistry`
abbrev pub new_stream_registry : StreamRegistry
new_stream_registry = record { pending = []; waiters = []; expired = []; next = 0 }

abbrev pub is_blank : Str → Bool
is_blank [] = true
is_blank (c ∷ s) = false

abbrev pub or_none : Option (List PendingWaiter) → List PendingWaiter
or_none none = []
or_none (some ws) = ws

-- `s.waiters[token]`
abbrev pub waiting : Str → StreamRegistry → List PendingWaiter
waiting token s = or_none (get token s.waiters)

abbrev pub before :
    PendingWaiter
    → Option (PendingWaiter × List PendingWaiter)
    → Option (PendingWaiter × List PendingWaiter)
before w none = none
before w (some (m, ws)) = some (m, w ∷ ws)

-- The first waiter with this fingerprint, and the others.
unfoldable pub match_waiter : Str → List PendingWaiter → Option (PendingWaiter × List PendingWaiter)
match_waiter peer [] = none
match_waiter peer (w ∷ ws) =
    let rest = match_waiter peer ws in
    ite (str_dec w.fingerprint peer) (some (w, ws)) (before w rest)

unfoldable pub register_live :
    Str
    → PendingStream
    → StreamRegistry
    → Option (PendingWaiter × List PendingWaiter)
    → StreamRegistry × List Message
register_live token ps s (some (w, others)) = (
  record s { waiters = delete token s.waiters; expired = token ∷ s.expired },
  sent w ps ∷ closed w ∷ map closed others,
)
register_live token ps s none = (
  record s {
    pending = put token (record { number = s.next; ps = ps }) s.pending;
    next = suc s.next;
  },
  [],
)

-- `Register`, without the timer that it starts; `none` is a nil stream.
unfoldable pub register :
    Str → Option PendingStream → StreamRegistry → StreamRegistry × List Message
unfolding register_live
register token none s = (s, [])
register token (some ps) s =
    let live = register_live token ps s (match_waiter ps.expected_peer (waiting token s)) in
    if is_blank token then (s, []) else ite (mem_dec str_dec token s.expired) (s, []) live

-- The token is spent: nothing is pending under it, and nobody waits for it.
abbrev pub spend : Str → StreamRegistry → StreamRegistry
spend token s = record s {
  pending = delete token s.pending;
  waiters = delete token s.waiters;
  expired = token ∷ s.expired;
}

abbrev pub new_waiter : ℕ → Str → PendingWaiter
new_waiter number fingerprint = record { number = number; fingerprint = fingerprint }

unfoldable pub claim_live :
    Str → Str → StreamRegistry → Option PendingEntry → StreamRegistry × (ClaimResult × List Message)
claim_live token fingerprint s (some e) =
    ite (str_dec e.ps.expected_peer fingerprint)
      (spend token s, (got e.ps, map closed (waiting token s))) (s, (wrong_peer, []))
claim_live token fingerprint s none =
    let w = new_waiter s.next fingerprint in
    (
      record s { waiters = put token (waiting token s ++ w ∷ []) s.waiters; next = suc s.next },
      (waits w, []),
    )

-- `Claim` up to its `select`.
unfoldable pub claim : Str → Str → StreamRegistry → StreamRegistry × (ClaimResult × List Message)
unfolding claim_live
claim token fingerprint s =
    let live = claim_live token fingerprint s (get token s.pending) in
    if is_blank token
    then (s, (not_found, []))
    else ite (mem_dec str_dec token s.expired) (s, (not_found, [])) live

-- What `Claim` returns once its channel gives a stream or is closed.
unfoldable pub woken : Str → Option PendingStream → ClaimResult
woken fingerprint none = not_found
woken fingerprint (some ps) = ite (str_dec ps.expected_peer fingerprint) (got ps) wrong_peer

unfoldable pub expire_entry :
    Str → ℕ → StreamRegistry → Option PendingEntry → StreamRegistry × List Message
expire_entry token number s none = (s, [])
expire_entry token number s (some e) =
    if e.number == number
    then (spend token s, drains e.ps ∷ map closed (waiting token s))
    else (s, [])

-- `expire`, the timer's call for the entry of that number.
unfoldable pub expire : Str → ℕ → StreamRegistry → StreamRegistry × List Message
unfolding expire_entry
expire token number s = expire_entry token number s (get token s.pending)

unfoldable pub others_of : PendingWaiter → List PendingWaiter → List PendingWaiter
others_of target [] = []
others_of target (w ∷ ws) =
    let rest = others_of target ws in if w.number == target.number then rest else w ∷ rest

unfoldable pub keep_waiters : Str → StreamRegistry → List PendingWaiter → StreamRegistry
keep_waiters token s [] = record s { waiters = delete token s.waiters }
keep_waiters token s (w ∷ ws) = record s { waiters = put token (w ∷ ws) s.waiters }

unfoldable pub remove_from :
    Str → PendingWaiter → StreamRegistry → List PendingWaiter → StreamRegistry
unfolding keep_waiters others_of
remove_from token target s [] = s
remove_from token target s (w ∷ ws) = keep_waiters token s (others_of target (w ∷ ws))

-- `removeWaiter`, when a claim's time is up
unfoldable pub remove_waiter : Str → PendingWaiter → StreamRegistry → StreamRegistry
unfolding remove_from
remove_waiter token target s = remove_from token target s (waiting token s)
