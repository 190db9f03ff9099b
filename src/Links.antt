-- ===== src/Links.antt =====
-- `LinkSupervisor` (pkg/peer/supervisor.go): one link for each paired machine, and a goroutine that
-- dials it again and again while it is enabled and ours to dial.
-- A step is what happens under one lock, so that the steps of two methods may alternate.
pub mod Backoff
pub mod Methods
pub mod Runs
pub mod Single
pub mod Steps
pub mod Synced
pub mod Together
mod Tests
use termyard.Base.{
  ℕ, suc, ◌==◌, if◌then◌else◌, Bool, true, false, not, List, [], ◌∷◌, Option, none, some, Str, get,
  put, delete,
}
use termyard.Peers.{Peer}

pub data LinkStatus : Type 0 where
  idle : LinkStatus
  dialing : LinkStatus
  connected : LinkStatus
  backoff : LinkStatus
  listener : LinkStatus

-- `cancel` is the number of the goroutine whose context it cancels.
pub record PeerLink : Type 0 where
  pub peer : Peer
  pub cancel : Option ℕ
  pub status : LinkStatus
  pub last_err : Str
  pub next_retry : ℕ

-- A goroutine of `runReconnector` that has not returned.
pub record Reconnector : Type 0 where
  pub number : ℕ
  pub key : Str
  pub cancelled : Bool

-- `started` says that `rootCtx` is set; `next` is the number of the next goroutine.
pub record LinkSupervisor : Type 0 where
  pub links : List (Str × PeerLink)
  pub reconnectors : List Reconnector
  pub started : Bool
  pub next : ℕ

-- `NewLinkSupervisor`
abbrev pub new_link_supervisor : LinkSupervisor
new_link_supervisor = record { links = []; reconnectors = []; started = false; next = 0 }

abbrev pub new_link : Peer → LinkStatus → Option ℕ → PeerLink
new_link peer status cancel = record {
  peer = peer;
  cancel = cancel;
  status = status;
  last_err = [];
  next_retry = 0;
}

-- The context with this number is cancelled.
unfoldable pub cancel_all : ℕ → List Reconnector → List Reconnector
cancel_all n [] = []
cancel_all n (r ∷ rs) =
    let rest = cancel_all n rs in
    if r.number == n then record r { cancelled = true } ∷ rest else r ∷ rest

-- `if l.cancel != nil { l.cancel() }`
abbrev pub cancel_link : Option PeerLink → List Reconnector → List Reconnector
cancel_link none rs = rs
cancel_link (some l) rs = elim l.cancel [ none ↦ rs | some n ↦ cancel_all n rs ]

-- The link of this key is cancelled and taken out.
unfoldable pub drop_link : Str → LinkSupervisor → LinkSupervisor
drop_link key s = record s {
  links = delete key s.links;
  reconnectors = cancel_link (get key s.links) s.reconnectors;
}

-- The end of `spawnLink`, for a peer that is enabled and ours to dial.
abbrev pub spawn_dialer : Peer → LinkSupervisor → LinkSupervisor
spawn_dialer p s =
    if s.started
    then record s {
      links = put p.public_key (new_link p backoff (some s.next)) s.links;
      reconnectors =
          record { number = s.next; key = p.public_key; cancelled = false } ∷ s.reconnectors;
      next = suc s.next;
    }
    else record s { links = put p.public_key (new_link p backoff none) s.links }

-- `spawnLink`
unfoldable pub spawn_link : Peer → LinkSupervisor → LinkSupervisor
spawn_link p s =
    let d = drop_link p.public_key s in
    let quiet : LinkStatus → LinkSupervisor =
      λ status. record d { links = put p.public_key (new_link p status none) d.links } in
    if not p.enabled
    then quiet idle
    else (if not p.initiated_by_us then quiet listener else spawn_dialer p d)

-- The locked part of `SetEnabled` with `false`.
unfoldable pub disable_link : Peer → LinkSupervisor → LinkSupervisor
disable_link p s =
    let d = drop_link p.public_key s in
    record d { links = put p.public_key (new_link p idle none) d.links }

-- The locked part of `ReconnectNow`.
unfoldable pub cancel_key : Str → LinkSupervisor → LinkSupervisor
cancel_key key s = record s { reconnectors = cancel_link (get key s.links) s.reconnectors }

-- The reconnector with this number returns.
unfoldable pub without : ℕ → List Reconnector → List Reconnector
without n [] = []
without n (r ∷ rs) = let rest = without n rs in if r.number == n then rest else r ∷ rest

-- The link that the goroutine with this number was given, while it is in the map.
unfoldable pub is_of : ℕ → PeerLink → Bool
is_of n l = elim l.cancel [ none ↦ false | some m ↦ m == n ]

unfoldable pub on_link : ℕ → (PeerLink → PeerLink) → List (Str × PeerLink) → List (Str × PeerLink)
on_link n f [] = []
on_link n f ((k, l) ∷ m) =
    let rest = on_link n f m in if is_of n l then (k, f l) ∷ rest else (k, l) ∷ rest

-- `setStatus`, called by the goroutine with this number.
unfoldable pub set_status : ℕ → LinkStatus → Str → ℕ → LinkSupervisor → LinkSupervisor
set_status n status err next s = record s {
  links =
      on_link n (λ (l : PeerLink). record l { status = status; last_err = err; next_retry = next })
        s.links;
}

-- The goroutine returns because its context is done.
unfoldable pub finish_reconnector : ℕ → LinkSupervisor → LinkSupervisor
finish_reconnector n s = record s { reconnectors = without n s.reconnectors }

-- The answer "already connected": the link waits for the other side, and the goroutine returns.
unfoldable pub flip_role : ℕ → LinkSupervisor → LinkSupervisor
flip_role n s = record s {
  links =
      on_link n
        (λ (l : PeerLink). record l {
          peer = record l.peer { initiated_by_us = false };
          status = listener;
          last_err = [];
          next_retry = 0;
        })
        s.links;
  reconnectors = without n s.reconnectors;
}
