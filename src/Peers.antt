-- ===== src/Peers.antt =====
-- `PeerStore` (pkg/identity/peers.go): the paired machines, in the order of their pairing, found by
-- their public keys.
pub mod Finds
pub mod Drops
pub mod Keys
pub mod Refines
mod Tests
use termyard.Base.{
  ℕ, if◌then◌else◌, ite, Bool, true, false, List, [], ◌∷◌, ◌++◌, map, Option, none, some, Str,
  str_dec,
}

pub record Peer : Type 0 where
  pub name : Str
  pub public_key : Str
  pub paired_at : ℕ
  pub address : Str
  pub enabled : Bool
  pub initiated_by_us : Bool
  pub last_seen : ℕ

-- What a method reports: no error, "peer not found", or the error of `save`.
pub data Outcome : Type 0 where
  done : Outcome
  not_found : Outcome
  not_saved : Outcome

abbrev pub Peers : Type 0
Peers = List Peer

-- The loop of `Get`, with any test.
abbrev pub get_first : (Peer → Bool) → Peers → Option Peer
get_first test [] = none
get_first test (p ∷ ps) = let rest = get_first test ps in if test p then some p else rest

abbrev pub has_key : Str → Peer → Bool
has_key key p = ite (str_dec p.public_key key) true false

-- `Get`
abbrev pub get_peer : Str → Peers → Option Peer
get_peer name ps = get_first (λ (p : Peer). ite (str_dec p.name name) true false) ps

-- `GetByPublicKey`
unfoldable pub get_by_public_key : Str → Peers → Option Peer
get_by_public_key key ps = get_first (has_key key) ps

-- `GetByFingerprint`, for any function from keys to fingerprints.
abbrev pub get_by_fingerprint : (Str → Str) → Str → Peers → Option Peer
get_by_fingerprint fingerprint fp ps =
    get_first (λ (p : Peer). ite (str_dec (fingerprint p.public_key) fp) true false) ps

abbrev pub put_before : Peer → Option Peers → Option Peers
put_before p none = none
put_before p (some ps) = some (p ∷ ps)

-- The first peer with the key is changed; `none` when there is none.
unfoldable pub change_first : Str → (Peer → Peer) → Peers → Option Peers
change_first key f [] = none
change_first key f (p ∷ ps) =
    let rest = change_first key f ps in if has_key key p then some (f p ∷ ps) else put_before p rest

-- The first peer with the key is taken out.
unfoldable pub drop_first : Str → Peers → Option Peers
drop_first key [] = none
drop_first key (p ∷ ps) =
    let rest = drop_first key ps in if has_key key p then some ps else put_before p rest

-- `saves` tells which stores the file takes.
module _ (saves : Peers → Bool) where
  abbrev pub saved : Peers → Peers × Outcome
  saved ps = if saves ps then (ps, done) else (ps, not_saved)

  abbrev pub or_not_found : Option Peers → Peers → Peers × Outcome
  or_not_found none ps = (ps, not_found)
  or_not_found (some n) ps = saved n

  abbrev pub or_appended : Option Peers → Peer → Peers → Peers × Outcome
  or_appended none peer ps = saved (ps ++ peer ∷ [])
  or_appended (some n) peer ps = saved n

  -- `Add`
  unfoldable pub add : Peer → Peers → Peers × Outcome
  add peer ps = or_appended (change_first peer.public_key (λ p. peer) ps) peer ps

  -- `RemoveByPublicKey`
  unfoldable pub remove_by_public_key : Str → Peers → Peers × Outcome
  remove_by_public_key key ps = or_not_found (drop_first key ps) ps

  -- What the four methods below share.
  unfoldable pub change : Str → (Peer → Peer) → Peers → Peers × Outcome
  change key f ps = or_not_found (change_first key f ps) ps

  -- `UpdateAddress`
  abbrev pub update_address : Str → Str → Peers → Peers × Outcome
  update_address key address ps = change key (λ (p : Peer). record p { address = address }) ps

  -- `SetEnabled`
  abbrev pub set_enabled : Str → Bool → Peers → Peers × Outcome
  set_enabled key enabled ps = change key (λ (p : Peer). record p { enabled = enabled }) ps

  -- `SetInitiatedByUs`
  abbrev pub set_initiated_by_us : Str → Bool → Peers → Peers × Outcome
  set_initiated_by_us key initiated ps =
      change key (λ (p : Peer). record p { initiated_by_us = initiated }) ps

  -- `UpdateLastSeen`
  abbrev pub update_last_seen : ℕ → Str → Peers → Peers × Outcome
  update_last_seen now key ps = change key (λ (p : Peer). record p { last_seen = now }) ps
