-- ===== src/Links/Methods.antt =====
-- The methods of the supervisor on the store of peers and the links together.
use termyard.Base.{List, [], ◌∷◌, ℕ, ℕ, Bool, true, false, [], ◌∷◌, Option, none, some, Str}
use termyard.Peers.{
  Peer, Peers, Outcome, done, not_found, not_saved, get_by_public_key, add, remove_by_public_key,
  set_enabled, set_initiated_by_us,
}
use termyard.Links.{
  LinkStatus, set_status, LinkSupervisor, drop_link, spawn_link, disable_link, cancel_key,
  flip_role,
}

abbrev pub State : Type 0
State = Peers × LinkSupervisor

-- `Start`, after it has the list of peers.
unfoldable pub spawn_all : Peers → LinkSupervisor → LinkSupervisor
spawn_all [] s = s
spawn_all (p ∷ ps) s = spawn_all ps (spawn_link p s)

-- `Start`
unfoldable pub start : State → State
start (ps, s) = (ps, spawn_all ps (record s { started = true }))

abbrev pub spawn_if_done : Outcome → Peer → LinkSupervisor → LinkSupervisor
spawn_if_done done p s = spawn_link p s
spawn_if_done not_found p s = s
spawn_if_done not_saved p s = s

abbrev pub toggle : Bool → Peer → LinkSupervisor → LinkSupervisor
toggle true p s = spawn_link p s
toggle false p s = disable_link p s

-- The end of `SetEnabled`, with what `GetByPublicKey` found.
abbrev pub toggle_found : Outcome → Bool → Option Peer → LinkSupervisor → LinkSupervisor × Outcome
toggle_found done enabled none s = (s, not_found)
toggle_found done enabled (some p) s = (toggle enabled p s, done)
toggle_found not_found enabled o s = (s, not_found)
toggle_found not_saved enabled o s = (s, not_saved)

abbrev pub reconnect_found : Str → Option Peer → LinkSupervisor → LinkSupervisor
reconnect_found key none s = s
reconnect_found key (some p) s = spawn_link p (cancel_key key s)

-- `ReconnectNow`, without its message to the manager.
unfoldable pub reconnect_now : Str → State → State
reconnect_now key (ps, s) = (ps, reconnect_found key (get_by_public_key key ps) s)

module _ (saves : Peers → Bool) where
  -- `AddPeer`
  unfoldable pub add_peer : Peer → State → State × Outcome
  add_peer p (ps, s) = let r = add saves p ps in ((r.0, spawn_if_done r.1 p s), r.1)

  abbrev pub remove_found : Str → Option Peer → State → State × Outcome
  remove_found key none t = (t, not_found)
  remove_found key (some p) (ps, s) =
      let r = remove_by_public_key saves key ps in ((r.0, drop_link key s), r.1)

  -- `RemovePeer`, without its messages to the other machine and to the manager.
  unfoldable pub remove_peer : Str → State → State × Outcome
  remove_peer key (ps, s) = remove_found key (get_by_public_key key ps) (ps, s)

  -- `SetEnabled`
  unfoldable pub enable_peer : Str → Bool → State → State × Outcome
  enable_peer key enabled (ps, s) =
      let r = set_enabled saves key enabled ps in
      let t = toggle_found r.1 enabled (get_by_public_key key r.0) s in ((r.0, t.0), t.1)

  -- The answer "already connected" to the goroutine `n` of the peer with this key.
  unfoldable pub already_connected : ℕ → Str → State → State
  already_connected n key (ps, s) = ((set_initiated_by_us saves key false ps).0, flip_role n s)

-- Histories.
pub data Method : Type 0 where
  starts : Method
  adds_peer : Peer → Method
  removes_peer : Str → Method
  enables_peer : Str → Bool → Method
  reconnects : Str → Method
  is_connected : ℕ → Str → Method
  reports_status : ℕ → LinkStatus → Str → ℕ → Method

abbrev pub call_method : (Peers → Bool) → Method → State → State
call_method saves starts t = start t
call_method saves (adds_peer p) t = (add_peer saves p t).0
call_method saves (removes_peer key) t = (remove_peer saves key t).0
call_method saves (enables_peer key enabled) t = (enable_peer saves key enabled t).0
call_method saves (reconnects key) t = reconnect_now key t
call_method saves (is_connected n key) t = already_connected saves n key t
call_method saves (reports_status n status err next) (ps, s) = (ps, set_status n status err next s)

unfoldable pub run_methods : (Peers → Bool) → List Method → State → State
run_methods saves [] t = t
run_methods saves (c ∷ cs) t = run_methods saves cs (call_method saves c t)
