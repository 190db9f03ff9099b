-- ===== src/Forwards.antt =====
-- `Store` (pkg/portforward/store.go): the ports that are exposed, some by a socat process each.
-- `Processes` is the operating system's side. Whether a kill succeeds is an argument of each call.
pub mod Owned
mod Tests
use termyard.Base.{
  ℕ, zero, suc, ◌==◌, if◌then◌else◌, Bool, true, false, List, [], ◌∷◌, Option, none, some, Str,
  ℕ_discrete,
}
use termyard.Base.Map.{get, put, delete}

-- `mode_proxy` stands for every mode that starts no process.
pub data Mode : Type 0 where
  mode_proxy : Mode
  mode_socat : Mode

pub record Forward : Type 0 where
  pub port : ℕ
  pub label : Str
  pub mode : Mode
  pub external_port : ℕ
  pub socat_pid : ℕ

-- The processes that were started and are not stopped, and those whose kill failed.
pub record Processes : Type 0 where
  pub running : List ℕ
  pub refused : List ℕ

pub record Store : Type 0 where
  pub forwards : List (ℕ × Forward)
  pub processes : Processes

-- `NewStore`
abbrev pub new_store : Store
new_store = record { forwards = []; processes = record { running = []; refused = [] } }

abbrev pub drop_process : ℕ → List ℕ → List ℕ
drop_process pid [] = []
drop_process pid (p ∷ ps) = let rest = drop_process pid ps in if p == pid then rest else p ∷ rest

-- `stopSocat`: the process with this number is gone, or there was an error and it is not. No caller
-- looks at the error.
unfoldable pub stop_socat : (ℕ → Bool) → ℕ → Processes → Processes
stop_socat kills pid ps =
    if kills pid
    then record ps { running = drop_process pid ps.running }
    else record ps { refused = pid ∷ ps.refused }

-- `if fwd.socatPID != 0 { stopSocat(fwd.socatPID) }`
unfoldable pub stop_forward : (ℕ → Bool) → Option Forward → Processes → Processes
stop_forward kills none ps = ps
stop_forward kills (some f) ps = if f.socat_pid == 0 then ps else stop_socat kills f.socat_pid ps

abbrev pub new_forward : ℕ → Str → Mode → ℕ → ℕ → Forward
new_forward port label mode external_port pid = record {
  port = port;
  label = label;
  mode = mode;
  external_port = if external_port == 0 then port else external_port;
  socat_pid = pid;
}

-- The end of `Add`: what `startSocat` returned is an error or the predecessor of a process number.
abbrev pub start_forward : Mode → Option ℕ → ℕ → Str → ℕ → Store → Store × Bool
start_forward mode_proxy started port label external_port s = (
  record s {
    forwards = put ℕ_discrete port (new_forward port label mode_proxy external_port 0) s.forwards;
  },
  false,
)
start_forward mode_socat none port label external_port s = (s, true)
start_forward mode_socat (some n) port label external_port s = (
  record s {
    forwards =
        put ℕ_discrete port (new_forward port label mode_socat external_port (suc n)) s.forwards;
    processes = record s.processes { running = suc n ∷ s.processes.running };
  },
  false,
)

-- `Add`, with the Boolean of an error.
unfoldable pub add_forward : (ℕ → Bool) → Option ℕ → ℕ → Str → Mode → ℕ → Store → Store × Bool
add_forward kills started port label mode external_port s =
    start_forward mode started port label external_port
      (record s { processes = stop_forward kills (get ℕ_discrete port s.forwards) s.processes })

-- `Remove`
unfoldable pub remove_forward : (ℕ → Bool) → ℕ → Store → Store
remove_forward kills port s = record s {
  forwards = delete ℕ_discrete port s.forwards;
  processes = stop_forward kills (get ℕ_discrete port s.forwards) s.processes;
}

abbrev pub stop_each : (ℕ → Bool) → List (ℕ × Forward) → Processes → Processes
stop_each kills [] ps = ps
stop_each kills ((port, f) ∷ m) ps = stop_each kills m (stop_forward kills (some f) ps)

-- `StopAll`
unfoldable pub stop_all : (ℕ → Bool) → Store → Store
stop_all kills s = record s { processes = stop_each kills s.forwards s.processes }
