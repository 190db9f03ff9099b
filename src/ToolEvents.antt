-- ===== src/ToolEvents.antt =====
-- `Tracker` (pkg/toolevents/tracker.go): what the coding agents in the panes are doing. A method is a
-- function from the tracker to the new tracker; a pointer to an event is the event, since no event is
-- changed after `Record` stamped it. Subscribers, logging and the file are left out.
pub mod Artifacts
pub mod Monitors
pub mod History
pub mod Consistent
pub mod Recorded
pub mod Kept
pub mod Frames
pub mod Rule
pub mod Turns
pub mod Prompts
pub mod Promotion
mod Tests
use termyard.Base.{
  ℕ, suc, ◌+◌, ◌-◌, ltb, leb, ◌==◌, if◌then◌else◌, ite, Bool, true, false, not, ◌&&◌, ◌||◌, List,
  [], ◌∷◌, ◌++◌, ◌*◌, length, map, Option, none, some, Str, codes, str_dec, ℕ_discrete, ◌≡◌, refl,
  mem_dec,
}
use termyard.Base.Map.{get, put, delete, keep}
use termyard.ToolEvents.Artifacts.{FileArtifact, is_blank, add_artifacts, without_path}

abbrev pub Time : Type 0
Time = ℕ

-- `unknown` is any other string.
pub data Status : Type 0 where
  active waiting completed error stuck : Status
  unknown : Str → Status

pub record Event : Type 0 where
  pub tool : Str
  pub tool_name : Str
  pub status : Status
  pub kind : Str
  pub host : Str
  pub host_name : Str
  pub session : Str
  pub window : ℕ
  pub pane : Str
  pub message : Str
  pub cwd : Str
  pub agent_session_id : Str
  pub timestamp : Time
  pub auto_detected : Bool
  pub user_prompt : Str
  pub agent_message : Str
  pub files : List Str
  pub artifacts : List (Option FileArtifact)

pub record PaneKey : Type 0 where
  pub host : Str
  pub session : Str
  pub window : ℕ
  pub pane : Str

unfoldable pub pane_key_dec : Discrete PaneKey
unfolding str_dec
pane_key_dec = hlevel (str_dec, ℕ_discrete)

-- `key` of `Record`
abbrev pub key_of : Event → PaneKey
key_of e = record { host = e.host; session = e.session; window = e.window; pane = e.pane }

pub record SessionMeta : Type 0 where
  pub tool : Str
  pub cwd : Str
  pub agent_session_id : Str
  pub message : Str
  pub user_prompt : Str
  pub last_agent_message : Str

abbrev pub zero_meta : SessionMeta
zero_meta = record {
  tool = [];
  cwd = [];
  agent_session_id = [];
  message = [];
  user_prompt = [];
  last_agent_message = [];
}

pub record ActiveState : Type 0 where
  pub evt : Event
  pub last_progress : Time
  pub flagged : Bool

pub record Tracker : Type 0 where
  pub events : List (PaneKey × Event)
  pub artifacts : List (Str × List FileArtifact)
  pub last_active : List (PaneKey × Event)
  pub active_panes : List (Str × ActiveState)
  pub active_turns : List (PaneKey × Event)
  pub session_meta : List (Str × SessionMeta)

-- `NewTracker`
abbrev pub new_tracker : Tracker
new_tracker = record {
  events = [];
  artifacts = [];
  last_active = [];
  active_panes = [];
  active_turns = [];
  session_meta = [];
}

-- `nativeWaitingTools[tool]`
unfoldable pub is_native : Str → Bool
unfolding str_dec
is_native tool =
    ite (str_dec tool (codes "claude")) true
      (ite (str_dec tool (codes "opencode")) true (ite (str_dec tool (codes "pi")) true false))

-- `host + "\x00" + session`
abbrev pub session_key : Str → Str → Str
session_key host session = host ++ 0 ∷ session

unfoldable pub track_event : Status → PaneKey → Event → Tracker → Tracker
track_event completed key e t = record t { events = delete pane_key_dec key t.events }
track_event active key e t = record t { events = delete pane_key_dec key t.events }
track_event status key e t = record t { events = put pane_key_dec key e t.events }

abbrev pub set_last : Status → PaneKey → Event → Tracker → Tracker
set_last active key e t = record t { last_active = put pane_key_dec key e t.last_active }
set_last status key e t = record t { last_active = delete pane_key_dec key t.last_active }

unfoldable pub track_last : PaneKey → Event → Tracker → Tracker
track_last key e t =
    if not (is_native e.tool) && not e.auto_detected then set_last e.status key e t else t

abbrev pub set_pane : Status → Event → Tracker → Tracker
set_pane active e t = record t {
  active_panes =
      put str_dec e.pane (record { evt = e; last_progress = e.timestamp; flagged = false })
        t.active_panes;
}
set_pane stuck e t = t
set_pane status e t = record t { active_panes = delete str_dec e.pane t.active_panes }

unfoldable pub track_pane : Event → Tracker → Tracker
track_pane e t =
    if is_blank e.host && not (is_blank e.pane) && not e.auto_detected
    then set_pane e.status e t
    else t

abbrev pub set_turn : Status → PaneKey → Event → Tracker → Tracker
set_turn active key e t = record t { active_turns = put pane_key_dec key e t.active_turns }
set_turn stuck key e t = t
set_turn status key e t = record t { active_turns = delete pane_key_dec key t.active_turns }

unfoldable pub track_turn : PaneKey → Event → Tracker → Tracker
track_turn key e t = if not e.auto_detected then set_turn e.status key e t else t

abbrev pub or_new : Str → Str → Str
or_new [] s = s
or_new (c ∷ r) s = c ∷ r

abbrev pub or_zero : Option SessionMeta → SessionMeta
or_zero none = zero_meta
or_zero (some m) = m

-- `meta` with what the event says: `or_new a b` is `a` unless it is empty.
unfoldable pub update_meta : Event → SessionMeta → SessionMeta
update_meta e m = record m {
  tool = or_new e.tool m.tool;
  cwd = or_new e.cwd m.cwd;
  agent_session_id = or_new e.agent_session_id m.agent_session_id;
  message = if e.auto_detected then m.message else or_new e.message m.message;
  user_prompt = or_new m.user_prompt e.user_prompt;
  last_agent_message = or_new e.agent_message m.last_agent_message;
}

-- `meta == (SessionMeta{})`
abbrev pub is_zero_meta : SessionMeta → Bool
is_zero_meta m =
    is_blank m.tool
    && is_blank m.cwd
    && is_blank m.agent_session_id
    && is_blank m.message
    && is_blank m.user_prompt
    && is_blank m.last_agent_message

abbrev pub put_meta : Str → SessionMeta → Tracker → Tracker
put_meta key m t =
    if is_zero_meta m then t else record t { session_meta = put str_dec key m t.session_meta }

unfoldable pub track_meta : Event → Tracker → Tracker
unfolding update_meta
track_meta e t =
    let key = session_key e.host e.session in
    put_meta key (update_meta e (or_zero (get str_dec key t.session_meta))) t

abbrev pub or_empty : Option (List FileArtifact) → List FileArtifact
or_empty none = []
or_empty (some arts) = arts

abbrev pub set_artifacts : Str → List FileArtifact → Tracker → Tracker
set_artifacts key [] t = record t { artifacts = delete str_dec key t.artifacts }
set_artifacts key (a ∷ arts) t = record t { artifacts = put str_dec key (a ∷ arts) t.artifacts }

-- `storeArtifacts`
unfoldable pub store_artifacts : Str → Str → List (Option FileArtifact) → Tracker → Tracker
unfolding add_artifacts
store_artifacts host session [] t = t
store_artifacts host session (a ∷ arts) t =
    let key = session_key host session in
    set_artifacts key (add_artifacts (or_empty (get str_dec key t.artifacts)) (a ∷ arts)) t

-- `Record` of an event that is stamped.
unfoldable pub record_stamped : Event → Tracker → Tracker
unfolding track_event track_last track_pane track_turn track_meta store_artifacts
record_stamped e t = store_artifacts e.host e.session e.artifacts (
    track_meta e (
      track_turn (key_of e) e
        (track_pane e (track_last (key_of e) e (track_event e.status (key_of e) e t)))))

-- `Record`
unfoldable pub record_event : Time → Event → Tracker → Tracker
unfolding record_stamped
record_event now e t = record_stamped (record e { timestamp = now }) t

-- `RecordArtifacts`
unfoldable pub record_artifacts : Str → List (Option FileArtifact) → Tracker → Tracker
unfolding store_artifacts
record_artifacts session arts t = store_artifacts [] session arts t

-- `StaleTimeout`, in nanoseconds
abbrev pub stale_timeout : Time
stale_timeout = 24 * 3600 * 1000000000

abbrev pub fresh : Time → Event → Bool
fresh now e = not (ltb stale_timeout (now - e.timestamp))

-- What `ActiveTurns` and `GetAll` do to the tracker; they return the entries that are left.
unfoldable pub prune_turns : Time → Tracker → Tracker
prune_turns now t = record t { active_turns = keep (fresh now) t.active_turns }

unfoldable pub prune_events : Time → Tracker → Tracker
prune_events now t = record t { events = keep (fresh now) t.events }

-- `Clear`
unfoldable pub clear : PaneKey → Tracker → Tracker
clear key t = record t { events = delete pane_key_dec key t.events }

-- `ClearAll`
unfoldable pub clear_all : Tracker → Tracker
clear_all t = record t { events = []; active_turns = [] }

-- `ClearArtifacts`
unfoldable pub clear_artifacts : Str → Str → Tracker → Tracker
clear_artifacts host session t = record t {
  artifacts = delete str_dec (session_key host session) t.artifacts;
}

unfoldable pub evict_from : Str → Str → Option (List FileArtifact) → Tracker → Tracker
evict_from key path none t = t
evict_from key path (some arts) t =
    let filtered = without_path path arts in
    if length filtered == length arts then t else set_artifacts key filtered t

-- `EvictArtifact`
unfoldable pub evict_artifact : Str → Str → Str → Tracker → Tracker
unfolding without_path evict_from
evict_artifact host session path t =
    let key = session_key host session in evict_from key path (get str_dec key t.artifacts) t
