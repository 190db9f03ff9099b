-- ===== src/ToolEvents/Monitors.antt =====
-- The monitors of `Tracker` (pkg/toolevents/tracker.go): what `promoteInactive`, `RecordProgress` and
-- `checkStuck` do at one tick. `clock 0` is the time that the method reads first, and `clock i` the
-- one at which it treats the `i`-th event after that.
use termyard.Base.{
  ℕ, suc, ◌-◌, ltb, if◌then◌else◌, Bool, true, false, not, ◌&&◌, List, [], ◌∷◌, Option, none, some,
  Str, codes, str_dec,
}
use termyard.Base.Map.{get, put, keep}
use termyard.ToolEvents.{
  Time, Status, active, waiting, stuck, Event, PaneKey, ActiveState, Tracker, record_event,
}

-- An event with no more than what the monitors fill in; `Record` stamps it.
unfoldable pub synthetic : Status → Str → Event → Event
synthetic status message e = record {
  tool = e.tool;
  tool_name = [];
  status = status;
  kind = [];
  host = e.host;
  host_name = [];
  session = e.session;
  window = e.window;
  pane = e.pane;
  message = message;
  cwd = [];
  agent_session_id = [];
  timestamp = 0;
  auto_detected = false;
  user_prompt = [];
  agent_message = [];
  files = [];
  artifacts = [];
}

abbrev pub attention : Str
attention = codes "May need attention"

-- Longer ago than `timeout`.
abbrev pub is_quiet : Time → Time → Time → Bool
is_quiet timeout now since = ltb timeout (now - since)

unfoldable pub to_promote : Time → Time → List (PaneKey × Event) → List Event
to_promote timeout now [] = []
to_promote timeout now ((k, e) ∷ m) =
    let rest = to_promote timeout now m in
    if is_quiet timeout now e.timestamp then e ∷ rest else rest

unfoldable pub promote_all : (ℕ → Time) → ℕ → List Event → Tracker → Tracker
unfolding synthetic
promote_all clock i [] t = t
promote_all clock i (e ∷ es) t =
    promote_all clock (suc i) es (record_event (clock i) (synthetic waiting attention e) t)

-- `promoteInactive`
unfoldable pub promote_inactive : (ℕ → Time) → Time → Tracker → Tracker
unfolding to_promote promote_all
promote_inactive clock timeout t =
    let now = clock 0 in
    let rest = keep (λ e. not (is_quiet timeout now e.timestamp)) t.last_active in
    promote_all clock 1 (to_promote timeout now t.last_active) (record t { last_active = rest })

unfoldable pub progress_of : (ℕ → Time) → Str → Option ActiveState → Tracker → Tracker
unfolding synthetic
progress_of clock pane none t = t
progress_of clock pane (some s) t =
    let s' = record s { last_progress = clock 0; flagged = false } in
    let t' = record t { active_panes = put str_dec pane s' t.active_panes } in
    if s.flagged then record_event (clock 1) (synthetic active [] s.evt) t' else t'

-- `RecordProgress`
unfoldable pub record_progress : (ℕ → Time) → Str → Tracker → Tracker
unfolding progress_of
record_progress clock pane t = progress_of clock pane (get str_dec pane t.active_panes) t

unfoldable pub candidates : Time → Time → List (Str × ActiveState) → List (Str × Event)
candidates timeout now [] = []
candidates timeout now ((p, s) ∷ m) =
    let rest = candidates timeout now m in
    if not s.flagged && is_quiet timeout now s.last_progress then (p, s.evt) ∷ rest else rest

abbrev pub no_progress : Str
no_progress = codes "No progress for a while, may be stuck"

-- The candidate's pane as it is when its turn comes.
unfoldable pub flag_pane : Time → Str → Event → Option ActiveState → Tracker → Tracker
unfolding synthetic
flag_pane now pane e none t = t
flag_pane now pane e (some s) t =
    let t' = record t {
      active_panes = put str_dec pane (record s { flagged = true }) t.active_panes;
    } in
    if s.flagged
    then t
    else record_event now (record (synthetic stuck no_progress e) { pane = pane }) t'

unfoldable pub flag_all : (Str → Bool) → (ℕ → Time) → ℕ → List (Str × Event) → Tracker → Tracker
unfolding flag_pane
flag_all at_prompt clock i [] t = t
flag_all at_prompt clock i ((p, e) ∷ cs) t =
    let t' = flag_pane (clock i) p e (get str_dec p t.active_panes) t in
    flag_all at_prompt clock (suc i) cs (if at_prompt p then t else t')

-- `checkStuck`; `at_prompt` is what `checkPrompt` says, false where there is none or it fails.
unfoldable pub check_stuck : (Str → Bool) → (ℕ → Time) → Time → Tracker → Tracker
unfolding candidates flag_all
check_stuck at_prompt clock timeout t =
    flag_all at_prompt clock 1 (candidates timeout (clock 0) t.active_panes) t
