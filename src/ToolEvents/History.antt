-- ===== src/ToolEvents/History.antt =====
-- Any history of calls of the methods of `Tracker`.
use termyard.Base.{ℕ, List, [], ◌∷◌, Option, Bool, Str}
use termyard.ToolEvents.{
  Time, Event, PaneKey, Tracker, record_event, record_artifacts, prune_turns, prune_events, clear,
  clear_all, clear_artifacts, evict_artifact,
}
use termyard.ToolEvents.Artifacts.{FileArtifact}
use termyard.ToolEvents.Monitors.{promote_inactive, record_progress, check_stuck}

pub data Call : Type 0 where
  records : Time → Event → Call
  records_artifacts : Str → List (Option FileArtifact) → Call
  gets_turns : Time → Call
  gets_all : Time → Call
  clears : PaneKey → Call
  clears_all : Call
  clears_artifacts : Str → Str → Call
  evicts : Str → Str → Str → Call
  promotes : (ℕ → Time) → Time → Call
  progresses : (ℕ → Time) → Str → Call
  checks : (Str → Bool) → (ℕ → Time) → Time → Call

unfoldable pub step : Call → Tracker → Tracker
step (records now e) t = record_event now e t
step (records_artifacts session arts) t = record_artifacts session arts t
step (gets_turns now) t = prune_turns now t
step (gets_all now) t = prune_events now t
step (clears key) t = clear key t
step clears_all t = clear_all t
step (clears_artifacts host session) t = clear_artifacts host session t
step (evicts host session path) t = evict_artifact host session path t
step (promotes clock timeout) t = promote_inactive clock timeout t
step (progresses clock pane) t = record_progress clock pane t
step (checks at_prompt clock timeout) t = check_stuck at_prompt clock timeout t

unfoldable pub run : List Call → Tracker → Tracker
run [] t = t
run (c ∷ calls) t = run calls (step c t)
