-- ===== src/ToolEvents/Consistent.antt =====
-- What the maps of the tracker hold: each entry stands under its own key, and only where its status
-- allows it.
use termyard.Base.{◌≡◌, true, false, List, Str}
use termyard.Base.Map.{Entries}
use termyard.ToolEvents.Artifacts.{FileArtifact, is_blank}
use termyard.ToolEvents.Artifacts.Bounded.{IsBounded}
use termyard.ToolEvents.{
  Status, active, waiting, completed, error, stuck, unknown, Event, PaneKey, key_of, SessionMeta,
  ActiveState, Tracker, is_native,
}

abbrev pub IsActive : Status → Type 0
IsActive active = Unit
IsActive waiting = ⊥
IsActive completed = ⊥
IsActive error = ⊥
IsActive stuck = ⊥
IsActive (unknown s) = ⊥

-- The statuses of which the tracker keeps the event.
abbrev pub IsKept : Status → Type 0
IsKept active = ⊥
IsKept waiting = Unit
IsKept completed = ⊥
IsKept error = Unit
IsKept stuck = Unit
IsKept (unknown s) = Unit

abbrev pub EventFits : PaneKey → Event → Type 0
EventFits k e = (k ≡ key_of e) × IsKept e.status

-- The turn of an agent: opened by an active event of a hook.
abbrev pub TurnFits : PaneKey → Event → Type 0
TurnFits k e = (k ≡ key_of e) × IsActive e.status × (e.auto_detected ≡ false)

abbrev pub LastFits : PaneKey → Event → Type 0
LastFits k e = TurnFits k e × (is_native e.tool ≡ false)

abbrev pub PaneFits : Str → ActiveState → Type 0
PaneFits p s =
    (p ≡ s.evt.pane)
    × (is_blank s.evt.pane ≡ false)
    × (is_blank s.evt.host ≡ true)
    × IsActive s.evt.status
    × (s.evt.auto_detected ≡ false)

pub record IsConsistent (t : Tracker) : Type 0 where
  pub events : Entries EventFits t.events
  pub turns : Entries TurnFits t.active_turns
  pub lasts : Entries LastFits t.last_active
  pub panes : Entries PaneFits t.active_panes
  pub files : Entries (λ (k : Str) arts. IsBounded arts) t.artifacts

-- Replacing one of the maps.
pub with_events :
    (t : Tracker) (m : List (PaneKey × Event))
    → Entries EventFits m
    → IsConsistent t
    → IsConsistent (record t { events = m })
with_events t m p h = record {
  events = p;
  turns = h.turns;
  lasts = h.lasts;
  panes = h.panes;
  files = h.files;
}

pub with_turns :
    (t : Tracker) (m : List (PaneKey × Event))
    → Entries TurnFits m
    → IsConsistent t
    → IsConsistent (record t { active_turns = m })
with_turns t m p h = record {
  events = h.events;
  turns = p;
  lasts = h.lasts;
  panes = h.panes;
  files = h.files;
}

pub with_lasts :
    (t : Tracker) (m : List (PaneKey × Event))
    → Entries LastFits m
    → IsConsistent t
    → IsConsistent (record t { last_active = m })
with_lasts t m p h = record {
  events = h.events;
  turns = h.turns;
  lasts = p;
  panes = h.panes;
  files = h.files;
}

pub with_panes :
    (t : Tracker) (m : List (Str × ActiveState))
    → Entries PaneFits m
    → IsConsistent t
    → IsConsistent (record t { active_panes = m })
with_panes t m p h = record {
  events = h.events;
  turns = h.turns;
  lasts = h.lasts;
  panes = p;
  files = h.files;
}

pub with_files :
    (t : Tracker) (m : List (Str × List FileArtifact))
    → Entries (λ (k : Str) arts. IsBounded arts) m
    → IsConsistent t
    → IsConsistent (record t { artifacts = m })
with_files t m p h = record {
  events = h.events;
  turns = h.turns;
  lasts = h.lasts;
  panes = h.panes;
  files = p;
}

pub with_meta :
    (t : Tracker) (m : List (Str × SessionMeta))
    → IsConsistent t
    → IsConsistent (record t { session_meta = m })
with_meta t m h = record {
  events = h.events;
  turns = h.turns;
  lasts = h.lasts;
  panes = h.panes;
  files = h.files;
}
