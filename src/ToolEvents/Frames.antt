-- ===== src/ToolEvents/Frames.antt =====
-- What `Record` does to each of the maps.
use termyard.Base.{
  ◌≡◌, refl, ap, ◌∙◌, if◌then◌else◌, if_rule, true, false, not, ◌&&◌, List, [], ◌∷◌, Option, Str,
  str_dec,
}
use termyard.Base.Map.{get, put, delete}
use termyard.ToolEvents.Artifacts.{FileArtifact, is_blank}
use termyard.ToolEvents.{
  Status, active, waiting, completed, error, stuck, unknown, Event, PaneKey, pane_key_dec, key_of,
  SessionMeta, Tracker, is_native, track_event, track_last, track_pane, track_turn, track_meta,
  set_last, set_pane, set_turn, set_artifacts, store_artifacts, record_stamped, session_key,
  or_zero, update_meta, put_meta, is_zero_meta,
}

-- The maps that the middle steps of `Record` leave alone.
pub record SameMaps (t u : Tracker) : Type 0 where
  pub events : u.events ≡ t.events
  pub turns : u.active_turns ≡ t.active_turns
  pub meta : u.session_meta ≡ t.session_meta

pub SameMaps-refl : (t : Tracker) → SameMaps t t
SameMaps-refl t = record { events = refl; turns = refl; meta = refl }

pub SameMaps-trans : {t u v : Tracker} → SameMaps t u → SameMaps u v → SameMaps t v
SameMaps-trans h k = record {
  events = k.events ∙ h.events;
  turns = k.turns ∙ h.turns;
  meta = k.meta ∙ h.meta;
}

set_last-SameMaps :
    (s : Status) (k : PaneKey) (e : Event) (t : Tracker) → SameMaps t (set_last s k e t)
set_last-SameMaps active k e t = record { events = refl; turns = refl; meta = refl }
set_last-SameMaps waiting k e t = record { events = refl; turns = refl; meta = refl }
set_last-SameMaps completed k e t = record { events = refl; turns = refl; meta = refl }
set_last-SameMaps error k e t = record { events = refl; turns = refl; meta = refl }
set_last-SameMaps stuck k e t = record { events = refl; turns = refl; meta = refl }
set_last-SameMaps (unknown s) k e t = record { events = refl; turns = refl; meta = refl }

track_last-SameMaps : (k : PaneKey) (e : Event) (t : Tracker) → SameMaps t (track_last k e t)
unfolding track_last
track_last-SameMaps k e t =
    if_rule (SameMaps t) (not (is_native e.tool) && not e.auto_detected)
      (λ _. set_last-SameMaps e.status k e t) (λ _. SameMaps-refl t)

set_pane-SameMaps : (s : Status) (e : Event) (t : Tracker) → SameMaps t (set_pane s e t)
set_pane-SameMaps active e t = record { events = refl; turns = refl; meta = refl }
set_pane-SameMaps waiting e t = record { events = refl; turns = refl; meta = refl }
set_pane-SameMaps completed e t = record { events = refl; turns = refl; meta = refl }
set_pane-SameMaps error e t = record { events = refl; turns = refl; meta = refl }
set_pane-SameMaps stuck e t = record { events = refl; turns = refl; meta = refl }
set_pane-SameMaps (unknown s) e t = record { events = refl; turns = refl; meta = refl }

track_pane-SameMaps : (e : Event) (t : Tracker) → SameMaps t (track_pane e t)
unfolding track_pane
track_pane-SameMaps e t =
    if_rule (SameMaps t) (is_blank e.host && not (is_blank e.pane) && not e.auto_detected)
      (λ _. set_pane-SameMaps e.status e t) (λ _. SameMaps-refl t)

pub set_artifacts-SameMaps :
    (key : Str) (arts : List FileArtifact) (t : Tracker) → SameMaps t (set_artifacts key arts t)
set_artifacts-SameMaps key [] t = record { events = refl; turns = refl; meta = refl }
set_artifacts-SameMaps key (a ∷ arts) t = record { events = refl; turns = refl; meta = refl }

pub store_artifacts-SameMaps :
    (host session : Str) (arts : List (Option FileArtifact)) (t : Tracker)
    → SameMaps t (store_artifacts host session arts t)
unfolding store_artifacts
store_artifacts-SameMaps host session [] t = SameMaps-refl t
store_artifacts-SameMaps host session (a ∷ arts) t = set_artifacts-SameMaps _ _ t

-- The tracked events after `Record`.
abbrev pub events_after : Status → Event → List (PaneKey × Event) → List (PaneKey × Event)
events_after active e m = delete pane_key_dec (key_of e) m
events_after completed e m = delete pane_key_dec (key_of e) m
events_after waiting e m = put pane_key_dec (key_of e) e m
events_after error e m = put pane_key_dec (key_of e) e m
events_after stuck e m = put pane_key_dec (key_of e) e m
events_after (unknown s) e m = put pane_key_dec (key_of e) e m

-- The turns after `Record` of an event of a hook.
abbrev pub turns_after : Status → Event → List (PaneKey × Event) → List (PaneKey × Event)
turns_after active e m = put pane_key_dec (key_of e) e m
turns_after completed e m = delete pane_key_dec (key_of e) m
turns_after waiting e m = delete pane_key_dec (key_of e) m
turns_after error e m = delete pane_key_dec (key_of e) m
turns_after stuck e m = m
turns_after (unknown s) e m = delete pane_key_dec (key_of e) m

abbrev pub meta_after : Event → List (Str × SessionMeta) → List (Str × SessionMeta)
meta_after e m =
    let key = session_key e.host e.session in
    let x = update_meta e (or_zero (get str_dec key m)) in
    if is_zero_meta x then m else put str_dec key x m

abbrev pub turns_written : Event → List (PaneKey × Event) → List (PaneKey × Event)
turns_written e m = if not e.auto_detected then turns_after e.status e m else m

-- The three maps after an event.
pub record Writes (e : Event) (t u : Tracker) : Type 0 where
  pub events : u.events ≡ events_after e.status e t.events
  pub turns : u.active_turns ≡ turns_written e t.active_turns
  pub meta : u.session_meta ≡ meta_after e t.session_meta

-- A tracker that differs in the tracked events, in the turns, in the metadata.
record OnlyEvents (m : List (PaneKey × Event)) (t u : Tracker) : Type 0 where
  events : u.events ≡ m
  turns : u.active_turns ≡ t.active_turns
  meta : u.session_meta ≡ t.session_meta

record OnlyTurns (m : List (PaneKey × Event)) (t u : Tracker) : Type 0 where
  events : u.events ≡ t.events
  turns : u.active_turns ≡ m
  meta : u.session_meta ≡ t.session_meta

record OnlyMeta (m : List (Str × SessionMeta)) (t u : Tracker) : Type 0 where
  events : u.events ≡ t.events
  turns : u.active_turns ≡ t.active_turns
  meta : u.session_meta ≡ m

track_event-OnlyEvents :
    (s : Status) (e : Event) (t : Tracker)
    → OnlyEvents (events_after s e t.events) t (track_event s (key_of e) e t)
unfolding track_event
track_event-OnlyEvents active e t = record { events = refl; turns = refl; meta = refl }
track_event-OnlyEvents waiting e t = record { events = refl; turns = refl; meta = refl }
track_event-OnlyEvents completed e t = record { events = refl; turns = refl; meta = refl }
track_event-OnlyEvents error e t = record { events = refl; turns = refl; meta = refl }
track_event-OnlyEvents stuck e t = record { events = refl; turns = refl; meta = refl }
track_event-OnlyEvents (unknown s) e t = record { events = refl; turns = refl; meta = refl }

set_turn-OnlyTurns :
    (s : Status) (e : Event) (t : Tracker)
    → OnlyTurns (turns_after s e t.active_turns) t (set_turn s (key_of e) e t)
set_turn-OnlyTurns active e t = record { events = refl; turns = refl; meta = refl }
set_turn-OnlyTurns waiting e t = record { events = refl; turns = refl; meta = refl }
set_turn-OnlyTurns completed e t = record { events = refl; turns = refl; meta = refl }
set_turn-OnlyTurns error e t = record { events = refl; turns = refl; meta = refl }
set_turn-OnlyTurns stuck e t = record { events = refl; turns = refl; meta = refl }
set_turn-OnlyTurns (unknown s) e t = record { events = refl; turns = refl; meta = refl }

track_turn-OnlyTurns :
    (e : Event) (t : Tracker)
    → OnlyTurns (turns_written e t.active_turns) t (track_turn (key_of e) e t)
unfolding track_turn
track_turn-OnlyTurns e t =
    elim (not e.auto_detected)
      as (λ b.
        OnlyTurns (if b then turns_after e.status e t.active_turns else t.active_turns) t
          (if b then set_turn e.status (key_of e) e t else t)) [
            | true ↦ set_turn-OnlyTurns e.status e t
            | false ↦ record { events = refl; turns = refl; meta = refl }
          ]

put_meta-OnlyMeta :
    (key : Str) (x : SessionMeta) (t : Tracker)
    → OnlyMeta
        (if is_zero_meta x then t.session_meta else put str_dec key x t.session_meta)
        t
        (put_meta key x t)
put_meta-OnlyMeta key x t =
    elim (is_zero_meta x)
      as (λ b.
        OnlyMeta (if b then t.session_meta else put str_dec key x t.session_meta) t
          (if b then t else record t { session_meta = put str_dec key x t.session_meta })) [
            | true ↦ record { events = refl; turns = refl; meta = refl }
            | false ↦ record { events = refl; turns = refl; meta = refl }
          ]

track_meta-OnlyMeta :
    (e : Event) (t : Tracker) → OnlyMeta (meta_after e t.session_meta) t (track_meta e t)
unfolding track_meta
track_meta-OnlyMeta e t = put_meta-OnlyMeta _ _ t

pub record_stamped-Writes : (e : Event) (t : Tracker) → Writes e t (record_stamped e t)
unfolding record_stamped
record_stamped-Writes e t =
    let a = track_event-OnlyEvents e.status e t in
    let b = SameMaps-trans (track_last-SameMaps (key_of e) e _) (track_pane-SameMaps e _) in
    let c = track_turn-OnlyTurns e _ in
    let d = track_meta-OnlyMeta e _ in
    let f = store_artifacts-SameMaps e.host e.session e.artifacts _ in
    record {
      events = f.events ∙ d.events ∙ c.events ∙ b.events ∙ a.events;
      turns = f.turns ∙ d.turns ∙ c.turns ∙ ap (turns_written e) (b.turns ∙ a.turns);
      meta = f.meta ∙ d.meta ∙ ap (meta_after e) (c.meta ∙ b.meta ∙ a.meta);
    }
