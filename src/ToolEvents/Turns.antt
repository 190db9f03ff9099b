-- ===== src/ToolEvents/Turns.antt =====
-- An agent that waits or failed has no open turn.
use termyard.Base.{◌≡◌, refl, ◌∙◌, subst, if◌then◌else◌, Bool, true, false, not, List, none, some}
use termyard.Base.Map.{
  get, put, delete, keep, Entries, Entries-keep, Entries-put, Entries-delete, Entries-map,
  Entries-delete_ne, Entries-get, get-keep-none, get-put_ne, get-delete_self, get-delete-none,
}
use termyard.ToolEvents.{
  Time, Status, active, waiting, completed, error, stuck, unknown, Event, PaneKey, pane_key_dec,
  key_of, Tracker, new_tracker, record_stamped, record_event, prune_turns, prune_events, fresh,
  clear, clear_all,
}
use termyard.ToolEvents.History.{Call, run}
use termyard.ToolEvents.Frames.{events_after, turns_after, record_stamped-Writes}
use termyard.ToolEvents.Rule.{IsKeptBy, run-rule}

-- The statuses that close a turn and leave an event.
abbrev pub Closes : Status → Type 0
Closes active = ⊥
Closes waiting = Unit
Closes completed = ⊥
Closes error = Unit
Closes stuck = ⊥
Closes (unknown s) = Unit

abbrev NoTurn : List (PaneKey × Event) → PaneKey → Event → Type 0
NoTurn turns k e = Closes e.status → e.auto_detected ≡ false → get pane_key_dec k turns ≡ none

abbrev IsSettled : Tracker → Type 0
IsSettled t = Entries (NoTurn t.active_turns) t.events

put_vacuous :
    (e : Event) (ev turns : List (PaneKey × Event))
    → (Closes e.status → e.auto_detected ≡ false → ⊥)
    → Entries (NoTurn turns) ev
    → Entries (NoTurn turns) (put pane_key_dec (key_of e) e ev)
put_vacuous e ev turns n h =
    Entries-put pane_key_dec (NoTurn turns) (key_of e) e ev (λ c a. absurd (n c a)) h

-- A hook reports that the agent waits or failed.
put_closed :
    (e : Event) (ev turns : List (PaneKey × Event))
    → Entries (NoTurn turns) ev
    → Entries (NoTurn (delete pane_key_dec (key_of e) turns)) (put pane_key_dec (key_of e) e ev)
put_closed e ev turns h =
    let key = key_of e in
    let after = delete pane_key_dec key turns in
    Entries-put pane_key_dec (NoTurn after) key e ev (λ c a. get-delete_self pane_key_dec key turns)
      (Entries-map (NoTurn turns) (NoTurn after) ev
        (λ k v f c a. get-delete-none pane_key_dec k key turns (f c a)) h)

hook-Settled :
    (s : Status) (e : Event) (ev turns : List (PaneKey × Event))
    → e.status ≡ s
    → Entries (NoTurn turns) ev
    → Entries (NoTurn (turns_after s e turns)) (events_after s e ev)
hook-Settled active e ev turns q h =
    let key = key_of e in
    Entries-delete_ne (NoTurn turns) (NoTurn (put pane_key_dec key e turns)) pane_key_dec key ev
      (λ k v n f c a. get-put_ne pane_key_dec k key e turns n ∙ f c a) h
hook-Settled completed e ev turns q h =
    let key = key_of e in
    Entries-delete_ne (NoTurn turns) (NoTurn (delete pane_key_dec key turns)) pane_key_dec key ev
      (λ k v n f c a. get-delete-none pane_key_dec k key turns (f c a)) h
hook-Settled waiting e ev turns q h = put_closed e ev turns h
hook-Settled error e ev turns q h = put_closed e ev turns h
hook-Settled (unknown s) e ev turns q h = put_closed e ev turns h
hook-Settled stuck e ev turns q h = put_vacuous e ev turns (λ c a. subst Closes q c) h

-- An event that was not sent by a hook leaves the turns alone.
auto-Settled :
    (s : Status) (e : Event) (ev turns : List (PaneKey × Event))
    → e.auto_detected ≡ true
    → Entries (NoTurn turns) ev
    → Entries (NoTurn turns) (events_after s e ev)
auto-Settled active e ev turns q h = Entries-delete pane_key_dec (NoTurn turns) (key_of e) ev h
auto-Settled completed e ev turns q h = Entries-delete pane_key_dec (NoTurn turns) (key_of e) ev h
auto-Settled waiting e ev turns q h = put_vacuous e ev turns (λ c a. cc (a, q)) h
auto-Settled error e ev turns q h = put_vacuous e ev turns (λ c a. cc (a, q)) h
auto-Settled stuck e ev turns q h = put_vacuous e ev turns (λ c a. cc (a, q)) h
auto-Settled (unknown s) e ev turns q h = put_vacuous e ev turns (λ c a. cc (a, q)) h

written-Settled :
    (b : Bool) (e : Event) (ev turns : List (PaneKey × Event))
    → e.auto_detected ≡ b
    → Entries (NoTurn turns) ev
    → Entries
        (NoTurn (if not b then turns_after e.status e turns else turns))
        (events_after e.status e ev)
written-Settled true e ev turns q h = auto-Settled e.status e ev turns q h
written-Settled false e ev turns q h = hook-Settled e.status e ev turns refl h

-- Settled is about two of the maps.
moved_maps :
    (t u : Tracker)
    → u.events ≡ t.events
    → u.active_turns ≡ t.active_turns
    → IsSettled t
    → IsSettled u
moved_maps t u p q h = rw (p, q) h

record_stamped-IsSettled : (e : Event) (t : Tracker) → IsSettled t → IsSettled (record_stamped e t)
record_stamped-IsSettled e t h =
    let w = record_stamped-Writes e t in
    rw (w.events, w.turns) (written-Settled e.auto_detected e t.events t.active_turns refl h)

record_event-IsSettled :
    (now : Time) (e : Event) (t : Tracker) → IsSettled t → IsSettled (record_event now e t)
unfolding record_event
record_event-IsSettled now e t h = record_stamped-IsSettled (record e { timestamp = now }) t h

IsSettled-IsKeptBy : IsKeptBy IsSettled
unfolding prune_turns prune_events clear clear_all
IsSettled-IsKeptBy = record {
  records = record_event-IsSettled;
  same = λ t u s h. moved_maps t u s.events s.turns h;
  prunes_turns = λ now t h.
      Entries-map (NoTurn t.active_turns) (NoTurn (keep (fresh now) t.active_turns)) t.events
        (λ k v f c a. get-keep-none pane_key_dec (fresh now) k t.active_turns (f c a)) h;
  prunes_events = λ now t h. Entries-keep (NoTurn t.active_turns) (fresh now) t.events h;
  clears = λ key t h. Entries-delete pane_key_dec (NoTurn t.active_turns) key t.events h;
  clears_all = λ t h. tt;
}

-- After any history of a new tracker, a pane that is tracked with an event of a hook other than a stuck
-- one (the agent waits or failed) has no open turn.
pub run-NoTurn :
    (calls : List Call) (k : PaneKey) (e : Event)
    → get pane_key_dec k (run calls new_tracker).events ≡ some e
    → Closes e.status
    → e.auto_detected ≡ false
    → get pane_key_dec k (run calls new_tracker).active_turns ≡ none
run-NoTurn calls k e q c a =
    let t = run calls new_tracker in
    Entries-get pane_key_dec (NoTurn t.active_turns) k e t.events
      (run-rule IsSettled IsSettled-IsKeptBy calls new_tracker tt) q c a
