-- ===== src/ToolEvents/Recorded.antt =====
-- `Record` keeps the maps of the tracker consistent.
use termyard.Base.{
  ◌≡◌, refl, sym, subst, if_rule, nor_false, Bool, true, false, not, ◌&&◌, List, [], ◌∷◌, Option,
  none, some, Str, str_dec,
}
use termyard.Base.Map.{get, put, delete, Entries-put, Entries-delete, Entries-get}
use termyard.ToolEvents.Artifacts.{FileArtifact, is_blank}
use termyard.ToolEvents.Artifacts.Bounded.{IsBounded, nil-IsBounded, add_artifacts-IsBounded}
use termyard.ToolEvents.{
  Time, Status, active, waiting, completed, error, stuck, unknown, Event, PaneKey, pane_key_dec,
  key_of, SessionMeta, Tracker, is_native, track_event, track_last, track_pane, track_turn,
  track_meta, session_key, or_empty, is_zero_meta, put_meta, set_last, set_pane, set_turn,
  set_artifacts, store_artifacts, record_stamped, record_event,
}
use termyard.ToolEvents.Consistent.{
  IsActive, IsKept, EventFits, TurnFits, LastFits, PaneFits, IsConsistent, with_events, with_turns,
  with_lasts, with_panes, with_files, with_meta,
}

drop_event :
    (k : PaneKey) (t : Tracker)
    → IsConsistent t
    → IsConsistent (record t { events = delete pane_key_dec k t.events })
drop_event k t h = with_events t _ (Entries-delete pane_key_dec EventFits k t.events h.events) h

keep_event :
    (e : Event) (t : Tracker)
    → IsKept e.status
    → IsConsistent t
    → IsConsistent (record t { events = put pane_key_dec (key_of e) e t.events })
keep_event e t p h =
    with_events t _ (Entries-put pane_key_dec EventFits (key_of e) e t.events (refl, p) h.events) h

track_event-IsConsistent :
    (s : Status) (e : Event) (t : Tracker)
    → e.status ≡ s
    → IsConsistent t
    → IsConsistent (track_event s (key_of e) e t)
unfolding track_event
track_event-IsConsistent active e t q h = drop_event (key_of e) t h
track_event-IsConsistent completed e t q h = drop_event (key_of e) t h
track_event-IsConsistent waiting e t q h = keep_event e t (subst IsKept (sym q) tt) h
track_event-IsConsistent error e t q h = keep_event e t (subst IsKept (sym q) tt) h
track_event-IsConsistent stuck e t q h = keep_event e t (subst IsKept (sym q) tt) h
track_event-IsConsistent (unknown s) e t q h = keep_event e t (subst IsKept (sym q) tt) h

set_last-IsConsistent :
    (s : Status) (e : Event) (t : Tracker)
    → e.status ≡ s
    → e.auto_detected ≡ false
    → is_native e.tool ≡ false
    → IsConsistent t
    → IsConsistent (set_last s (key_of e) e t)
set_last-IsConsistent active e t q a n h =
    with_lasts t _
      (Entries-put pane_key_dec LastFits (key_of e) e t.last_active
        ((refl, subst IsActive (sym q) tt, a), n) h.lasts)
      h
set_last-IsConsistent waiting e t q a n h =
    with_lasts t _ (Entries-delete pane_key_dec LastFits (key_of e) t.last_active h.lasts) h
set_last-IsConsistent completed e t q a n h =
    with_lasts t _ (Entries-delete pane_key_dec LastFits (key_of e) t.last_active h.lasts) h
set_last-IsConsistent error e t q a n h =
    with_lasts t _ (Entries-delete pane_key_dec LastFits (key_of e) t.last_active h.lasts) h
set_last-IsConsistent stuck e t q a n h =
    with_lasts t _ (Entries-delete pane_key_dec LastFits (key_of e) t.last_active h.lasts) h
set_last-IsConsistent (unknown s) e t q a n h =
    with_lasts t _ (Entries-delete pane_key_dec LastFits (key_of e) t.last_active h.lasts) h

track_last-IsConsistent :
    (e : Event) (t : Tracker) → IsConsistent t → IsConsistent (track_last (key_of e) e t)
unfolding track_last
track_last-IsConsistent e t h =
    if_rule IsConsistent (not (is_native e.tool) && not e.auto_detected)
      (λ q.
        let (n, a) = nor_false (is_native e.tool) e.auto_detected q in
        set_last-IsConsistent e.status e t refl a n h)
      (λ q. h)

set_pane-IsConsistent :
    (s : Status) (e : Event) (t : Tracker)
    → e.status ≡ s
    → is_blank e.host ≡ true
    → is_blank e.pane ≡ false
    → e.auto_detected ≡ false
    → IsConsistent t
    → IsConsistent (set_pane s e t)
set_pane-IsConsistent active e t q l b a h =
    with_panes t _
      (Entries-put str_dec PaneFits e.pane _ t.active_panes
        (refl, b, l, subst IsActive (sym q) tt, a) h.panes)
      h
set_pane-IsConsistent stuck e t q l b a h = h
set_pane-IsConsistent waiting e t q l b a h =
    with_panes t _ (Entries-delete str_dec PaneFits e.pane t.active_panes h.panes) h
set_pane-IsConsistent completed e t q l b a h =
    with_panes t _ (Entries-delete str_dec PaneFits e.pane t.active_panes h.panes) h
set_pane-IsConsistent error e t q l b a h =
    with_panes t _ (Entries-delete str_dec PaneFits e.pane t.active_panes h.panes) h
set_pane-IsConsistent (unknown s) e t q l b a h =
    with_panes t _ (Entries-delete str_dec PaneFits e.pane t.active_panes h.panes) h

local_hook : (a b c : Bool) → (a && not b && not c) ≡ true → (a ≡ true) × (b ≡ false) × (c ≡ false)
local_hook true false false q = (refl, refl, refl)
local_hook true false true q = absurd (cc q)
local_hook true true c q = absurd (cc q)
local_hook false b c q = absurd (cc q)

not-true : (b : Bool) → not b ≡ true → b ≡ false
not-true true q = absurd (cc q)
not-true false q = refl

track_pane-IsConsistent : (e : Event) (t : Tracker) → IsConsistent t → IsConsistent (track_pane e t)
unfolding track_pane
track_pane-IsConsistent e t h =
    if_rule IsConsistent (is_blank e.host && not (is_blank e.pane) && not e.auto_detected)
      (λ q.
        let (l, b, a) = local_hook (is_blank e.host) (is_blank e.pane) e.auto_detected q in
        set_pane-IsConsistent e.status e t refl l b a h)
      (λ q. h)

set_turn-IsConsistent :
    (s : Status) (e : Event) (t : Tracker)
    → e.status ≡ s
    → e.auto_detected ≡ false
    → IsConsistent t
    → IsConsistent (set_turn s (key_of e) e t)
set_turn-IsConsistent active e t q a h =
    with_turns t _
      (Entries-put pane_key_dec TurnFits (key_of e) e t.active_turns
        (refl, subst IsActive (sym q) tt, a) h.turns)
      h
set_turn-IsConsistent stuck e t q a h = h
set_turn-IsConsistent waiting e t q a h =
    with_turns t _ (Entries-delete pane_key_dec TurnFits (key_of e) t.active_turns h.turns) h
set_turn-IsConsistent completed e t q a h =
    with_turns t _ (Entries-delete pane_key_dec TurnFits (key_of e) t.active_turns h.turns) h
set_turn-IsConsistent error e t q a h =
    with_turns t _ (Entries-delete pane_key_dec TurnFits (key_of e) t.active_turns h.turns) h
set_turn-IsConsistent (unknown s) e t q a h =
    with_turns t _ (Entries-delete pane_key_dec TurnFits (key_of e) t.active_turns h.turns) h

track_turn-IsConsistent :
    (e : Event) (t : Tracker) → IsConsistent t → IsConsistent (track_turn (key_of e) e t)
unfolding track_turn
track_turn-IsConsistent e t h =
    if_rule IsConsistent (not e.auto_detected)
      (λ q. set_turn-IsConsistent e.status e t refl (not-true e.auto_detected q) h) (λ q. h)

put_meta-IsConsistent :
    (key : Str) (m : SessionMeta) (t : Tracker) → IsConsistent t → IsConsistent (put_meta key m t)
put_meta-IsConsistent key m t h =
    if_rule IsConsistent (is_zero_meta m) (λ q. h) (λ q. with_meta t _ h)

track_meta-IsConsistent : (e : Event) (t : Tracker) → IsConsistent t → IsConsistent (track_meta e t)
unfolding track_meta
track_meta-IsConsistent e t h = put_meta-IsConsistent _ _ t h

-- The artifacts of a key, or none, are bounded.
files_at :
    (key : Str) (t : Tracker) (o : Option (List FileArtifact))
    → get str_dec key t.artifacts ≡ o
    → IsConsistent t
    → IsBounded (or_empty o)
files_at key t none q h = nil-IsBounded
files_at key t (some arts) q h =
    Entries-get str_dec (λ (k : Str) arts. IsBounded arts) key arts t.artifacts h.files q

pub set_artifacts-IsConsistent :
    (key : Str) (arts : List FileArtifact) (t : Tracker)
    → IsBounded arts
    → IsConsistent t
    → IsConsistent (set_artifacts key arts t)
set_artifacts-IsConsistent key [] t b h =
    with_files t _ (Entries-delete str_dec _ key t.artifacts h.files) h
set_artifacts-IsConsistent key (a ∷ arts) t b h =
    with_files t _ (Entries-put str_dec _ key (a ∷ arts) t.artifacts b h.files) h

pub store_artifacts-IsConsistent :
    (host session : Str) (arts : List (Option FileArtifact)) (t : Tracker)
    → IsConsistent t
    → IsConsistent (store_artifacts host session arts t)
unfolding store_artifacts
store_artifacts-IsConsistent host session [] t h = h
store_artifacts-IsConsistent host session (a ∷ arts) t h =
    let key = session_key host session in
    set_artifacts-IsConsistent key _ t
      (add_artifacts-IsBounded _ (a ∷ arts) (files_at key t (get str_dec key t.artifacts) refl h)) h

pub record_stamped-IsConsistent :
    (e : Event) (t : Tracker) → IsConsistent t → IsConsistent (record_stamped e t)
unfolding record_stamped
record_stamped-IsConsistent e t h = store_artifacts-IsConsistent e.host e.session e.artifacts _ (
    track_meta-IsConsistent e _ (
      track_turn-IsConsistent e _ (
        track_pane-IsConsistent e _
          (track_last-IsConsistent e _ (track_event-IsConsistent e.status e t refl h)))))

pub record_event-IsConsistent :
    (now : Time) (e : Event) (t : Tracker) → IsConsistent t → IsConsistent (record_event now e t)
unfolding record_event
record_event-IsConsistent now e t h = record_stamped-IsConsistent (record e { timestamp = now }) t h
