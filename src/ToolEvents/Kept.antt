-- ===== src/ToolEvents/Kept.antt =====
-- Every method keeps the maps of the tracker consistent.
use termyard.Base.{
  ℕ, suc, ◌≡◌, refl, if_rule, Bool, true, false, not, ◌==◌, List, [], ◌∷◌, Option, none, some, Str,
  str_dec, length,
}
use termyard.Base.Map.{get, put, Entries-keep, Entries-put, Entries-delete, Entries-get}
use termyard.ToolEvents.Artifacts.{FileArtifact, without_path}
use termyard.ToolEvents.Artifacts.Bounded.{IsBounded, without_path-IsBounded}
use termyard.ToolEvents.{
  Time, waiting, stuck, active, Event, pane_key_dec, ActiveState, Tracker, new_tracker,
  record_artifacts, prune_turns, prune_events, fresh, clear, clear_all, clear_artifacts, evict_from,
  evict_artifact, session_key,
}
use termyard.ToolEvents.Monitors.{
  synthetic, attention, is_quiet, to_promote, promote_all, promote_inactive, progress_of,
  record_progress, candidates, flag_pane, flag_all, check_stuck, no_progress,
}
use termyard.ToolEvents.History.{
  Call, records, records_artifacts, gets_turns, gets_all, clears, clears_all, clears_artifacts,
  evicts, promotes, progresses, checks, step, run,
}
use termyard.ToolEvents.Consistent.{
  EventFits, TurnFits, LastFits, PaneFits, IsConsistent, with_events, with_turns, with_lasts,
  with_panes, with_files,
}
use termyard.ToolEvents.Recorded.{
  record_event-IsConsistent, set_artifacts-IsConsistent, store_artifacts-IsConsistent,
}

clear_all-IsConsistent : (t : Tracker) → IsConsistent t → IsConsistent (clear_all t)
unfolding clear_all
clear_all-IsConsistent t h = with_turns (record t { events = [] }) [] tt (with_events t [] tt h)

evict_from-IsConsistent :
    (key path : Str) (o : Option (List FileArtifact)) (t : Tracker)
    → get str_dec key t.artifacts ≡ o
    → IsConsistent t
    → IsConsistent (evict_from key path o t)
unfolding evict_from
evict_from-IsConsistent key path none t q h = h
evict_from-IsConsistent key path (some arts) t q h =
    if_rule IsConsistent (length (without_path path arts) == length arts) (λ _. h)
      (λ _.
        set_artifacts-IsConsistent key (without_path path arts) t
          (without_path-IsBounded path arts
            (Entries-get str_dec (λ (k : Str) arts. IsBounded arts) key arts t.artifacts h.files q))
          h)

promote_all-IsConsistent :
    (clock : ℕ → Time) (i : ℕ) (es : List Event) (t : Tracker)
    → IsConsistent t
    → IsConsistent (promote_all clock i es t)
unfolding promote_all
promote_all-IsConsistent clock i [] t h = h
promote_all-IsConsistent clock i (e ∷ es) t h =
    promote_all-IsConsistent clock (suc i) es _
      (record_event-IsConsistent (clock i) (synthetic waiting attention e) t h)

promote_inactive-IsConsistent :
    (clock : ℕ → Time) (timeout : Time) (t : Tracker)
    → IsConsistent t
    → IsConsistent (promote_inactive clock timeout t)
unfolding promote_inactive
promote_inactive-IsConsistent clock timeout t h =
    promote_all-IsConsistent clock 1 (to_promote timeout (clock 0) t.last_active) _ (
      with_lasts t _
        (Entries-keep LastFits (λ e. not (is_quiet timeout (clock 0) e.timestamp)) t.last_active
          h.lasts)
        h)

-- Another progress time or flag for a pane.
set_state-IsConsistent :
    (pane : Str) (s u : ActiveState) (t : Tracker)
    → get str_dec pane t.active_panes ≡ some s
    → u.evt ≡ s.evt
    → IsConsistent t
    → IsConsistent (record t { active_panes = put str_dec pane u t.active_panes })
set_state-IsConsistent pane s u t q e h =
    with_panes t _
      (Entries-put str_dec PaneFits pane u t.active_panes
        (rw e (Entries-get str_dec PaneFits pane s t.active_panes h.panes q)) h.panes)
      h

progress_of-IsConsistent :
    (clock : ℕ → Time) (pane : Str) (o : Option ActiveState) (t : Tracker)
    → get str_dec pane t.active_panes ≡ o
    → IsConsistent t
    → IsConsistent (progress_of clock pane o t)
unfolding progress_of
progress_of-IsConsistent clock pane none t q h = h
progress_of-IsConsistent clock pane (some s) t q h =
    let k =
      set_state-IsConsistent pane s (record s { last_progress = clock 0; flagged = false }) t q refl
        h in
    if_rule IsConsistent s.flagged
      (λ _. record_event-IsConsistent (clock 1) (synthetic active [] s.evt) _ k) (λ _. k)

flag_pane-IsConsistent :
    (now : Time) (pane : Str) (e : Event) (o : Option ActiveState) (t : Tracker)
    → get str_dec pane t.active_panes ≡ o
    → IsConsistent t
    → IsConsistent (flag_pane now pane e o t)
unfolding flag_pane
flag_pane-IsConsistent now pane e none t q h = h
flag_pane-IsConsistent now pane e (some s) t q h =
    if_rule IsConsistent s.flagged (λ _. h)
      (λ _.
        record_event-IsConsistent now (record (synthetic stuck no_progress e) { pane = pane }) _
          (set_state-IsConsistent pane s (record s { flagged = true }) t q refl h))

flag_all-IsConsistent :
    (at_prompt : Str → Bool) (clock : ℕ → Time) (i : ℕ) (cs : List (Str × Event)) (t : Tracker)
    → IsConsistent t
    → IsConsistent (flag_all at_prompt clock i cs t)
unfolding flag_all
flag_all-IsConsistent at_prompt clock i [] t h = h
flag_all-IsConsistent at_prompt clock i ((p, e) ∷ cs) t h =
    flag_all-IsConsistent at_prompt clock (suc i) cs _ (
      if_rule IsConsistent (at_prompt p) (λ _. h)
        (λ _. flag_pane-IsConsistent (clock i) p e (get str_dec p t.active_panes) t refl h))

step-IsConsistent : (c : Call) (t : Tracker) → IsConsistent t → IsConsistent (step c t)
unfolding step record_artifacts prune_turns prune_events clear clear_artifacts evict_artifact
    record_progress check_stuck
step-IsConsistent (records now e) t h = record_event-IsConsistent now e t h
step-IsConsistent (records_artifacts session arts) t h =
    store_artifacts-IsConsistent [] session arts t h
step-IsConsistent (gets_turns now) t h =
    with_turns t _ (Entries-keep TurnFits (fresh now) t.active_turns h.turns) h
step-IsConsistent (gets_all now) t h =
    with_events t _ (Entries-keep EventFits (fresh now) t.events h.events) h
step-IsConsistent (clears key) t h =
    with_events t _ (Entries-delete pane_key_dec EventFits key t.events h.events) h
step-IsConsistent clears_all t h = clear_all-IsConsistent t h
step-IsConsistent (clears_artifacts host session) t h =
    with_files t _ (Entries-delete str_dec _ (session_key host session) t.artifacts h.files) h
step-IsConsistent (evicts host session path) t h =
    evict_from-IsConsistent (session_key host session) path _ t refl h
step-IsConsistent (promotes clock timeout) t h = promote_inactive-IsConsistent clock timeout t h
step-IsConsistent (progresses clock pane) t h = progress_of-IsConsistent clock pane _ t refl h
step-IsConsistent (checks at_prompt clock timeout) t h =
    flag_all-IsConsistent at_prompt clock 1 (candidates timeout (clock 0) t.active_panes) t h

run_from-IsConsistent :
    (calls : List Call) (t : Tracker) → IsConsistent t → IsConsistent (run calls t)
unfolding run
run_from-IsConsistent [] t h = h
run_from-IsConsistent (c ∷ calls) t h =
    run_from-IsConsistent calls (step c t) (step-IsConsistent c t h)

pub run-IsConsistent : (calls : List Call) → IsConsistent (run calls new_tracker)
run-IsConsistent calls =
    run_from-IsConsistent calls new_tracker
      (record { events = tt; turns = tt; lasts = tt; panes = tt; files = tt })
