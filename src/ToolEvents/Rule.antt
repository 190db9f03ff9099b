-- ===== src/ToolEvents/Rule.antt =====
-- A property of the tracked events, the turns and the metadata that every write of them keeps holds
-- after any history.
use termyard.Base.{
  ℕ, suc, refl, if_rule, ◌==◌, List, [], ◌∷◌, Option, none, some, Str, str_dec, Bool, length,
}
use termyard.Base.Map.{get}
use termyard.ToolEvents.Artifacts.{FileArtifact, without_path}
use termyard.ToolEvents.{
  Time, waiting, active, stuck, Event, PaneKey, ActiveState, Tracker, record_event,
  record_artifacts, prune_turns, prune_events, clear, clear_all, clear_artifacts, evict_from,
  evict_artifact, session_key,
}
use termyard.ToolEvents.Monitors.{
  synthetic, attention, to_promote, promote_all, promote_inactive, progress_of, record_progress,
  candidates, flag_pane, flag_all, check_stuck, no_progress,
}
use termyard.ToolEvents.History.{
  Call, records, records_artifacts, gets_turns, gets_all, clears, clears_all, clears_artifacts,
  evicts, promotes, progresses, checks, step, run,
}
use termyard.ToolEvents.Frames.{SameMaps, set_artifacts-SameMaps, store_artifacts-SameMaps}

pub record IsKeptBy (P : Tracker → Type 0) : Type 0 where
  pub records : (now : Time) (e : Event) (t : Tracker) → P t → P (record_event now e t)
  pub same : (t u : Tracker) → SameMaps t u → P t → P u
  pub prunes_turns : (now : Time) (t : Tracker) → P t → P (prune_turns now t)
  pub prunes_events : (now : Time) (t : Tracker) → P t → P (prune_events now t)
  pub clears : (key : PaneKey) (t : Tracker) → P t → P (clear key t)
  pub clears_all : (t : Tracker) → P t → P (clear_all t)

module _ (P : Tracker → Type 0) (p : IsKeptBy P) where
  pub promote_all-rule :
      (clock : ℕ → Time) (i : ℕ) (es : List Event) (t : Tracker)
      → P t
      → P (promote_all clock i es t)
  unfolding promote_all
  promote_all-rule clock i [] t h = h
  promote_all-rule clock i (e ∷ es) t h =
      promote_all-rule clock (suc i) es _ (p.records (clock i) (synthetic waiting attention e) t h)

  promote_inactive-rule :
      (clock : ℕ → Time) (timeout : Time) (t : Tracker) → P t → P (promote_inactive clock timeout t)
  unfolding promote_inactive
  promote_inactive-rule clock timeout t h =
      promote_all-rule clock 1 (to_promote timeout (clock 0) t.last_active) _
        (p.same t _ (record { events = refl; turns = refl; meta = refl }) h)

  set_pane-rule :
      (m : List (Str × ActiveState)) (t : Tracker) → P t → P (record t { active_panes = m })
  set_pane-rule m t h = p.same t _ (record { events = refl; turns = refl; meta = refl }) h

  progress_of-rule :
      (clock : ℕ → Time) (pane : Str) (o : Option ActiveState) (t : Tracker)
      → P t
      → P (progress_of clock pane o t)
  unfolding progress_of
  progress_of-rule clock pane none t h = h
  progress_of-rule clock pane (some s) t h =
      if_rule P s.flagged
        (λ _. p.records (clock 1) (synthetic active [] s.evt) _ (set_pane-rule _ t h))
        (λ _. set_pane-rule _ t h)

  flag_pane-rule :
      (now : Time) (pane : Str) (e : Event) (o : Option ActiveState) (t : Tracker)
      → P t
      → P (flag_pane now pane e o t)
  unfolding flag_pane
  flag_pane-rule now pane e none t h = h
  flag_pane-rule now pane e (some s) t h =
      if_rule P s.flagged (λ _. h)
        (λ _.
          p.records now (record (synthetic stuck no_progress e) { pane = pane }) _
            (set_pane-rule _ t h))

  flag_all-rule :
      (at_prompt : Str → Bool) (clock : ℕ → Time) (i : ℕ) (cs : List (Str × Event)) (t : Tracker)
      → P t
      → P (flag_all at_prompt clock i cs t)
  unfolding flag_all
  flag_all-rule at_prompt clock i [] t h = h
  flag_all-rule at_prompt clock i ((q, e) ∷ cs) t h = flag_all-rule at_prompt clock (suc i) cs _ (
      if_rule P (at_prompt q) (λ _. h)
        (λ _. flag_pane-rule (clock i) q e (get str_dec q t.active_panes) t h))

  evict_from-rule :
      (key path : Str) (o : Option (List FileArtifact)) (t : Tracker)
      → P t
      → P (evict_from key path o t)
  unfolding evict_from
  evict_from-rule key path none t h = h
  evict_from-rule key path (some arts) t h =
      if_rule P (length (without_path path arts) == length arts) (λ _. h)
        (λ _. p.same t _ (set_artifacts-SameMaps key (without_path path arts) t) h)

  step-rule : (c : Call) (t : Tracker) → P t → P (step c t)
  unfolding step record_artifacts clear_artifacts evict_artifact record_progress check_stuck
  step-rule (records now e) t h = p.records now e t h
  step-rule (records_artifacts session arts) t h =
      p.same t _ (store_artifacts-SameMaps [] session arts t) h
  step-rule (gets_turns now) t h = p.prunes_turns now t h
  step-rule (gets_all now) t h = p.prunes_events now t h
  step-rule (clears key) t h = p.clears key t h
  step-rule clears_all t h = p.clears_all t h
  step-rule (clears_artifacts host session) t h =
      p.same t _ (record { events = refl; turns = refl; meta = refl }) h
  step-rule (evicts host session path) t h =
      evict_from-rule (session_key host session) path
        (get str_dec (session_key host session) t.artifacts) t h
  step-rule (promotes clock timeout) t h = promote_inactive-rule clock timeout t h
  step-rule (progresses clock pane) t h =
      progress_of-rule clock pane (get str_dec pane t.active_panes) t h
  step-rule (checks at_prompt clock timeout) t h =
      flag_all-rule at_prompt clock 1 (candidates timeout (clock 0) t.active_panes) t h

  pub run-rule : (calls : List Call) (t : Tracker) → P t → P (run calls t)
  unfolding run
  run-rule [] t h = h
  run-rule (c ∷ calls) t h = run-rule calls (step c t) (step-rule c t h)
