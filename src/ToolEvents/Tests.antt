-- ===== src/ToolEvents/Tests.antt =====
-- Runs of the tracker, and uses of its theorems.
use termyard.Base.{◌≡◌, refl, false, List, [], ◌∷◌, none, some, codes, str_dec, ℕ_discrete}
use termyard.Base.Map.{get}
use termyard.ToolEvents.Artifacts.{FileArtifact, add_artifact}
use termyard.ToolEvents.{
  Status, active, waiting, Event, PaneKey, pane_key_dec, key_of, session_key, Tracker, new_tracker,
  is_native, record_event, record_artifacts, prune_events, prune_turns, clear, clear_all,
  clear_artifacts, evict_artifact, update_meta,
}
use termyard.ToolEvents.Monitors.{promote_inactive, record_progress, check_stuck}
use termyard.ToolEvents.History.{
  Call, records, gets_all, clears_all, promotes, progresses, checks, step, run,
}
use termyard.ToolEvents.Kept.{run-IsConsistent}
use termyard.ToolEvents.Turns.{run-NoTurn}
use termyard.ToolEvents.Prompts.{HasPrompt, run-HasPrompt}
use termyard.ToolEvents.Promotion.{Waits, promote_inactive-Waits}

program : Unit {0}
unfolding run step record_event record_artifacts prune_events prune_turns clear clear_all
    clear_artifacts evict_artifact add_artifact update_meta promote_inactive record_progress
    check_stuck pane_key_dec str_dec ℕ_discrete is_native
program = tt

abbrev artifact : FileArtifact
artifact = record {
  path = codes "/w/a.go";
  display_path = codes "a.go";
  name = codes "a.go";
  size = 7;
  mod_time = 1;
  tool = codes "codex";
  source = codes "hook";
  first_seen = 1;
}

-- An event of a hook of codex in the local pane %1.
abbrev hook : Status → Event
hook status = record {
  tool = codes "codex";
  tool_name = [];
  status = status;
  kind = [];
  host = [];
  host_name = [];
  session = codes "s";
  window = 0;
  pane = codes "%1";
  message = [];
  cwd = [];
  agent_session_id = [];
  timestamp = 0;
  auto_detected = false;
  user_prompt = codes "go";
  agent_message = [];
  files = [];
  artifacts = some artifact ∷ some artifact ∷ none ∷ [];
}

abbrev pane : PaneKey
pane = key_of (hook active)

abbrev working : Tracker
working = run (records 5 (hook active) ∷ []) new_tracker

working-turn :
    get pane_key_dec pane working.active_turns ≡ some (record (hook active) { timestamp = 5 })
unfolding program
working-turn = refl

one_artifact : working.artifacts ≡ (session_key [] (codes "s"), artifact ∷ []) ∷ []
unfolding program
one_artifact = refl

abbrev life : List Call
life =
    records 5 (hook active)
    ∷ promotes (λ i. 100) 50
    ∷ checks (λ p. false) (λ i. 200) 10
    ∷ progresses (λ i. 300) (codes "%1")
    ∷ records 400 (hook waiting)
    ∷ gets_all 500
    ∷ []

run-NoTurn_example : get pane_key_dec pane (run life new_tracker).active_turns ≡ none
unfolding program
run-NoTurn_example = run-NoTurn life pane (record (hook waiting) { timestamp = 400 }) refl tt refl

run-HasPrompt_example : HasPrompt (session_key [] (codes "s")) (codes "go") (
    run
      (records 9 (record (hook waiting) { user_prompt = codes "stop" }) ∷ clears_all ∷ [])
      working)
unfolding program
run-HasPrompt_example =
    run-HasPrompt (session_key [] (codes "s")) (codes "go") refl
      (records 9 (record (hook waiting) { user_prompt = codes "stop" }) ∷ clears_all ∷ []) working
      (_, refl, refl)

promote_inactive-Waits_example : Waits pane (promote_inactive (λ i. 100) 50 working)
unfolding program
promote_inactive-Waits_example =
    promote_inactive-Waits (λ i. 100) 50 pane (record (hook active) { timestamp = 5 }) working
      (run-IsConsistent (records 5 (hook active) ∷ [])) refl refl
