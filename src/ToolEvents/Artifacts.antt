-- ===== src/ToolEvents/Artifacts.antt =====
-- The files that the agents of a session wrote: `FileArtifact` and the loop of `storeArtifacts`
-- (pkg/toolevents/tracker.go).
pub mod Bounded
use termyard.Base.{
  ℕ, suc, ◌+◌, ◌-◌, ltb, leb, ◌==◌, if◌then◌else◌, ite, Bool, true, false, not, List, [], ◌∷◌, ◌++◌,
  length, drop, Option, none, some, Str, str_dec,
}

pub record FileArtifact : Type 0 where
  pub path : Str
  pub display_path : Str
  pub name : Str
  pub size : ℕ
  pub mod_time : ℕ
  pub tool : Str
  pub source : Str
  pub first_seen : ℕ

abbrev pub max_artifacts_per_session : ℕ
max_artifacts_per_session = 100

-- The new text, or the old one where there is no new one.
abbrev pub or_old : Str → Str → Str
or_old [] old = old
or_old (c ∷ s) old = c ∷ s

-- `existing` with what is known of it now.
abbrev pub refresh : FileArtifact → FileArtifact → FileArtifact
refresh existing art = record existing {
  size = art.size;
  mod_time = art.mod_time;
  display_path = or_old art.display_path existing.display_path;
  name = or_old art.name existing.name;
  tool = or_old art.tool existing.tool;
  source = or_old art.source existing.source;
}

abbrev pub before :
    FileArtifact
    → Option (FileArtifact × List FileArtifact)
    → Option (FileArtifact × List FileArtifact)
before a none = none
before a (some (e, rest)) = some (e, a ∷ rest)

-- The first artifact of this path, and the others.
unfoldable pub take_out : Str → List FileArtifact → Option (FileArtifact × List FileArtifact)
take_out path [] = none
take_out path (a ∷ cur) =
    let rest = take_out path cur in ite (str_dec a.path path) (some (a, cur)) (before a rest)

-- `cur = cur[len(cur)-maxArtifactsPerSession:]` when it is longer.
abbrev pub cap_artifacts : List FileArtifact → List FileArtifact
cap_artifacts cur =
    if ltb max_artifacts_per_session (length cur)
    then drop (length cur - max_artifacts_per_session) cur
    else cur

unfoldable pub place :
    FileArtifact → List FileArtifact → Option (FileArtifact × List FileArtifact) → List FileArtifact
place art cur (some (existing, rest)) = rest ++ refresh existing art ∷ []
place art cur none = cap_artifacts (cur ++ art ∷ [])

abbrev pub is_blank : Str → Bool
is_blank [] = true
is_blank (c ∷ s) = false

-- One round of the loop; `none` is a nil pointer.
unfoldable pub add_artifact : List FileArtifact → Option FileArtifact → List FileArtifact
unfolding take_out place
add_artifact cur none = cur
add_artifact cur (some art) =
    if is_blank art.path then cur else place art cur (take_out art.path cur)

unfoldable pub add_artifacts : List FileArtifact → List (Option FileArtifact) → List FileArtifact
add_artifacts cur [] = cur
add_artifacts cur (a ∷ arts) = add_artifacts (add_artifact cur a) arts

-- The loop of `evictArtifactLocked`.
unfoldable pub without_path : Str → List FileArtifact → List FileArtifact
without_path path [] = []
without_path path (a ∷ arts) =
    let rest = without_path path arts in ite (str_dec a.path path) rest (a ∷ rest)
