-- ===== src/GroupSync/Store/Less.antt =====
-- A group record after `enforce` wrote it: dead, or with a smaller layout.
use termyard.Base.{
  ◌≡◌, ◌⊎◌, inl, inr, ◌<◌, Bool, true, false, ◌||◌, not, List, [], ◌∷◌, Str, refl, arith, sym,
  subst, if_rule, ◌∙◌,
}
use termyard.GroupSync.Json.{Json, is_nil}
use termyard.GroupSync.Tree.{RawMessage, absent, malformed, json, remove_leaf_any}
use termyard.GroupSync.Tree.Size.{size, Smaller, remove_leaf_any-Smaller}
use termyard.GroupSync.Group.{Group, Time}
use termyard.GroupSync.Store.{take_removed, prune_step, prune_keys, shrunk}

-- The second tree has fewer nodes.
abbrev pub IsSmaller : RawMessage → RawMessage → Type 0
IsSmaller (json v) (json w) = size w < size v
IsSmaller (json v) absent = ⊥
IsSmaller (json v) (malformed r) = ⊥
IsSmaller absent r = ⊥
IsSmaller (malformed s) r = ⊥

-- The name, the rank, and their stamps.
abbrev pub labels : Group → Str × (Time × (Str × (Time × (Str × Time))))
labels g = (
  g.name,
  (g.name_updated_at, (g.name_mode, (g.name_mode_updated_at, (g.rank, g.rank_updated_at)))),
)

-- The second record died now, or its tree has fewer nodes and the stamp `now`, and it did not die.
abbrev pub IsShrunk : Time → Group → Group → Type 0
IsShrunk now g h =
    (h.deleted_at ≡ now)
    ⊎ ((h.deleted_at ≡ g.deleted_at) × ((h.tree_updated_at ≡ now) × IsSmaller g.tree h.tree))

-- Moreover the name and the rank are the same.
abbrev pub IsLess : Time → Group → Group → Type 0
IsLess now g h = (labels h ≡ labels g) × IsShrunk now g h

IsSmaller-trans : (r s t : RawMessage) → IsSmaller r s → IsSmaller s t → IsSmaller r t
IsSmaller-trans (json u) (json v) (json w) h k = omega arith
IsSmaller-trans (json u) (json v) absent h k = absurd k
IsSmaller-trans (json u) (json v) (malformed r) h k = absurd k
IsSmaller-trans (json u) absent t h k = absurd h
IsSmaller-trans (json u) (malformed r) t h k = absurd h
IsSmaller-trans absent s t h k = absurd h
IsSmaller-trans (malformed r) s t h k = absurd h

IsShrunk-trans :
    (now : Time) (f g h : Group) → IsShrunk now f g → IsShrunk now g h → IsShrunk now f h
IsShrunk-trans now f g h a (inl d) = inl d
IsShrunk-trans now f g h (inl d) (inr (e, s)) = inl (e ∙ d)
IsShrunk-trans now f g h (inr (d, (u, r))) (inr (e, (v, s))) =
    inr (e ∙ d, (v, IsSmaller-trans f.tree g.tree h.tree r s))

pub IsLess-trans : (now : Time) (f g h : Group) → IsLess now f g → IsLess now g h → IsLess now f h
IsLess-trans now f g h (k, a) (l, b) = (l ∙ k, IsShrunk-trans now f g h a b)

-- The pruned tree, against the tree that a loop over keys had before.
prune_step-Smaller :
    (drop : Str → Bool) (v : Json) (key : Str) (t : Json × Bool)
    → Smaller v t
    → Smaller v (prune_step drop key t)
unfolding prune_step
prune_step-Smaller drop v key (t, b) h =
    let r = remove_leaf_any-Smaller t key in
    if_rule (Smaller v) (drop key) {x = take_removed t b (remove_leaf_any t key)} {y = (t, b)}
      (λ _. taken (remove_leaf_any t key) r) (λ _. h)
  where
    taken : (r : Json × Bool) → Smaller t r → Smaller v (take_removed t b r)
    taken (w, true) k =
        let l = k.less refl in
        let m = h.bound in record { bound = omega arith; less = λ _. omega arith }
    taken (w, false) k = h

pub prune_keys-Smaller :
    (drop : Str → Bool) (v : Json) (keys : List Str) (t : Json × Bool)
    → Smaller v t
    → Smaller v (prune_keys drop keys t)
unfolding prune_keys
prune_keys-Smaller drop v [] t h = h
prune_keys-Smaller drop v (key ∷ keys) t h =
    prune_keys-Smaller drop v keys (prune_step drop key t) (prune_step-Smaller drop v key t h)

must_be_modified : (a b c : Bool) → (a || b) ≡ true → (c || b) ≡ false → a ≡ true
must_be_modified true b c e f = refl
must_be_modified false b true e f = absurd (cc f)
must_be_modified false b false e f = absurd (cc (e, f))

pub shrunk-IsLess :
    (now : Time) (g : Group) (v tree : Json) (modified survivor : Bool)
    → Smaller v (tree, modified)
    → g.tree ≡ json v
    → (modified || not survivor) ≡ true
    → IsLess now g (shrunk now g tree survivor)
unfolding shrunk
shrunk-IsLess now g v tree modified survivor h e f =
    if_rule (IsLess now g) (is_nil tree || not survivor) {x = record g { deleted_at = now }}
      {y = record g { tree = json tree; tree_updated_at = now }} (λ _. (refl, inl refl))
      (λ n.
        let w =
          subst (λ r. IsSmaller r (json tree)) (sym e)
            (h.less (must_be_modified modified (not survivor) (is_nil tree) f n)) in
        (refl, inr (refl, (refl, w))))
