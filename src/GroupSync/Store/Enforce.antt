-- ===== src/GroupSync/Store/Enforce.antt =====
-- One round of the loop of `enforce`: what it does to its own group, and that it leaves the others.
use termyard.Base.{
  ◌≡◌, ◌≢◌, ◌<◌, inl, inr, Bool, true, false, List, ◌++◌, Option, none, some, Str, refl, arith, In,
  sym, Bool-cases, ◌∙◌, ap, put, length, leb, In-append_left, In-append_right, subst,
}
use termyard.GroupSync.Json.{Json, is_nil}
use termyard.GroupSync.Tree.{RawMessage, absent, malformed, json, member_keys}
use termyard.GroupSync.Tree.Panes.{Pane, pane_keys, Shows, Holds, Shows-is_nil}
use termyard.GroupSync.Tree.Members.{member_keys-Shows}
use termyard.GroupSync.Group.{Group, Time, is_zero}
use termyard.GroupSync.Store.{
  group_at, is_live, owns, prune_keys, final_keys, Enforcing, shrunk, settle, enforce_one,
  enforce_raw,
}
use termyard.GroupSync.Store.Keys.{
  tree_keys, LiveKey, IsTidyTree, group_at-put_self, group_at-put_ne, Drops, prune_keys-Drops,
  final_keys-Holds, tree_keys-Shows,
}

-- What one round leaves: the other groups as they were, the keys of its own group claimed and
-- taken from nobody.
pub record Outcome (id : Str) (s r : Enforcing) : Type 0 where
  pub others : (q : Str) → q ≢ id → group_at q r.groups ≡ group_at q s.groups
  pub owned : (k : Str) → In k s.owned → In k r.owned
  pub claimed : (k : Str) → LiveKey k (group_at id r.groups) → In k r.owned
  pub fresh : (k : Str) → LiveKey k (group_at id r.groups) → ¬ In k s.owned
  pub tidy : is_live (group_at id r.groups) ≡ true → IsTidyTree (group_at id r.groups).tree
  pub alive : is_live (group_at id r.groups) ≡ true → is_live (group_at id s.groups) ≡ true

-- A group without keys is passed over.
Outcome-skip :
    (id : Str) (s : Enforcing)
    → IsTidyTree (group_at id s.groups).tree
    → ((k : Str) → ¬ In k (tree_keys (group_at id s.groups).tree))
    → Outcome id s s
Outcome-skip id s t none_there = record {
  others = λ q n. refl;
  owned = λ k i. i;
  claimed = λ k l. absurd (none_there k l.1);
  fresh = λ k l. absurd (none_there k l.1);
  tidy = λ l. t;
  alive = λ l. l;
}

-- A group written dead holds no key and keeps none from the others.
Outcome-dead :
    (id : Str) (s r : Enforcing) (g : Group)
    → is_live g ≡ false
    → r.groups ≡ put id g s.groups
    → r.owned ≡ s.owned
    → Outcome id s r
Outcome-dead id s r g dead e f = record {
  others = λ q n. rw e (group_at-put_ne q id g s.groups n);
  owned = λ k i. rw f i;
  claimed = λ k l. absurd (gone l.0);
  fresh = λ k l. absurd (gone l.0);
  tidy = λ l. absurd (gone l);
  alive = λ l. absurd (gone l);
}
  where
    gone : is_live (group_at id r.groups) ≡ true → ⊥
    gone l = cc (dead, l, ap (group_at id) e, group_at-put_self id g s.groups)

-- A group that survives with the final keys of its tree.
Outcome-survives :
    (id : Str) (s r : Enforcing) (g : Group) (v : Json) (p : Pane)
    → Shows v p
    → g.tree ≡ json v
    → group_at id r.groups ≡ g
    → ((q : Str) → q ≢ id → group_at q r.groups ≡ group_at q s.groups)
    → r.owned ≡ final_keys v ++ s.owned
    → ((k : Str) → In k (final_keys v) → ¬ In k s.owned)
    → (is_live g ≡ true → is_live (group_at id s.groups) ≡ true)
    → Outcome id s r
Outcome-survives id s r g v p h t e others f new live = record {
  others = others;
  owned = λ k i. rw f (In-append_right k (final_keys v) s.owned i);
  claimed = λ k l. rw f (In-append_left k (final_keys v) s.owned (held k l.1));
  fresh = λ k l. new k (held k l.1);
  tidy = λ l. rw (e, t) (p, h);
  alive = λ l. live (rw e at l);
}
  where
    held : (k : Str) → In k (tree_keys (group_at id r.groups).tree) → In k (final_keys v)
    held k i = subst (In k) (tree_keys-Shows v p h) (rw (e, t) at i)

nil_has_no_keys : (v : Json) → is_nil v ≡ true → leb 2 (length (final_keys v)) ≡ false
unfolding final_keys
nil_has_no_keys v e = rw e

absent_keys : (x : RawMessage) → x ≡ absent → (k : Str) → ¬ In k (tree_keys x)
unfolding member_keys
absent_keys x e k i = rw e at i

malformed_keys : (x : RawMessage) (raw : Str) → x ≡ malformed raw → (k : Str) → ¬ In k (tree_keys x)
unfolding member_keys
malformed_keys x raw e k i = rw e at i

pub dead : (now : Time) → 0 < now → is_zero now ≡ false
dead now h = ground arith

survivor-Shows :
    (v : Json) (o : Option Pane)
    → Holds v o
    → leb 2 (length (final_keys v)) ≡ true
    → (p : Pane) × Shows v p
survivor-Shows v none h e = cc (nil_has_no_keys v (ap is_nil h))
survivor-Shows v (some p) h e = (p, h)

not_owned : (owned : List Str) (k : Str) → owns owned k ≡ false → ¬ In k owned
not_owned owned k e i = ground arith

shrunk_dead :
    (now : Time) (g : Group) (v : Json) → shrunk now g v false ≡ record g { deleted_at = now }
unfolding shrunk
shrunk_dead now g v = ground arith

module _ (now : Time) (positive : 0 < now) (id : Str) (s : Enforcing) where
  settle-Outcome :
      (v : Json) (p : Pane) (keys : List Str) (t : Json × Bool)
      → (group_at id s.groups).tree ≡ json v
      → ((k : Str) → In k (pane_keys p) → In k keys)
      → Drops (owns s.owned) keys v false (some p) t
      → Outcome id s (settle now id (group_at id s.groups) s t)
  unfolding settle
  settle-Outcome v p keys t e all d = elim (Bool-cases (leb 2 (length (final_keys t.0)))) [
    | inr few ↦ elim (Bool-cases t.1) [
      | inl m ↦
          rw (few, m)
            (Outcome-dead id s _ (record (group_at id s.groups) { deleted_at = now })
              (dead now positive) (rw (shrunk_dead now (group_at id s.groups) t.0)) refl)
      | inr m ↦
          rw (few, m)
            (Outcome-dead id s _ (record (group_at id s.groups) { deleted_at = now })
              (dead now positive) (rw (shrunk_dead now (group_at id s.groups) t.0)) refl)
    ]
    | inl many ↦
        let (q, h) = survivor-Shows t.0 d.view d.holds many in
        elim (Bool-cases t.1) [
          | inl m ↦
              rw (many, m, Shows-is_nil h)
                (Outcome-survives id s _
                  (record (group_at id s.groups) { tree = json t.0; tree_updated_at = now }) t.0 q h
                  refl (group_at-put_self id _ s.groups) (λ j n. group_at-put_ne j id _ s.groups n)
                  refl new (λ l. l))
          | inr m ↦
              rw (many, m)
                (Outcome-survives id s _ (group_at id s.groups) t.0 q h
                  (e ∙ ap json (sym (d.same m).1)) refl (λ j n. refl) refl new (λ l. l))
        ]
  ]
    where
      new : (k : Str) → In k (final_keys t.0) → ¬ In k s.owned
      new k i =
          let j = (final_keys-Holds t.0 d.view d.holds k).0 i in
          not_owned s.owned k (d.gone k j (all k (d.sub k j)))

  pub enforce_one-Outcome :
      IsTidyTree (group_at id s.groups).tree → Outcome id s (enforce_one now s id)
  unfolding enforce_one
  enforce_one-Outcome t = raw (group_at id s.groups).tree refl
    where
      raw :
          (x : RawMessage)
          → (group_at id s.groups).tree ≡ x
          → Outcome id s (enforce_raw now id (group_at id s.groups) s x)
      raw absent e = Outcome-skip id s t (absent_keys _ e)
      raw (malformed r) e = Outcome-skip id s t (malformed_keys _ r e)
      raw (json v) e =
          let (p, h) = subst IsTidyTree e t in
          let (keys, f, same) = member_keys-Shows h in
          rw f (
            settle-Outcome v p keys (prune_keys (owns s.owned) keys (v, false)) e (λ k. (same k).1)
              (prune_keys-Drops (owns s.owned) keys v false (some p) h))
