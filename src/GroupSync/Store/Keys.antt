-- ===== src/GroupSync/Store/Keys.antt =====
-- The keys that a record of the store holds, and the loop that drops some of them.
use termyard.Base.{
  str_dec, if_pos, if_neg, get, ◌≡◌, ◌≢◌, ◌⊎◌, inl, inr, Bool, true, false, List, [], ◌∷◌, Option,
  none, some, Str, refl, arith, In, Bool-cases, ◌∙◌, put, get-put, subst,
}
use termyard.GroupSync.Json.{Json, null}
use termyard.GroupSync.Tree.{RawMessage, absent, malformed, json, remove_leaf_any, member_keys}
use termyard.GroupSync.Tree.Panes.{
  Pane, keys_of, prune, Shows, Holds, Shows-is_nil, In-prune, In_of_In-prune,
}
use termyard.GroupSync.Tree.Prune.{Removes, kept, cut, remove_leaf_any-Removes}
use termyard.GroupSync.Tree.Members.{member_keys-Shows}
use termyard.GroupSync.Group.{Group}
use termyard.GroupSync.Store.{
  Groups, or_else, group_at, is_live, take_removed, prune_step, prune_keys, final_keys,
}

-- `MemberKeys` of a tree, no key on an error.
abbrev pub tree_keys : RawMessage → List Str
tree_keys t = or_else (member_keys t) []

-- A live record holds the key.
abbrev pub LiveKey : Str → Group → Type 0
LiveKey k g = (is_live g ≡ true) × In k (tree_keys g.tree)

-- A tree that parses is a well-formed pane tree.
abbrev pub IsTidyTree : RawMessage → Type 0
IsTidyTree absent = Unit
IsTidyTree (malformed raw) = Unit
IsTidyTree (json v) = (p : Pane) × Shows v p

-- So are the trees of all live records.
abbrev pub IsTidy : Groups → Type 0
IsTidy m = (id : Str) → is_live (group_at id m) ≡ true → IsTidyTree (group_at id m).tree

pub group_at-put_self : (id : Str) (g : Group) (m : Groups) → group_at id (put id g m) ≡ g
group_at-put_self id g m = ground (arith, get-put id id g m)

pub group_at-put_ne :
    (q id : Str) (g : Group) (m : Groups) → q ≢ id → group_at q (put id g m) ≡ group_at q m
group_at-put_ne q id g m n = ground (arith, get-put q id g m)

-- What the dropping loop does to a tree that holds the layout `o`.
pub record Drops (drop : Str → Bool) (keys : List Str) (v : Json) (modified : Bool)
    (o : Option Pane) (r : Json × Bool) : Type 0 where
  pub view : Option Pane
  pub holds : Holds r.0 view
  pub sub : (k : Str) → In k (keys_of view) → In k (keys_of o)
  pub gone : (k : Str) → In k (keys_of view) → In k keys → drop k ≡ false
  pub stays : (k : Str) → In k (keys_of o) → drop k ≡ false → In k (keys_of view)
  pub same : r.1 ≡ false → (modified ≡ false) × (r.0 ≡ v)

module _ (drop : Str → Bool) where
  Drops-none :
      (key : Str) (v : Json) (modified : Bool) (o : Option Pane)
      → Holds v o
      → (drop key ≡ false) ⊎ (¬ In key (keys_of o))
      → Drops drop (key ∷ []) v modified o (v, modified)
  Drops-none key v modified o h c = record {
    view = o;
    holds = h;
    sub = λ k i. i;
    gone = λ k i j. elim j [
      | inr x ↦ absurd x
      | inl e ↦ elim c [ inl d ↦ rw e d | inr n ↦ absurd (n (subst (λ x. In x (keys_of o)) e i)) ]
    ];
    stays = λ k i d. i;
    same = λ e. (e, refl);
  }

  removed_Drops :
      (key : Str) (v : Json) (modified : Bool) (p : Pane) (r : Json × Bool)
      → Shows v p
      → drop key ≡ true
      → Removes v p key r
      → Drops drop (key ∷ []) v modified (some p) (take_removed v modified r)
  removed_Drops key v modified p r s d (kept e n) =
      rw e (Drops-none key v modified (some p) s (inr n))
  removed_Drops key v modified p r s d (cut e i h) = rw e (record {
    view = prune key p;
    holds = h;
    sub = λ k j. (In_of_In-prune key k p j).0;
    gone = λ k j m. elim m [ inr x ↦ absurd x | inl f ↦ absurd ((In_of_In-prune key k p j).1 f) ];
    stays = λ k j f. In-prune key k p j (λ g. (cc));
    same = λ f. cc;
  })

  step-Drops :
      (key : Str) (v : Json) (modified : Bool) (o : Option Pane)
      → Holds v o
      → Drops drop (key ∷ []) v modified o (prune_step drop key (v, modified))
  unfolding prune_step remove_leaf_any
  step-Drops key v modified none h = elim (Bool-cases (drop key)) [
    | inl d ↦ rw (d, h) (Drops-none key null modified none refl (inr (λ x. x)))
    | inr d ↦ rw d (Drops-none key v modified none h (inl d))
  ]
  step-Drops key v modified (some p) h = elim (Bool-cases (drop key)) [
    | inl d ↦
        rw d (
          removed_Drops key v modified p (remove_leaf_any v key) h d
            (remove_leaf_any-Removes key h))
    | inr d ↦ rw d (Drops-none key v modified (some p) h (inl d))
  ]

  Drops-trans :
      (key : Str) (keys : List Str) (v : Json) (m : Bool) (o : Option Pane) (r t : Json × Bool)
      → (a : Drops drop (key ∷ []) v m o r) → Drops drop keys r.0 r.1 a.view t
      → Drops drop (key ∷ keys) v m o t
  Drops-trans key keys v m o r t a b = record {
    view = b.view;
    holds = b.holds;
    sub = λ k i. a.sub k (b.sub k i);
    gone = λ k i j. elim j [ inl e ↦ a.gone k (b.sub k i) (inl e) | inr l ↦ b.gone k i l ];
    stays = λ k i d. b.stays k (a.stays k i d) d;
    same = λ e. let (f, g) = b.same e in let (f', g') = a.same f in (f', g ∙ g');
  }

  -- The loop drops exactly the listed keys that are to be dropped, and what is left is well formed.
  pub prune_keys-Drops :
      (keys : List Str) (v : Json) (modified : Bool) (o : Option Pane)
      → Holds v o
      → Drops drop keys v modified o (prune_keys drop keys (v, modified))
  unfolding prune_keys
  prune_keys-Drops [] v modified o h = record {
    view = o;
    holds = h;
    sub = λ k i. i;
    gone = λ k i j. absurd j;
    stays = λ k i d. i;
    same = λ e. (e, refl);
  }
  prune_keys-Drops (key ∷ keys) v modified o h =
      let a = step-Drops key v modified o h in
      let t = prune_step drop key (v, modified) in
      Drops-trans key keys v modified o t (prune_keys drop keys t) a
        (prune_keys-Drops keys t.0 t.1 a.view a.holds)

-- The keys left at the end are those of the layout that is left.
pub final_keys-Holds :
    (v : Json) (o : Option Pane)
    → Holds v o
    → (k : Str)
    → (In k (final_keys v) → In k (keys_of o)) × (In k (keys_of o) → In k (final_keys v))
unfolding final_keys
final_keys-Holds v none h k = rw h ((λ x. x), (λ x. x))
final_keys-Holds v (some p) h k =
    let (keys, e, same) = member_keys-Shows h in rw (Shows-is_nil h, e) (same k)

-- A well-formed tree has its final keys.
pub tree_keys-Shows : (v : Json) (p : Pane) → Shows v p → tree_keys (json v) ≡ final_keys v
unfolding final_keys
tree_keys-Shows v p h = rw (Shows-is_nil h)

pub IsTidy-nil : IsTidy []
IsTidy-nil id l = tt

-- A store is tidy when every record in it is.
pub IsTidy-cons :
    (id : Str) (g : Group) (m : Groups) → IsTidyTree g.tree → IsTidy m → IsTidy ((id, g) ∷ m)
IsTidy-cons id g m t h q = elim (str_dec q id) [
  | yes e ↦ λ l. rw (if_pos (str_dec q id) e (some g) (get q m)) t
  | no n ↦ rw (if_neg (str_dec q id) n (some g) (get q m)) (h q)
]
