-- ===== src/ToolEvents/Promotion.antt =====
-- `promoteInactive` turns every quiet pane into one that waits.
use termyard.Base.{
  ℕ, suc, ◌≡◌, refl, sym, ap, ◌∙◌, subst, if_rule, if◌then◌else◌, true, ite, List, [], ◌∷◌, some,
  In, inl, inr,
}
use termyard.Base.Map.{get, put, get-put_self, get-put_ne, Entries-get}
use termyard.ToolEvents.{Time, waiting, Event, PaneKey, pane_key_dec, key_of, Tracker, record_event}
use termyard.ToolEvents.Monitors.{
  synthetic, attention, is_quiet, to_promote, promote_all, promote_inactive,
}
use termyard.ToolEvents.Consistent.{LastFits, IsConsistent}
use termyard.ToolEvents.Frames.{record_stamped-Writes}

-- The tracked event of the pane is a waiting one.
abbrev pub Waits : PaneKey → Tracker → Type 0
Waits k t = (x : Event) × (get pane_key_dec k t.events ≡ some x) × (x.status ≡ waiting)

stamped_waits :
    (now : Time) (e : Event) (t : Tracker)
    → (record_event now (synthetic waiting attention e) t).events
      ≡ put pane_key_dec
          (key_of e)
          (record (synthetic waiting attention e) { timestamp = now })
          t.events
unfolding record_event synthetic
stamped_waits now e t =
    (record_stamped-Writes (record (synthetic waiting attention e) { timestamp = now }) t).events

record_event-Waits :
    (now : Time) (e : Event) (t : Tracker)
    → Waits (key_of e) (record_event now (synthetic waiting attention e) t)
unfolding synthetic
record_event-Waits now e t =
    let x = record (synthetic waiting attention e) { timestamp = now } in
    (
      x,
      ap (get pane_key_dec (key_of e)) (stamped_waits now e t)
          ∙ get-put_self pane_key_dec (key_of e) x t.events,
      refl,
    )

record_event-still_Waits :
    (k : PaneKey) (now : Time) (e : Event) (t : Tracker)
    → Waits k t
    → Waits k (record_event now (synthetic waiting attention e) t)
record_event-still_Waits k now e t (x, q, p) = elim (pane_key_dec k (key_of e)) [
  | yes s ↦
      subst (λ k. Waits k (record_event now (synthetic waiting attention e) t)) (sym s)
        (record_event-Waits now e t)
  | no n ↦ (
    x,
    ap (get pane_key_dec k) (stamped_waits now e t)
        ∙ get-put_ne pane_key_dec k (key_of e) _ t.events n
        ∙ q,
    p,
  )
]

promote_all-still_Waits :
    (k : PaneKey) (clock : ℕ → Time) (i : ℕ) (es : List Event) (t : Tracker)
    → Waits k t
    → Waits k (promote_all clock i es t)
unfolding promote_all
promote_all-still_Waits k clock i [] t h = h
promote_all-still_Waits k clock i (e ∷ es) t h =
    promote_all-still_Waits k clock (suc i) es _ (record_event-still_Waits k (clock i) e t h)

promote_all-Waits :
    (e : Event) (clock : ℕ → Time) (i : ℕ) (es : List Event) (t : Tracker)
    → In e es
    → Waits (key_of e) (promote_all clock i es t)
unfolding promote_all
promote_all-Waits e clock i [] t h = absurd h
promote_all-Waits e clock i (x ∷ es) t (inl p) =
    promote_all-still_Waits (key_of e) clock (suc i) es _ (
      subst (λ y. Waits (key_of y) (record_event (clock i) (synthetic waiting attention x) t))
        (sym p) (record_event-Waits (clock i) x t))
promote_all-Waits e clock i (x ∷ es) t (inr h) = promote_all-Waits e clock (suc i) es _ h

In-to_promote :
    (timeout now : Time) (k : PaneKey) (e : Event) (m : List (PaneKey × Event))
    → get pane_key_dec k m ≡ some e
    → is_quiet timeout now e.timestamp ≡ true
    → In e (to_promote timeout now m)
unfolding to_promote
In-to_promote timeout now k e [] q p = absurd (cc q)
In-to_promote timeout now k e ((j, x) ∷ m) q p =
    let ih = In-to_promote timeout now k e m in
    elim (pane_key_dec k j)
        as (λ d.
          ite d (some x) (get pane_key_dec k m) ≡ some e
          → In e (
              if is_quiet timeout now x.timestamp
              then x ∷ to_promote timeout now m
              else to_promote timeout now m)) [
                | yes s ↦ λ q.
                    let r : x ≡ e = cc q in
                    let u : is_quiet timeout now x.timestamp ≡ true =
                      ap (λ (y : Event). is_quiet timeout now y.timestamp) r ∙ p in
                    subst
                      (λ b.
                        In e (if b then x ∷ to_promote timeout now m else to_promote timeout now m))
                      (sym u) (inl (sym r))
                | no n ↦ λ q.
                    if_rule (In e) (is_quiet timeout now x.timestamp)
                      {x = x ∷ to_promote timeout now m} {y = to_promote timeout now m}
                      (λ _. inr (ih q p)) (λ _. ih q p)
              ]
      q

-- In a consistent tracker, a pane whose last active event is quiet for longer than the timeout is
-- tracked as waiting once the promoter has run.
pub promote_inactive-Waits :
    (clock : ℕ → Time) (timeout : Time) (k : PaneKey) (e : Event) (t : Tracker)
    → IsConsistent t
    → get pane_key_dec k t.last_active ≡ some e
    → is_quiet timeout (clock 0) e.timestamp ≡ true
    → Waits k (promote_inactive clock timeout t)
unfolding promote_inactive
promote_inactive-Waits clock timeout k e t h q p =
    let f = Entries-get pane_key_dec LastFits k e t.last_active h.lasts q in
    subst (λ j. Waits j (promote_inactive clock timeout t)) (sym f.0.0)
      (promote_all-Waits e clock 1 (to_promote timeout (clock 0) t.last_active) _
        (In-to_promote timeout (clock 0) k e t.last_active q p))
