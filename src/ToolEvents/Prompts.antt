-- ===== src/ToolEvents/Prompts.antt =====
-- The first prompt of a session stays.
use termyard.Base.{
  ◌≡◌, refl, sym, ap, ◌∙◌, subst, if_rule, false, List, [], ◌∷◌, some, Str, str_dec,
}
use termyard.Base.Map.{get, put, get-put_self, get-put_ne}
use termyard.ToolEvents.Artifacts.{is_blank}
use termyard.ToolEvents.{
  Time, Event, SessionMeta, Tracker, session_key, or_new, or_zero, update_meta, is_zero_meta,
  record_event, prune_turns, prune_events, clear, clear_all,
}
use termyard.ToolEvents.History.{Call, run}
use termyard.ToolEvents.Frames.{meta_after, record_stamped-Writes}
use termyard.ToolEvents.Rule.{IsKeptBy, run-rule}

abbrev pub HasPromptIn : Str → Str → List (Str × SessionMeta) → Type 0
HasPromptIn key prompt m =
    (x : SessionMeta) × (get str_dec key m ≡ some x) × (x.user_prompt ≡ prompt)

-- The session of this key has this first prompt.
abbrev pub HasPrompt : Str → Str → Tracker → Type 0
HasPrompt key prompt t = HasPromptIn key prompt t.session_meta

or_new-first : (a b : Str) → is_blank a ≡ false → or_new a b ≡ a
or_new-first [] b q = absurd (cc q)
or_new-first (c ∷ a) b q = refl

update_meta-prompt :
    (e : Event) (x : SessionMeta)
    → is_blank x.user_prompt ≡ false
    → (update_meta e x).user_prompt ≡ x.user_prompt
unfolding update_meta
update_meta-prompt e x q = or_new-first x.user_prompt e.user_prompt q

module _ (key prompt : Str) (n : is_blank prompt ≡ false) where
  meta_after-HasPrompt :
      (e : Event) (m : List (Str × SessionMeta))
      → HasPromptIn key prompt m
      → HasPromptIn key prompt (meta_after e m)
  meta_after-HasPrompt e m (x, q, p) =
      let k = session_key e.host e.session in
      let y = update_meta e (or_zero (get str_dec k m)) in
      if_rule (HasPromptIn key prompt) (is_zero_meta y) {x = m} {y = put str_dec k y m}
        (λ _. (x, q, p))
        (λ _. elim (str_dec key k) [
          | yes s ↦
              let z : or_zero (get str_dec k m) ≡ x =
                ap or_zero (subst (λ k. get str_dec k m ≡ some x) s q) in
              (
                y,
                subst (λ j. get str_dec j (put str_dec k y m) ≡ some y) (sym s)
                    (get-put_self str_dec k y m),
                ap (λ w. (update_meta e w).user_prompt) z
                    ∙ update_meta-prompt e x (ap is_blank p ∙ n)
                    ∙ p,
              )
          | no d ↦ (x, get-put_ne str_dec key k y m d ∙ q, p)
        ])

  record_event-HasPrompt :
      (now : Time) (e : Event) (t : Tracker)
      → HasPrompt key prompt t
      → HasPrompt key prompt (record_event now e t)
  unfolding record_event
  record_event-HasPrompt now e t h =
      let e' = record e { timestamp = now } in
      subst (HasPromptIn key prompt) (sym (record_stamped-Writes e' t).meta)
        (meta_after-HasPrompt e' t.session_meta h)

  HasPrompt-IsKeptBy : IsKeptBy (HasPrompt key prompt)
  unfolding prune_turns prune_events clear clear_all
  HasPrompt-IsKeptBy = record {
    records = record_event-HasPrompt;
    same = λ t u s h. subst (HasPromptIn key prompt) (sym s.meta) h;
    prunes_turns = λ now t h. h;
    prunes_events = λ now t h. h;
    clears = λ k t h. h;
    clears_all = λ t h. h;
  }

  -- A first prompt that is not empty stays the first prompt of its session through any history.
  pub run-HasPrompt :
      (calls : List Call) (t : Tracker)
      → HasPrompt key prompt t
      → HasPrompt key prompt (run calls t)
  run-HasPrompt calls t h = run-rule (HasPrompt key prompt) HasPrompt-IsKeptBy calls t h
