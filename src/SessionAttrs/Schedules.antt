-- ===== src/SessionAttrs/Schedules.antt =====
-- A session keeps the schedule that owns it while its bits change, here and on other machines.
use termyard.Base.{
  suc, ◌==◌, if_rule, if◌then◌else◌, Bool, true, false, ◌&&◌, ◌≡◌, refl, sym, ap, ◌∙◌, subst, arith,
  List, [], ◌∷◌, ◌++◌, Option, none, some, Str, str_dec, get, put, delete, get-put,
}
use termyard.SessionOrder.{Time, is_blank}
use termyard.SessionAttrs.{
  Attr, Attrs, is_empty, or_zero_attr, put_attr, is_stale, with_schedule, merge_attrs, set_attr,
  apply_remote_attr, finish_attrs, apply_attrs,
}
use termyard.SessionAttrs.Rollback.{put_attr-other, get-restore_put}

-- The session is owned by a schedule.
abbrev pub IsOwned : Str → Attrs → Type 0
IsOwned q m = (a : Attr) × ((get q m ≡ some a) × (is_blank a.schedule_id ≡ false))

-- The calls that change the bits; clocks show a time after the zero time.
pub data BitCall : Type 0 where
  sets : Time → Str → Bool → Bool → BitCall
  merges : Str → Attr → BitCall
  merges_all : Attrs → BitCall

abbrev pub call_bits : (Attrs → Bool) → BitCall → Attrs → Attrs
call_bits saves (sets now key background hidden) m =
    (set_attr saves (suc now) key background hidden m).0
call_bits saves (merges key a) m = (apply_remote_attr saves key a m).0
call_bits saves (merges_all snap) m = (apply_attrs saves snap m).0

unfoldable pub run_bits : (Attrs → Bool) → List BitCall → Attrs → Attrs
run_bits saves [] m = m
run_bits saves (c ∷ cs) m = run_bits saves cs (call_bits saves c m)

put_attr_self :
    (k : Str) (a : Attr) (m : Attrs) → (a.updated_at == 0) ≡ false → get k (put_attr k a m) ≡ some a
unfolding put_attr
put_attr_self k a m e =
    if_rule (λ (p : Attrs). get k p ≡ some a) (is_empty a && (a.updated_at == 0)) {x = delete k m}
      {y = put k a m} (λ f. absurd (ground (arith, e, f)))
      (λ _. rw (get-put k k a m) (ground arith))

put_attr-Owned :
    (q k : Str) (a : Attr) (m : Attrs)
    → (q ≡ k → (is_blank a.schedule_id ≡ false) × ((a.updated_at == 0) ≡ false))
    → IsOwned q m
    → IsOwned q (put_attr k a m)
put_attr-Owned q k a m f (b, (e, o)) = elim (str_dec q k) [
  | yes p ↦ let (n, z) = f p in (a, (ap (λ q. get q (put_attr k a m)) p ∙ put_attr_self k a m z, n))
  | no n ↦ (b, (put_attr-other q k a m n ∙ e, o))
]

-- What is merged over an owned entry is owned, and newer.
merged_owned :
    (cur : Option Attr) (a b : Attr)
    → cur ≡ some b
    → is_blank b.schedule_id ≡ false
    → is_stale cur a ≡ false
    → (is_blank (with_schedule cur a).schedule_id ≡ false)
      × (((with_schedule cur a).updated_at == 0) ≡ false)
merged_owned none a b e o s = absurd (cc e)
merged_owned (some c) a b e o s =
    let r : c ≡ b = cc e in
    let z : is_blank c.schedule_id ≡ false =
      subst (λ (c : Attr). is_blank c.schedule_id ≡ false) (sym r) o in
    elim (is_blank a.schedule_id)
        as (λ t.
          is_blank a.schedule_id ≡ t
          → (is_blank (if t then record a { schedule_id = c.schedule_id } else a).schedule_id
              ≡ false)
            × (((if t then record a { schedule_id = c.schedule_id } else a).updated_at == 0)
                ≡ false)) [
                  | true ↦ λ i. (z, ground (arith, s))
                  | false ↦ λ i. (i, ground (arith, s))
                ]
      refl

merge-Owned :
    (q k : Str) (a : Attr) (m : Attrs)
    → is_stale (get k m) a ≡ false
    → IsOwned q m
    → IsOwned q (put_attr k (with_schedule (get k m) a) m)
merge-Owned q k a m s (b, (e, o)) =
    put_attr-Owned q k (with_schedule (get k m) a) m
      (λ p. merged_owned (get k m) a b (ap (λ k. get k m) (sym p) ∙ e) o s) (b, (e, o))

merge_attrs-Owned :
    (q : Str) (snap : Attrs) (r : Attrs × List Str)
    → IsOwned q r.0
    → IsOwned q (merge_attrs snap r).0
unfolding merge_attrs
merge_attrs-Owned q [] r h = h
merge_attrs-Owned q ((k, a) ∷ snap) (m, changed) h = merge_attrs-Owned q snap _ (
    if_rule (λ (r : Attrs × List Str). IsOwned q r.0) (is_stale (get k m) a) {x = (m, changed)}
      {y = (put_attr k (with_schedule (get k m) a) m, changed ++ k ∷ [])} (λ _. h)
      (λ s. merge-Owned q k a m s h))

finish_attrs-same : (saves : Attrs → Bool) (r : Attrs × List Str) → (finish_attrs saves r).0 ≡ r.0
finish_attrs-same saves (m, []) = refl
finish_attrs-same saves (m, k ∷ changed) = ground arith

set_attr-Owned :
    (saves : Attrs → Bool) (now : Time) (key : Str) (background hidden : Bool) (m : Attrs) (q : Str)
    → IsOwned q m
    → IsOwned q (set_attr saves (suc now) key background hidden m).0
unfolding set_attr
set_attr-Owned saves now key background hidden m q (b, (e, o)) =
    let a : Attr = record {
      background = background;
      hidden = hidden;
      schedule_id = (or_zero_attr (get key m)).schedule_id;
      updated_at = suc now;
    } in
    if_rule (λ (r : Attrs × (Attr × Bool)). IsOwned q r.0) (saves (put_attr key a m))
      (λ _.
        put_attr-Owned q key a m (λ p. (rw (ap (λ k. get k m) (sym p) ∙ e) o, ground arith))
          (b, (e, o)))
      (λ _. (b, (get-restore_put q key a m ∙ e, o)))

call-Owned :
    (saves : Attrs → Bool) (q : Str) (c : BitCall) (m : Attrs)
    → IsOwned q m
    → IsOwned q (call_bits saves c m)
unfolding apply_remote_attr apply_attrs
call-Owned saves q (sets now key background hidden) m h =
    set_attr-Owned saves now key background hidden m q h
call-Owned saves q (merges key a) m h =
    let n = put_attr key (with_schedule (get key m) a) m in
    if_rule (λ (r : Attrs × (Attr × (Bool × Bool))). IsOwned q r.0) (is_stale (get key m) a)
      (λ _. h)
      (λ s.
        if_rule (λ (r : Attrs × (Attr × (Bool × Bool))). IsOwned q r.0) (saves n)
          (λ _. merge-Owned q key a m s h) (λ _. merge-Owned q key a m s h))
call-Owned saves q (merges_all snap) m h =
    subst (IsOwned q) (sym (finish_attrs-same saves (merge_attrs snap (m, []))))
      (merge_attrs-Owned q snap (m, []) h)

-- A session that a schedule owns is owned through any history of `Set`, `ApplyRemote` and
-- `ApplySnapshot`, whatever saves and whatever other machines send.
pub run_bits-Owned :
    (saves : Attrs → Bool) (q : Str) (cs : List BitCall) (m : Attrs)
    → IsOwned q m
    → IsOwned q (run_bits saves cs m)
unfolding run_bits
run_bits-Owned saves q [] m h = h
run_bits-Owned saves q (c ∷ cs) m h =
    run_bits-Owned saves q cs (call_bits saves c m) (call-Owned saves q c m h)
