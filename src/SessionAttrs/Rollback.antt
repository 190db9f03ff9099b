-- ===== src/SessionAttrs/Rollback.antt =====
-- `Set` leaves no trace when the file cannot be written.
use termyard.Base.{
  if_rule, ite, Bool, true, ◌&&◌, ◌==◌, ◌≡◌, refl, sym, ap, ◌∙◌, arith, Option, none, some, Str,
  str_dec, get, put, delete, get-put, get-delete,
}
use termyard.SessionOrder.{Time}
use termyard.SessionAttrs.{Attr, Attrs, is_empty, or_zero_attr, put_attr, restore, set_attr}

pub put_attr-other :
    (q k : Str) (a : Attr) (m : Attrs) → ¬ (q ≡ k) → get q (put_attr k a m) ≡ get q m
unfolding put_attr
put_attr-other q k a m n =
    if_rule (λ (p : Attrs). get q p ≡ get q m) (is_empty a && (a.updated_at == 0)) {x = delete k m}
      {y = put k a m} (λ _. rw (get-delete q k m) (ground (arith, n)))
      (λ _. rw (get-put q k a m) (ground (arith, n)))

get-restore :
    (q k : Str) (a : Attr) (cur : Option Attr) (m : Attrs)
    → get q (restore k cur (put_attr k a m)) ≡ ite (str_dec q k) cur (get q m)
get-restore q k a none m =
    get-delete q k (put_attr k a m)
    ∙ elim (str_dec q k) as (λ d. ite d none (get q (put_attr k a m)) ≡ ite d none (get q m)) [
      | yes e ↦ refl
      | no n ↦ put_attr-other q k a m n
    ]
get-restore q k a (some c) m =
    get-put q k c (put_attr k a m)
    ∙ elim (str_dec q k)
        as (λ d. ite d (some c) (get q (put_attr k a m)) ≡ ite d (some c) (get q m)) [
          | yes e ↦ refl
          | no n ↦ put_attr-other q k a m n
        ]

own_entry : (q k : Str) (m : Attrs) → ite (str_dec q k) (get k m) (get q m) ≡ get q m
own_entry q k m = elim (str_dec q k) as (λ d. ite d (get k m) (get q m) ≡ get q m) [
  | yes e ↦ ap (λ k. get k m) (sym e)
  | no n ↦ refl
]

pub get-restore_put :
    (q k : Str) (a : Attr) (m : Attrs) → get q (restore k (get k m) (put_attr k a m)) ≡ get q m
get-restore_put q k a m = get-restore q k a (get k m) m ∙ own_entry q k m

-- When `Set` reports an error, every key has the attributes it had before.
pub set_attr-Restores :
    (saves : Attrs → Bool) (now : Time) (key : Str) (background hidden : Bool) (m : Attrs) (q : Str)
    → (set_attr saves now key background hidden m).1.1 ≡ true
    → get q (set_attr saves now key background hidden m).0 ≡ get q m
unfolding set_attr
set_attr-Restores saves now key background hidden m q =
    let a : Attr = record {
      background = background;
      hidden = hidden;
      schedule_id = (or_zero_attr (get key m)).schedule_id;
      updated_at = now;
    } in
    if_rule (λ (r : Attrs × (Attr × Bool)). r.1.1 ≡ true → get q r.0 ≡ get q m)
      (saves (put_attr key a m)) (λ _ e. absurd (cc e)) (λ _ e. get-restore_put q key a m)
