-- ===== src/Peers/Drops.antt =====
-- The list after a peer is taken out or appended.
use termyard.Base.{
  if_neg, ite, if◌then◌else◌, true, false, List, [], ◌∷◌, ◌++◌, Option, none, some, Str, str_dec,
  In, inl, inr, Distinct, In-append, ◌≡◌, refl, sym, ap, ◌∙◌, subst,
}
use termyard.Peers.{Peer, Peers, get_by_public_key, put_before, drop_first}
use termyard.Peers.Finds.{keys, or_old, step_old, get-cons}
use termyard.Peers.Keys.{missing-get}

dropped-cons :
    (key : Str) (p : Peer) (ps : Peers)
    → or_old (drop_first key (p ∷ ps)) (p ∷ ps)
      ≡ ite (str_dec p.public_key key) ps (p ∷ or_old (drop_first key ps) ps)
unfolding drop_first
dropped-cons key p ps =
    elim (str_dec p.public_key key)
      as (λ d.
        or_old (if ite d true false then some ps else put_before p (drop_first key ps)) (p ∷ ps)
        ≡ ite d ps (p ∷ or_old (drop_first key ps) ps)) [
          | yes e ↦ refl
          | no n ↦ step_old (drop_first key ps) p ps
        ]

drop_none : (key : Str) → or_old (drop_first key []) [] ≡ []
unfolding drop_first
drop_none key = refl

-- The peer that is taken out was the one with its key.
gone :
    (q key : Str) (ps : Peers)
    → ¬ In key (keys ps)
    → get_by_public_key q ps ≡ ite (str_dec q key) none (get_by_public_key q ps)
gone q key ps n =
    elim (str_dec q key) as (λ d. get_by_public_key q ps ≡ ite d none (get_by_public_key q ps)) [
      | yes e ↦ missing-get q ps (λ i. n (subst (λ q. In q (keys ps)) e i))
      | no m ↦ refl
    ]

hidden :
    (q key k : Str) (p : Peer) (o : Option Peer)
    → k ≡ key
    → ite (str_dec q key) none o ≡ ite (str_dec q key) none (ite (str_dec q k) (some p) o)
hidden q key k p o e =
    subst
      (λ k. ite (str_dec q key) none o ≡ ite (str_dec q key) none (ite (str_dec q k) (some p) o))
      (sym e)
      (elim (str_dec q key) as (λ d. ite d none o ≡ ite d none (ite d (some p) o)) [
        | yes r ↦ refl
        | no n ↦ refl
      ])

beside :
    (q key k : Str) (p : Peer) (o : Option Peer)
    → ¬ (k ≡ key)
    → ite (str_dec q k) (some p) (ite (str_dec q key) none o)
      ≡ ite (str_dec q key) none (ite (str_dec q k) (some p) o)
beside q key k p o n =
    elim (str_dec q k)
      as (λ d.
        ite d (some p) (ite (str_dec q key) none o) ≡ ite (str_dec q key) none (ite d (some p) o)) [
          | yes e ↦ sym (if_neg (str_dec q key) (λ r. n (sym e ∙ r)) _ _)
          | no m ↦ refl
        ]

pub get-drop_first :
    (q key : Str) (ps : Peers)
    → Distinct (keys ps)
    → get_by_public_key q (or_old (drop_first key ps) ps)
      ≡ ite (str_dec q key) none (get_by_public_key q ps)
get-drop_first q key [] d = ap (get_by_public_key q) (drop_none key) ∙ gone q key [] (λ i. i)
get-drop_first q key (p ∷ ps) (n, d) =
    ap (get_by_public_key q) (dropped-cons key p ps)
    ∙ elim (str_dec p.public_key key)
        as (λ d.
          get_by_public_key q (ite d ps (p ∷ or_old (drop_first key ps) ps))
          ≡ ite (str_dec q key) none
              (ite (str_dec q p.public_key) (some p) (get_by_public_key q ps))) [
                | yes e ↦
                    gone q key ps (subst (λ k. ¬ In k (keys ps)) e n)
                    ∙ hidden q key p.public_key p (get_by_public_key q ps) e
                | no m ↦
                    get-cons q p (or_old (drop_first key ps) ps)
                    ∙ ap (λ o. ite (str_dec q p.public_key) (some p) o) (get-drop_first q key ps d)
                    ∙ beside q key p.public_key p (get_by_public_key q ps) m
              ]
    ∙ ap (λ o. ite (str_dec q key) none o) (sym (get-cons q p ps))

In-drop_first :
    (x key : Str) (ps : Peers) → In x (keys (or_old (drop_first key ps) ps)) → In x (keys ps)
In-drop_first x key [] i = subst (λ ps. In x (keys ps)) (drop_none key) i
In-drop_first x key (p ∷ ps) i =
    elim (str_dec p.public_key key)
        as (λ d.
          In x (keys (ite d ps (p ∷ or_old (drop_first key ps) ps))) → In x (keys (p ∷ ps))) [
            | yes e ↦ λ i. inr i
            | no n ↦ λ i. elim i [ inl e ↦ inl e | inr j ↦ inr (In-drop_first x key ps j) ]
          ]
      (subst (λ ps. In x (keys ps)) (dropped-cons key p ps) i)

pub drop_first-Distinct :
    (key : Str) (ps : Peers) → Distinct (keys ps) → Distinct (keys (or_old (drop_first key ps) ps))
drop_first-Distinct key [] d = subst (λ ps. Distinct (keys ps)) (sym (drop_none key)) tt
drop_first-Distinct key (p ∷ ps) (n, d) =
    subst (λ ps. Distinct (keys ps)) (sym (dropped-cons key p ps))
      (elim (str_dec p.public_key key)
        as (λ d. Distinct (keys (ite d ps (p ∷ or_old (drop_first key ps) ps)))) [
          | yes e ↦ d
          | no m ↦ (λ i. n (In-drop_first p.public_key key ps i), drop_first-Distinct key ps d)
        ])

swapped :
    (q : Str) (peer p : Peer) (o : Option Peer)
    → ¬ (peer.public_key ≡ p.public_key)
    → ite (str_dec q p.public_key) (some p) (ite (str_dec q peer.public_key) (some peer) o)
      ≡ ite (str_dec q peer.public_key) (some peer) (ite (str_dec q p.public_key) (some p) o)
swapped q peer p o n =
    elim (str_dec q p.public_key)
      as (λ d.
        ite d (some p) (ite (str_dec q peer.public_key) (some peer) o)
        ≡ ite (str_dec q peer.public_key) (some peer) (ite d (some p) o)) [
          | yes e ↦ sym (if_neg (str_dec q peer.public_key) (λ r. n (sym r ∙ e)) _ _)
          | no m ↦ refl
        ]

-- A new peer at the end.
pub get-append :
    (q : Str) (peer : Peer) (ps : Peers)
    → ¬ In peer.public_key (keys ps)
    → get_by_public_key q (ps ++ (peer ∷ []))
      ≡ ite (str_dec q peer.public_key) (some peer) (get_by_public_key q ps)
get-append q peer [] n = get-cons q peer []
get-append q peer (p ∷ ps) n =
    get-cons q p (ps ++ (peer ∷ []))
    ∙ ap (λ o. ite (str_dec q p.public_key) (some p) o) (get-append q peer ps (λ i. n (inr i)))
    ∙ swapped q peer p (get_by_public_key q ps) (λ e. n (inl e))
    ∙ ap (λ o. ite (str_dec q peer.public_key) (some peer) o) (sym (get-cons q p ps))

keys-append :
    (ps : Peers) (peer : Peer) → keys (ps ++ (peer ∷ [])) ≡ keys ps ++ (peer.public_key ∷ [])
keys-append [] peer = refl
keys-append (p ∷ ps) peer = ap (λ ks. p.public_key ∷ ks) (keys-append ps peer)

append-Distinct : (xs : List Str) (x : Str) → ¬ In x xs → Distinct xs → Distinct (xs ++ (x ∷ []))
append-Distinct [] x n d = (λ i. i, tt)
append-Distinct (y ∷ xs) x n (m, d) = (
  λ i. elim (In-append y xs (x ∷ []) i) [
    | inl j ↦ m j
    | inr j ↦ elim j [ inl e ↦ n (inl (sym e)) | inr z ↦ z ]
  ],
  append-Distinct xs x (λ i. n (inr i)) d,
)

pub appended-Distinct :
    (peer : Peer) (ps : Peers)
    → ¬ In peer.public_key (keys ps)
    → Distinct (keys ps)
    → Distinct (keys (ps ++ (peer ∷ [])))
appended-Distinct peer ps n d =
    subst Distinct (sym (keys-append ps peer)) (append-Distinct (keys ps) peer.public_key n d)
