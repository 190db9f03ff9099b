-- ===== src/Peers/Finds.antt =====
-- What is found by public key after the list is changed.
use termyard.Base.{
  if_neg, if◌then◌else◌, ite, true, false, List, [], ◌∷◌, map, Option, none, some, Str, str_dec,
  ◌≡◌, refl, sym, ◌∙◌, subst, arith,
}
use termyard.Peers.{Peer, Peers, get_by_public_key, put_before, change_first}

abbrev pub keys : Peers → List Str
keys ps = map (λ (p : Peer). p.public_key) ps

-- What `f` makes of a found peer.
abbrev pub apply : (Peer → Peer) → Option Peer → Option Peer
apply f none = none
apply f (some p) = some (f p)

-- The changed list, or the old one.
abbrev pub or_old : Option Peers → Peers → Peers
or_old none ps = ps
or_old (some n) ps = n

-- A change that keeps this key.
abbrev pub KeepsKey : Str → (Peer → Peer) → Type 0
KeepsKey key f = (p : Peer) → p.public_key ≡ key → (f p).public_key ≡ key

pub step_old :
    (r : Option Peers) (p : Peer) (ps : Peers) → or_old (put_before p r) (p ∷ ps) ≡ p ∷ or_old r ps
step_old none p ps = refl
step_old (some n) p ps = refl

nothing :
    (q key : Str) (f : Peer → Peer)
    → get_by_public_key q (or_old (change_first key f []) [])
      ≡ ite (str_dec q key) (apply f (get_by_public_key q [])) (get_by_public_key q [])
unfolding get_by_public_key change_first
nothing q key f = elim (str_dec q key) as (λ d. none ≡ ite d (apply f none) none) [
  | yes e ↦ refl
  | no n ↦ refl
]

both :
    (q key : Str) (f : Peer → Peer) (p : Peer) (o : Option Peer)
    → ite (str_dec q key) (some (f p)) o
      ≡ ite
          (str_dec q key)
          (apply f (ite (str_dec q key) (some p) o))
          (ite (str_dec q key) (some p) o)
both q key f p o =
    elim (str_dec q key)
      as (λ d. ite d (some (f p)) o ≡ ite d (apply f (ite d (some p) o)) (ite d (some p) o)) [
        | yes e ↦ refl
        | no n ↦ refl
      ]

both_same :
    (q key a b : Str) (f : Peer → Peer) (p : Peer) (o : Option Peer)
    → a ≡ key
    → b ≡ key
    → ite (str_dec q a) (some (f p)) o
      ≡ ite (str_dec q key) (apply f (ite (str_dec q b) (some p) o)) (ite (str_dec q b) (some p) o)
both_same q key a b f p o e g =
    subst
      (λ a.
        ite (str_dec q a) (some (f p)) o
        ≡ ite (str_dec q key) (apply f (ite (str_dec q b) (some p) o))
            (ite (str_dec q b) (some p) o))
      (sym e)
      (subst
        (λ b.
          ite (str_dec q key) (some (f p)) o
          ≡ ite (str_dec q key) (apply f (ite (str_dec q b) (some p) o))
              (ite (str_dec q b) (some p) o))
        (sym g) (both q key f p o))

apart :
    (q key : Str) (f : Peer → Peer) (p : Peer) (o : Option Peer)
    → ¬ (p.public_key ≡ key)
    → ite (str_dec q p.public_key) (some p) (ite (str_dec q key) (apply f o) o)
      ≡ ite
          (str_dec q key)
          (apply f (ite (str_dec q p.public_key) (some p) o))
          (ite (str_dec q p.public_key) (some p) o)
apart q key f p o n =
    elim (str_dec q p.public_key)
      as (λ d.
        ite d (some p) (ite (str_dec q key) (apply f o) o)
        ≡ ite (str_dec q key) (apply f (ite d (some p) o)) (ite d (some p) o)) [
          | yes e ↦ sym (if_neg (str_dec q key) (λ r. n (sym e ∙ r)) _ _)
          | no m ↦ refl
        ]

pub get-cons :
    (q : Str) (p : Peer) (ps : Peers)
    → get_by_public_key q (p ∷ ps) ≡ ite (str_dec q p.public_key) (some p) (get_by_public_key q ps)
unfolding get_by_public_key
get-cons q p ps = ground arith

pub old-cons :
    (key : Str) (f : Peer → Peer) (p : Peer) (ps : Peers)
    → or_old (change_first key f (p ∷ ps)) (p ∷ ps)
      ≡ ite (str_dec p.public_key key) (f p ∷ ps) (p ∷ or_old (change_first key f ps) ps)
unfolding change_first
old-cons key f p ps =
    elim (str_dec p.public_key key)
      as (λ d.
        or_old (if ite d true false then some (f p ∷ ps) else put_before p (change_first key f ps))
          (p ∷ ps)
        ≡ ite d (f p ∷ ps) (p ∷ or_old (change_first key f ps) ps)) [
          | yes e ↦ refl
          | no n ↦ step_old (change_first key f ps) p ps
        ]

pub get-change_first :
    (q key : Str) (f : Peer → Peer) (ps : Peers)
    → KeepsKey key f
    → get_by_public_key q (or_old (change_first key f ps) ps)
      ≡ ite (str_dec q key) (apply f (get_by_public_key q ps)) (get_by_public_key q ps)
get-change_first q key f [] k = nothing q key f
get-change_first q key f (p ∷ ps) k =
    let ih = get-change_first q key f ps k in
    rw (old-cons key f p ps, get-cons q p ps)
      (elim (str_dec p.public_key key)
        as (λ d.
          get_by_public_key q (ite d (f p ∷ ps) (p ∷ or_old (change_first key f ps) ps))
          ≡ ite (str_dec q key)
              (apply f (ite (str_dec q p.public_key) (some p) (get_by_public_key q ps)))
              (ite (str_dec q p.public_key) (some p) (get_by_public_key q ps))) [
                | yes e ↦
                    get-cons q (f p) ps
                    ∙ both_same q key (f p).public_key p.public_key f p (get_by_public_key q ps)
                        (k p e) e
                | no n ↦
                    rw (get-cons q p (or_old (change_first key f ps) ps), ih)
                      (apart q key f p (get_by_public_key q ps) n)
              ])
