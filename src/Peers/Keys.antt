-- ===== src/Peers/Keys.antt =====
-- The public keys in the list are distinct, and stay so.
use termyard.Base.{
  if_neg, if_pos, ite, if◌then◌else◌, true, false, [], ◌∷◌, Option, none, some, Str, str_dec, In,
  inl, inr, ◌≡◌, refl, sym, ap, ◌∙◌,
}
use termyard.Peers.{Peer, Peers, get_by_public_key, put_before, change_first}
use termyard.Peers.Finds.{keys, or_old, KeepsKey, get-cons, old-cons}

pub get_empty : (q : Str) → get_by_public_key q [] ≡ none
unfolding get_by_public_key
get_empty q = refl

keys_none : (key : Str) (f : Peer → Peer) → keys (or_old (change_first key f []) []) ≡ []
unfolding change_first
keys_none key f = refl

-- A key that is not in the list is not found, and the other way round.
pub missing-get : (q : Str) (ps : Peers) → ¬ In q (keys ps) → get_by_public_key q ps ≡ none
missing-get q [] n = get_empty q
missing-get q (p ∷ ps) n =
    get-cons q p ps
    ∙ if_neg (str_dec q p.public_key) (λ e. n (inl e)) _ _
    ∙ missing-get q ps (λ i. n (inr i))

pub get-missing : (q : Str) (ps : Peers) → get_by_public_key q ps ≡ none → ¬ In q (keys ps)
get-missing q [] e i = i
get-missing q (p ∷ ps) e i =
    elim (str_dec q p.public_key) as (λ d. ite d (some p) (get_by_public_key q ps) ≡ none → ⊥) [
      | yes r ↦ λ z. absurd (cc z)
      | no n ↦ λ z. elim i [ inl r ↦ n r | inr j ↦ get-missing q ps z j ]
    ]
      (sym (get-cons q p ps) ∙ e)

-- What `change_first` tells of the key.
abbrev pub Tells : Str → Peers → Option Peers → Type 0
Tells key ps none = get_by_public_key key ps ≡ none
Tells key ps (some n) = (p : Peer) × (get_by_public_key key ps ≡ some p)

Tells-put_before :
    (key : Str) (p : Peer) (ps : Peers) (r : Option Peers)
    → ¬ (key ≡ p.public_key)
    → Tells key ps r
    → Tells key (p ∷ ps) (put_before p r)
Tells-put_before key p ps none n t = get-cons key p ps ∙ if_neg (str_dec key p.public_key) n _ _ ∙ t
Tells-put_before key p ps (some m) n (x, t) =
    (x, get-cons key p ps ∙ if_neg (str_dec key p.public_key) n _ _ ∙ t)

pub change_first-Tells :
    (key : Str) (f : Peer → Peer) (ps : Peers) → Tells key ps (change_first key f ps)
unfolding change_first
change_first-Tells key f [] = get_empty key
change_first-Tells key f (p ∷ ps) =
    let rest = change_first key f ps in
    elim (str_dec p.public_key key)
      as (λ d.
        Tells key (p ∷ ps) (if ite d true false then some (f p ∷ ps) else put_before p rest)) [
          | yes e ↦ (p, get-cons key p ps ∙ if_pos (str_dec key p.public_key) (sym e) _ _)
          | no n ↦ Tells-put_before key p ps rest (λ e. n (sym e)) (change_first-Tells key f ps)
        ]

pub keys-change_first :
    (key : Str) (f : Peer → Peer) (ps : Peers)
    → KeepsKey key f
    → keys (or_old (change_first key f ps) ps) ≡ keys ps
keys-change_first key f [] k = keys_none key f
keys-change_first key f (p ∷ ps) k =
    ap keys (old-cons key f p ps)
    ∙ elim (str_dec p.public_key key)
        as (λ d. keys (ite d (f p ∷ ps) (p ∷ or_old (change_first key f ps) ps)) ≡ keys (p ∷ ps)) [
          | yes e ↦ ap (λ x. x ∷ keys ps) (k p e ∙ sym e)
          | no n ↦ ap (λ xs. p.public_key ∷ xs) (keys-change_first key f ps k)
        ]

-- What is found under a key has that key, and a key of the list is found.
pub found_key :
    (q : Str) (ps : Peers) (p : Peer) → get_by_public_key q ps ≡ some p → p.public_key ≡ q
found_key q [] p e = absurd (cc (sym (get_empty q) ∙ e))
found_key q (x ∷ ps) p e =
    elim (str_dec q x.public_key)
        as (λ d. ite d (some x) (get_by_public_key q ps) ≡ some p → p.public_key ≡ q) [
          | yes r ↦ λ e. let s : x ≡ p = cc e in sym (r ∙ ap (λ (x : Peer). x.public_key) s)
          | no n ↦ λ e. found_key q ps p e
        ]
      (sym (get-cons q x ps) ∙ e)

pub In-get :
    (q : Str) (ps : Peers) → In q (keys ps) → (p : Peer) × (get_by_public_key q ps ≡ some p)
In-get q [] i = absurd i
In-get q (x ∷ ps) i =
    let found : (o : Option Peer) → get_by_public_key q (x ∷ ps) ≡ o → (p : Peer) × (o ≡ some p) =
      λ o. elim o as (λ o. get_by_public_key q (x ∷ ps) ≡ o → (p : Peer) × (o ≡ some p)) [
        | none ↦ λ e. absurd (get-missing q (x ∷ ps) e i)
        | some p ↦ λ e. (p, refl)
      ] in
    found (get_by_public_key q (x ∷ ps)) refl
