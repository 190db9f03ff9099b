-- ===== src/ToolEvents/Artifacts/Bounded.antt =====
-- The artifacts of a session: at most a hundred, each path once.
use termyard.Base.{
  ℕ, zero, suc, ◌-◌, ◌≤◌, ◌≡◌, refl, sym, subst, ap, ◌∙◌, ltb, if_rule, ite, List, [], ◌∷◌, ◌++◌,
  Option, none, some, Str, str_dec, length, drop, length-append, length-drop, Distinct, In, map,
  arith, inl, inr, ◌⊎◌,
}
use termyard.ToolEvents.Artifacts.{
  FileArtifact, refresh, before, take_out, cap_artifacts, place, is_blank, add_artifact,
  add_artifacts, without_path,
}

abbrev pub paths : List FileArtifact → List Str
paths = map (λ a. a.path)

pub record IsBounded (arts : List FileArtifact) : Type 0 where
  pub few : length arts ≤ 100
  pub once : Distinct (paths arts)

-- Taking out the artifact of a path: it is not among the others.
record TakesOut (path : Str) (cur : List FileArtifact) (e : FileArtifact) (rest : List FileArtifact)
    : Type 0 where
  its : e.path ≡ path
  size : length cur ≡ suc (length rest)
  fewer : (p : Str) → In p (paths rest) → In p (paths cur)
  gone : Distinct (paths cur) → ¬ In path (paths rest)
  once : Distinct (paths cur) → Distinct (paths rest)

before-TakesOut :
    (path : Str) (a : FileArtifact) (cur : List FileArtifact) (n : ¬ (a.path ≡ path))
    (r : Option (FileArtifact × List FileArtifact))
    → ((e : FileArtifact) (rest : List FileArtifact)
        → r ≡ some (e, rest)
        → TakesOut path cur e rest)
    → (e : FileArtifact) (rest : List FileArtifact) → before a r ≡ some (e, rest)
    → TakesOut path (a ∷ cur) e rest
before-TakesOut path a cur n none h e rest q = absurd (cc q)
before-TakesOut path a cur n (some (x, xs)) h e rest q =
    let t = h x xs refl in
    let p : x ≡ e = cc q in
    let r : a ∷ xs ≡ rest = cc q in
    subst (λ rest. TakesOut path (a ∷ cur) e rest) r
      (record {
        its = ap (λ (z : FileArtifact). z.path) (sym p) ∙ t.its;
        size = omega (arith, t.size);
        fewer = λ s i. elim i [ inl u ↦ inl u | inr j ↦ inr (t.fewer s j) ];
        gone = λ d i. elim i [ inl u ↦ n (sym u) | inr j ↦ t.gone d.1 j ];
        once = λ d. ((λ i. d.0 (t.fewer a.path i)), t.once d.1);
      })

take_out-TakesOut :
    (path : Str) (cur : List FileArtifact) (e : FileArtifact) (rest : List FileArtifact)
    → take_out path cur ≡ some (e, rest)
    → TakesOut path cur e rest
unfolding take_out
take_out-TakesOut path [] e rest q = absurd (cc q)
take_out-TakesOut path (a ∷ cur) e rest q =
    let ih = take_out-TakesOut path cur in
    elim (str_dec a.path path)
        as (λ d.
          ite d (some (a, cur)) (before a (take_out path cur)) ≡ some (e, rest)
          → TakesOut path (a ∷ cur) e rest) [
            | yes p ↦ λ q.
                let u : a ≡ e = cc q in
                let v : cur ≡ rest = cc q in
                subst (λ rest. TakesOut path (a ∷ cur) e rest) v
                  (record {
                    its = ap (λ (z : FileArtifact). z.path) (sym u) ∙ p;
                    size = refl;
                    fewer = λ s i. inr i;
                    gone = λ d i. d.0 (subst (λ s. In s (paths cur)) (sym p) i);
                    once = λ d. d.1;
                  })
            | no n ↦ before-TakesOut path a cur n (take_out path cur) ih e rest
          ]
      q

before-none :
    (a : FileArtifact) (r : Option (FileArtifact × List FileArtifact))
    → before a r ≡ none
    → r ≡ none
before-none a none q = refl
before-none a (some (e, rest)) q = absurd (cc q)

In-snoc :
    (p : Str) (cur : List FileArtifact) (a : FileArtifact)
    → In p (paths (cur ++ a ∷ []))
    → In p (paths cur) ⊎ (p ≡ a.path)
In-snoc p [] a (inl e) = inr e
In-snoc p [] a (inr i) = absurd i
In-snoc p (b ∷ cur) a (inl e) = inl (inl e)
In-snoc p (b ∷ cur) a (inr i) = elim (In-snoc p cur a i) [ inl j ↦ inl (inr j) | inr e ↦ inr e ]

take_out-none :
    (path : Str) (cur : List FileArtifact) → take_out path cur ≡ none → ¬ In path (paths cur)
unfolding take_out
take_out-none path [] q i = i
take_out-none path (a ∷ cur) q i =
    elim (str_dec a.path path)
        as (λ d. ite d (some (a, cur)) (before a (take_out path cur)) ≡ none → ⊥) [
          | yes p ↦ λ q. cc q
          | no n ↦ λ q. elim i [
            | inl u ↦ n (sym u)
            | inr j ↦ take_out-none path cur (before-none a (take_out path cur) q) j
          ]
        ]
      q

snoc-Distinct :
    (cur : List FileArtifact) (a : FileArtifact)
    → ¬ In a.path (paths cur)
    → Distinct (paths cur)
    → Distinct (paths (cur ++ a ∷ []))
snoc-Distinct [] a n d = ((λ i. i), tt)
snoc-Distinct (b ∷ cur) a n (d, ds) = (
  (λ i. elim (In-snoc b.path cur a i) [ inl j ↦ d j | inr e ↦ n (inl (sym e)) ]),
  snoc-Distinct cur a (λ i. n (inr i)) ds,
)

drop-Distinct :
    (n : ℕ) (cur : List FileArtifact) → Distinct (paths cur) → Distinct (paths (drop n cur))
drop-Distinct zero cur d = d
drop-Distinct (suc n) [] d = d
drop-Distinct (suc n) (a ∷ cur) (d, ds) = drop-Distinct n cur ds

pub nil-IsBounded : IsBounded []
nil-IsBounded = record { few = omega arith; once = tt }

cap_artifacts-IsBounded :
    (cur : List FileArtifact) → Distinct (paths cur) → IsBounded (cap_artifacts cur)
cap_artifacts-IsBounded cur d =
    if_rule IsBounded (ltb 100 (length cur))
      (λ q. record {
        few = omega (arith, length-drop (length cur - 100) cur);
        once = drop-Distinct (length cur - 100) cur d;
      })
      (λ q. record { few = ground (arith, q); once = d })

place-IsBounded :
    (art : FileArtifact) (cur : List FileArtifact) (r : Option (FileArtifact × List FileArtifact))
    → take_out art.path cur ≡ r
    → IsBounded cur
    → IsBounded (place art cur r)
unfolding place
place-IsBounded art cur none q h =
    cap_artifacts-IsBounded (cur ++ art ∷ [])
      (snoc-Distinct cur art (take_out-none art.path cur q) h.once)
place-IsBounded art cur (some (e, rest)) q h =
    let t = take_out-TakesOut art.path cur e rest q in
    record {
      few = omega (arith, h.few, t.size, length-append rest (refresh e art ∷ []));
      once =
          snoc-Distinct rest (refresh e art)
            (λ i. t.gone h.once (subst (λ p. In p (paths rest)) t.its i)) (t.once h.once);
    }

add_artifact-IsBounded :
    (cur : List FileArtifact) (a : Option FileArtifact)
    → IsBounded cur
    → IsBounded (add_artifact cur a)
unfolding add_artifact
add_artifact-IsBounded cur none h = h
add_artifact-IsBounded cur (some art) h =
    if_rule IsBounded (is_blank art.path) (λ q. h)
      (λ q. place-IsBounded art cur (take_out art.path cur) refl h)

-- Any run of the loop of `storeArtifacts` keeps at most a hundred artifacts, and each path once.
pub add_artifacts-IsBounded :
    (cur : List FileArtifact) (arts : List (Option FileArtifact))
    → IsBounded cur
    → IsBounded (add_artifacts cur arts)
unfolding add_artifacts
add_artifacts-IsBounded cur [] h = h
add_artifacts-IsBounded cur (a ∷ arts) h =
    add_artifacts-IsBounded (add_artifact cur a) arts (add_artifact-IsBounded cur a h)

without_path-In :
    (path p : Str) (arts : List FileArtifact)
    → In p (paths (without_path path arts))
    → In p (paths arts)
unfolding without_path
without_path-In path p [] i = i
without_path-In path p (a ∷ arts) i =
    let ih = without_path-In path p arts in
    elim (str_dec a.path path)
        as (λ d.
          In p (paths (ite d (without_path path arts) (a ∷ without_path path arts)))
          → In p (paths (a ∷ arts))) [
            | yes e ↦ λ i. inr (ih i)
            | no n ↦ λ i. elim i [ inl e ↦ inl e | inr j ↦ inr (ih j) ]
          ]
      i

length-without_path :
    (path : Str) (arts : List FileArtifact) → length (without_path path arts) ≤ length arts
unfolding without_path
length-without_path path [] = omega arith
length-without_path path (a ∷ arts) = ground (arith, length-without_path path arts)

without_path-Distinct :
    (path : Str) (arts : List FileArtifact)
    → Distinct (paths arts)
    → Distinct (paths (without_path path arts))
unfolding without_path
without_path-Distinct path [] d = d
without_path-Distinct path (a ∷ arts) (d, ds) =
    let ih = without_path-Distinct path arts ds in
    elim (str_dec a.path path)
      as (λ d. Distinct (paths (ite d (without_path path arts) (a ∷ without_path path arts)))) [
        | yes e ↦ ih
        | no n ↦ ((λ i. d (without_path-In path a.path arts i)), ih)
      ]

pub without_path-IsBounded :
    (path : Str) (arts : List FileArtifact) → IsBounded arts → IsBounded (without_path path arts)
without_path-IsBounded path arts h = record {
  few = omega (arith, h.few, length-without_path path arts);
  once = without_path-Distinct path arts h.once;
}
