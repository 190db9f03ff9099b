-- ===== src/Links/Steps.antt =====
-- The steps of the goroutines, and whole histories.
use termyard.Base.{
  ℕ, ◌==◌, if_rule, if◌then◌else◌, ite, Bool, true, false, List, [], ◌∷◌, none, some, Str, str_dec,
  get, All, ◌≡◌, refl, ap, ◌∙◌,
}
use termyard.Links.{
  LinkStatus, PeerLink, Reconnector, LinkSupervisor, new_link_supervisor, drop_link, without, is_of,
  on_link, set_status, finish_reconnector, flip_role,
}
use termyard.Links.Single.{Serves, IsLive, IsSingle, All-map, without-Descends}
use termyard.Links.Runs.{
  Step, starts, spawns, drops, disables, cancels, reports, finishes, flips, handle, run,
  drop_link-Cleared, spawn_link-Single, disable_link-Single, Cleared-Single, cancel_key-Single,
}

pub on_cons :
    (q : Str) (n : ℕ) (f : PeerLink → PeerLink) (k : Str) (x : PeerLink) (m : List (Str × PeerLink))
    → get q (on_link n f ((k, x) ∷ m))
      ≡ ite (str_dec q k) (some (if is_of n x then f x else x)) (get q (on_link n f m))
unfolding on_link
on_cons q n f k x m =
    let rest = on_link n f m in
    elim (is_of n x)
      as (λ b.
        get q (if b then (k, f x) ∷ rest else (k, x) ∷ rest)
        ≡ ite (str_dec q k) (some (if b then f x else x)) (get q rest)) [
          | true ↦ refl
          | false ↦ refl
        ]

get-on_link :
    (q : Str) (n : ℕ) (f : PeerLink → PeerLink) (m : List (Str × PeerLink)) (l : PeerLink)
    → get q m ≡ some l
    → get q (on_link n f m) ≡ some (if is_of n l then f l else l)
unfolding on_link
get-on_link q n f [] l e = absurd (cc e)
get-on_link q n f ((k, x) ∷ m) l e =
    on_cons q n f k x m
    ∙ elim (str_dec q k)
          as (λ d.
            ite d (some x) (get q m) ≡ some l
            → ite d (some (if is_of n x then f x else x)) (get q (on_link n f m))
              ≡ some (if is_of n l then f l else l)) [
                | yes r ↦ λ e.
                    let s : x ≡ l = cc e in
                    ap (λ (x : PeerLink). some (if is_of n x then f x else x)) s
                | no r ↦ λ e. get-on_link q n f m l e
              ]
        e

All-without :
    (P : Reconnector → Type 0) (n : ℕ) (rs : List Reconnector)
    → All P rs
    → All (λ (r : Reconnector). P r × ((r.number == n) ≡ false)) (without n rs)
unfolding without
All-without P n [] h = tt
All-without P n (r ∷ rs) (h, hs) =
    let rest = All-without P n rs hs in
    if_rule (All (λ (r : Reconnector). P r × ((r.number == n) ≡ false))) (r.number == n)
      {x = without n rs} {y = r ∷ without n rs} (λ _. rest) (λ e. ((h, e), rest))

-- A change that keeps the goroutine and the peer of a link.
status_live :
    (n : ℕ) (status : LinkStatus) (err : Str) (next : ℕ) (links : List (Str × PeerLink))
    (r : Reconnector)
    → IsLive links r
    → IsLive
        (on_link n
          (λ (l : PeerLink). record l { status = status; last_err = err; next_retry = next })
          links)
        r
status_live n status err next links r h q =
    let f : PeerLink → PeerLink =
      λ (l : PeerLink). record l { status = status; last_err = err; next_retry = next } in
    let (l, (g, s)) = h q in
    (
      if is_of n l then f l else l,
      (
        get-on_link r.key n f links l g,
        if_rule (Serves r.number) (is_of n l) {x = f l} {y = l}
            (λ _. record { cancel = s.cancel; enabled = s.enabled; initiated = s.initiated })
            (λ _. s),
      ),
    )

-- The link of another goroutine is left alone.
other_live :
    (n : ℕ) (f : PeerLink → PeerLink) (links : List (Str × PeerLink)) (r : Reconnector)
    → IsLive links r × ((r.number == n) ≡ false)
    → IsLive (on_link n f links) r
unfolding is_of
other_live n f links r (h, d) q =
    let (l, (g, s)) = h q in
    let o : is_of n l ≡ false =
      ap (λ c. elim c as (λ _. Bool) [ none ↦ false | some m ↦ m == n ]) s.cancel ∙ d in
    (l, (get-on_link r.key n f links l g ∙ ap (λ b. some (if b then f l else l)) o, s))

handle-Single : (e : Step) (s : LinkSupervisor) → IsSingle s → IsSingle (handle e s)
unfolding set_status finish_reconnector flip_role
handle-Single starts s h = record { numbers = h.numbers; live = h.live }
handle-Single (spawns p) s h = spawn_link-Single p s h
handle-Single (drops key) s h =
    Cleared-Single key s.links (drop_link key s) (drop_link-Cleared key s h)
handle-Single (disables p) s h = disable_link-Single p s h
handle-Single (cancels key) s h = cancel_key-Single key s h
handle-Single (reports n status err next) s h = record {
  numbers = h.numbers;
  live =
      All-map (IsLive s.links) (IsLive _) s.reconnectors (status_live n status err next s.links)
        h.live;
}
handle-Single (finishes n) s h = record {
  numbers = without-Descends n s.next s.reconnectors h.numbers;
  live =
      All-map _ (IsLive s.links) (without n s.reconnectors) (λ r q. q.0)
        (All-without (IsLive s.links) n s.reconnectors h.live);
}
handle-Single (flips n) s h = record {
  numbers = without-Descends n s.next s.reconnectors h.numbers;
  live =
      All-map _ (IsLive _) (without n s.reconnectors) (other_live n _ s.links)
        (All-without (IsLive s.links) n s.reconnectors h.live);
}

run_from : (es : List Step) (s : LinkSupervisor) → IsSingle s → IsSingle (run es s)
unfolding run
run_from [] s h = h
run_from (e ∷ es) s h = run_from es (handle e s) (handle-Single e s h)

-- After any interleaving of the locked parts of the methods and of the goroutines, no two
-- reconnectors have the same number, and one that is not cancelled is the reconnector of the link that
-- its peer has, which is enabled and ours to dial.
pub run-Single : (es : List Step) → IsSingle (run es new_link_supervisor)
run-Single es = run_from es new_link_supervisor (record { numbers = tt; live = tt })
