-- ===== src/Forwards/Owned.antt =====
-- No socat process is lost but one whose kill failed.
use termyard.Base.{
  ℕ, suc, ◌==◌, if_rule, Bool, true, false, List, [], ◌∷◌, Option, none, some, Str, ℕ_discrete, All,
  In, ◌⊎◌, inl, inr, ◌≡◌, refl, sym, ap, ◌∙◌, arith,
}
use termyard.Base.Map.{get, put, delete, get-put_self, get-put_ne, get-delete_ne}
use termyard.Forwards.{
  Mode, mode_proxy, mode_socat, Forward, Processes, Store, new_store, drop_process, stop_socat,
  stop_forward, new_forward, start_forward, add_forward, remove_forward, stop_each, stop_all,
}

-- The process is that of the forward of some port.
abbrev pub IsOwned : List (ℕ × Forward) → ℕ → Type 0
IsOwned m pid =
    ((pid == 0) ≡ false)
    × ((port : ℕ) × ((f : Forward) × ((get ℕ_discrete port m ≡ some f) × (f.socat_pid ≡ pid))))

-- The property, or the process is one whose kill failed.
abbrev pub OrRefused : (ℕ → Type 0) → Processes → ℕ → Type 0
OrRefused P ps pid = P pid ⊎ In pid ps.refused

abbrev pub AreAll : (ℕ → Type 0) → Processes → Type 0
AreAll P ps = All (OrRefused P ps) ps.running

abbrev pub IsTidy : Store → Type 0
IsTidy s = AreAll (IsOwned s.forwards) s.processes

All-drop_process :
    (P : ℕ → Type 0) (pid : ℕ) (ps : List ℕ)
    → All P ps
    → All (λ p. P p × ((p == pid) ≡ false)) (drop_process pid ps)
All-drop_process P pid [] h = tt
All-drop_process P pid (p ∷ ps) (h, hs) =
    let rest = All-drop_process P pid ps hs in
    if_rule (All (λ p. P p × ((p == pid) ≡ false))) (p == pid) {x = drop_process pid ps}
      {y = p ∷ drop_process pid ps} (λ _. rest) (λ e. ((h, e), rest))

All-map : (P Q : ℕ → Type 0) (ps : List ℕ) → ((p : ℕ) → P p → Q p) → All P ps → All Q ps
All-map P Q [] f h = tt
All-map P Q (p ∷ ps) f (h, hs) = (f p h, All-map P Q ps f hs)

AreAll-map : (P Q : ℕ → Type 0) (ps : Processes) → ((p : ℕ) → P p → Q p) → AreAll P ps → AreAll Q ps
AreAll-map P Q ps f h =
    All-map (OrRefused P ps) (OrRefused Q ps) ps.running
      (λ p o. elim o [ inl x ↦ inl (f p x) | inr i ↦ inr i ]) h

-- A process that a kill leaves is another one, or the kill failed.
AreAll-stop_socat :
    (P : ℕ → Type 0) (kills : ℕ → Bool) (pid : ℕ) (ps : Processes)
    → AreAll P ps
    → AreAll (λ p. P p × (¬ (p ≡ pid))) (stop_socat kills pid ps)
unfolding stop_socat
AreAll-stop_socat P kills pid ps h =
    if_rule (AreAll (λ p. P p × (¬ (p ≡ pid)))) (kills pid)
      {x = record ps { running = drop_process pid ps.running }}
      {y = record ps { refused = pid ∷ ps.refused }}
      (λ _.
        All-map _ _ (drop_process pid ps.running)
          (λ p (o, d). elim o [
            | inl x ↦ inl (x, λ e. absurd (ground (arith, d, e)))
            | inr i ↦ inr i
          ])
          (All-drop_process (OrRefused P ps) pid ps.running h))
      (λ _.
        All-map _ _ ps.running
          (λ p o. elim (ℕ_discrete p pid) [
            | yes e ↦ inr (inl e)
            | no n ↦ elim o [ inl x ↦ inl (x, n) | inr i ↦ inr (inr i) ]
          ])
          h)

-- Owned by the forward of another port.
abbrev IsElsewhere : ℕ → List (ℕ × Forward) → ℕ → Type 0
IsElsewhere port m pid =
    ((pid == 0) ≡ false)
    × ((q : ℕ) × ((¬ (q ≡ port))
          × ((f : Forward) × ((get ℕ_discrete q m ≡ some f) × (f.socat_pid ≡ pid)))))

is_zero : (n p : ℕ) → (n == 0) ≡ true → (p == 0) ≡ false → ¬ (p ≡ n)
is_zero n p z o e = absurd (ground (arith, z, o, e))

differs : (f x : Forward) (p : ℕ) → f ≡ x → x.socat_pid ≡ p → ¬ (p ≡ f.socat_pid) → ⊥
differs f x p e r n = n (sym r ∙ ap (λ (f : Forward). f.socat_pid) (sym e))

-- A process whose forward is not that of the port.
elsewhere :
    (port : ℕ) (m : List (ℕ × Forward)) (pid : ℕ)
    → ((f : Forward) → get ℕ_discrete port m ≡ some f → ¬ (f.socat_pid ≡ pid))
    → IsOwned m pid
    → IsElsewhere port m pid
elsewhere port m pid n (z, (q, (f, (g, e)))) =
    (z, (q, (λ r. n f (ap (λ q. get ℕ_discrete q m) (sym r) ∙ g) e, (f, (g, e)))))

stop_forward-Elsewhere :
    (kills : ℕ → Bool) (port : ℕ) (m : List (ℕ × Forward)) (ps : Processes)
    → AreAll (IsOwned m) ps
    → AreAll (IsElsewhere port m) (stop_forward kills (get ℕ_discrete port m) ps)
unfolding stop_forward
stop_forward-Elsewhere kills port m ps h =
    elim (get ℕ_discrete port m)
        as (λ o.
          get ℕ_discrete port m ≡ o → AreAll (IsElsewhere port m) (stop_forward kills o ps)) [
            | none ↦ λ e.
                AreAll-map (IsOwned m) (IsElsewhere port m) ps
                  (λ p. elsewhere port m p (λ f g. absurd (cc (sym e ∙ g)))) h
            | some f ↦ λ e.
                if_rule (AreAll (IsElsewhere port m)) (f.socat_pid == 0) {x = ps}
                  {y = stop_socat kills f.socat_pid ps}
                  (λ z.
                    AreAll-map (IsOwned m) (IsElsewhere port m) ps
                      (λ p o.
                        elsewhere port m p
                          (λ x g r. differs f x p (cc (sym e ∙ g)) r (is_zero f.socat_pid p z o.0))
                          o)
                      h)
                  (λ z.
                    AreAll-map (λ p. IsOwned m p × (¬ (p ≡ f.socat_pid))) (IsElsewhere port m)
                      (stop_socat kills f.socat_pid ps)
                      (λ p (o, d).
                        elsewhere port m p (λ x g r. differs f x p (cc (sym e ∙ g)) r d) o)
                      (AreAll-stop_socat (IsOwned m) kills f.socat_pid ps h))
          ]
      refl

-- What is owned elsewhere is owned after the entry of the port is changed.
IsOwned-after :
    (port : ℕ) (m n : List (ℕ × Forward)) (ps : Processes)
    → ((q : ℕ) → ¬ (q ≡ port) → get ℕ_discrete q n ≡ get ℕ_discrete q m)
    → AreAll (IsElsewhere port m) ps
    → AreAll (IsOwned n) ps
IsOwned-after port m n ps k h =
    AreAll-map (IsElsewhere port m) (IsOwned n) ps
      (λ p (z, (q, (r, (f, (g, e))))). (z, (q, (f, (k q r ∙ g, e))))) h

put_elsewhere :
    (port : ℕ) (f : Forward) (m : List (ℕ × Forward)) (ps : Processes)
    → AreAll (IsElsewhere port m) ps
    → AreAll (IsOwned (put ℕ_discrete port f m)) ps
put_elsewhere port f m ps h =
    IsOwned-after port m (put ℕ_discrete port f m) ps (λ q n. get-put_ne ℕ_discrete q port f m n) h

start_forward-Tidy :
    (mode : Mode) (started : Option ℕ) (port : ℕ) (label : Str) (external_port : ℕ) (s : Store)
    (ps : Processes)
    → AreAll (IsElsewhere port s.forwards) ps
    → IsTidy (start_forward mode started port label external_port (record s { processes = ps })).0
start_forward-Tidy mode_proxy started port label external_port s ps e =
    put_elsewhere port (new_forward port label mode_proxy external_port 0) s.forwards ps e
start_forward-Tidy mode_socat none port label external_port s ps e =
    IsOwned-after port s.forwards s.forwards ps (λ q n. refl) e
start_forward-Tidy mode_socat (some n) port label external_port s ps e =
    let f = new_forward port label mode_socat external_port (suc n) in
    (
      inl (ground arith, (port, (f, (get-put_self ℕ_discrete port f s.forwards, refl)))),
      put_elsewhere port f s.forwards ps e,
    )

add_forward-Tidy :
    (kills : ℕ → Bool) (started : Option ℕ) (port : ℕ) (label : Str) (mode : Mode)
    (external_port : ℕ) (s : Store)
    → IsTidy s
    → IsTidy (add_forward kills started port label mode external_port s).0
unfolding add_forward
add_forward-Tidy kills started port label mode external_port s h =
    let e = stop_forward-Elsewhere kills port s.forwards s.processes h in
    start_forward-Tidy mode started port label external_port s _ e

remove_forward-Tidy :
    (kills : ℕ → Bool) (port : ℕ) (s : Store) → IsTidy s → IsTidy (remove_forward kills port s)
unfolding remove_forward
remove_forward-Tidy kills port s h =
    IsOwned-after port s.forwards (delete ℕ_discrete port s.forwards) _
      (λ q n. get-delete_ne ℕ_discrete q port s.forwards n)
      (stop_forward-Elsewhere kills port s.forwards s.processes h)

stop_forward-All :
    (P : ℕ → Type 0) (kills : ℕ → Bool) (o : Option Forward) (ps : Processes)
    → AreAll P ps
    → AreAll P (stop_forward kills o ps)
unfolding stop_forward
stop_forward-All P kills none ps h = h
stop_forward-All P kills (some f) ps h =
    if_rule (AreAll P) (f.socat_pid == 0) {x = ps} {y = stop_socat kills f.socat_pid ps} (λ _. h)
      (λ _.
        AreAll-map (λ p. P p × (¬ (p ≡ f.socat_pid))) P (stop_socat kills f.socat_pid ps)
          (λ p q. q.0) (AreAll-stop_socat P kills f.socat_pid ps h))

stop_each-All :
    (P : ℕ → Type 0) (kills : ℕ → Bool) (m : List (ℕ × Forward)) (ps : Processes)
    → AreAll P ps
    → AreAll P (stop_each kills m ps)
stop_each-All P kills [] ps h = h
stop_each-All P kills ((port, f) ∷ m) ps h =
    stop_each-All P kills m (stop_forward kills (some f) ps)
      (stop_forward-All P kills (some f) ps h)

-- A call; `kills` is whether the kill of a process succeeds.
pub data Call : Type 0 where
  adds : (ℕ → Bool) → Option ℕ → ℕ → Str → Mode → ℕ → Call
  removes : (ℕ → Bool) → ℕ → Call
  stops_all : (ℕ → Bool) → Call

abbrev pub call : Call → Store → Store
call (adds kills started port label mode external_port) s =
    (add_forward kills started port label mode external_port s).0
call (removes kills port) s = remove_forward kills port s
call (stops_all kills) s = stop_all kills s

unfoldable pub run : List Call → Store → Store
run [] s = s
run (c ∷ cs) s = run cs (call c s)

call-Tidy : (c : Call) (s : Store) → IsTidy s → IsTidy (call c s)
unfolding stop_all
call-Tidy (adds kills started port label mode external_port) s h =
    add_forward-Tidy kills started port label mode external_port s h
call-Tidy (removes kills port) s h = remove_forward-Tidy kills port s h
call-Tidy (stops_all kills) s h = stop_each-All (IsOwned s.forwards) kills s.forwards s.processes h

run_from : (cs : List Call) (s : Store) → IsTidy s → IsTidy (run cs s)
unfolding run
run_from [] s h = h
run_from (c ∷ cs) s h = run_from cs (call c s) (call-Tidy c s h)

-- After any history of a new store, also one in which `startSocat` or kills fail, every process that
-- is running is that of the forward of some port, or a kill of it has failed.
pub run-Tidy : (cs : List Call) → IsTidy (run cs new_store)
run-Tidy cs = run_from cs new_store tt
