-- ===== src/Forwards/Tests.antt =====
-- A forward whose second start fails.
use termyard.Base.{List, [], ◌∷◌, true, false, none, some, ◌≡◌, refl, ℕ_discrete}
use termyard.Forwards.{
  mode_proxy, mode_socat, new_store, new_forward, stop_socat, stop_forward, add_forward,
  remove_forward,
}
use termyard.Forwards.Owned.{Call, adds, removes, run, IsTidy, run-Tidy}

-- Process 41 exposes port 80; the second start on the port fails; port 81 goes through the proxy.
abbrev failing : List Call
failing =
    adds (λ p. true) (some 40) 80 [] mode_socat 8080
    ∷ adds (λ p. true) none 80 [] mode_socat 9090
    ∷ adds (λ p. true) none 81 [] mode_proxy 0
    ∷ []

-- The forward of the stopped process is still there.
failing_left : run failing new_store ≡ record {
  forwards =
      (80, new_forward 80 [] mode_socat 8080 41) ∷ (81, new_forward 81 [] mode_proxy 0 0) ∷ [];
  processes = record { running = []; refused = [] };
}
unfolding run add_forward stop_forward stop_socat ℕ_discrete
failing_left = refl

-- A forward is removed although its process could not be stopped.
abbrev lost : List Call
lost = adds (λ p. true) (some 40) 80 [] mode_socat 8080 ∷ removes (λ p. false) 80 ∷ []

lost_process :
    run lost new_store
    ≡ record { forwards = []; processes = record { running = 41 ∷ []; refused = 41 ∷ [] } }
unfolding run add_forward remove_forward stop_forward stop_socat ℕ_discrete
lost_process = refl

run-Tidy_example : IsTidy (run lost new_store)
run-Tidy_example = run-Tidy lost
