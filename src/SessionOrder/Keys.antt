-- ===== src/SessionOrder/Keys.antt =====
-- `splitKey` takes a global key apart.
use termyard.Base.{ℕ, ◌==◌, false, ◌≡◌, refl, arith, [], ◌∷◌, ◌++◌, none, some, Str, In, inl, inr}
use termyard.SessionOrder.{split_at_slash, split_key, renamed}

other_byte : (c : ℕ) → ¬ (47 ≡ c) → (c == 47) ≡ false
other_byte c n = ground arith

split_host :
    (host name : Str) → ¬ In 47 host → split_at_slash (host ++ 47 ∷ name) ≡ some (host, name)
unfolding split_at_slash
split_host [] name n = refl
split_host (c ∷ host) name n =
    rw (other_byte c (λ e. n (inl e)), split_host host name (λ i. n (inr i)))

split_none : (key : Str) → ¬ In 47 key → split_at_slash key ≡ none
unfolding split_at_slash
split_none [] n = refl
split_none (c ∷ key) n = rw (other_byte c (λ e. n (inl e)), split_none key (λ i. n (inr i)))

-- The key that `MigrateKey` builds for a host and a new name, neither with a slash, splits back into
-- that host and that name.
pub split_key-renamed :
    (host old_name name : Str)
    → ¬ In 47 host
    → ¬ In 47 name
    → split_key (renamed (host, old_name) name) ≡ (host, name)
unfolding split_key
split_key-renamed [] old_name name n k = rw (split_none name k)
split_key-renamed (c ∷ host) old_name name n k = rw (split_host (c ∷ host) name n)
