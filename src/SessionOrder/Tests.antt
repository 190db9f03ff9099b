-- ===== src/SessionOrder/Tests.antt =====
-- Runs of the session order store, and uses of its theorems.
use termyard.Base.{
  ◌≡◌, refl, [], ◌∷◌, true, Bool, codes, str_dec, get, arith, inl, inr, Distinct, map,
}
use termyard.SessionOrder.{
  Orders, new_order, split_key, renamed, apply_remote, apply_snapshot, migrate_key,
}
use termyard.SessionOrder.Keys.{split_key-renamed}
use termyard.SessionOrder.Merge.{newest, apply_remote_comm, apply_snapshot-newest}

program : Unit {0}
unfolding split_key apply_remote apply_snapshot migrate_key str_dec
program = tt

abbrev stored : Orders
stored = (codes "h/a", new_order (codes "m") 5) ∷ (codes "b", new_order (codes "n") 6) ∷ []

abbrev saving : Orders → Bool
saving m = true

splits : split_key (codes "h/a/b") ≡ (codes "h", codes "a/b")
unfolding program
splits = refl

migrated :
    (migrate_key saving (λ i. 9) (codes "h") (codes "a") (codes "c") stored).0
    ≡ (codes "b", new_order (codes "n") 6) ∷ (codes "h/c", new_order (codes "m") 9) ∷ []
unfolding program
migrated = refl

other_host : (migrate_key saving (λ i. 9) (codes "g") (codes "a") (codes "c") stored).0 ≡ stored
unfolding program
other_host = refl

split_key-renamed_example :
    split_key (renamed (codes "h", codes "a") (codes "c")) ≡ (codes "h", codes "c")
split_key-renamed_example =
    split_key-renamed (codes "h") (codes "a") (codes "c")
      (λ i. elim i [ inl e ↦ omega (arith, e) | inr j ↦ absurd j ])
      (λ i. elim i [ inl e ↦ omega (arith, e) | inr j ↦ absurd j ])

-- An update that is older than what is stored, and one that is newer.
apply_remote_comm_example :
    get
      (codes "b")
      (apply_remote saving
        (codes "b")
        (new_order (codes "y") 8)
        (apply_remote saving (codes "b") (new_order (codes "x") 4) stored).0).0
    ≡ get
        (codes "b")
        (apply_remote saving
          (codes "b")
          (new_order (codes "x") 4)
          (apply_remote saving (codes "b") (new_order (codes "y") 8) stored).0).0
apply_remote_comm_example =
    apply_remote_comm saving (codes "b") (codes "b") (new_order (codes "x") 4)
      (new_order (codes "y") 8) stored (λ e f. absurd (omega (arith, f))) (codes "b")

abbrev snapshot : Orders
snapshot = (codes "b", new_order (codes "z") 7) ∷ (codes "h/a", new_order (codes "w") 2) ∷ []

apply_snapshot-newest_example :
    get (codes "b") (apply_snapshot saving snapshot stored).0
    ≡ newest (get (codes "b") snapshot) (get (codes "b") stored)
apply_snapshot-newest_example =
    apply_snapshot-newest saving snapshot stored (codes "b") snapshot-Distinct
  where
    snapshot-Distinct : Distinct (map (λ e. e.0) snapshot)
    snapshot-Distinct = ground arith
