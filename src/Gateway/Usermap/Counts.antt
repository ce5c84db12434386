-- ===== src/Gateway/Usermap/Counts.antt =====
-- What the counters of a key show after a change.
use nexo.Prelude.{ℕ, suc, ◌-◌, ◌≤◌, ◌≡◌, ◌≢◌, [], arith, if◌then◌else◌}
use nexo.Prelude.Bytes.{Bytes, ◌==◌, eq_iff}
use nexo.Prelude.Map.{Map, bytes_eq, lookup-insert, lookup-delete}
use nexo.Gateway.Usermap.{count, bump, incr, decr}

pub count-bump :
    (k j : Bytes) (m : Map Bytes ℕ)
    → count j (bump k m) ≡ (if k == j then suc (count j m) else count j m)
unfolding count bump
count-bump k j m = ground (arith, lookup-insert k j (suc (count k m)) m, eq_iff k j)

pub count-incr :
    (k j : Bytes) (m : Map Bytes ℕ)
    → j ≢ []
    → count j (incr k m) ≡ (if k == j then suc (count j m) else count j m)
unfolding incr
count-incr k j m h = ground (arith, count-bump k j m, eq_iff k j, eq_iff k [])

pub count-decr :
    (k j : Bytes) (m : Map Bytes ℕ)
    → j ≢ []
    → count j (decr k m) ≡ (if k == j then count j m - 1 else count j m)
unfolding count decr
count-decr k j m h =
    ground
      (arith, lookup-insert k j (count k m - 1) m, lookup-delete k j m, eq_iff k j, eq_iff k [])

-- A decrement raises no count.
pub count-decr-le : (k j : Bytes) (m : Map Bytes ℕ) → count j (decr k m) ≤ count j m
unfolding count decr
count-decr-le k j m =
    ground
      (arith, lookup-insert k j (count k m - 1) m, lookup-delete k j m, eq_iff k j, eq_iff k [])
