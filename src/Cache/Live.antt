-- ===== src/Cache/Live.antt =====
-- internal/cache/local/local.go: what a reader can see of the cache at an instant, under each
-- operation. The clock of later operations reads the same instant or a later one.
use nexo.Prelude.{ℕ, ◌≤◌, ◌≡◌, refl, Option, none, some, [], ◌∷◌, arith, if◌then◌else◌}
use nexo.Prelude.Bytes.{Bytes, ◌==◌, eq_iff}
use nexo.Prelude.Int.{ℤ}
use nexo.Prelude.Map.{lookup, bytes_eq, lookup-insert, lookup-delete}
use nexo.Cache.{Cache, Entry, alive, expiry, get_entry, set, del_if_value, sweep}

-- An entry that has not expired.
unfoldable pub live : ℕ → Option Entry → Option Entry
live now none = none
live now (some e) = if alive now e then some e else none

-- What the cache holds for a key at an instant.
unfoldable pub view : ℕ → Cache → Bytes → Option Entry
unfolding live
view now m key = live now (lookup key m)

-- What has expired stays expired.
pub live-live :
    (now later : ℕ) (o : Option Entry) → now ≤ later → live later (live now o) ≡ live later o
unfolding live alive
live-live now later none h = refl
live-live now later (some e) h = ground arith

pub get_entry-live : (now : ℕ) (k : Bytes) (m : Cache) → (get_entry now k m).0 ≡ view now m k
unfolding get_entry view live
get_entry-live now k m = ground arith

-- A read changes nothing that can be seen.
pub view-get_entry :
    (now later : ℕ) (k j : Bytes) (m : Cache)
    → now ≤ later
    → view later (get_entry now k m).1 j ≡ view later m j
unfolding get_entry view live alive
view-get_entry now later k j m h = ground (arith, eq_iff k j, lookup-delete k j m)

pub view-set :
    (now later : ℕ) (k j v : Bytes) (ttl : ℤ) (m : Cache)
    → view later (set now k v ttl m) j ≡ (
        if k == j
        then live later (some (record { val = v; exp = expiry now ttl }))
        else view later m j)
unfolding set view
view-set now later k j v ttl m =
    ground (arith, lookup-insert k j (record { val = v; exp = expiry now ttl }) m)

pub view-del_if_value :
    (now later : ℕ) (k v j : Bytes) (m : Cache)
    → now ≤ later
    → view later (del_if_value now k v m) j ≡ (
        if k == j
        then (elim (view now m k) [
          | none ↦ none
          | some e ↦ if e.val == v then none else live later (some e)
        ])
        else view later m j)
unfolding del_if_value get_entry view live alive
view-del_if_value now later k v j m h = ground (arith, eq_iff k j, lookup-delete k j m)

pub view-sweep :
    (now later : ℕ) (m : Cache) (j : Bytes)
    → now ≤ later
    → view later (sweep now m) j ≡ view later m j
unfolding sweep view live alive lookup
view-sweep now later [] j h = refl
view-sweep now later ((k, e) ∷ m) j h =
    ground (arith, eq_iff k j, lookup-delete k j (sweep now m), view-sweep now later m j h)
