-- ===== src/Cache/Refinement.antt =====
-- internal/cache/local/local.go against the contract of internal/cache/cache.go: an ideal cache that
-- remembers for each key the last value stored and its deadline, frees nothing and is never swept.
use nexo.Prelude.{
  ℕ, ◌+◌, ◌≤◌, ◌≡◌, refl, true, false, Option, none, some, List, [], ◌∷◌, arith, if◌then◌else◌,
}
use nexo.Prelude.Bytes.{Bytes, ◌==◌, eq_iff}
use nexo.Prelude.Int.{ℤ}
use nexo.Prelude.Map.{lookup, bytes_eq}
use nexo.Cache.{
  Cache, Entry, expiry, Call, get_call, set_call, set_nx_call, del_if_value_call, sweep_call, Reply,
  found, stored, done, get_entry, get, set, set_nx, del_if_value, sweep, perform, run, val_of,
}
use nexo.Cache.Live.{
  live, view, get_entry-live, view-get_entry, view-set, view-del_if_value, view-sweep,
}

abbrev pub Ideal : Type 0
Ideal = Bytes → Option Entry

unfoldable pub put : ℕ → Bytes → Bytes → ℤ → Ideal → Ideal
put now k v ttl i j = if k == j then some (record { val = v; exp = expiry now ttl }) else i j

unfoldable pub drop : Bytes → Ideal → Ideal
drop k i j = if k == j then none else i j

unfoldable pub answer : ℕ → Call → Ideal → Reply × Ideal
unfolding put drop
answer now (get_call k) i = (found (val_of (live now (i k))), i)
answer now (set_call k v ttl) i = (done, put now k v ttl i)
answer now (set_nx_call k v ttl) i = elim (live now (i k)) [
  | some _ ↦ (stored false, i)
  | none ↦ (stored true, put now k v ttl i)
]
answer now (del_if_value_call k v) i = elim (live now (i k)) [
  | none ↦ (done, i)
  | some e ↦ (done, if e.val == v then drop k i else i)
]
answer now sweep_call i = (done, i)

unfoldable pub ideal_run : ℕ → List (ℕ × Call) → Ideal → List Reply
ideal_run now [] i = []
ideal_run now ((delay, c) ∷ calls) i =
    let (r, i') = answer (now + delay) c i in r ∷ ideal_run (now + delay) calls i'

-- From some instant on, both hold the same for every key.
Agrees : ℕ → Cache → Ideal → Type 0
Agrees now m i = (later : ℕ) → now ≤ later → (j : Bytes) → view later m j ≡ live later (i j)

module _ (now : ℕ) (m : Cache) (i : Ideal) (a : Agrees now m i) where
  Agrees-get_entry : (k : Bytes) → Agrees now (get_entry now k m).1 i
  unfolding Agrees
  Agrees-get_entry k later h j = ground (arith, view-get_entry now later k j m h, a later h j)

  get_entry_agrees : (k : Bytes) → (get_entry now k m).0 ≡ live now (i k)
  unfolding Agrees
  get_entry_agrees k = ground (arith, get_entry-live now k m, a now (omega arith) k)

  Agrees-set : (k v : Bytes) (ttl : ℤ) → Agrees now (set now k v ttl m) (put now k v ttl i)
  unfolding Agrees put
  Agrees-set k v ttl later h j = ground (arith, view-set now later k j v ttl m, a later h j)

  Agrees-sweep : Agrees now (sweep now m) i
  unfolding Agrees
  Agrees-sweep later h j = ground (arith, view-sweep now later m j h, a later h j)

  Agrees-del_if_value :
      (k v : Bytes) → Agrees now (del_if_value now k v m) (answer now (del_if_value_call k v) i).1
  unfolding Agrees answer drop live nexo.Cache.alive
  Agrees-del_if_value k v later h j =
      ground (
        arith,
        view-del_if_value now later k v j m h,
        a later h j,
        a now (omega arith) k,
        eq_iff k j,
      )

  Agrees-set_nx :
      (k v : Bytes) (ttl : ℤ)
      → Agrees now (set_nx now k v ttl m).1 (answer now (set_nx_call k v ttl) i).1
  unfolding Agrees answer put set_nx
  Agrees-set_nx k v ttl later h j = ground (
    arith,
    view-set now later k j v ttl (get_entry now k m).1,
    view-get_entry now later k j m h,
    get_entry_agrees k,
    a later h j,
  )

-- One call gives one reply in both, and leaves both holding the same.
perform-answer :
    (now : ℕ) (m : Cache) (i : Ideal)
    → Agrees now m i
    → (c : Call)
    → ((perform now c m).0 ≡ (answer now c i).0) × Agrees now (perform now c m).1 (answer now c i).1
unfolding perform answer get set_nx del_if_value
perform-answer now m i a (get_call k) =
    (ground (arith, get_entry_agrees now m i a k), Agrees-get_entry now m i a k)
perform-answer now m i a (set_call k v ttl) = (refl, Agrees-set now m i a k v ttl)
perform-answer now m i a (set_nx_call k v ttl) =
    (ground (arith, get_entry_agrees now m i a k), Agrees-set_nx now m i a k v ttl)
perform-answer now m i a (del_if_value_call k v) = (ground arith, Agrees-del_if_value now m i a k v)
perform-answer now m i a sweep_call = (refl, Agrees-sweep now m i a)

Agrees-later : (now delay : ℕ) (m : Cache) (i : Ideal) → Agrees now m i → Agrees (now + delay) m i
unfolding Agrees
Agrees-later now delay m i a later h = a later (omega arith)

run-ideal_run :
    (now : ℕ) (calls : List (ℕ × Call)) (m : Cache) (i : Ideal)
    → Agrees now m i
    → run now calls m ≡ ideal_run now calls i
unfolding run ideal_run
run-ideal_run now [] m i a = refl
run-ideal_run now ((delay, c) ∷ calls) m i a =
    let (same, next) = perform-answer (now + delay) m i (Agrees-later now delay m i a) c in
    rw
      (
        same,
        run-ideal_run (now + delay) calls (perform (now + delay) c m).1 (answer (now + delay) c i).1
            next,
      )
      refl

abbrev pub nothing : Ideal
nothing _ = none

-- A new cache answers every sequence of calls, at instants that do not go back, exactly as the ideal
-- cache does, which frees nothing and is never swept: a value is found from the call that stored it
-- until its deadline or until a call that replaces or deletes it, a conditional store succeeds just
-- where nothing unexpired is held, and neither the sweeps nor the expired entries that reads drop
-- are ever seen.
pub run-refines :
    (now : ℕ) (calls : List (ℕ × Call)) → run now calls [] ≡ ideal_run now calls nothing
unfolding Agrees view lookup
run-refines now calls = run-ideal_run now calls [] nothing (λ later h j. refl)
