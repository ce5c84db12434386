-- ===== src/Cache.antt =====
-- internal/cache/local/local.go: the in-memory cache. An instant is a number of nanoseconds, the
-- zero instant of an entry that does not expire is `none`, and each operation takes the instant at
-- which it reads the clock under the lock. A TTL is a signed number of nanoseconds.
pub mod Live
pub mod Refinement
pub mod Port
use nexo.Prelude.{
  ℕ, ◌+◌, Bool, true, false, ◌&&◌, not, Option, none, some, List, [], ◌∷◌, ltb, leb, if◌then◌else◌,
}
use nexo.Prelude.Bytes.{Bytes, text, ◌==◌}
use nexo.Prelude.Int.{ℤ, pos, pos_part, leb_ℤ}
use nexo.Prelude.Map.{Map, lookup, insert, delete, bytes_eq}

-- `cache.KeyPrefix`
unfoldable pub key_prefix : Bytes
unfolding text
key_prefix = text "nexo:"

pub record Entry : Type 0 where
  pub val : Bytes
  pub exp : Option ℕ

abbrev pub Cache : Type 0
Cache = Map Bytes Entry

unfoldable pub alive : ℕ → Entry → Bool
alive now e = elim e.exp [ none ↦ true | some t ↦ ltb now t ]

unfoldable pub expiry : ℕ → ℤ → Option ℕ
expiry now ttl = if leb_ℤ ttl (pos 0) then none else some (now + pos_part ttl)

-- `get`: an entry that has expired is deleted on sight.
unfoldable pub get_entry : ℕ → Bytes → Cache → Option Entry × Cache
get_entry now key m = elim (lookup key m) [
  | none ↦ (none, m)
  | some e ↦ if alive now e then (some e, m) else (none, delete key m)
]

abbrev pub val_of : Option Entry → Option Bytes
val_of none = none
val_of (some e) = some e.val

-- `Get`
unfoldable pub get : ℕ → Bytes → Cache → Option Bytes × Cache
get now key m = let (e, m') = get_entry now key m in (val_of e, m')

-- `Set`
unfoldable pub set : ℕ → Bytes → Bytes → ℤ → Cache → Cache
set now key val ttl m = insert key (record { val = val; exp = expiry now ttl }) m

-- `SetNX`
unfoldable pub set_nx : ℕ → Bytes → Bytes → ℤ → Cache → Bool × Cache
set_nx now key val ttl m =
    let (e, m') = get_entry now key m in
    elim e [ some _ ↦ (false, m') | none ↦ (true, set now key val ttl m') ]

-- `DelIfValue`
unfoldable pub del_if_value : ℕ → Bytes → Bytes → Cache → Cache
del_if_value now key expected m =
    let (e, m') = get_entry now key m in
    elim e [ none ↦ m' | some x ↦ if x.val == expected then delete key m' else m' ]

-- One tick of `sweep`: `maps.DeleteFunc` deletes the key of each entry that has expired.
unfoldable pub sweep : ℕ → Cache → Cache
sweep now [] = []
sweep now ((k, e) ∷ m) = if alive now e then (k, e) ∷ sweep now m else delete k (sweep now m)

pub data Call : Type 0 where
  get_call : Bytes → Call
  set_call : Bytes → Bytes → ℤ → Call
  set_nx_call : Bytes → Bytes → ℤ → Call
  del_if_value_call : Bytes → Bytes → Call
  sweep_call : Call

pub data Reply : Type 0 where
  found : Option Bytes → Reply
  stored : Bool → Reply
  done : Reply

unfoldable pub perform : ℕ → Call → Cache → Reply × Cache
perform now (get_call k) m = let (v, m') = get now k m in (found v, m')
perform now (set_call k v ttl) m = (done, set now k v ttl m)
perform now (set_nx_call k v ttl) m = let (b, m') = set_nx now k v ttl m in (stored b, m')
perform now (del_if_value_call k v) m = (done, del_if_value now k v m)
perform now sweep_call m = (done, sweep now m)

-- The replies to calls made one after the other, each some time after the one before.
unfoldable pub run : ℕ → List (ℕ × Call) → Cache → List Reply
run now [] m = []
run now ((delay, c) ∷ calls) m =
    let (r, m') = perform (now + delay) c m in r ∷ run (now + delay) calls m'
