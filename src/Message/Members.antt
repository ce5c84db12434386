-- ===== src/Message/Members.antt =====
-- internal/service/message/members.go: the node's cache of group rosters.
pub mod Fresh
use nexo.Prelude.{
  ℕ, ◌+◌, Option, none, some, List, [], ◌∷◌, length, ltb, leb, ◌==◌ as nat_eq, if◌then◌else◌,
}
use nexo.Prelude.Bytes.{Bytes}
use nexo.Prelude.Map.{Map, lookup, insert, delete, bytes_eq}

abbrev pub member_cache_max : ℕ
member_cache_max = 10000

pub record MemberEntry : Type 0 where
  pub ids : List Bytes
  pub expires : ℕ

-- A `ttl` of 0 stands for every duration that is not positive: the cache is off.
pub record MemberCache : Type 0 where
  pub ttl : ℕ
  pub entries : Map Bytes MemberEntry

unfoldable pub get : Bytes → ℕ → MemberCache → Option (List Bytes) × MemberCache
get group_id now c =
    let dropped = record c { entries = delete group_id c.entries } in
    if nat_eq c.ttl 0 then (none, c) else (elim (lookup group_id c.entries) [
      | none ↦ (none, dropped)
      | some e ↦ if ltb e.expires now then (none, dropped) else (some e.ids, c)
    ])

-- `maps.DeleteFunc` over the entries that have expired.
unfoldable pub expel : ℕ → Map Bytes MemberEntry → Map Bytes MemberEntry
expel now [] = []
expel now ((k, e) ∷ m) = if ltb e.expires now then delete k (expel now m) else (k, e) ∷ expel now m

-- Where the cache is full: the live entries, or nothing where they fill it too.
unfoldable pub make_room : ℕ → Map Bytes MemberEntry → Map Bytes MemberEntry
make_room now entries =
    let live = expel now entries in
    if leb member_cache_max (length entries)
    then (if leb member_cache_max (length live) then [] else live)
    else entries

unfoldable pub set : Bytes → List Bytes → ℕ → MemberCache → MemberCache
unfolding make_room
set group_id ids now c = if nat_eq c.ttl 0 then c else record c {
  entries = insert group_id (record { ids = ids; expires = now + c.ttl }) (make_room now c.entries);
}

-- `invalidate`, which `InvalidateGroup` calls.
unfoldable pub invalidate : Bytes → MemberCache → MemberCache
invalidate group_id c = record c { entries = delete group_id c.entries }
