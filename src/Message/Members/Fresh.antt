-- ===== src/Message/Members/Fresh.antt =====
-- internal/service/message/members.go: what the roster cache may answer, and how much it holds.
use nexo.Prelude.{
  ℕ, suc, ◌+◌, ◌≤◌, ◌≡◌, refl, Option, none, some, List, [], ◌∷◌, arith, length, ◌==◌ as nat_eq,
  if◌then◌else◌, Option-cases, inl, inr,
}
use nexo.Prelude.Bytes.{Bytes, ◌==◌, eq_iff}
use nexo.Prelude.Map.{
  Map, lookup, bytes_eq, lookup-insert, lookup-delete, length-insert-le, length-delete-le,
}
use nexo.Message.Members.{
  MemberEntry, MemberCache, member_cache_max, get, expel, make_room, set, invalidate,
}

pub data Call : Type 0 where
  get_call : Bytes → Call
  set_call : Bytes → List Bytes → Call
  invalidate_call : Bytes → Call

unfoldable pub perform : ℕ → Call → MemberCache → MemberCache
perform now (get_call g) c = (get g now c).1
perform now (set_call g ids) c = set g ids now c
perform now (invalidate_call g) c = invalidate g c

-- The cache after calls, each with the instant at which it reads the clock.
unfoldable pub after : List (ℕ × Call) → MemberCache → MemberCache
after [] c = c
after ((now, call) ∷ calls) c = after calls (perform now call c)

-- The last roster stored for each group since it was last invalidated, with its deadline.
abbrev pub Rosters : Type 0
Rosters = Bytes → Option MemberEntry

unfoldable pub note : ℕ → ℕ → Call → Rosters → Rosters
note ttl now (get_call g) r j = r j
note ttl now (set_call g ids) r j =
    if nat_eq ttl 0
    then r j
    else if g == j
    then some (record { ids = ids; expires = now + ttl })
    else r j
note ttl now (invalidate_call g) r j = if g == j then none else r j

unfoldable pub noted : ℕ → List (ℕ × Call) → Rosters → Rosters
noted ttl [] r = r
noted ttl ((now, call) ∷ calls) r = noted ttl calls (note ttl now call r)

record IsFresh (ttl : ℕ) (c : MemberCache) (r : Rosters) : Type 0 where
  pub same_ttl : c.ttl ≡ ttl
  pub held : (j : Bytes) (e : MemberEntry) → lookup j c.entries ≡ some e → r j ≡ some e
  pub bounded : length c.entries ≤ member_cache_max

lookup-expel :
    (now : ℕ) (m : Map Bytes MemberEntry) (j : Bytes) (e : MemberEntry)
    → lookup j (expel now m) ≡ some e
    → lookup j m ≡ some e
unfolding expel lookup
lookup-expel now [] j e h = h
lookup-expel now ((k, x) ∷ m) j e h =
    ground (arith, eq_iff k j, lookup-delete k j (expel now m), lookup-expel now m j e)

length-make_room :
    (now : ℕ) (m : Map Bytes MemberEntry) → suc (length (make_room now m)) ≤ member_cache_max
unfolding make_room
length-make_room now m = ground arith

lookup-make_room :
    (now : ℕ) (m : Map Bytes MemberEntry) (j : Bytes) (e : MemberEntry)
    → lookup j (make_room now m) ≡ some e
    → lookup j m ≡ some e
unfolding make_room lookup
lookup-make_room now m j e h = ground (arith, lookup-expel now m j e)

perform-IsFresh :
    (ttl now : ℕ) (call : Call) (c : MemberCache) (r : Rosters)
    → IsFresh ttl c r
    → IsFresh ttl (perform now call c) (note ttl now call r)
unfolding perform note get set invalidate
perform-IsFresh ttl now (get_call g) c r f = record {
  same_ttl = ground (arith, f.same_ttl);
  held = λ j e h. ground (arith, f.held j e, lookup-delete g j c.entries);
  bounded = ground (arith, f.bounded, length-delete-le g c.entries);
}
perform-IsFresh ttl now (set_call g ids) c r f =
    let x : MemberEntry = record { ids = ids; expires = now + c.ttl } in
    record {
      same_ttl = ground (arith, f.same_ttl);
      held = λ j e h. ground (
        arith,
        f.same_ttl,
        f.held j e,
        lookup-insert g j x (make_room now c.entries),
        lookup-make_room now c.entries j e,
      );
      bounded = ground (
        arith,
        f.bounded,
        length-insert-le g x (make_room now c.entries),
        length-make_room now c.entries,
      );
    }
perform-IsFresh ttl now (invalidate_call g) c r f = record {
  same_ttl = f.same_ttl;
  held = λ j e h. ground (arith, f.held j e, lookup-delete g j c.entries);
  bounded = ground (arith, f.bounded, length-delete-le g c.entries);
}

after-IsFresh :
    (ttl : ℕ) (calls : List (ℕ × Call)) (c : MemberCache) (r : Rosters)
    → IsFresh ttl c r
    → IsFresh ttl (after calls c) (noted ttl calls r)
unfolding after noted
after-IsFresh ttl [] c r f = f
after-IsFresh ttl ((now, call) ∷ calls) c r f =
    after-IsFresh ttl calls (perform now call c) (note ttl now call r)
      (perform-IsFresh ttl now call c r f)

get-lookup :
    (now : ℕ) (g : Bytes) (ids : List Bytes) (c : MemberCache)
    → (get g now c).0 ≡ some ids
    → (e : MemberEntry) × (lookup g c.entries ≡ some e) × (e.ids ≡ ids) × (now ≤ e.expires)
unfolding get
get-lookup now g ids c h = elim (Option-cases (lookup g c.entries)) [
  | inl none_held ↦ absurd (ground (arith, none_held, h))
  | inr (e, at) ↦ (e, at, ground (arith, at, h), ground (arith, at, h))
]

abbrev pub new_cache : ℕ → MemberCache
new_cache ttl = record { ttl = ttl; entries = [] }

abbrev pub nothing : Rosters
nothing _ = none

new_cache-IsFresh : (ttl : ℕ) → IsFresh ttl (new_cache ttl) nothing
unfolding lookup
new_cache-IsFresh ttl = record {
  same_ttl = refl;
  held = λ j e h. absurd (ground (arith, h));
  bounded = omega arith;
}

-- A roster that the cache answers after any calls is the last one stored for its group, no
-- invalidation of the group has come since, and its time is not over.
pub get-noted :
    (ttl now : ℕ) (calls : List (ℕ × Call)) (g : Bytes) (ids : List Bytes)
    → (get g now (after calls (new_cache ttl))).0 ≡ some ids
    → (e : MemberEntry) × (noted ttl calls nothing g ≡ some e) × (e.ids ≡ ids) × (now ≤ e.expires)
get-noted ttl now calls g ids h =
    let f = after-IsFresh ttl calls (new_cache ttl) nothing (new_cache-IsFresh ttl) in
    let (e, at, same, early) = get-lookup now g ids (after calls (new_cache ttl)) h in
    (e, f.held g e at, same, early)

-- The cache never holds more than its maximum of groups, whatever is stored and whenever it makes room.
pub after-bounded :
    (ttl : ℕ) (calls : List (ℕ × Call))
    → length (after calls (new_cache ttl)).entries ≤ member_cache_max
after-bounded ttl calls =
    (after-IsFresh ttl calls (new_cache ttl) nothing (new_cache-IsFresh ttl)).bounded
