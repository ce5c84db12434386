-- ===== src/Ratelimit/Keys.antt =====
-- The limiters of different keys, and how many there are.
use nexo.Prelude.{
  true, ◌∙◌, Option-cases, Bool-cases, inl, inr, if◌then◌else◌, keep, Bool, List, ℕ, ◌≤◌, ◌≡◌, ◌≢◌,
  refl, false, not, Option, none, some, [], ◌∷◌, length, arith, length-keep-le,
}
use nexo.Prelude.Bytes.{Bytes, eq_iff, ◌==◌, eq_refl}
use nexo.Prelude.Int.{pos, leb_ℤ}
use nexo.Prelude.Map.{Map, lookup, insert, bytes_eq, lookup-insert, length-insert-le}
use nexo.Ratelimit.{Limiters, Entry, Keyed, swept_if_due, is_idle, allow_of, allow}

-- An insert at a key that is there adds nothing.
length-insert_old :
    {V : Type 0} (k : Bytes) (v : V) (m : Map Bytes V) (w : V)
    → lookup k m ≡ some w
    → length (insert k v m) ≡ length m
unfolding lookup insert
length-insert_old k v [] w h = cc
length-insert_old k v ((j, u) ∷ m) w h = ground (arith, length-insert_old k v m w)

length-swept :
    {Limiter : Type 0} (now : ℕ) (k : Keyed Limiter)
    → (length (swept_if_due now k).entries ≤ length k.entries)
      × ((swept_if_due now k).capacity ≡ k.capacity)
unfolding swept_if_due
length-swept now k = ground (arith, length-keep-le (λ p. not (is_idle now p.1.seen)) k.entries)

module _ {Limiter : Type 0} (lib : Limiters Limiter) where
  found_cases :
      (key : Bytes) (now : ℕ) (k : Keyed Limiter) (o : Option (Entry Limiter))
      → lookup key k.entries ≡ o
      → length k.entries ≤ k.capacity
      → (length (allow_of lib key now k).1.entries ≤ k.capacity)
        × ((allow_of lib key now k).1.capacity ≡ k.capacity)
  unfolding allow_of
  found_cases key now k none e h =
      rw (e, allow_of)
        (ground (
          arith,
          length-insert-le key
              (record { lim = (lib.allow now (lib.new_limiter k.rate k.burst)).1; seen = now })
              k.entries,
        ))
  found_cases key now k (some old) e h =
      rw (e, allow_of)
        (ground (
          arith,
          length-insert_old key (record { lim = (lib.allow now old.lim).1; seen = now }) k.entries
              old e,
        ))

  -- The map never tracks more keys than its capacity, whatever keys ask and whenever it sweeps.
  pub allow-capacity :
      (key : Bytes) (now : ℕ) (k : Keyed Limiter)
      → length k.entries ≤ k.capacity
      → (length (allow lib key now k).1.entries ≤ k.capacity)
        × ((allow lib key now k).1.capacity ≡ k.capacity)
  unfolding allow
  allow-capacity key now k h =
      let s = swept_if_due now k in
      ground (arith, length-swept now k, found_cases key now s (lookup key s.entries) refl)

  other_cases :
      (key other : Bytes) (now : ℕ) (k : Keyed Limiter) (o : Option (Entry Limiter))
      → lookup key k.entries ≡ o
      → key ≢ other
      → lookup other (allow_of lib key now k).1.entries ≡ lookup other k.entries
  unfolding allow_of
  other_cases key other now k none e ne =
      rw (e, allow_of)
        (ground (
          arith,
          lookup-insert key other
              (record { lim = (lib.allow now (lib.new_limiter k.rate k.burst)).1; seen = now })
              k.entries,
          eq_iff key other,
        ))
  other_cases key other now k (some old) e ne =
      rw (e, allow_of)
        (ground (
          arith,
          lookup-insert key other (record { lim = (lib.allow now old.lim).1; seen = now })
              k.entries,
          eq_iff key other,
        ))

  -- A key that is tracked and not idle keeps its entry when the idle ones are dropped.
  lookup-keep :
      (key : Bytes) (now : ℕ) (m : Map Bytes (Entry Limiter)) (e : Entry Limiter)
      → lookup key m ≡ some e
      → is_idle now e.seen ≡ false
      → lookup key (keep (λ p. not (is_idle now p.1.seen)) m) ≡ some e
  unfolding lookup keep
  lookup-keep key now [] e h busy = h
  lookup-keep key now ((j, x) ∷ m) e h busy =
      ground (arith, h, lookup-keep key now m e, eq_iff j key)

  lookup-swept :
      (key : Bytes) (now : ℕ) (k : Keyed Limiter) (e : Entry Limiter)
      → lookup key k.entries ≡ some e
      → is_idle now e.seen ≡ false
      → (lookup key (swept_if_due now k).entries ≡ some e) × ((swept_if_due now k).rate ≡ k.rate)
  unfolding swept_if_due
  lookup-swept key now k e h busy = ground (arith, h, lookup-keep key now k.entries e h busy)

  -- What the key's own call does.
  own_call :
      (key : Bytes) (now : ℕ) (k : Keyed Limiter) (e : Entry Limiter)
      → lookup key k.entries ≡ some e
      → ((allow_of lib key now k).0 ≡ (lib.allow now e.lim).0)
        × (lookup key (allow_of lib key now k).1.entries
            ≡ some (record { lim = (lib.allow now e.lim).1; seen = now }))
        × ((allow_of lib key now k).1.rate ≡ k.rate)
  unfolding allow_of
  own_call key now k e h =
      rw (h, allow_of)
        (
          refl,
          ground (
            arith,
            lookup-insert key key (record { lim = (lib.allow now e.lim).1; seen = now }) k.entries,
            eq_refl key,
          ),
          refl,
        )

  rate_kept : (key : Bytes) (now : ℕ) (k : Keyed Limiter) → (allow_of lib key now k).1.rate ≡ k.rate
  unfolding allow_of
  rate_kept key now k = elim (Option-cases (lookup key k.entries)) [
    | inl e ↦ ground (arith, e)
    | inr (x, e) ↦ ground (arith, e)
  ]

  other_call :
      (key other : Bytes) (now : ℕ) (k : Keyed Limiter) (e : Entry Limiter)
      → lookup key k.entries ≡ some e
      → (other == key) ≡ false
      → (lookup key (allow_of lib other now k).1.entries ≡ some e)
        × ((allow_of lib other now k).1.rate ≡ k.rate)
  other_call key other now k e h ne = (
    other_cases other key now k (lookup other k.entries) refl
          (λ same. ground (arith, (eq_iff other key).1 same))
        ∙ h,
    rate_kept other now k,
  )

  -- What a call is to a key that is tracked and not idle: its own limiter's, or nothing.
  own_step :
      (j key : Bytes) (now : ℕ) (k : Keyed Limiter) (e : Entry Limiter)
      → (j == key) ≡ true
      → leb_ℤ k.rate (pos 0) ≡ false
      → lookup key k.entries ≡ some e
      → is_idle now e.seen ≡ false
      → ((allow lib j now k).0 ≡ (lib.allow now e.lim).0)
        × (lookup key (allow lib j now k).1.entries
            ≡ some (record { lim = (lib.allow now e.lim).1; seen = now }))
        × ((allow lib j now k).1.rate ≡ k.rate)
  unfolding allow
  own_step j key now k e same limited h busy =
      let (there, rate) = lookup-swept key now k e h busy in
      let (answer, kept, rate') = own_call key now (swept_if_due now k) e there in
      rw (limited, (eq_iff j key).0 same) ((answer, kept, rate' ∙ rate))

  other_step :
      (j key : Bytes) (now : ℕ) (k : Keyed Limiter) (e : Entry Limiter)
      → (j == key) ≡ false
      → leb_ℤ k.rate (pos 0) ≡ false
      → lookup key k.entries ≡ some e
      → is_idle now e.seen ≡ false
      → (lookup key (allow lib j now k).1.entries ≡ some e) × ((allow lib j now k).1.rate ≡ k.rate)
  unfolding allow
  other_step j key now k e other limited h busy =
      let (there, rate) = lookup-swept key now k e h busy in
      let (kept, rate') = other_call key j now (swept_if_due now k) e there other in
      rw limited ((kept, rate' ∙ rate))

-- The answers to the calls of one key among all calls, each a key with the instant of the call.
unfoldable pub answers :
    {Limiter : Type 0} → Limiters Limiter → Bytes → List (Bytes × ℕ) → Keyed Limiter → List Bool
answers lib key [] k = []
answers lib key ((j, now) ∷ calls) k =
    let (r, k') = allow lib j now k in
    let rest = answers lib key calls k' in if j == key then r ∷ rest else rest

-- The answers of one limiter to the calls of one key.
unfoldable pub alone :
    {Limiter : Type 0} → Limiters Limiter → Bytes → List (Bytes × ℕ) → Limiter → List Bool
alone lib key [] l = []
alone lib key ((j, now) ∷ calls) l =
    let (r, l') = lib.allow now l in
    if j == key then r ∷ alone lib key calls l' else alone lib key calls l

-- At no call is it longer than `idle_ttl` since the key's last one before, first at `seen`.
abbrev pub IsBusy : Bytes → ℕ → List (Bytes × ℕ) → Type 0
IsBusy key seen [] = Unit
IsBusy key seen ((j, now) ∷ calls) =
    (is_idle now seen ≡ false) × IsBusy key (if j == key then now else seen) calls

module _ {Limiter : Type 0} (lib : Limiters Limiter) where
  -- Where the rate is limited, a key that is tracked gets the answers of its own limiter to its own
  -- calls, whatever other keys ask in between, whether they are tracked or share the overflow limiter,
  -- and whenever the map is swept, as long as the key does not idle for longer than 5 minutes.
  pub answers-alone :
      (key : Bytes) (calls : List (Bytes × ℕ)) (k : Keyed Limiter) (e : Entry Limiter)
      → leb_ℤ k.rate (pos 0) ≡ false
      → lookup key k.entries ≡ some e
      → IsBusy key e.seen calls
      → answers lib key calls k ≡ alone lib key calls e.lim
  unfolding answers alone
  answers-alone key [] k e limited h busy = refl
  answers-alone key ((j, now) ∷ calls) k e limited h busy = elim (Bool-cases (j == key)) [
    | inl same ↦
        let (answer, kept, rate) = own_step lib j key now k e same limited h busy.0 in
        let later =
          answers-alone key calls (allow lib j now k).1
            (record { lim = (lib.allow now e.lim).1; seen = now }) (rw rate limited) kept
            (rw same at busy.1) in
        rw (same, answer, later) refl
    | inr other ↦
        let (kept, rate) = other_step lib j key now k e other limited h busy.0 in
        let later =
          answers-alone key calls (allow lib j now k).1 e (rw rate limited) kept
            (rw other at busy.1) in
        rw (other, later) refl
  ]
