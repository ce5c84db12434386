-- ===== src/Ratelimit.antt =====
-- internal/ratelimit/keyed.go: one limiter per key. A limiter is `golang.org/x/time/rate`'s, and
-- enters as the record `Limiters`; rates are events per minute.
pub mod Keys
use nexo.Prelude.{
  ℕ, ◌+◌, Bool, true, false, not, Option, none, some, List, [], length, ltb, leb, keep,
  if◌then◌else◌,
}
use nexo.Prelude.Bytes.{Bytes}
use nexo.Prelude.Int.{ℤ, pos, leb_ℤ}
use nexo.Prelude.Map.{Map, lookup, insert, bytes_eq}

-- `rate.NewLimiter` and `(*Limiter).AllowN(now, 1)`.
pub record Limiters (Limiter : Type 0) : Type 0 where
  pub new_limiter : ℤ → ℤ → Limiter
  pub allow : ℕ → Limiter → Bool × Limiter

-- 5 minutes in milliseconds
abbrev pub idle_ttl : ℕ
idle_ttl = 300000

pub record Entry (Limiter : Type 0) : Type 0 where
  pub lim : Limiter
  pub seen : ℕ

pub record Keyed (Limiter : Type 0) : Type 0 where
  pub rate : ℤ
  pub burst : ℤ
  pub capacity : ℕ
  pub entries : Map Bytes (Entry Limiter)
  pub overflow : Limiter
  pub swept : ℕ

module _ {Limiter : Type 0} (lib : Limiters Limiter) where
  unfoldable pub new_keyed : ℤ → ℤ → ℕ → ℕ → Keyed Limiter
  new_keyed rate burst capacity now = record {
    rate = rate;
    burst = burst;
    capacity = capacity;
    entries = [];
    overflow = lib.new_limiter rate burst;
    swept = now;
  }

-- `now.Sub(t) > IdleTtl`
unfoldable pub is_idle : ℕ → ℕ → Bool
is_idle now t = ltb (t + idle_ttl) now

module _ {Limiter : Type 0} where
  unfoldable pub sweep : ℕ → Keyed Limiter → Keyed Limiter
  unfolding is_idle
  sweep now k = record k { entries = keep (λ p. not (is_idle now p.1.seen)) k.entries; swept = now }

  unfoldable pub swept_if_due : ℕ → Keyed Limiter → Keyed Limiter
  unfolding sweep is_idle
  swept_if_due now k = if is_idle now k.swept then sweep now k else k

module _ {Limiter : Type 0} (lib : Limiters Limiter) where
  -- `limiterFor` and the `AllowN` on what it returns: the key's own limiter, a new one, or the
  -- shared one where the map is full. The limiter is a pointer, so the entry holds its new state.
  unfoldable pub allow_of : Bytes → ℕ → Keyed Limiter → Bool × Keyed Limiter
  allow_of key now k = elim (lookup key k.entries) [
    | some e ↦
        let (r, l) = lib.allow now e.lim in
        (r, record k { entries = insert key (record { lim = l; seen = now }) k.entries })
    | none ↦
        let (ro, lo) = lib.allow now k.overflow in
        let (rn, ln) = lib.allow now (lib.new_limiter k.rate k.burst) in
        if leb k.capacity (length k.entries)
        then (ro, record k { overflow = lo })
        else (rn, record k { entries = insert key (record { lim = ln; seen = now }) k.entries })
  ]

  unfoldable pub allow : Bytes → ℕ → Keyed Limiter → Bool × Keyed Limiter
  unfolding allow_of swept_if_due
  allow key now k =
      if leb_ℤ k.rate (pos 0) then (true, k) else allow_of key now (swept_if_due now k)
