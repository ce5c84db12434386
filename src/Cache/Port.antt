-- ===== src/Cache/Port.antt =====
-- internal/cache/cache.go: the interface `Cache` that the token store and the nonce check take, and
-- the in-memory cache behind it. An implementation may fail; what it then did is its new state.
use nexo.Prelude.{ℕ, Bool, Option}
use nexo.Prelude.Bytes.{Bytes}
use nexo.Prelude.Int.{ℤ}
use nexo.Errcode.{Result, ok}
use nexo.Cache
use nexo.Cache.{Cache}

pub record Port (S : Type 0) : Type 0 where
  pub get : Bytes → S → Result (Option Bytes) × S
  pub set : Bytes → Bytes → ℤ → S → Result (Unit {0}) × S
  pub set_nx : Bytes → Bytes → ℤ → S → Result Bool × S
  pub del_if_value : Bytes → Bytes → S → Result (Unit {0}) × S

-- `internal/cache/local` at an instant: no operation fails.
abbrev pub local : ℕ → Port Cache
local now = record {
  get = λ k m. let (v, m') = Cache.get now k m in (ok v, m');
  set = λ k v ttl m. (ok tt, Cache.set now k v ttl m);
  set_nx = λ k v ttl m. let (b, m') = Cache.set_nx now k v ttl m in (ok b, m');
  del_if_value = λ k v m. (ok tt, Cache.del_if_value now k v m);
}
