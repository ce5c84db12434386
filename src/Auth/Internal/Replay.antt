-- ===== src/Auth/Internal/Replay.antt =====
-- internal/auth/internal.go over internal/cache/local: how long a nonce stays spent.
use nexo.Prelude.{
  ℕ, ◌+◌, ◌*◌, ◌≤◌, ◌<◌, ◌≡◌, ◌≢◌, ap, Bool, true, false, Option, none, some, List, [], ◌∷◌, arith,
}
use mathlib.Core.Path.{subst}
use nexo.Prelude.Bytes.{Bytes, eq_iff}
use nexo.Prelude.Int.{pos}
use nexo.Cache
use nexo.Cache.{Cache, Entry, expiry, alive, get_entry}
use nexo.Cache.Live.{live, view, get_entry-live, view-get_entry, view-set}
use nexo.Cache.Port.{local}
use nexo.Auth.{accepted}
use nexo.Auth.Internal.{InternalRequest, Internal, nonce_key, one, verify_internal}

abbrev is_held : Option Entry → Bool
is_held none = false
is_held (some _) = true

-- A key that is held by every reader before the deadline.
Held : ℕ → ℕ → Bytes → Cache → Type 0
Held now deadline key m =
    (later : ℕ) → now ≤ later → later < deadline → is_held (view later m key) ≡ true

module _ (hmac : Bytes → Bytes → Bytes) (sha256 : Bytes → Bytes) (i : Internal) where
  -- The requests that arrive one after the other: the time since the one before, and the instant at
  -- which `Verify` reads its clock.
  unfoldable pub serve : ℕ → List (ℕ × ℕ × InternalRequest) → Cache → ℕ × Cache
  serve at [] m = (at, m)
  serve at ((delay, now, r) ∷ rest) m =
      serve (at + delay) rest (verify_internal (local (at + delay)) hmac sha256 i now r m).1

  Held-verify_internal :
      (at deadline now : ℕ) (key : Bytes) (r : InternalRequest) (m : Cache)
      → at < deadline
      → Held at deadline key m
      → Held at deadline key (verify_internal (local at) hmac sha256 i now r m).1
  unfolding Held verify_internal Cache.set_nx
  Held-verify_internal at deadline now key r m lt h later le before = ground (
    arith,
    h later le before,
    h at (omega arith) lt,
    eq_iff (nonce_key r) key,
    get_entry-live at (nonce_key r) m,
    view-get_entry at later (nonce_key r) key m le,
    view-set at later (nonce_key r) key one (pos (2 * i.skew)) (get_entry at (nonce_key r) m).1,
  )

  verify_internal-Held :
      (at now : ℕ) (r : InternalRequest) (m : Cache)
      → (verify_internal (local at) hmac sha256 i now r m).0 ≡ accepted tt
      → Held at (at + 2 * i.skew) (nonce_key r) (verify_internal (local at) hmac sha256 i now r m).1
  unfolding Held verify_internal Cache.set_nx live alive expiry
  verify_internal-Held at now r m ok later le before = ground (
    arith,
    eq_iff (nonce_key r) (nonce_key r),
    get_entry-live at (nonce_key r) m,
    view-set at later (nonce_key r) (nonce_key r) one (pos (2 * i.skew))
        (get_entry at (nonce_key r) m).1,
  )

  -- While a nonce is held, no request with it is accepted.
  Held-refused :
      (at deadline now : ℕ) (r : InternalRequest) (m : Cache)
      → at < deadline
      → Held at deadline (nonce_key r) m
      → (verify_internal (local at) hmac sha256 i now r m).0 ≢ accepted tt
  unfolding Held verify_internal Cache.set_nx
  Held-refused at deadline now r m lt h ok =
      ground (arith, h at (omega arith) lt, get_entry-live at (nonce_key r) m)

  -- Time passes.
  Held-later :
      (at at' deadline : ℕ) (key : Bytes) (m : Cache)
      → at ≤ at'
      → Held at deadline key m
      → Held at' deadline key m
  unfolding Held
  Held-later at at' deadline key m le h later ge before = h later (omega arith) before

  serve-le : (at : ℕ) (rs : List (ℕ × ℕ × InternalRequest)) (m : Cache) → at ≤ (serve at rs m).0
  unfolding serve
  serve-le at [] m = omega arith
  serve-le at ((delay, now, r) ∷ rs) m =
      let m' = (verify_internal (local (at + delay)) hmac sha256 i now r m).1 in
      omega (arith, serve-le (at + delay) rs m')

  Held-serve :
      (at deadline : ℕ) (key : Bytes) (rs : List (ℕ × ℕ × InternalRequest)) (m : Cache)
      → (serve at rs m).0 < deadline
      → Held at deadline key m
      → Held (serve at rs m).0 deadline key (serve at rs m).1
  unfolding serve
  Held-serve at deadline key [] m lt h = h
  Held-serve at deadline key ((delay, now, r) ∷ rs) m lt h =
      let m' = (verify_internal (local (at + delay)) hmac sha256 i now r m).1 in
      let early : at + delay < deadline = omega (arith, serve-le (at + delay) rs m') in
      Held-serve (at + delay) deadline key rs m' lt (
        Held-verify_internal (at + delay) deadline now key r m early
          (Held-later at (at + delay) deadline key m (omega arith) h))

  nonce_key-same :
      (r r' : InternalRequest)
      → r'.service ≡ r.service
      → r'.nonce ≡ r.nonce
      → nonce_key r' ≡ nonce_key r
  unfolding nonce_key
  nonce_key-same r r' s n = cc

  -- Once a request is accepted, no request of its service with its nonce is accepted, the same request
  -- included, for twice the skew from the instant at which its nonce was stored, whatever requests
  -- the server verified in between and whatever their clocks read.
  pub verify_internal-once :
      (at now now' seen delay : ℕ) (r r' : InternalRequest) (m m' : Cache)
      → (rs : List (ℕ × ℕ × InternalRequest))
      → (verify_internal (local at) hmac sha256 i now r m).0 ≡ accepted tt
      → serve at rs (verify_internal (local at) hmac sha256 i now r m).1 ≡ (seen, m')
      → r'.service ≡ r.service
      → r'.nonce ≡ r.nonce
      → seen + delay < at + 2 * i.skew
      → (verify_internal (local (seen + delay)) hmac sha256 i now' r' m').0 ≢ accepted tt
  verify_internal-once at now now' seen delay r r' m m' rs ok e s n lt =
      let deadline = at + 2 * i.skew in
      let m1 = (verify_internal (local at) hmac sha256 i now r m).1 in
      let reached : (serve at rs m1).0 ≡ seen = ap (λ p. p.0) e in
      let held : Held (serve at rs m1).0 deadline (nonce_key r) (serve at rs m1).1 =
        Held-serve at deadline (nonce_key r) rs m1 (omega arith)
          (verify_internal-Held at now r m ok) in
      let kept : Held seen deadline (nonce_key r) m' =
        subst (λ p. Held p.0 deadline (nonce_key r) p.1) e held in
      let same : Held seen deadline (nonce_key r') m' = rw (nonce_key-same r r' s n) kept in
      Held-refused (seen + delay) deadline now' r' m' lt
        (Held-later seen (seen + delay) deadline (nonce_key r') m' (omega arith) same)
