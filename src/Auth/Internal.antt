-- ===== src/Auth/Internal.antt =====
-- internal/auth/internal.go: requests that other services sign. `hmac` (key, then text) and `sha256`
-- stand for the Go library's; `now` is the instant at which `Verify` reads the clock, in nanoseconds
-- since 1970, and the nonces' cache reads its own.
pub mod Replay
use nexo.Prelude.{
  ℕ, ◌+◌, ◌-◌, ◌*◌, ◌/◌, ◌%◌, min, Bool, true, false, ◌||◌, not, Option, none, some, List, [], ◌∷◌,
  ◌++◌, any, length, ltb, if◌then◌else◌,
}
use nexo.Prelude.Bytes.{Bytes, text, ◌==◌}
use nexo.Prelude.Int.{ℤ, pos, pos_part, neg_part}
use nexo.Errcode.{Result, ok, err}
use nexo.Identity.Decimal.{parse_int, max_int64}
use nexo.Cache.{key_prefix}
use nexo.Cache.Port.{Port}
use nexo.Auth.{
  AuthError, unavailable, service_not_allowed, clock_skew, bad_signature, nonce_replayed, Verdict,
  accepted, refused,
}

pub record InternalRequest : Type 0 where
  pub service : Bytes
  pub timestamp : Bytes
  pub nonce : Bytes
  pub method_of : Bytes
  pub raw_path : Bytes
  pub raw_query : Bytes
  pub user_id : Bytes
  pub platform_id : Bytes
  pub body : Bytes
  pub signature : Bytes

pub record Internal : Type 0 where
  pub secrets : List Bytes
  pub services : List Bytes
  pub skew : ℕ

abbrev pub min_nonce_len : ℕ
min_nonce_len = 16

abbrev hex_digit : ℕ → ℕ
hex_digit n = if ltb n 10 then b'0' + n else b'a' + (n - 10)

-- `hex.EncodeToString`
unfoldable pub hex : Bytes → Bytes
hex [] = []
hex (b ∷ bs) = hex_digit (b / 16) ∷ hex_digit (b % 16) ∷ hex bs

abbrev line : Bytes → Bytes → Bytes
line a rest = a ++ (b'\n' ∷ rest)

unfoldable pub payload : (Bytes → Bytes) → InternalRequest → Bytes
payload sha256 r = line r.service (
    line r.timestamp (
      line r.nonce (
        line r.method_of (
          line r.raw_path
            (line r.raw_query (line r.user_id (line r.platform_id (hex (sha256 r.body)))))))))

unfoldable pub sign_payload : (Bytes → Bytes → Bytes) → Bytes → Bytes → Bytes
sign_payload hmac secret p = hex (hmac secret p)

-- `Sign`
unfoldable pub sign : (Bytes → Bytes → Bytes) → (Bytes → Bytes) → Bytes → InternalRequest → Bytes
sign hmac sha256 secret r = sign_payload hmac secret (payload sha256 r)

-- `now.Sub(time.Unix(ts, 0)).Abs()`, which stops at the largest duration.
unfoldable pub distance : ℕ → ℤ → ℕ
distance now ts =
    let at = pos_part ts * 1000000000 in
    min max_int64 (now - at + (at - now) + neg_part ts * 1000000000)

unfoldable pub signed :
    (Bytes → Bytes → Bytes) → (Bytes → Bytes) → List Bytes → InternalRequest → Bool
signed hmac sha256 secrets r = any (λ s. sign hmac sha256 s r == r.signature) secrets

unfoldable pub inonce : Bytes
unfolding text
inonce = text "inonce:"

unfoldable pub nonce_key : InternalRequest → Bytes
nonce_key r = key_prefix ++ (inonce ++ (r.service ++ (b':' ∷ r.nonce)))

unfoldable pub one : Bytes
unfolding text
one = text "1"

abbrev too_far : ℕ → ℕ → Option ℤ → Bool
too_far skew now none = true
too_far skew now (some ts) = ltb skew (distance now ts)

-- The checks before the nonce is spent, in the order of the source; `none` lets the request pass.
unfoldable pub refusal :
    (Bytes → Bytes → Bytes) → (Bytes → Bytes) → Internal → ℕ → InternalRequest → Option AuthError
refusal hmac sha256 i now r =
    if not (any (λ s. s == r.service) i.services)
    then some service_not_allowed
    else if too_far i.skew now (parse_int r.timestamp)
    then some clock_skew
    else if ltb (length r.nonce) min_nonce_len || not (signed hmac sha256 i.secrets r)
    then some bad_signature
    else none

module _ {S : Type 0} (nonces : Port S) where
  unfoldable pub verify_internal :
      (Bytes → Bytes → Bytes)
      → (Bytes → Bytes)
      → Internal
      → ℕ
      → InternalRequest
      → S
      → Verdict (Unit {0}) × S
  verify_internal hmac sha256 i now r s = elim (refusal hmac sha256 i now r) [
    | some e ↦ (refused e, s)
    | none ↦
        let (fresh, s') = nonces.set_nx (nonce_key r) one (pos (2 * i.skew)) s in
        elim fresh [
          | err _ ↦ (refused unavailable, s')
          | ok b ↦ (if b then accepted tt else refused nonce_replayed, s')
        ]
  ]
