-- ===== src/Auth/Native.antt =====
-- internal/auth/native.go: tokens that the server signs for its own accounts. `parse` and `sign`
-- stand for the `jwt` package, and `token_id` for the identifier drawn by `uuid`.
pub mod Sessions
use nexo.Prelude.{
  ℕ, ◌+◌, ◌/◌, Bool, true, false, ◌||◌, not, Option, none, some, List, [], ◌∷◌, ◌++◌, take,
  if◌then◌else◌,
}
use nexo.Prelude.Bytes.{Bytes, text, ◌==◌}
use nexo.Prelude.Int.{ℤ, pos, pos_part, ltb_ℤ}
use nexo.Errcode.{Result, ok, err}
use nexo.Identity.{prefix_native}
use nexo.Cache.Port.{Port}
use nexo.Auth.{
  AuthError, token_invalid, token_expired, unavailable, sign_failed, Verdict, accepted, refused,
  Identity, source_native, max_platform_id,
}
use nexo.Auth.Tokens.{set_token, check_token, delete_token}

-- What `ParseWithClaims` reports, as far as `errors.Is` asks.
pub data JwtError : Type 0 where
  jwt_expired jwt_signature_invalid jwt_other : JwtError

pub data Parsed {ℓ} (A : Type ℓ) : Type ℓ where
  claims_of : A → Parsed A
  malformed : JwtError → Parsed A

-- `mapJwtErr`
unfoldable pub map_jwt_err : JwtError → AuthError
map_jwt_err jwt_expired = token_expired
map_jwt_err _ = token_invalid

-- Instants are nanoseconds.
pub record NativeClaims : Type 0 where
  pub platform_id : ℤ
  pub subject : Bytes
  pub id : Bytes
  pub issued_at : ℕ
  pub expires_at : Option ℕ

abbrev pub unix_milli : ℕ → ℕ
unix_milli ns = ns / 1000000

-- `identity.IsNative`
unfoldable pub is_native : Bytes → Bool
is_native user_id = take 4 user_id == prefix_native

abbrev pub is_empty : Bytes → Bool
is_empty [] = true
is_empty (_ ∷ _) = false

unfoldable pub role_user_text : Bytes
unfolding text
role_user_text = text "user"

-- The identity that well-formed claims state, before the token store is asked.
unfoldable pub native_identity : NativeClaims → Option Identity
native_identity c = elim c.expires_at [
  | none ↦ none
  | some exp ↦
      if is_empty c.id
        || not (is_native c.subject)
        || ltb_ℤ c.platform_id (pos 1)
        || ltb_ℤ (pos max_platform_id) c.platform_id
      then none
      else some (record {
        user_id = c.subject;
        role = role_user_text;
        platform_id = c.platform_id;
        token_id = c.id;
        expires_at = unix_milli exp;
        source = source_native;
      })
]

module _ {S : Type 0} (tokens : Port S) where
  -- `Check`
  unfoldable pub check : Identity → S → Verdict (Unit {0}) × S
  check id s =
      let (r, s') = check_token tokens id.user_id id.platform_id id.token_id s in
      elim r [
        | err _ ↦ (refused unavailable, s')
        | ok live ↦ (if live then accepted tt else refused token_expired, s')
      ]

  abbrev admit : Identity → Verdict (Unit {0}) → Verdict Identity
  admit id (accepted _) = accepted id
  admit id (refused e) = refused e

  unfoldable pub verify_native : (Bytes → Parsed NativeClaims) → Bytes → S → Verdict Identity × S
  verify_native parse token s = elim (parse token) [
    | malformed e ↦ (refused (map_jwt_err e), s)
    | claims_of c ↦ elim (native_identity c) [
      | none ↦ (refused token_invalid, s)
      | some id ↦ let (r, s') = check id s in (admit id r, s')
    ]
  ]

  -- `Issue`: the token with its deadline. `ttl` is the lifetime of tokens.
  unfoldable pub issue :
      (NativeClaims → Option Bytes) → ℕ → ℕ → Bytes → Bytes → ℤ → S → Verdict (Bytes × ℕ) × S
  issue sign now ttl token_id user_id platform_id s =
      elim (sign (record {
        platform_id = platform_id;
        subject = user_id;
        id = token_id;
        issued_at = now;
        expires_at = some (now + ttl);
      })) [
        | none ↦ (refused sign_failed, s)
        | some token ↦
            let (r, s') = set_token tokens user_id platform_id token_id (pos ttl) s in
            elim r [ err _ ↦ (refused unavailable, s') | ok _ ↦ (accepted (token, now + ttl), s') ]
      ]

  -- `Revoke`
  unfoldable pub revoke : Bytes → ℤ → Bytes → S → Verdict (Unit {0}) × S
  revoke user_id platform_id token_id s =
      let (r, s') = delete_token tokens user_id platform_id token_id s in
      elim r [ err _ ↦ (refused unavailable, s') | ok _ ↦ (accepted tt, s') ]
