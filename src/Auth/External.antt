-- ===== src/Auth/External.antt =====
-- internal/auth/external.go: tokens that the platform signs. `parse` stands for the `jwt` package under
-- one secret, and `digest` for the first half of the SHA-256 sum of a token, in hexadecimal.
use nexo.Prelude.{ℕ, Option, none, some, List, [], ◌∷◌, if◌then◌else◌}
use nexo.Prelude.Bytes.{Bytes, text, ◌==◌}
use nexo.Prelude.Int.{ℤ, pos, ltb_ℤ}
use nexo.Identity.{Role, role_user, role_agent, actor_user_id}
use nexo.Auth.{token_invalid, Verdict, accepted, refused, Identity, source_external}
use nexo.Auth.Native.{
  jwt_signature_invalid, Parsed, claims_of, malformed, map_jwt_err, unix_milli, role_user_text,
}

pub record ExternalClaims : Type 0 where
  pub user_id : ℤ
  pub role : Bytes
  pub expires_at : Option ℕ

-- The loop over the secrets: the next one is tried where the signature alone failed.
unfoldable pub parse_with :
    (Bytes → Bytes → Parsed ExternalClaims)
    → List Bytes
    → Bytes
    → Parsed ExternalClaims
    → Parsed ExternalClaims
parse_with parse [] token last = last
parse_with parse (secret ∷ secrets) token last =
    let rest = parse_with parse secrets token in
    elim (parse secret token) [
      | claims_of c ↦ claims_of c
      | malformed jwt_signature_invalid ↦ rest (malformed jwt_signature_invalid)
      | malformed e ↦ malformed e
    ]

unfoldable pub role_agent_text : Bytes
unfolding text
role_agent_text = text "agent"

-- A role that is neither of the two is refused by `UserId`.
unfoldable pub role_of : Bytes → Option Role
role_of r =
    if r == role_user_text
    then some role_user
    else if r == role_agent_text
    then some role_agent
    else none

-- `cmp.Or`: the default where the claim is empty.
abbrev role_or : Bytes → Bytes → Bytes
role_or [] d = d
role_or (c ∷ cs) d = c ∷ cs

-- With no secrets the claims stay empty.
abbrev no_claims : ExternalClaims
no_claims = record { user_id = pos 0; role = []; expires_at = none }

unfoldable pub external_identity : Bytes → Bytes → ExternalClaims → Verdict Identity
external_identity default_role token_id c = elim c.expires_at [
  | none ↦ refused token_invalid
  | some exp ↦
      if ltb_ℤ (pos 0) c.user_id
      then (elim (role_of (role_or c.role default_role)) [
        | none ↦ refused token_invalid
        | some r ↦ accepted (record {
          user_id = actor_user_id (record { id = c.user_id; role = r });
          role = role_or c.role default_role;
          platform_id = pos 0;
          token_id = token_id;
          expires_at = unix_milli exp;
          source = source_external;
        })
      ])
      else refused token_invalid
]

unfoldable pub verify_external :
    (Bytes → Bytes → Parsed ExternalClaims)
    → (Bytes → Bytes)
    → List Bytes
    → Bytes
    → Bytes
    → Verdict Identity
verify_external parse digest secrets default_role token =
    elim (parse_with parse secrets token (claims_of no_claims)) [
      | malformed e ↦ refused (map_jwt_err e)
      | claims_of c ↦ external_identity default_role (digest token) c
    ]
