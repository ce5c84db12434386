-- ===== src/Auth.antt =====
-- internal/auth: who a token speaks for. An error is the sentinel that `errors.Is` finds in it; the
-- texts around it are left out. `auth.go` and `chain.go` are here.
pub mod Tokens
pub mod Native
pub mod External
pub mod Internal
pub mod Chain
use nexo.Prelude.{ℕ, Bool, true, false, ◌||◌, List, [], ◌∷◌, not, if◌then◌else◌}
use nexo.Prelude.Bytes.{Bytes, text}
use nexo.Prelude.Int.{ℤ}

-- `sign_failed` is the error of `Issue` that has no sentinel.
pub data AuthError : Type 0 where
  token_invalid token_expired unavailable sign_failed : AuthError
  service_not_allowed clock_skew bad_signature nonce_replayed : AuthError

pub data Verdict {ℓ} (A : Type ℓ) : Type ℓ where
  accepted : A → Verdict A
  refused : AuthError → Verdict A

abbrev pub max_platform_id : ℕ
max_platform_id = 10

unfoldable pub source_external : Bytes
unfolding text
source_external = text "external"

unfoldable pub source_native : Bytes
unfolding text
source_native = text "native"

pub record Identity : Type 0 where
  pub user_id : Bytes
  pub role : Bytes
  pub platform_id : ℤ
  pub token_id : Bytes
  pub expires_at : ℕ
  pub source : Bytes

-- `Authenticator.Verify`, on the state that the provider keeps.
abbrev pub Authenticator : Type 0 → Type 0
Authenticator S = Bytes → S → Verdict Identity × S

unfoldable pub terminal : AuthError → Bool
terminal unavailable = true
terminal token_expired = true
terminal _ = false

-- The error that is kept of two.
unfoldable pub keep_error : AuthError → AuthError → AuthError
unfolding terminal
keep_error last e = if not (terminal last) || terminal e then e else last

module _ {S : Type 0} where
  -- The loop of `Chain.Verify`, from the error kept so far.
  unfoldable pub verify_from : AuthError → List (Authenticator S) → Bytes → S → Verdict Identity × S
  verify_from last [] token s = (refused last, s)
  verify_from last (a ∷ chain) token s =
      let (r, s') = a token s in
      elim r [
        | accepted id ↦ (accepted id, s')
        | refused e ↦ verify_from (keep_error last e) chain token s'
      ]

  -- `Chain.Verify`
  unfoldable pub verify : List (Authenticator S) → Bytes → S → Verdict Identity × S
  unfolding verify_from
  verify chain token s = verify_from token_invalid chain token s
