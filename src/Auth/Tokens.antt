-- ===== src/Auth/Tokens.antt =====
-- internal/tokenstore/tokenstore.go: one live token for each user and platform.
pub mod Supersede
use nexo.Prelude.{ℕ, Bool, true, false, Option, none, some, ◌∷◌, ◌++◌}
use nexo.Prelude.Bytes.{Bytes, text, ◌==◌}
use nexo.Prelude.Int.{ℤ}
use nexo.Errcode.{Result, ok, err}
use nexo.Identity.Decimal.{format_int}
use nexo.Cache.{key_prefix}
use nexo.Cache.Port.{Port}

unfoldable pub tok : Bytes
unfolding text
tok = text "tok:"

-- `"%stok:%s:%d"`
unfoldable pub key : Bytes → ℤ → Bytes
key user_id platform_id = key_prefix ++ (tok ++ (user_id ++ (b':' ∷ format_int platform_id)))

-- `found && cur == tokenId`
unfoldable pub matches : Bytes → Option Bytes → Bool
matches token_id none = false
matches token_id (some cur) = cur == token_id

module _ {S : Type 0} (c : Port S) where
  unfoldable pub set_token : Bytes → ℤ → Bytes → ℤ → S → Result (Unit {0}) × S
  set_token user_id platform_id token_id ttl = c.set (key user_id platform_id) token_id ttl

  unfoldable pub check_token : Bytes → ℤ → Bytes → S → Result Bool × S
  check_token user_id platform_id token_id s =
      let (r, s') = c.get (key user_id platform_id) s in
      elim r [ err e ↦ (err e, s') | ok cur ↦ (ok (matches token_id cur), s') ]

  unfoldable pub delete_token : Bytes → ℤ → Bytes → S → Result (Unit {0}) × S
  delete_token user_id platform_id token_id = c.del_if_value (key user_id platform_id) token_id
