-- ===== src/Identity.antt =====
-- internal/identity/identity.go: user ids. `uuid_ok` stands for the check of `Valid` that a text is
-- the canonical spelling of a UUID, which the `uuid` package decides.
pub mod Decimal
pub mod Spelling
use nexo.Prelude.{
  ℕ, suc, ◌+◌, ◌≤◌, ◌<◌, ◌≡◌, Bool, true, false, ◌&&◌, ◌||◌, not, Option, none, some, List, [], ◌∷◌,
  ◌++◌, length, take, any, ltb, leb, ◌==◌ as nat_eq, if◌then◌else◌,
}
use nexo.Prelude.Bytes.{Bytes, text, ◌==◌}
use nexo.Prelude.Int.{ℤ, pos, negsuc, ltb_ℤ}
use nexo.Identity.Decimal.{parse_int, format_int}

pub data Role : Type 0 where
  role_user role_agent : Role

pub record Actor : Type 0 where
  pub id : ℤ
  pub role : Role

unfoldable pub prefix_user : Bytes
unfolding text
prefix_user = text "u___"

unfoldable pub prefix_agent : Bytes
unfolding text
prefix_agent = text "ag__"

unfoldable pub prefix_native : Bytes
unfolding text
prefix_native = text "nx__"

abbrev pub drop4 : Bytes → Bytes
drop4 (a ∷ b ∷ c ∷ d ∷ rest) = rest
drop4 _ = []

-- The role of `Actor` is one of two, so the error of an unknown role cannot arise.
unfoldable pub actor_user_id : Actor → Bytes
actor_user_id a = elim a.role [
  | role_user ↦ prefix_user ++ format_int a.id
  | role_agent ↦ prefix_agent ++ format_int a.id
]

-- The digits after the prefix: a positive int64 in its canonical spelling.
unfoldable pub parse_digits_as : Role → Bytes → Option Actor
parse_digits_as role digits = elim (parse_int digits) [
  | none ↦ none
  | some id ↦
      if ltb_ℤ (pos 0) id && format_int id == digits
      then some (record { id = id; role = role })
      else none
]

-- `none` is `ErrInvalidUserId`.
unfoldable pub parse_actor : Bytes → Option Actor
unfolding parse_digits_as
parse_actor user_id =
    if leb (length user_id) 4
    then none
    else if take 4 user_id == prefix_user
    then parse_digits_as role_user (drop4 user_id)
    else if take 4 user_id == prefix_agent
    then parse_digits_as role_agent (drop4 user_id)
    else none

abbrev is_some {ℓ} : {A : Type ℓ} → Option A → Bool
is_some none = false
is_some (some _) = true

-- `strings.ContainsRune(s, ':')`
unfoldable pub has_colon : Bytes → Bool
has_colon = any (λ c. nat_eq c b':')

unfoldable pub is_valid_id : (Bytes → Bool) → Bytes → Bool
is_valid_id uuid_ok user_id =
    if leb (length user_id) 4 || has_colon user_id
    then false
    else if take 4 user_id == prefix_user || take 4 user_id == prefix_agent
    then is_some (parse_actor user_id)
    else if take 4 user_id == prefix_native
    then uuid_ok (drop4 user_id)
    else false
