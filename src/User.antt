-- ===== src/User.antt =====
-- internal/service/user/user.go: profiles. Accounts with passwords are in User/Accounts.
pub mod Profiles
pub mod Accounts
use nexo.Prelude.{
  ℕ, Bool, true, false, ◌||◌, Option, none, some, List, [], map, length, ltb, if◌then◌else◌,
}
use nexo.Prelude.Bytes.{Bytes, text}
use nexo.Errcode.{
  GoError, Result, ok, err, wrapped, plain, wrap, with_message, missing_as, is_not_found,
  err_invalid_param, err_store_failed, err_user_not_found,
}
use nexo.Identity.{parse_actor, Actor}
use nexo.Store
use nexo.Store.{max_extra_bytes}
use nexo.Store.Users.{get_user, get_users, update_user_profile, upsert_user}
use nexo.Store.Action.{Action, pure, raise, lift, call, map_error, ◌>>=◌, ◌>>◌}

pub record Profile : Type 0 where
  pub id : Bytes
  pub nickname : Bytes
  pub avatar : Bytes
  pub extra : Bytes
  pub created_at : ℕ
  pub updated_at : ℕ

unfoldable pub to_profile : Store.User → Profile
to_profile u = record {
  id = u.id;
  nickname = u.nickname;
  avatar = u.avatar;
  extra = u.extra;
  created_at = u.created_at;
  updated_at = u.updated_at;
}

abbrev pub max_nickname : ℕ
max_nickname = 255

abbrev pub max_avatar : ℕ
max_avatar = 1024

-- A text that is given is longer than a column.
abbrev pub too_long : ℕ → Option Bytes → Bool
too_long n none = false
too_long n (some s) = ltb n (length s)

unfoldable pub validate_profile : Option Bytes → Option Bytes → Option Bytes → Result (Unit {0})
validate_profile nickname avatar extra =
    if too_long max_nickname nickname
    then err (with_message err_invalid_param (text "nickname: at most 255 bytes"))
    else if too_long max_avatar avatar
    then err (with_message err_invalid_param (text "avatar: at most 1024 bytes"))
    else if too_long max_extra_bytes extra
    then err (with_message err_invalid_param (text "extra: at most 65535 bytes"))
    else ok tt

pub record Update : Type 0 where
  pub nickname : Option Bytes
  pub avatar : Option Bytes
  pub extra : Option Bytes

-- What `Update` makes of an error of the store.
abbrev pub update_failed : GoError → GoError
update_failed e =
    if is_not_found e
    then plain err_user_not_found
    else wrap err_store_failed (wrapped (text "update user: ") e)

abbrev pub platform_actor : Option Actor → Result (Unit {0})
platform_actor none = err (with_message err_invalid_param (text "id must be a platform user id"))
platform_actor (some _) = ok tt

-- The row that `Upsert` gives to the store.
unfoldable pub upsert_row : Bytes → Bytes → Bytes → Bytes → ℕ → Store.User
upsert_row id nickname avatar extra now = record {
  id = id;
  username = [];
  password_hash = [];
  nickname = nickname;
  avatar = avatar;
  extra = extra;
  created_at = 0;
  updated_at = now;
}

module _ {E S : Type 0} where
  unfoldable pub get : Bytes → Action E S Profile
  get user_id = do
    u ← map_error (missing_as err_user_not_found) (call (get_user user_id))
    pure (to_profile u)

  unfoldable pub get_many : List Bytes → Action E S (List Profile)
  get_many user_ids = do
    users ← map_error (wrap err_store_failed) (call (get_users user_ids))
    pure (map to_profile users)

  unfoldable pub update : ℕ → Bytes → Update → Action E S Profile
  unfolding validate_profile get
  update now user_id i = do
    lift (validate_profile i.nickname i.avatar i.extra)
    map_error update_failed (call (update_user_profile user_id i.nickname i.avatar i.extra now))
    get user_id

  unfoldable pub upsert : ℕ → Bytes → Bytes → Bytes → Bytes → Action E S Profile
  unfolding validate_profile get
  upsert now id nickname avatar extra = do
    lift (platform_actor (parse_actor id))
    lift (validate_profile (some nickname) (some avatar) (some extra))
    map_error (wrap err_store_failed) (call (upsert_user (upsert_row id nickname avatar extra now)))
    get id
