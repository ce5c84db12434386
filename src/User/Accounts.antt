-- ===== src/User/Accounts.antt =====
-- internal/service/user/user.go: `Register`, `Login`, `Logout` and `OnlineStatus`. The service's memory is
-- the state of the token cache. `Bcrypt` stands for golang.org/x/crypto/bcrypt, and a `uuid` for the one
-- that is drawn.
pub mod Admitted
use nexo.Prelude.{
  ℕ, Bool, true, false, not, ◌||◌, Option, none, some, List, [], ◌∷◌, ◌++◌, map, length, ltb,
  if◌then◌else◌,
}
use nexo.Prelude.Bytes.{Bytes, text, ◌==◌}
use nexo.Prelude.Int.{ℤ, pos, ltb_ℤ}
use nexo.Prelude.Map.{Map}
use nexo.Errcode.{
  GoError, Result, ok, err, failure, plain, wrap, with_message, missing_as, is_not_found,
  err_invalid_param, err_store_failed, err_internal, err_login_failed, err_user_exists,
  err_provider_disabled,
}
use nexo.Identity.{prefix_native}
use nexo.Cache.Port.{Port}
use nexo.Auth.{Verdict, accepted, refused, Identity, max_platform_id, source_native}
use nexo.Auth.Native.{NativeClaims, issue, revoke, unix_milli, is_empty}
use nexo.Store
use nexo.Store.Db.{Op}
use nexo.Store.Users.{get_user_by_username, create_user}
use nexo.Store.Action.{
  Action, pure, raise, lift, call, attempt, map_error, with_service, ◌>>=◌, ◌>>◌,
}
use nexo.Onlinestore.{platforms_of}
use nexo.User.{Profile, to_profile, validate_profile}

pub record Bcrypt : Type 0 where
  pub generate_from_password : Bytes → Option Bytes
  -- the hash, then the password
  pub compare_hash_and_password : Bytes → Bytes → Bool

-- `auth.Native`, over a cache in the state `S`.
pub record Native (S : Type 0) : Type 0 where
  pub tokens : Port S
  pub sign : NativeClaims → Option Bytes
  pub ttl : ℕ

abbrev pub max_username : ℕ
max_username = 64

abbrev pub min_password : ℕ
min_password = 6

abbrev pub max_password : ℕ
max_password = 72

pub record Session : Type 0 where
  pub user_id : Bytes
  pub token : Bytes
  pub expires_at : ℕ

pub record OnlineStatus : Type 0 where
  pub user_id : Bytes
  pub online : Bool
  pub platforms : List ℕ

unfoldable pub bad_account : Bytes → Bytes → Bool
bad_account username password =
    is_empty username
    || ltb max_username (length username)
    || ltb (length password) min_password
    || ltb max_password (length password)

abbrev pub new_user : Bytes → Bytes → Bytes → Bytes → ℕ → Store.User
new_user uuid username hash nickname now = record {
  id = prefix_native ++ uuid;
  username = username;
  password_hash = hash;
  nickname = nickname;
  avatar = [];
  extra = [];
  created_at = now;
  updated_at = now;
}

abbrev pub or_internal {ℓ} : {A : Type ℓ} → Verdict A → Result A
or_internal (accepted a) = ok a
or_internal (refused _) = err (wrap err_internal failure)

abbrev pub hashed : Option Bytes → Result Bytes
hashed none = err (wrap err_internal failure)
hashed (some h) = ok h

abbrev pub session_of : Bytes → Bytes × ℕ → Session
session_of user_id (token, exp) = record {
  user_id = user_id;
  token = token;
  expires_at = unix_milli exp;
}

unfoldable pub status_of : Map Bytes (List ℕ) → Bytes → OnlineStatus
status_of by_user id = record {
  user_id = id;
  online = ltb 0 (length (platforms_of id by_user));
  platforms = platforms_of id by_user;
}

module _ {E S : Type 0} where
  unfoldable pub require_native : Option (Native S) → Action E S (Native S)
  require_native none =
      raise (with_message err_provider_disabled (text "native auth provider is disabled"))
  require_native (some n) = pure n

  -- A name is free where the look-up misses.
  unfoldable pub name_free : Result Store.User → Action E S (Unit {0})
  name_free (ok _) = raise (plain err_user_exists)
  name_free (err e) = if is_not_found e then pure tt else raise (wrap err_store_failed e)

  -- `Register`
  unfoldable pub register :
      Bcrypt → Option (Native S) → ℕ → Bytes → Bytes → Bytes → Bytes → Action E S Profile
  register bcrypt native now uuid username password nickname = do
    _ ← require_native native
    _ ←
        if bad_account username password
        then raise
            (with_message err_invalid_param (text "username 1-64 chars, password 6-72 chars"))
        else pure tt
    _ ← lift (validate_profile (some nickname) none none)
    taken ← attempt (call (get_user_by_username username))
    _ ← name_free taken
    hash ← lift (hashed (bcrypt.generate_from_password password))
    _ ←
        map_error (wrap err_store_failed)
          (call (create_user (new_user uuid username hash nickname now)))
    pure (to_profile (new_user uuid username hash nickname now))

  -- `Login`; `now` is in nanoseconds, as `Issue` reads it.
  unfoldable pub login :
      Bcrypt → Option (Native S) → ℕ → Bytes → Bytes → Bytes → ℤ → Action E S Session
  login bcrypt native now token_id username password platform_id = do
    n ← require_native native
    _ ←
        if ltb_ℤ platform_id (pos 1) || ltb_ℤ (pos max_platform_id) platform_id
        then raise (with_message err_invalid_param (text "platform_id must be 1..10"))
        else pure tt
    u ← map_error (missing_as err_login_failed) (call (get_user_by_username username))
    _ ←
        if bcrypt.compare_hash_and_password u.password_hash password
        then pure tt
        else raise (plain err_login_failed)
    issued ← with_service (issue n.tokens n.sign now n.ttl token_id u.id platform_id)
    r ← lift (or_internal issued)
    pure (session_of u.id r)

  -- `Logout`
  unfoldable pub logout : Option (Native S) → Identity → Action E S (Unit {0})
  logout native id = do
    n ← require_native native
    _ ←
        if not (id.source == source_native)
        then raise (with_message err_invalid_param (text "logout applies to native tokens only"))
        else if is_empty id.token_id
        then raise (with_message err_invalid_param (text "token_id is required for logout"))
        else pure tt
    revoked ← with_service (revoke n.tokens id.user_id id.platform_id id.token_id)
    lift (or_internal revoked)

  -- `OnlineStatus`
  unfoldable pub online_status :
      Option (List Bytes → Op (Map Bytes (List ℕ))) → List Bytes → Action E S (List OnlineStatus)
  online_status none user_ids = pure (map (status_of []) user_ids)
  online_status (some online) user_ids = do
    by_user ← map_error (wrap err_store_failed) (call (online user_ids))
    pure (map (status_of by_user) user_ids)
