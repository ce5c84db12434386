-- ===== src/Store/Users.antt =====
-- internal/store/storetest/mem.go: the users table.
use nexo.Prelude.{ℕ, List, [], ◌∷◌, map, Option, none, some, find}
use nexo.Prelude.Bytes.{Bytes, ◌==◌}
use nexo.Prelude.Map.{lookup, insert, bytes_eq}
use nexo.Errcode.{ok, err, not_found, duplicate}
use nexo.Store.{User}
use nexo.Store.Db.{Db, Op, or_not_found}

unfoldable pub get_user : Bytes → Op User
get_user id db = (or_not_found (lookup id db.users), db)

-- The rows of the ids that have one, in the order of the ids.
unfoldable pub found_users : List Bytes → Db → List User
found_users [] db = []
found_users (id ∷ ids) db =
    let rest = found_users ids db in elim (lookup id db.users) [ some u ↦ u ∷ rest | none ↦ rest ]

unfoldable pub get_users : List Bytes → Op (List User)
unfolding found_users
get_users ids db = (ok (found_users ids db), db)

unfoldable pub get_user_by_username : Bytes → Op User
get_user_by_username name db =
    (or_not_found (find (λ u. u.username == name) (map (λ p. p.1) db.users)), db)

unfoldable pub create_user : User → Op (Unit {0})
create_user u db = elim (lookup u.id db.users) [
  | some _ ↦ (err duplicate, db)
  | none ↦ (ok tt, record db { users = insert u.id u db.users })
]

-- `lo.FromPtrOr`
abbrev pub from_ptr_or {ℓ} : {A : Type ℓ} → Option A → A → A
from_ptr_or none d = d
from_ptr_or (some a) d = a

unfoldable pub update_user_profile :
    Bytes → Option Bytes → Option Bytes → Option Bytes → ℕ → Op (Unit {0})
update_user_profile id nickname avatar extra now db = elim (lookup id db.users) [
  | none ↦ (err not_found, db)
  | some cur ↦ (
    ok tt,
    record db {
      users =
          insert id
            (record cur {
              nickname = from_ptr_or nickname cur.nickname;
              avatar = from_ptr_or avatar cur.avatar;
              extra = from_ptr_or extra cur.extra;
              updated_at = now;
            })
            db.users;
    },
  )
]

-- The row that an upsert starts from: the stored one, or a new one with the id alone.
unfoldable pub user_or_new : User → Option User → User
user_or_new u (some cur) = cur
user_or_new u none = record {
  id = u.id;
  username = [];
  password_hash = [];
  nickname = [];
  avatar = [];
  extra = [];
  created_at = u.updated_at;
  updated_at = 0;
}

unfoldable pub upsert_user : User → Op (Unit {0})
unfolding user_or_new
upsert_user u db =
    let cur = user_or_new u (lookup u.id db.users) in
    (
      ok tt,
      record db {
        users =
            insert u.id
              (record cur {
                nickname = u.nickname;
                avatar = u.avatar;
                extra = u.extra;
                updated_at = u.updated_at;
              })
              db.users;
      },
    )
