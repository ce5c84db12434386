-- ===== src/User/Profiles.antt =====
-- What an upsert of a profile does.
use nexo.Prelude.{ℕ, ◌≡◌, refl, sym, ap, ◌∙◌, some, arith, if◌then◌else◌}
use mathlib.Core.Path.{subst}
use nexo.Prelude.Bytes.{Bytes, ◌==◌, eq_refl}
use nexo.Prelude.Map.{lookup, lookup-insert, bytes_eq}
use nexo.Errcode.{ok}
use nexo.Store
use nexo.Store.Db.{Db, or_not_found}
use nexo.Store.Users.{get_user, upsert_user, user_or_new}
use nexo.Store.Action.{World}
use nexo.Store.Action.Rules.{Ensures, DbKept-ReadOnly, ReadOnly-lift}
use nexo.Store.Action.Hoare.{
  Ensures-pure, Ensures-call, Ensures-bind, Ensures-map_error, Ensures-DbKept,
}
use nexo.User.{Profile, to_profile, upsert_row, get, upsert}

-- The user is stored with the given profile. A user that was there keeps the name, the password
-- and the time of its creation, and nobody else has changed.
pub record Stored (before : Db) (id nickname avatar extra : Bytes) (u : Store.User) (db : Db)
    : Type 0 where
  pub rows : (k : Bytes) → lookup k db.users ≡ (if id == k then some u else lookup k before.users)
  pub nickname_of : u.nickname ≡ nickname
  pub avatar_of : u.avatar ≡ avatar
  pub extra_of : u.extra ≡ extra
  pub kept :
      (old : Store.User)
      → lookup id before.users ≡ some old
      → (u.username ≡ old.username)
        × (u.password_hash ≡ old.password_hash)
        × (u.created_at ≡ old.created_at)

-- The answer to an upsert shows the user that it stored.
pub record Upserted (before : Db) (id nickname avatar extra : Bytes) (p : Profile) (db : Db)
    : Type 0 where
  pub user : Store.User
  pub stored : Stored before id nickname avatar extra user db
  pub answer : p ≡ to_profile user

module _ (before : Db) (id nickname avatar extra : Bytes) (now : ℕ) where
  abbrev new_row : Store.User
  new_row =
      record (user_or_new (upsert_row id nickname avatar extra now) (lookup id before.users)) {
        nickname = nickname;
        avatar = avatar;
        extra = extra;
        updated_at = now;
      }

  upsert-Stored :
      Stored before id nickname avatar extra new_row
        (upsert_user (upsert_row id nickname avatar extra now) before).1
  unfolding upsert_user user_or_new upsert_row
  upsert-Stored = record {
    rows = λ k. lookup-insert id k _ before.users;
    nickname_of = refl;
    avatar_of = refl;
    extra_of = refl;
    kept = λ old e. rw e (refl, refl, refl);
  }

  found_again :
      (db : Db) (x : Store.User)
      → Stored before id nickname avatar extra new_row db
      → (get_user id db).0 ≡ ok x
      → new_row ≡ x
  unfolding get_user
  found_again db x h e =
      let at : lookup id db.users ≡ some new_row = h.rows id ∙ rw (eq_refl id) refl in
      ground (arith, ap or_not_found at, e)

same_tables : (id : Bytes) (db : Db) → (get_user id db).1 ≡ db
unfolding get_user
same_tables id db = refl

module _ {E S : Type 0} (before : Db) (id nickname avatar extra : Bytes) (now : ℕ) where
  get-Upserted :
      Ensures {E = E} {S = S}
        (Stored before id nickname avatar extra (new_row before id nickname avatar extra now))
        (get id)
        (Upserted before id nickname avatar extra)
  unfolding get
  get-Upserted =
      Ensures-bind _ (λ x d. Stored before id nickname avatar extra x d) _ _ _
        (Ensures-map_error _ _ _ _ (
          Ensures-call _ _ _ (λ db x h e.
            subst (Stored before id nickname avatar extra x) (sym (same_tables id db)) (
              subst (λ y. Stored before id nickname avatar extra y db)
                (found_again before id nickname avatar extra now db x h e) h))))
        (λ x.
          Ensures-pure _ _ (to_profile x) (λ db h. record { user = x; stored = h; answer = refl }))

  upsert-Upserted :
      Ensures {E = E} {S = S}
        (λ d. d ≡ before)
        (upsert now id nickname avatar extra)
        (Upserted before id nickname avatar extra)
  unfolding upsert
  upsert-Upserted =
      Ensures-bind _ (λ _ d. d ≡ before) _ _ _
        (Ensures-DbKept _ _ (DbKept-ReadOnly (ReadOnly-lift _)))
        (λ _.
          Ensures-bind _ (λ _ d. d ≡ before) _ _ _
            (Ensures-DbKept _ _ (DbKept-ReadOnly (ReadOnly-lift _)))
            (λ _.
              Ensures-bind _
                (λ _ d.
                  Stored before id nickname avatar extra
                    (new_row before id nickname avatar extra now) d)
                _ _ _
                (Ensures-map_error _ _ _ _ (
                  Ensures-call _ _ _ (λ db x h e.
                    subst
                      (λ b.
                        Stored before id nickname avatar extra
                          (new_row before id nickname avatar extra now)
                          (upsert_user (upsert_row id nickname avatar extra now) b).1)
                      (sym h) (upsert-Stored before id nickname avatar extra now))))
                (λ _. get-Upserted)))

module _ {E S : Type 0} where
  -- An upsert that succeeds has stored the user with the given nickname, avatar and extra, and
  -- answers with that user's profile. A user that was there keeps the name, the password and the
  -- time of its creation, and no other user has changed.
  pub upsert_outcome :
      (now : ℕ) (id nickname avatar extra : Bytes) (w : World E S) (p : Profile)
      → (upsert now id nickname avatar extra w).0 ≡ ok p
      → Upserted w.db id nickname avatar extra p (upsert now id nickname avatar extra w).1.db
  upsert_outcome now id nickname avatar extra w p h =
      (upsert-Upserted w.db id nickname avatar extra now).at w p refl h
