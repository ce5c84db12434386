-- ===== src/Onlinestore/Presence.antt =====
-- internal/onlinestore/db/db.go: what `Online` answers of a user.
use mathlib.Core.Path.{subst}
use nexo.Prelude.{
  ◌∙◌, ℕ, ◌-◌, ◌≡◌, refl, arith, Bool, true, ◌&&◌, ◌||◌, List, [], ◌∷◌, ◌++◌, map, keep, any,
  length, length-append, ltb, ◌==◌ as nat_eq, Bool-cases, inl, inr,
}
use nexo.Prelude.Bytes.{Bytes, ◌==◌, eq_iff}
use nexo.Prelude.Map.{Map, lookup, insert, bytes_eq, lookup-insert}
use nexo.Errcode.{ok}
use nexo.Store.{OnlineConn}
use nexo.Store.Db.{Db}
use nexo.Store.Online.{list_online_conns, is_live}
use nexo.Onlinestore.{platforms_of, group_platforms, online}

-- The user has a connection whose last heartbeat is younger than `ttl`.
unfoldable pub connected : ℕ → ℕ → Db → Bytes → Bool
connected now ttl db id =
    any (λ (c : OnlineConn). c.user_id == id && ltb (now - ttl) c.heartbeat_at)
      (map (λ p. p.1) db.online)

abbrev has_platform : Bytes → Map Bytes (List ℕ) → Bool
has_platform id out = ltb 0 (length (platforms_of id out))

any-filled : (n : ℕ) (ps : List ℕ) → any (nat_eq n) ps ≡ true → ltb 0 (length ps) ≡ true
unfolding any
any-filled n [] h = ground (arith, h)
any-filled n (p ∷ ps) h = ground arith

has_platform-insert :
    (id user : Bytes) (ps : List ℕ) (n : ℕ) (out : Map Bytes (List ℕ))
    → has_platform id (insert user (ps ++ n ∷ []) out) ≡ (user == id || has_platform id out)
unfolding platforms_of
has_platform-insert id user ps n out =
    ground (arith, lookup-insert user id (ps ++ n ∷ []) out, length-append ps (n ∷ []))

has_platform-grouped :
    (id : Bytes) (rows : List OnlineConn) (out : Map Bytes (List ℕ))
    → has_platform id (group_platforms rows out)
      ≡ (has_platform id out || any (λ r. r.user_id == id) rows)
unfolding group_platforms any
has_platform-grouped id [] out = ground arith
has_platform-grouped id (r ∷ rows) out =
    let ps = platforms_of r.user_id out in
    elim (Bool-cases (any (nat_eq r.platform_id) ps)) [
      | inl e ↦ ground (
        arith,
        e,
        eq_iff r.user_id id,
        any-filled r.platform_id ps e,
        has_platform-grouped id rows out,
      )
      | inr e ↦ ground (
        arith,
        e,
        has_platform-insert id r.user_id ps r.platform_id out,
        has_platform-grouped id rows (insert r.user_id (ps ++ r.platform_id ∷ []) out),
      )
    ]

asked_for :
    (asked : List Bytes) (u id : Bytes)
    → (u == id) ≡ true
    → any (λ m. m == id) asked ≡ any (λ m. m == u) asked
asked_for asked u id e =
    subst (λ x. any (λ m. m == x) asked ≡ any (λ m. m == u) asked) ((eq_iff u id).0 e) refl

any-live :
    (asked : List Bytes) (since : ℕ) (id : Bytes) (cs : List OnlineConn)
    → any (λ m. m == id) asked ≡ true
    → any (λ r. r.user_id == id) (keep (is_live asked since) cs)
      ≡ any (λ c. c.user_id == id && ltb since c.heartbeat_at) cs
unfolding any keep is_live
any-live asked since id [] h = refl
any-live asked since id (c ∷ cs) h =
    ground (arith, h, asked_for asked c.user_id id, any-live asked since id cs h)

-- A user who is asked for is answered to have a platform just where one of his connections has sent a
-- heartbeat in the last `ttl`.
pub online-connected :
    (now ttl : ℕ) (asked : List Bytes) (db : Db) (out : Map Bytes (List ℕ)) (id : Bytes)
    → (online now ttl asked db).0 ≡ ok out
    → any (λ m. m == id) asked ≡ true
    → ltb 0 (length (platforms_of id out)) ≡ connected now ttl db id
unfolding online list_online_conns connected any platforms_of keep lookup
online-connected now ttl asked db out id h k =
    let rows = keep (is_live asked (now - ttl)) (map (λ p. p.1) db.online) in
    let e : out ≡ group_platforms rows [] = ground (arith, h) in
    rw e
      (has_platform-grouped id rows [] ∙ any-live asked (now - ttl) id (map (λ p. p.1) db.online) k)
