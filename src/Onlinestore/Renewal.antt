-- ===== src/Onlinestore/Renewal.antt =====
-- internal/onlinestore/db/db.go: the chunks of a renewal add up to one statement.
use nexo.Prelude.{
  ℕ, zero, suc, ◌≤◌, ◌≡◌, refl, ap, Bool, ◌||◌, List, [], ◌∷◌, ◌++◌, map, length, drop,
  take-append-drop, length-drop-le, any, arith,
}
use nexo.Prelude.Bytes.{Bytes, ◌==◌}
use nexo.Prelude.Map.{Map}
use nexo.Errcode.{ok}
use nexo.Store.{OnlineConn}
use nexo.Store.Online.{renew_conn, renew_online_conns}
use nexo.Store.Action.{World, call, ◌>>=◌}
use nexo.Onlinestore.{ConnRef, chunks, renew_chunk, renew_each, renew}

any-append {ℓ} :
    {A : Type ℓ} (p : A → Bool) (xs ys : List A) → any p (xs ++ ys) ≡ (any p xs || any p ys)
unfolding any
any-append p [] ys = refl
any-append p (x ∷ xs) ys = ground (arith, any-append p xs ys)

renew_conn-append :
    (node_id : Bytes) (xs ys : List Bytes) (now : ℕ) (c : OnlineConn)
    → renew_conn node_id ys now (renew_conn node_id xs now c) ≡ renew_conn node_id (xs ++ ys) now c
unfolding renew_conn
renew_conn-append node_id xs ys now c = ground (arith, any-append (λ id. id == c.conn_id) xs ys)

-- The rows after a renewal.
abbrev renewed : Bytes → List Bytes → ℕ → Map Bytes OnlineConn → Map Bytes OnlineConn
renewed node_id ids now = map (λ p. (p.0, renew_conn node_id ids now p.1))

renewed_twice :
    (node_id : Bytes) (xs ys : List Bytes) (now : ℕ) (m : Map Bytes OnlineConn)
    → renewed node_id ys now (renewed node_id xs now m) ≡ renewed node_id (xs ++ ys) now m
renewed_twice node_id xs ys now [] = refl
renewed_twice node_id xs ys now ((k, c) ∷ m) =
    rw (renew_conn-append node_id xs ys now c, renewed_twice node_id xs ys now m) refl

renew_conn-nobody : (node_id : Bytes) (now : ℕ) (c : OnlineConn) → renew_conn node_id [] now c ≡ c
unfolding renew_conn any
renew_conn-nobody node_id now c = ground arith

renewed_nobody :
    (node_id : Bytes) (now : ℕ) (m : Map Bytes OnlineConn) → renewed node_id [] now m ≡ m
renewed_nobody node_id now [] = refl
renewed_nobody node_id now ((k, c) ∷ m) =
    rw (renew_conn-nobody node_id now c, renewed_nobody node_id now m) refl

concat_all {ℓ} : {A : Type ℓ} → List (List A) → List A
concat_all [] = []
concat_all (xs ∷ rest) = xs ++ concat_all rest

module _ {E S : Type 0} where
  renew_each-concat_all :
      (node_id : Bytes) (now : ℕ) (parts : List (List Bytes)) (w : World E S)
      → w.faults ≡ []
      → renew_each node_id now parts w
        ≡ (ok tt, record w { db = (renew_online_conns node_id (concat_all parts) now w.db).1 })
  unfolding renew_each renew_online_conns concat_all ◌>>=◌ call
  renew_each-concat_all node_id now [] w quiet = rw (renewed_nobody node_id now w.db.online) refl
  renew_each-concat_all node_id now (ids ∷ rest) w quiet =
      let w' : World E S = record w {
        db = (renew_online_conns node_id ids now w.db).1;
        faults = [];
      } in
      rw
        (
          quiet,
          renew_each-concat_all node_id now rest w' refl,
          renewed_twice node_id ids (concat_all rest) now w.db.online,
        )
        refl

concat_all-chunks {ℓ} :
    {A : Type ℓ} (fuel size : ℕ) (xs : List A)
    → length xs ≤ fuel
    → concat_all (chunks fuel (suc size) xs) ≡ xs
unfolding chunks concat_all
concat_all-chunks zero size [] h = refl
concat_all-chunks zero size (x ∷ xs) h = absurd (omega arith)
concat_all-chunks (suc fuel) size [] h = refl
concat_all-chunks (suc fuel) size (x ∷ xs) h =
    rw (concat_all-chunks fuel size (drop size xs) (omega (arith, length-drop-le size xs)))
      (ap (◌∷◌ x) (take-append-drop size xs))

-- Where no statement fails, a renewal in chunks leaves the tables as the one statement over all the
-- connections would, however many there are, with one heartbeat for all of them, and revives none.
pub renew-renew_online_conns :
    {E S : Type 0} (node_id : Bytes) (conns : List ConnRef) (now : ℕ) (w : World E S)
    → w.faults ≡ []
    → renew node_id conns now w ≡ (
      ok [],
      record w { db = (renew_online_conns node_id (map (λ c. c.conn_id) conns) now w.db).1 },
    )
unfolding renew ◌>>=◌
renew-renew_online_conns node_id conns now w quiet =
    let ids = map (λ c. c.conn_id) conns in
    rw
      (
        renew_each-concat_all node_id now (chunks (length ids) renew_chunk ids) w quiet,
        concat_all-chunks (length ids) 499 ids (omega arith),
      )
      refl
