-- ===== src/Onlinestore.antt =====
-- internal/onlinestore/onlinestore.go and db/db.go: the registry of connections in the tables. `now` is
-- the time that a call reads, and `ttl` how long a heartbeat counts, in milliseconds.
pub mod Renewal
pub mod Presence
use nexo.Prelude.{
  ℕ, zero, suc, ◌+◌, ◌-◌, Bool, true, false, Option, none, some, List, [], ◌∷◌, ◌++◌, map, length,
  take, drop, any, ◌==◌ as nat_eq, if◌then◌else◌,
}
use nexo.Prelude.Bytes.{Bytes}
use nexo.Prelude.Map.{Map, lookup, insert, bytes_eq}
use nexo.Errcode.{Result, ok, err}
use nexo.Store.{OnlineConn}
use nexo.Store.Db.{Op}
use nexo.Store.Online.{
  upsert_online_conn, delete_online_conn, renew_online_conns, list_online_conns,
  delete_online_conns_by_node,
}
use nexo.Store.Action.{Action, pure, call, ◌>>=◌, ◌>>◌}

pub record ConnRef : Type 0 where
  pub user_id : Bytes
  pub platform_id : ℕ
  pub conn_id : Bytes

-- `Add`
unfoldable pub add : Bytes → ConnRef → ℕ → Op (Unit {0})
add node_id c now = upsert_online_conn (record {
  conn_id = c.conn_id;
  user_id = c.user_id;
  platform_id = c.platform_id;
  node_id = node_id;
  heartbeat_at = now;
})

-- `Remove`
unfoldable pub remove : ConnRef → Op (Unit {0})
remove c = delete_online_conn c.conn_id

abbrev pub renew_chunk : ℕ
renew_chunk = 500

-- `slices.Chunk`; as many rounds as there are elements are enough.
unfoldable pub chunks {ℓ} : {A : Type ℓ} → ℕ → ℕ → List A → List (List A)
chunks zero size xs = []
chunks (suc fuel) size [] = []
chunks (suc fuel) size (x ∷ xs) = take size (x ∷ xs) ∷ chunks fuel size (drop size (x ∷ xs))

-- `out[r.UserId]`
unfoldable pub platforms_of : Bytes → Map Bytes (List ℕ) → List ℕ
platforms_of id out = elim (lookup id out) [ none ↦ [] | some ps ↦ ps ]

-- The loop of `Online`: the platforms of each user, each once.
unfoldable pub group_platforms : List OnlineConn → Map Bytes (List ℕ) → Map Bytes (List ℕ)
group_platforms [] out = out
group_platforms (r ∷ rows) out =
    let ps = platforms_of r.user_id out in
    group_platforms rows (
      if any (nat_eq r.platform_id) ps
      then out
      else insert r.user_id (ps ++ r.platform_id ∷ []) out)

-- `Online`
unfoldable pub online : ℕ → ℕ → List Bytes → Op (Map Bytes (List ℕ))
online now ttl user_ids db = elim (list_online_conns user_ids (now - ttl) db).0 [
  | err e ↦ (err e, db)
  | ok rows ↦ (ok (group_platforms rows []), db)
]

-- `PurgeNode`
unfoldable pub purge_node : Bytes → Op (Unit {0})
purge_node node_id = delete_online_conns_by_node node_id

module _ {E S : Type 0} where
  -- The loop of `Renew`, which stops at an error.
  unfoldable pub renew_each : Bytes → ℕ → List (List Bytes) → Action E S (Unit {0})
  renew_each node_id now [] = pure tt
  renew_each node_id now (chunk ∷ rest) =
      call (renew_online_conns node_id chunk now) >> renew_each node_id now rest

  -- `Renew`
  unfoldable pub renew : Bytes → List ConnRef → ℕ → Action E S (List ConnRef)
  renew node_id conns now =
      let ids = map (λ c. c.conn_id) conns in
      renew_each node_id now (chunks (length ids) renew_chunk ids) >> pure []
