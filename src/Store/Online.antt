-- ===== src/Store/Online.antt =====
-- internal/store/storetest/mem_online.go: the connections that the nodes announce.
use nexo.Prelude.{ℕ, List, map, Bool, ◌&&◌, not, keep, any, ltb, if◌then◌else◌}
use nexo.Prelude.Bytes.{Bytes, ◌==◌}
use nexo.Prelude.Map.{insert, delete, bytes_eq}
use nexo.Errcode.{ok}
use nexo.Store.{OnlineConn}
use nexo.Store.Db.{Op}

unfoldable pub upsert_online_conn : OnlineConn → Op (Unit {0})
upsert_online_conn c db = (ok tt, record db { online = insert c.conn_id c db.online })

unfoldable pub delete_online_conn : Bytes → Op (Unit {0})
delete_online_conn conn_id db = (ok tt, record db { online = delete conn_id db.online })

-- Only the listed connections of the node are renewed.
unfoldable pub renew_conn : Bytes → List Bytes → ℕ → OnlineConn → OnlineConn
renew_conn node_id conn_ids now c =
    if c.node_id == node_id && any (λ id. id == c.conn_id) conn_ids
    then record c { heartbeat_at = now }
    else c

unfoldable pub renew_online_conns : Bytes → List Bytes → ℕ → Op (Unit {0})
unfolding renew_conn
renew_online_conns node_id conn_ids now db =
    (ok tt, record db { online = map (λ p. (p.0, renew_conn node_id conn_ids now p.1)) db.online })

unfoldable pub is_live : List Bytes → ℕ → OnlineConn → Bool
is_live user_ids since c = any (λ id. id == c.user_id) user_ids && ltb since c.heartbeat_at

unfoldable pub list_online_conns : List Bytes → ℕ → Op (List OnlineConn)
unfolding is_live
list_online_conns user_ids since db =
    (ok (keep (is_live user_ids since) (map (λ p. p.1) db.online)), db)

unfoldable pub delete_online_conns_by_node : Bytes → Op (Unit {0})
delete_online_conns_by_node node_id db =
    (ok tt, record db { online = keep (λ p. not (p.1.node_id == node_id)) db.online })
