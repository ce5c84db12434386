-- ===== src/Examples/Connections.antt =====
-- A handshake, an adoption and a removal.
use nexo.Prelude.{ℕ, ◌≡◌, ◌≢◌, refl, arith, [], ◌∷◌, ◌++◌, true, false}
use nexo.Prelude.Bytes.{◌==◌}
use nexo.Prelude.Int.{pos}
use nexo.Errcode.{ok}
use nexo.Gateway.Usermap.{
  Limits, Slot, Client, slot_of, UserMap, new_user_map, reserve, adopt, unregister,
}
use nexo.Gateway.Usermap.Steps.{Reachable, starts, reserves, adopts, Sound, Reachable-Sound}
use nexo.Examples.Data.{alice}

abbrev limits : Limits
limits = record {
  ws_conns_total = pos 10;
  ws_conns_per_user = pos 2;
  ws_conns_per_token = pos 1;
  ws_conns_per_ip = pos 0;
}

abbrev client : Client
client = record {
  ref = 1;
  id = b'c' ∷ [];
  user_id = alice;
  token_id = b't' ∷ [];
  ip = [];
  closed = false;
}

abbrev reserved : UserMap
reserved = (reserve (slot_of client) (new_user_map limits)).1

reserve_ok : (reserve (slot_of client) (new_user_map limits)).0 ≡ ok tt
unfolding reserve new_user_map nexo.Gateway.Usermap.over nexo.Gateway.Usermap.count
    nexo.Prelude.Map.lookup ◌==◌ slot_of
reserve_ok = refl

adopt_ok : (adopt client reserved).0 ≡ ok tt
unfolding adopt reserve new_user_map nexo.Gateway.Usermap.over nexo.Gateway.Usermap.count
    nexo.Prelude.Map.lookup ◌==◌ slot_of nexo.Gateway.Usermap.charge
adopt_ok = refl

adopted : Reachable limits [] (client ∷ []) (adopt client reserved).1
adopted = adopts [] [] client (reserves (slot_of client) starts reserve_ok) adopt_ok

Reachable-Sound_example : Sound limits [] (client ∷ []) (adopt client reserved).1
Reachable-Sound_example = Reachable-Sound limits adopted
