-- ===== src/Gateway/Usermap.antt =====
-- internal/gateway/usermap.go: the node's registry of connections. Each method runs under the lock
-- of the map and is one function here. A client's `ref` stands for the pointer, by which
-- `slices.Index` compares, and `closed` for its channel at the time of the call.
pub mod Counts
pub mod Bounded
pub mod Accounting
pub mod Steps
use nexo.Prelude.{
  ℕ, zero, suc, Bool, true, false, not, ◌&&◌, ◌||◌, Option, none, some, List, [], ◌∷◌, ◌++◌, map,
  keep, length, ltb, leb, ◌-◌, ◌==◌ as nat_eq, if◌then◌else◌,
}
use nexo.Prelude.Bytes.{Bytes, text, ◌==◌}
use nexo.Prelude.Int.{ℤ, pos, negsuc, ltb_ℤ, leb_ℤ}
use nexo.Prelude.Map.{Map, lookup, insert, delete, bytes_eq}
use nexo.Errcode.{
  Result, ok, err, plain, with_message, err_conn_over_limit, err_conn_closed, err_node_draining,
}

-- `config.LimitsConfig`: a limit that is not positive is none.
pub record Limits : Type 0 where
  pub ws_conns_total : ℤ
  pub ws_conns_per_user : ℤ
  pub ws_conns_per_token : ℤ
  pub ws_conns_per_ip : ℤ

pub record Slot : Type 0 where
  pub user_id : Bytes
  pub token_id : Bytes
  pub ip : Bytes

pub record Client : Type 0 where
  pub ref : ℕ
  pub id : Bytes
  pub user_id : Bytes
  pub token_id : Bytes
  pub ip : Bytes
  pub closed : Bool

unfoldable pub slot_of : Client → Slot
slot_of c = record { user_id = c.user_id; token_id = c.token_id; ip = c.ip }

pub record UserMap : Type 0 where
  pub limits : Limits
  pub by_user : Map Bytes (List Client)
  pub by_user_n : Map Bytes ℕ
  pub by_token : Map Bytes ℕ
  pub by_ip : Map Bytes ℕ
  pub total : ℤ
  pub closing : Bool

unfoldable pub new_user_map : Limits → UserMap
new_user_map limits = record {
  limits = limits;
  by_user = [];
  by_user_n = [];
  by_token = [];
  by_ip = [];
  total = pos 0;
  closing = false;
}

unfoldable pub over : ℤ → ℤ → Bool
over n limit = ltb_ℤ (pos 0) limit && leb_ℤ limit n

abbrev or_zero : Option ℕ → ℕ
or_zero none = 0
or_zero (some n) = n

-- `m[k]`, 0 on a missing key.
unfoldable pub count : Bytes → Map Bytes ℕ → ℕ
count k m = or_zero (lookup k m)

unfoldable pub bump : Bytes → Map Bytes ℕ → Map Bytes ℕ
bump k m = insert k (suc (count k m)) m

unfoldable pub incr : Bytes → Map Bytes ℕ → Map Bytes ℕ
incr k m = if k == [] then m else bump k m

unfoldable pub decr : Bytes → Map Bytes ℕ → Map Bytes ℕ
decr k m =
    if k == [] then m else if leb (count k m) 1 then delete k m else insert k (count k m - 1) m

abbrev pub up : ℤ → ℤ
up (pos n) = pos (suc n)
up (negsuc zero) = pos 0
up (negsuc (suc n)) = negsuc n

abbrev pub down : ℤ → ℤ
down (pos zero) = negsuc 0
down (pos (suc n)) = pos n
down (negsuc n) = negsuc (suc n)

-- The slot is counted.
unfoldable pub charge : Slot → UserMap → UserMap
charge s m = record m {
  by_user_n = bump s.user_id m.by_user_n;
  by_token = incr s.token_id m.by_token;
  by_ip = incr s.ip m.by_ip;
  total = up m.total;
}

unfoldable pub reserve : Slot → UserMap → Result (Unit {0}) × UserMap
reserve s m =
    if m.closing
    then (err (plain err_node_draining), m)
    else if over m.total m.limits.ws_conns_total
    then (err (with_message err_conn_over_limit (text "node connection limit reached")), m)
    else if over (pos (count s.user_id m.by_user_n)) m.limits.ws_conns_per_user
    then (err (with_message err_conn_over_limit (text "too many connections for this user")), m)
    else if not (s.token_id == [])
        && over (pos (count s.token_id m.by_token)) m.limits.ws_conns_per_token
    then (err (with_message err_conn_over_limit (text "too many connections for this token")), m)
    else if not (s.ip == []) && over (pos (count s.ip m.by_ip)) m.limits.ws_conns_per_ip
    then (err (with_message err_conn_over_limit (text "too many connections from this address")), m)
    else (ok tt, charge s m)

unfoldable pub release : Slot → UserMap → UserMap
release s m = record m {
  by_user_n = decr s.user_id m.by_user_n;
  by_token = decr s.token_id m.by_token;
  by_ip = decr s.ip m.by_ip;
  total = down m.total;
}

abbrev or_empty : Option (List Client) → List Client
or_empty none = []
or_empty (some cs) = cs

-- `Get`: the adopted clients of a user.
unfoldable pub get : Bytes → UserMap → List Client
get user_id m = or_empty (lookup user_id m.by_user)

unfoldable pub adopt : Client → UserMap → Result (Unit {0}) × UserMap
adopt c m =
    if c.closed
    then (err (plain err_conn_closed), release (slot_of c) m)
    else if m.closing
    then (err (plain err_node_draining), release (slot_of c) m)
    else (ok tt, record m { by_user = insert c.user_id (get c.user_id m ++ c ∷ []) m.by_user })

unfoldable pub adopt_reserved : Client → Result (Unit {0}) × UserMap → Result (Unit {0}) × UserMap
unfolding adopt
adopt_reserved c (ok _, m) = adopt c m
adopt_reserved c (err e, m) = (err e, m)

unfoldable pub register : Client → UserMap → Result (Unit {0}) × UserMap
unfolding reserve adopt_reserved
register c m = adopt_reserved c (reserve (slot_of c) m)

abbrev cons_rest : Client → Option (List Client) → Option (List Client)
cons_rest d none = none
cons_rest d (some cs) = some (d ∷ cs)

-- `slices.Index` and `slices.Delete`: the list without the client, if it was there.
unfoldable pub without : Client → List Client → Option (List Client)
without c [] = none
without c (d ∷ ds) =
    let rest = without c ds in if nat_eq d.ref c.ref then some ds else cons_rest d rest

-- The user's other clients; an empty list leaves no key.
unfoldable pub put_conns : Bytes → List Client → Map Bytes (List Client) → Map Bytes (List Client)
put_conns user_id [] m = delete user_id m
put_conns user_id (c ∷ cs) m = insert user_id (c ∷ cs) m

unfoldable pub unregister_from : Client → Option (List Client) → UserMap → UserMap
unfolding put_conns release
unregister_from c none m = m
unregister_from c (some cs) m =
    release (slot_of c) (record m { by_user = put_conns c.user_id cs m.by_user })

unfoldable pub unregister : Client → UserMap → UserMap
unfolding unregister_from without
unregister c m = unregister_from c (without c (get c.user_id m)) m

abbrev concat_values : Map Bytes (List Client) → List Client
concat_values [] = []
concat_values ((_, cs) ∷ m) = cs ++ concat_values m

-- `All`
unfoldable pub all_clients : UserMap → List Client
all_clients m = concat_values m.by_user

-- `Close`
unfoldable pub close : UserMap → List Client × UserMap
close m = (all_clients m, record m { closing = true })

-- More than one connection, or one that is not the exception.
unfoldable pub reachable_except : Bytes → List Client → Bool
reachable_except except [] = false
reachable_except except (c ∷ []) = not (c.id == except)
reachable_except except (_ ∷ _ ∷ _) = true

-- `OnlineExcept`
unfoldable pub online_except : List Bytes → Bytes → UserMap → List Bytes
unfolding reachable_except
online_except user_ids except m = keep (λ id. reachable_except except (get id m)) user_ids
