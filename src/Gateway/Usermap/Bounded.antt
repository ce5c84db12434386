-- ===== src/Gateway/Usermap/Bounded.antt =====
-- The configured limits, and the cases of a reservation.
use nexo.Prelude.{ℕ, zero, suc, ◌≤◌, ◌<◌, ◌≡◌, ◌≢◌, refl, sym, false, not, ◌&&◌, arith, []}
use nexo.Prelude.Bytes.{Bytes, ◌==◌, eq_iff}
use nexo.Prelude.Int.{ℤ, pos, negsuc, pos_part}
use nexo.Prelude.Map.{lookup}
use nexo.Errcode.{GoError, ok, err}
use nexo.Gateway.Usermap.{
  Limits, Slot, UserMap, new_user_map, over, count, up, down, charge, reserve, release,
}
use nexo.Gateway.Usermap.Counts.{count-bump, count-incr, count-decr-le}

-- A number within a limit, where there is one.
abbrev pub Fits : ℕ → ℤ → Type 0
Fits n limit = 0 < pos_part limit → n ≤ pos_part limit

-- No counter is over its limit.
pub record IsBounded (limits : Limits) (m : UserMap) : Type 0 where
  pub same : m.limits ≡ limits
  pub total : Fits (pos_part m.total) limits.ws_conns_total
  pub users : (u : Bytes) → Fits (count u m.by_user_n) limits.ws_conns_per_user
  pub tokens : (t : Bytes) → t ≢ [] → Fits (count t m.by_token) limits.ws_conns_per_token
  pub ips : (i : Bytes) → i ≢ [] → Fits (count i m.by_ip) limits.ws_conns_per_ip

-- The guards that a reservation passed.
pub record Passed (s : Slot) (m : UserMap) : Type 0 where
  pub running : m.closing ≡ false
  pub total : over m.total m.limits.ws_conns_total ≡ false
  pub user : over (pos (count s.user_id m.by_user_n)) m.limits.ws_conns_per_user ≡ false
  pub token :
      (not (s.token_id == [])
        && over (pos (count s.token_id m.by_token)) m.limits.ws_conns_per_token)
      ≡ false
  pub ip : (not (s.ip == []) && over (pos (count s.ip m.by_ip)) m.limits.ws_conns_per_ip) ≡ false
  pub charged : (reserve s m).1 ≡ charge s m

pub reserve-Passed : (s : Slot) (m : UserMap) → (reserve s m).0 ≡ ok tt → Passed s m
unfolding reserve
reserve-Passed s m h = record {
  running = ground arith;
  total = ground arith;
  user = ground arith;
  token = ground arith;
  ip = ground arith;
  charged = ground arith;
}

-- A refused reservation changes nothing.
pub reserve-refused :
    (s : Slot) (m : UserMap) (e : GoError) → (reserve s m).0 ≡ err e → (reserve s m).1 ≡ m
unfolding reserve
reserve-refused s m e h = ground arith

over_next : (n : ℕ) (limit : ℤ) → over (pos n) limit ≡ false → Fits (suc n) limit
unfolding over
over_next n limit h p = ground arith

over-up : (z : ℤ) (limit : ℤ) → over z limit ≡ false → Fits (pos_part (up z)) limit
unfolding over
over-up (pos n) limit h p = ground arith
over-up (negsuc zero) limit h p = ground arith
over-up (negsuc (suc n)) limit h p = ground arith

down-le : (z : ℤ) → pos_part (down z) ≤ pos_part z
down-le (pos zero) = omega arith
down-le (pos (suc n)) = omega arith
down-le (negsuc n) = omega arith

pub charge-IsBounded :
    (limits : Limits) (s : Slot) (m : UserMap)
    → Passed s m
    → IsBounded limits m
    → IsBounded limits (charge s m)
unfolding charge
charge-IsBounded limits s m g h = record {
  same = h.same;
  total = over-up m.total limits.ws_conns_total (rw (sym h.same) g.total);
  users = λ u p. ground (
    arith,
    count-bump s.user_id u m.by_user_n,
    h.users u p,
    eq_iff s.user_id u,
    over_next (count u m.by_user_n) limits.ws_conns_per_user,
    g.user,
    h.same,
  );
  tokens = λ t x p. ground (
    arith,
    count-incr s.token_id t m.by_token x,
    h.tokens t x p,
    eq_iff s.token_id t,
    eq_iff s.token_id [],
    over_next (count t m.by_token) limits.ws_conns_per_token,
    g.token,
    h.same,
  );
  ips = λ i x p. ground (
    arith,
    count-incr s.ip i m.by_ip x,
    h.ips i x p,
    eq_iff s.ip i,
    eq_iff s.ip [],
    over_next (count i m.by_ip) limits.ws_conns_per_ip,
    g.ip,
    h.same,
  );
}

pub release-IsBounded :
    (limits : Limits) (s : Slot) (m : UserMap) → IsBounded limits m → IsBounded limits (release s m)
unfolding release
release-IsBounded limits s m h = record {
  same = h.same;
  total = λ p. omega (arith, down-le m.total, h.total p);
  users = λ u p. omega (arith, count-decr-le s.user_id u m.by_user_n, h.users u p);
  tokens = λ t x p. omega (arith, count-decr-le s.token_id t m.by_token, h.tokens t x p);
  ips = λ i x p. omega (arith, count-decr-le s.ip i m.by_ip, h.ips i x p);
}

pub new-IsBounded : (limits : Limits) → IsBounded limits (new_user_map limits)
unfolding new_user_map count lookup
new-IsBounded limits = record {
  same = refl;
  total = λ p. omega arith;
  users = λ u p. omega arith;
  tokens = λ t x p. omega arith;
  ips = λ i x p. omega arith;
}
