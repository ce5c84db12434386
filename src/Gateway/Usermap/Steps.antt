-- ===== src/Gateway/Usermap/Steps.antt =====
-- Every order of calls, each under the lock, in which one `Adopt` or `Release` follows a `Reserve`.
use nexo.Prelude.{◌≡◌, refl, sym, ap, ◌∙◌, none, some, List, [], ◌∷◌, ◌++◌, keep, arith}
use mathlib.Core.Path.{subst}
use nexo.Prelude.Bytes.{eq_refl}
use nexo.Prelude.Map.{insert, bytes_eq}
use nexo.Errcode.{GoError, Result, ok, err}
use nexo.Gateway.Usermap.{
  Limits, Slot, Client, slot_of, UserMap, new_user_map, charge, reserve, release, get, adopt,
  register, without, put_conns, unregister, unregister_from, close, adopt_reserved,
}
use nexo.Gateway.Usermap.Accounting.{
  owned_by, IsCounted, Absent, new-IsCounted, charge-IsCounted, release-IsCounted, bind-IsCounted,
  unbind-IsCounted, without-keep, without-Absent,
}
use nexo.Gateway.Usermap.Bounded.{
  IsBounded, Passed, reserve-Passed, reserve-refused, charge-IsBounded, release-IsBounded,
  new-IsBounded,
}

-- What the node's goroutines can bring the map to, with the slots that handshakes hold then and the
-- clients that are adopted, in order. The pointers of a client list find a client where it is.
pub data Reachable (limits : Limits) : List Slot → List Client → UserMap → Type 0 where
  starts : Reachable limits [] [] (new_user_map limits)
  reserves :
      {p : List Slot} {cs : List Client} {m : UserMap} (s : Slot)
      → Reachable limits p cs m
      → (reserve s m).0 ≡ ok tt
      → Reachable limits (s ∷ p) cs (reserve s m).1
  is_refused :
      {p : List Slot} {cs : List Client} {m : UserMap} (s : Slot) (e : GoError)
      → Reachable limits p cs m
      → (reserve s m).0 ≡ err e
      → Reachable limits p cs (reserve s m).1
  releases :
      (xs ys : List Slot) {cs : List Client} {m : UserMap} (s : Slot)
      → Reachable limits (xs ++ s ∷ ys) cs m
      → Reachable limits (xs ++ ys) cs (release s m)
  adopts :
      (xs ys : List Slot) {cs : List Client} {m : UserMap} (c : Client)
      → Reachable limits (xs ++ slot_of c ∷ ys) cs m
      → (adopt c m).0 ≡ ok tt
      → Reachable limits (xs ++ ys) (cs ++ c ∷ []) (adopt c m).1
  fails_to_adopt :
      (xs ys : List Slot) {cs : List Client} {m : UserMap} (c : Client) (e : GoError)
      → Reachable limits (xs ++ slot_of c ∷ ys) cs m
      → (adopt c m).0 ≡ err e
      → Reachable limits (xs ++ ys) cs (adopt c m).1
  registers :
      {p : List Slot} {cs : List Client} {m : UserMap} (c : Client)
      → Reachable limits p cs m
      → (register c m).0 ≡ ok tt
      → Reachable limits p (cs ++ c ∷ []) (register c m).1
  fails_to_register :
      {p : List Slot} {cs : List Client} {m : UserMap} (c : Client) (e : GoError)
      → Reachable limits p cs m
      → (register c m).0 ≡ err e
      → Reachable limits p cs (register c m).1
  unregisters :
      {p : List Slot} (xs ys : List Client) {m : UserMap} (c : Client)
      → Reachable limits p (xs ++ c ∷ ys) m
      → Absent c xs
      → Reachable limits p (xs ++ ys) (unregister c m)
  is_absent :
      {p : List Slot} {cs : List Client} {m : UserMap} (c : Client)
      → Reachable limits p cs m
      → Absent c cs
      → Reachable limits p cs (unregister c m)
  closes :
      {p : List Slot} {cs : List Client} {m : UserMap}
      → Reachable limits p cs m
      → Reachable limits p cs (close m).1

-- The counters are right and within the limits.
abbrev pub Sound : Limits → List Slot → List Client → UserMap → Type 0
Sound limits p cs m = IsCounted p cs m × IsBounded limits m

adopt_done :
    (c : Client) (m : UserMap)
    → (adopt c m).0 ≡ ok tt
    → (adopt c m).1 ≡ record m { by_user = insert c.user_id (get c.user_id m ++ c ∷ []) m.by_user }
unfolding adopt
adopt_done c m e = ground arith

adopt_undone :
    (c : Client) (m : UserMap) (x : GoError)
    → (adopt c m).0 ≡ err x
    → (adopt c m).1 ≡ release (slot_of c) m
unfolding adopt
adopt_undone c m x e = ground arith

module _ (limits : Limits) where
  charge-Sound :
      (s : Slot) (p : List Slot) (cs : List Client) (m : UserMap)
      → Passed s m
      → Sound limits p cs m
      → Sound limits (s ∷ p) cs (charge s m)
  charge-Sound s p cs m g h = (charge-IsCounted s p cs m h.0, charge-IsBounded limits s m g h.1)

  release-Sound :
      (s : Slot) (xs ys : List Slot) (cs : List Client) (m : UserMap)
      → Sound limits (xs ++ s ∷ ys) cs m
      → Sound limits (xs ++ ys) cs (release s m)
  release-Sound s xs ys cs m h =
      (release-IsCounted s xs ys cs m h.0, release-IsBounded limits s m h.1)

  reserve-Sound :
      (s : Slot) (p : List Slot) (cs : List Client) (m : UserMap)
      → (reserve s m).0 ≡ ok tt
      → Sound limits p cs m
      → Sound limits (s ∷ p) cs (reserve s m).1
  reserve-Sound s p cs m e h =
      let g = reserve-Passed s m e in
      subst (Sound limits (s ∷ p) cs) (sym g.charged) (charge-Sound s p cs m g h)

  refused-Sound :
      (s : Slot) (e : GoError) (p : List Slot) (cs : List Client) (m : UserMap)
      → (reserve s m).0 ≡ err e
      → Sound limits p cs m
      → Sound limits p cs (reserve s m).1
  refused-Sound s e p cs m x h = subst (Sound limits p cs) (sym (reserve-refused s m e x)) h

  bind-IsBounded :
      (c : Client) (m : UserMap) (v : _)
      → IsBounded limits m
      → IsBounded limits (record m { by_user = v })
  bind-IsBounded c m v h = record {
    same = h.same;
    total = h.total;
    users = h.users;
    tokens = h.tokens;
    ips = h.ips;
  }

  adopt-Sound :
      (c : Client) (xs ys : List Slot) (cs : List Client) (m : UserMap)
      → (adopt c m).0 ≡ ok tt
      → Sound limits (xs ++ slot_of c ∷ ys) cs m
      → Sound limits (xs ++ ys) (cs ++ c ∷ []) (adopt c m).1
  adopt-Sound c xs ys cs m e h =
      subst (Sound limits (xs ++ ys) (cs ++ c ∷ [])) (sym (adopt_done c m e))
        (bind-IsCounted c xs ys cs m h.0, bind-IsBounded c m _ h.1)

  adopt_failed-Sound :
      (c : Client) (x : GoError) (xs ys : List Slot) (cs : List Client) (m : UserMap)
      → (adopt c m).0 ≡ err x
      → Sound limits (xs ++ slot_of c ∷ ys) cs m
      → Sound limits (xs ++ ys) cs (adopt c m).1
  adopt_failed-Sound c x xs ys cs m e h =
      subst (Sound limits (xs ++ ys) cs) (sym (adopt_undone c m x e))
        (release-Sound (slot_of c) xs ys cs m h)

  register-Sound :
      (c : Client) (p : List Slot) (cs : List Client) (m : UserMap)
      (r : Result (Unit {0}) × UserMap)
      → reserve (slot_of c) m ≡ r
      → (adopt_reserved c r).0 ≡ ok tt
      → Sound limits p cs m
      → Sound limits p (cs ++ c ∷ []) (adopt_reserved c r).1
  unfolding adopt_reserved
  register-Sound c p cs m (ok _, n) q e h = adopt-Sound c [] p cs n e (
      subst (λ (x : Result (Unit {0}) × UserMap). Sound limits (slot_of c ∷ p) cs x.1) q
        (reserve-Sound (slot_of c) p cs m (ap (λ (x : Result (Unit {0}) × UserMap). x.0) q) h))
  register-Sound c p cs m (err x, n) q e h = absurd (ground arith)

  register_failed-Sound :
      (c : Client) (x : GoError) (p : List Slot) (cs : List Client) (m : UserMap)
      (r : Result (Unit {0}) × UserMap)
      → reserve (slot_of c) m ≡ r
      → (adopt_reserved c r).0 ≡ err x
      → Sound limits p cs m
      → Sound limits p cs (adopt_reserved c r).1
  unfolding adopt_reserved
  register_failed-Sound c x p cs m (ok _, n) q e h = adopt_failed-Sound c x [] p cs n e (
      subst (λ (x : Result (Unit {0}) × UserMap). Sound limits (slot_of c ∷ p) cs x.1) q
        (reserve-Sound (slot_of c) p cs m (ap (λ (x : Result (Unit {0}) × UserMap). x.0) q) h))
  register_failed-Sound c x p cs m (err y, n) q e h =
      subst (λ (x : Result (Unit {0}) × UserMap). Sound limits p cs x.1) q
        (refused-Sound (slot_of c) y p cs m (ap (λ (x : Result (Unit {0}) × UserMap). x.0) q) h)

  registered-Sound :
      (c : Client) (p : List Slot) (cs : List Client) (m : UserMap)
      → (register c m).0 ≡ ok tt
      → Sound limits p cs m
      → Sound limits p (cs ++ c ∷ []) (register c m).1
  unfolding register
  registered-Sound c p cs m e h = register-Sound c p cs m _ refl e h

  not_registered-Sound :
      (c : Client) (x : GoError) (p : List Slot) (cs : List Client) (m : UserMap)
      → (register c m).0 ≡ err x
      → Sound limits p cs m
      → Sound limits p cs (register c m).1
  unfolding register
  not_registered-Sound c x p cs m e h = register_failed-Sound c x p cs m _ refl e h

  unregister-Sound :
      (c : Client) (p : List Slot) (xs ys : List Client) (m : UserMap)
      → Absent c xs
      → Sound limits p (xs ++ c ∷ ys) m
      → Sound limits p (xs ++ ys) (unregister c m)
  unfolding unregister unregister_from owned_by
  unregister-Sound c p xs ys m a h =
      let rest = keep (owned_by c.user_id) (xs ++ ys) in
      let found : without c (get c.user_id m) ≡ some rest =
        ap (without c) (h.0.routing c.user_id)
        ∙ without-keep (owned_by c.user_id) c xs ys (eq_refl c.user_id) a in
      rw found (
        release-Sound (slot_of c) [] p (xs ++ ys)
          (record m { by_user = put_conns c.user_id rest m.by_user })
          (unbind-IsCounted c p xs ys m h.0, bind-IsBounded c m _ h.1))

  no_client-Sound :
      (c : Client) (p : List Slot) (cs : List Client) (m : UserMap)
      → Absent c cs
      → Sound limits p cs m
      → Sound limits p cs (unregister c m)
  unfolding unregister unregister_from
  no_client-Sound c p cs m a h =
      let gone : without c (get c.user_id m) ≡ none =
        ap (without c) (h.0.routing c.user_id) ∙ without-Absent (owned_by c.user_id) c cs a in
      rw gone h

  closed-Sound :
      (p : List Slot) (cs : List Client) (m : UserMap)
      → Sound limits p cs m
      → Sound limits p cs (close m).1
  unfolding close get
  closed-Sound p cs m h = (
    record {
      total = h.0.total;
      users = h.0.users;
      tokens = h.0.tokens;
      ips = h.0.ips;
      routing = h.0.routing;
    },
    record {
      same = h.1.same;
      total = h.1.total;
      users = h.1.users;
      tokens = h.1.tokens;
      ips = h.1.ips;
    },
  )

  -- Whatever the order of the calls, every counter of the map shows the slots that are held for its
  -- key, the total shows all of them, a user's clients are those adopted and not gone, in the order
  -- of their adoption, and no counter is over a limit that is set.
  pub Reachable-Sound :
      {p : List Slot} {cs : List Client} {m : UserMap}
      → Reachable limits p cs m
      → Sound limits p cs m
  Reachable-Sound starts = (new-IsCounted limits, new-IsBounded limits)
  Reachable-Sound (reserves s r e) = reserve-Sound s _ _ _ e (Reachable-Sound r)
  Reachable-Sound (is_refused s x r e) = refused-Sound s x _ _ _ e (Reachable-Sound r)
  Reachable-Sound (releases xs ys s r) = release-Sound s xs ys _ _ (Reachable-Sound r)
  Reachable-Sound (adopts xs ys c r e) = adopt-Sound c xs ys _ _ e (Reachable-Sound r)
  Reachable-Sound (fails_to_adopt xs ys c x r e) =
      adopt_failed-Sound c x xs ys _ _ e (Reachable-Sound r)
  Reachable-Sound (registers {m = m} c r e) = registered-Sound c _ _ m e (Reachable-Sound r)
  Reachable-Sound (fails_to_register {m = m} c x r e) =
      not_registered-Sound c x _ _ m e (Reachable-Sound r)
  Reachable-Sound (unregisters xs ys c r a) = unregister-Sound c _ xs ys _ a (Reachable-Sound r)
  Reachable-Sound (is_absent c r a) = no_client-Sound c _ _ _ a (Reachable-Sound r)
  Reachable-Sound (closes r) = closed-Sound _ _ _ (Reachable-Sound r)
