-- ===== src/Identity/Spelling.antt =====
-- Every platform actor has one spelling: printing and parsing are inverse.
use nexo.Prelude.{
  ℕ, zero, suc, ◌+◌, ◌/◌, ◌%◌, ◌^◌, ◌≤◌, ◌<◌, ◌≡◌, refl, ◌∙◌, inl, inr, true, false, any, All,
  Option, none, some, [], ◌∷◌, ltb, arith, Bool-cases,
}
use nexo.Prelude.Bytes.{Bytes, ◌==◌, eq_iff, eq_refl}
use nexo.Prelude.Int.{ℤ, pos, negsuc}
use nexo.Identity.{
  has_colon, Actor, Role, role_user, role_agent, actor_user_id, parse_actor, parse_digits_as,
  prefix_user, prefix_agent,
}
use nexo.Identity.Decimal.{
  max_int64, format_nat, format_int, parse_nat, parse_unsigned, parse_int, div10_lt,
  parse_nat-format_nat,
}

-- A printed number begins with a digit.
format_head :
    (f n : ℕ) (acc : Bytes)
    → n < 10 ^ suc f
    → (c : ℕ) × (cs : Bytes) × (format_nat (suc f) n acc ≡ c ∷ cs) × (48 ≤ c) × (c ≤ 57)
unfolding format_nat
format_head zero n acc h =
    let small : ltb n 10 ≡ true = ground arith in (48 + n, acc, rw small, omega arith, ground arith)
format_head (suc f) n acc h = elim (Bool-cases (ltb n 10)) [
  | inl small ↦ (48 + n, acc, rw small, omega arith, ground arith)
  | inr large ↦ rw large (format_head f (n / 10) ((48 + n % 10) ∷ acc) (div10_lt (suc f) n h))
]

parse_int-digits :
    (c : ℕ) (cs : Bytes) (n : ℕ)
    → 48 ≤ c
    → n ≤ max_int64
    → parse_nat 0 (c ∷ cs) ≡ some n
    → parse_int (c ∷ cs) ≡ some (pos n)
unfolding parse_int parse_unsigned
parse_int-digits c cs n lo h e = ground arith

pub parse_int-format_int : (n : ℕ) → n ≤ max_int64 → parse_int (format_int (pos n)) ≡ some (pos n)
unfolding format_int
parse_int-format_int n h =
    let fits : n < 10 ^ 20 = omega arith in
    let (c, cs, e, lo, hi) = format_head 19 n [] fits in
    let back : parse_nat 0 (c ∷ cs) ≡ some n =
      rw (← e) (parse_nat-format_nat 19 n [] fits ∙ (unfold parse_nat in refl)) in
    rw e (parse_int-digits c cs n lo h back)

parse_digits_as-format_int :
    (r : Role) (n : ℕ)
    → 1 ≤ n
    → n ≤ max_int64
    → parse_digits_as r (format_int (pos n)) ≡ some (record { id = pos n; role = r })
unfolding parse_digits_as
parse_digits_as-format_int r n lo h =
    ground (arith, parse_int-format_int n h, eq_refl (format_int (pos n)))

-- The user id of an actor with a positive int64 id parses back to that actor.
pub parse_actor-actor_user_id :
    (n : ℕ) (r : Role)
    → 1 ≤ n
    → n ≤ max_int64
    → parse_actor (actor_user_id (record { id = pos n; role = r }))
      ≡ some (record { id = pos n; role = r })
unfolding parse_actor actor_user_id prefix_user prefix_agent ◌==◌
parse_actor-actor_user_id n role_user lo h =
    let (c, cs, e, _, _) = format_head 19 n [] (omega arith) in
    let e' : format_int (pos n) ≡ c ∷ cs = (unfold format_int in e) in
    ground (arith, e', parse_digits_as-format_int role_user n lo h)
parse_actor-actor_user_id n role_agent lo h =
    let (c, cs, e, _, _) = format_head 19 n [] (omega arith) in
    let e' : format_int (pos n) ≡ c ∷ cs = (unfold format_int in e) in
    ground (arith, e', parse_digits_as-format_int role_agent n lo h)

canonical_of :
    (r : Role) (d : Bytes) (a : Actor) (o : Option ℤ)
    → parse_int d ≡ o
    → parse_digits_as r d ≡ some a
    → (a.role ≡ r) × (format_int a.id ≡ d)
unfolding parse_digits_as
canonical_of r d a none e h = ground arith
canonical_of r d a (some id) e h = ground (arith, eq_iff (format_int id) d)

parse_digits_as-canonical :
    (r : Role) (d : Bytes) (a : Actor)
    → parse_digits_as r d ≡ some a
    → (a.role ≡ r) × (format_int a.id ≡ d)
parse_digits_as-canonical r d a h = canonical_of r d a (parse_int d) refl h

-- An id that parses is the one spelling of its actor.
pub actor_user_id-parse_actor :
    (id : Bytes) (a : Actor) → parse_actor id ≡ some a → actor_user_id a ≡ id
unfolding parse_actor actor_user_id
actor_user_id-parse_actor (x ∷ y ∷ z ∷ w ∷ rest) a h =
    let front = x ∷ y ∷ z ∷ w ∷ [] in
    ground (
      arith,
      eq_iff front prefix_user,
      eq_iff front prefix_agent,
      parse_digits_as-canonical role_user rest a,
      parse_digits_as-canonical role_agent rest a,
    )
actor_user_id-parse_actor _ a h = ground arith

format_nat-has_colon :
    (f n : ℕ) (acc : Bytes) → has_colon acc ≡ false → has_colon (format_nat f n acc) ≡ false
unfolding format_nat has_colon any
format_nat-has_colon zero n acc h = h
format_nat-has_colon (suc f) n acc h =
    ground (arith, format_nat-has_colon f (n / 10) ((48 + n % 10) ∷ acc))

-- A printed number has no colon.
pub format_int-has_colon : (n : ℤ) → has_colon (format_int n) ≡ false
unfolding format_int has_colon any
format_int-has_colon (pos n) = format_nat-has_colon 20 n [] refl
format_int-has_colon (negsuc n) = ground (arith, format_nat-has_colon 20 (suc n) [] refl)

format_nat-AreBytes :
    (f n : ℕ) (acc : Bytes) → All (λ b. b < 256) acc → All (λ b. b < 256) (format_nat f n acc)
unfolding format_nat
format_nat-AreBytes zero n acc h = h
format_nat-AreBytes (suc f) n acc h = elim (Bool-cases (ltb n 10)) [
  | inl small ↦ rw small ((ground arith, h))
  | inr large ↦ rw large (format_nat-AreBytes f (n / 10) ((48 + n % 10) ∷ acc) (omega arith, h))
]

-- A printed number consists of bytes.
pub format_int-AreBytes : (n : ℤ) → All (λ b. b < 256) (format_int n)
unfolding format_int
format_int-AreBytes (pos n) = format_nat-AreBytes 20 n [] tt
format_int-AreBytes (negsuc n) = (omega arith, format_nat-AreBytes 20 (suc n) [] tt)
