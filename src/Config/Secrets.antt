-- ===== src/Config/Secrets.antt =====
-- internal/config/config.go: what a configuration that validates promises about its secrets.
use mathlib.Core.Path.{subst}
use nexo.Prelude.{
  Bool-cases, inl, inr, Bool, true, false, not, ◌&&◌, ◌||◌, Option, none, some, List, [], ◌∷◌, ◌++◌,
  any, length, ◌≡◌, refl, arith, ◌≢◌, if◌then◌else◌, ◌==◌ as nat_eq,
}
use nexo.Prelude.Bytes.{Bytes, text, ◌==◌, eq_iff}
use nexo.Prelude.Map.{lookup, insert, bytes_eq, lookup-insert}
use nexo.Config.{Config, AuthConfig, contains, weak_secret}
use nexo.Config.Validate.{
  Complaint, providers_empty, default_platform_not_positive, validate_parts, validate_sizes,
  fail_if, not_positive, external_secrets_required, expire_hours_not_positive, external_secret_weak,
  native_secret_weak, Dsn, Secrets, shared, check_external, check_native, check_provider,
  check_providers, validate, validate_auth, validate_internal,
}

append_nothing : (xs ys : List Complaint) → xs ++ ys ≡ [] → (xs ≡ []) × (ys ≡ [])
append_nothing [] ys h = (refl, h)
append_nothing (x ∷ xs) ys h = absurd (ground (arith, h))

abbrev holds : Bytes → Secrets → Bool
holds s m = elim (lookup s m) [ none ↦ false | some _ ↦ true ]

holds-insert : (s t p : Bytes) (m : Secrets) → holds t (insert s p m) ≡ (s == t || holds t m)
holds-insert s t p m = ground (arith, lookup-insert s t p m)

-- A secret without a complaint is strong and was not there before.
accepted_secret :
    (p s : Bytes) (m : Secrets) (w : Complaint)
    → (if weak_secret s then w ∷ [] else shared p (lookup s m)) ≡ []
    → (holds s m ≡ false) × (weak_secret s ≡ false)
accepted_secret p s m w h = ground (arith, h)

check_external-fresh :
    (p : Bytes) (ss : List Bytes) (m : Secrets) (t : Bytes)
    → (check_external p ss m).0 ≡ []
    → contains ss t ≡ true
    → (holds t m ≡ false) × (weak_secret t ≡ false)
unfolding check_external contains any
check_external-fresh p [] m t h c = absurd (ground (arith, c))
check_external-fresh p (s ∷ ss) m t h c =
    let (first, others) =
      append_nothing (if weak_secret s then external_secret_weak ∷ [] else shared p (lookup s m))
        (check_external p ss (insert s p m)).0 h in
    ground (
      arith,
      eq_iff s t,
      accepted_secret p s m external_secret_weak first,
      check_external-fresh p ss (insert s p m) t others,
      holds-insert s t p m,
    )

check_external-holds :
    (p : Bytes) (ss : List Bytes) (m : Secrets) (t : Bytes)
    → holds t (check_external p ss m).1 ≡ (contains ss t || holds t m)
unfolding check_external contains any
check_external-holds p [] m t = refl
check_external-holds p (s ∷ ss) m t =
    ground (arith, check_external-holds p ss (insert s p m) t, holds-insert s t p m)

check_native-fresh :
    (p s : Bytes) (m : Secrets)
    → (check_native p s m).0 ≡ []
    → (holds s m ≡ false) × (weak_secret s ≡ false)
unfolding check_native
check_native-fresh p s m h = ground (arith, accepted_secret p s m native_secret_weak)

check_native-holds :
    (p s : Bytes) (m : Secrets) (t : Bytes)
    → (check_native p s m).0 ≡ []
    → holds t (check_native p s m).1 ≡ (s == t || holds t m)
unfolding check_native
check_native-holds p s m t h = ground (arith, holds-insert s t p m)

-- Whether a token signed with the secret is one of the provider's.
unfoldable pub signs_with : AuthConfig → Bytes → Bytes → Bool
signs_with a p t =
    if p == text "external_jwt"
    then contains a.external_jwt.secrets t
    else p == text "native" && a.native.secret == t

same_provider :
    (a : AuthConfig) (p q t : Bytes) → (p == q) ≡ true → signs_with a p t ≡ signs_with a q t
same_provider a p q t e = subst (λ x. signs_with a p t ≡ signs_with a x t) ((eq_iff p q).0 e) refl

external_parts :
    (a : AuthConfig) (p : Bytes) (m : Secrets)
    → (p == text "external_jwt") ≡ true
    → (check_provider a p m).0 ≡ []
    → (check_external p a.external_jwt.secrets m).0 ≡ []
unfolding check_provider
external_parts a p m e h =
    (append_nothing (fail_if (nat_eq (length a.external_jwt.secrets) 0) external_secrets_required)
      (check_external p a.external_jwt.secrets m).0 (ground (arith, e, h))).1

native_parts :
    (a : AuthConfig) (p : Bytes) (m : Secrets)
    → (p == text "external_jwt") ≡ false
    → (check_provider a p m).0 ≡ []
    → ((p == text "native") ≡ true) × ((check_native p a.native.secret m).0 ≡ [])
unfolding check_provider
native_parts a p m e h = ground (
  arith,
  e,
  h,
  append_nothing (check_native p a.native.secret m).0
      (fail_if (not_positive a.native.expire_hours) expire_hours_not_positive),
)

check_provider-fresh :
    (a : AuthConfig) (p : Bytes) (m : Secrets) (t : Bytes)
    → (check_provider a p m).0 ≡ []
    → signs_with a p t ≡ true
    → (holds t m ≡ false) × (weak_secret t ≡ false)
unfolding signs_with
check_provider-fresh a p m t h has = ground (
  arith,
  h,
  external_parts a p m,
  native_parts a p m,
  check_external-fresh p a.external_jwt.secrets m t,
  check_native-fresh p a.native.secret m,
  eq_iff a.native.secret t,
)

check_provider-holds :
    (a : AuthConfig) (p : Bytes) (m : Secrets) (t : Bytes)
    → (check_provider a p m).0 ≡ []
    → holds t (check_provider a p m).1 ≡ (signs_with a p t || holds t m)
unfolding check_provider signs_with
check_provider-holds a p m t h = ground (
  arith,
  h,
  external_parts a p m,
  native_parts a p m,
  check_external-holds p a.external_jwt.secrets m t,
  check_native-holds p a.native.secret m t,
)

-- The secret of a provider of the list is strong and was not there before.
check_providers-fresh :
    (a : AuthConfig) (ps : List Bytes) (m : Secrets) (p t : Bytes)
    → check_providers a ps m ≡ []
    → contains ps p ≡ true
    → signs_with a p t ≡ true
    → (holds t m ≡ false) × (weak_secret t ≡ false)
unfolding check_providers contains any
check_providers-fresh a [] m p t h c has = absurd (ground (arith, c))
check_providers-fresh a (q ∷ ps) m p t h c has =
    let (first, others) =
      append_nothing (check_provider a q m).0 (check_providers a ps (check_provider a q m).1) h in
    ground (
      arith,
      same_provider a q p t,
      check_provider-fresh a q m t first,
      check_provider-holds a q m t first,
      check_providers-fresh a ps (check_provider a q m).1 p t others,
    )

check_providers-apart :
    (a : AuthConfig) (ps : List Bytes) (m : Secrets) (p q t : Bytes)
    → check_providers a ps m ≡ []
    → contains ps p ≡ true
    → contains ps q ≡ true
    → p ≢ q
    → signs_with a p t ≡ true
    → signs_with a q t ≡ false
unfolding check_providers contains any
check_providers-apart a [] m p q t h c d ne has = absurd (ground (arith, c))
check_providers-apart a (r ∷ ps) m p q t h c d ne has =
    let (first, others) =
      append_nothing (check_provider a r m).0 (check_providers a ps (check_provider a r m).1) h in
    ground (
      arith,
      eq_iff r p,
      eq_iff r q,
      same_provider a r p t,
      same_provider a r q t,
      check_provider-holds a r m t first,
      check_providers-fresh a ps (check_provider a r m).1 p t others,
      check_providers-fresh a ps (check_provider a r m).1 q t others,
      check_providers-apart a ps (check_provider a r m).1 p q t others,
    )

validate-check_providers :
    (is_cidr : Bytes → Bool) (parse_dsn : Bytes → Option Dsn) (c : Config)
    → validate is_cidr parse_dsn c ≡ []
    → check_providers c.auth c.auth.providers [] ≡ []
unfolding validate validate_auth
validate-check_providers is_cidr parse_dsn c h =
    let parts = validate_parts is_cidr parse_dsn c in
    let no_provider =
      fail_if (nat_eq (length c.auth.providers) 0 && not c.auth.injected) providers_empty in
    let each = check_providers c.auth c.auth.providers [] in
    let (to_internal, _) =
      append_nothing (parts ++ validate_auth c.auth ++ validate_internal c.internal_auth)
        (validate_sizes c) h in
    let (to_auth, _) =
      append_nothing (parts ++ validate_auth c.auth) (validate_internal c.internal_auth)
        to_internal in
    let (_, auth) = append_nothing parts (validate_auth c.auth) to_auth in
    let (to_each, _) =
      append_nothing (no_provider ++ each)
        (fail_if (not_positive c.auth.default_platform_id) default_platform_not_positive) auth in
    (append_nothing no_provider each to_each).1

only_signer :
    (a : AuthConfig) (p q t : Bytes)
    → contains a.providers p ≡ true
    → signs_with a p t ≡ true
    → (contains a.providers q ≡ true → p ≢ q → signs_with a q t ≡ false)
    → (contains a.providers q && signs_with a q t) ≡ (p == q)
only_signer a p q t listed signs apart = elim (Bool-cases (p == q)) [
  | inl e ↦
      let same = (eq_iff p q).0 e in
      rw e (
        subst (λ x. (contains a.providers x && signs_with a x t) ≡ true) same
          (rw (listed, signs) refl))
  | inr e ↦ ground (arith, e, apart, eq_iff p q)
]

-- In a configuration that `Validate` accepts, a secret that a listed provider signs with is strong, and
-- that provider is the one listed provider that signs with it.
pub validate-apart :
    (is_cidr : Bytes → Bool) (parse_dsn : Bytes → Option Dsn) (c : Config) (p q t : Bytes)
    → validate is_cidr parse_dsn c ≡ []
    → contains c.auth.providers p ≡ true
    → signs_with c.auth p t ≡ true
    → (weak_secret t ≡ false) × ((contains c.auth.providers q && signs_with c.auth q t) ≡ (p == q))
validate-apart is_cidr parse_dsn c p q t h listed signs =
    let accepted = validate-check_providers is_cidr parse_dsn c h in
    (
      (check_providers-fresh c.auth c.auth.providers [] p t accepted listed signs).1,
      only_signer c.auth p q t listed signs (λ other ne.
          check_providers-apart c.auth c.auth.providers [] p q t accepted listed other ne signs),
    )
