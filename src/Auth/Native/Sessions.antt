-- ===== src/Auth/Native/Sessions.antt =====
-- internal/auth/native.go over internal/tokenstore and internal/cache/local: two logins of one user.
use nexo.Prelude.{
  ℕ, ◌+◌, ◌≤◌, ◌≡◌, ◌≢◌, refl, Bool, true, false, Option, some, arith, Option-cases, inl, inr,
  if◌then◌else◌,
}
use nexo.Prelude.Bytes.{Bytes, eq_iff}
use nexo.Prelude.Int.{pos}
use nexo.Errcode.{ok}
use nexo.Cache.{Cache}
use nexo.Cache.Port.{local}
use nexo.Auth.{token_expired, accepted, refused, Identity, source_native, max_platform_id}
use nexo.Auth.Tokens.{set_token, check_token}
use nexo.Auth.Tokens.Supersede.{check_token-set_token}
use nexo.Auth.Native.{
  NativeClaims, Parsed, claims_of, is_native, is_empty, role_user_text, unix_milli, native_identity,
  check, verify_native, issue,
}

-- A token is read as it was signed, but for the precision of its times.
abbrev pub Reads : Parsed NativeClaims → NativeClaims → Type 0
Reads r c =
    (c' : NativeClaims) × (deadline : ℕ) × (r ≡ claims_of c')
    × (c'.platform_id ≡ c.platform_id)
    × (c'.subject ≡ c.subject)
    × (c'.id ≡ c.id)
    × (c'.expires_at ≡ some deadline)

-- The `jwt` package reads back what it signed until the deadline, which it keeps in whole seconds.
abbrev pub IsJwt : (NativeClaims → Option Bytes) → (ℕ → Bytes → Parsed NativeClaims) → Type 0
IsJwt sign parse =
    (c : NativeClaims) (token : Bytes) (deadline now : ℕ)
    → sign c ≡ some token
    → c.expires_at ≡ some deadline
    → now + 1000000000 ≤ deadline
    → Reads (parse now token) c

abbrev new_claims : Bytes → ℕ → Bytes → ℕ → ℕ → NativeClaims
new_claims u p id now ttl = record {
  platform_id = pos p;
  subject = u;
  id = id;
  issued_at = now;
  expires_at = some (now + ttl);
}

-- Who a token of these claims speaks for.
abbrev pub session : Bytes → ℕ → Bytes → ℕ → Identity
session u p id deadline = record {
  user_id = u;
  role = role_user_text;
  platform_id = pos p;
  token_id = id;
  expires_at = unix_milli deadline;
  source = source_native;
}

native_identity-session :
    (c : NativeClaims) (u : Bytes) (p : ℕ) (id : Bytes) (deadline : ℕ)
    → c.platform_id ≡ pos p
    → c.subject ≡ u
    → c.id ≡ id
    → c.expires_at ≡ some deadline
    → is_native u ≡ true
    → is_empty id ≡ false
    → 1 ≤ p
    → p ≤ max_platform_id
    → native_identity c ≡ some (session u p id deadline)
unfolding native_identity
native_identity-session c u p id deadline a b d e n i lo hi = ground arith

-- Where the token store is asked about a token that was read.
verify_native-session :
    (later : ℕ) (parsed : Bytes → Parsed NativeClaims) (token : Bytes) (m : Cache) (i : Identity)
    (c : NativeClaims) (live : Bool)
    → parsed token ≡ claims_of c
    → native_identity c ≡ some i
    → (check_token (local later) i.user_id i.platform_id i.token_id m).0 ≡ ok live
    → (verify_native (local later) parsed token m).0
      ≡ (if live then accepted i else refused token_expired)
unfolding verify_native check
verify_native-session later parsed token m i c true a b h = ground arith
verify_native-session later parsed token m i c false a b h = ground arith

module _ (sign : NativeClaims → Option Bytes) (parse : ℕ → Bytes → Parsed NativeClaims)
    (jwt : IsJwt sign parse) (u : Bytes) (p : ℕ) (native : is_native u ≡ true) (lo : 1 ≤ p)
    (hi : p ≤ max_platform_id) where
  issue-accepted :
      (now ttl : ℕ) (id token : Bytes) (d : ℕ) (m : Cache)
      → (issue (local now) sign now ttl id u (pos p) m).0 ≡ accepted (token, d)
      → (sign (new_claims u p id now ttl) ≡ some token)
        × ((issue (local now) sign now ttl id u (pos p) m).1
            ≡ (set_token (local now) u (pos p) id (pos ttl) m).1)
  unfolding issue set_token
  issue-accepted now ttl id token d m h = elim (Option-cases (sign (new_claims u p id now ttl))) [
    | inl e ↦ ground (arith, e)
    | inr (t, e) ↦ ground (arith, e)
  ]

  -- What a token answers, by what the store holds for its user and platform.
  verify_native-stored :
      (now later ttl : ℕ) (id token : Bytes) (m : Cache) (live : Bool)
      → is_empty id ≡ false
      → sign (new_claims u p id now ttl) ≡ some token
      → later + 1000000000 ≤ now + ttl
      → (check_token (local later) u (pos p) id m).0 ≡ ok live
      → (deadline : ℕ) × ((verify_native (local later) (parse later) token m).0
          ≡ (if live then accepted (session u p id deadline) else refused token_expired))
  verify_native-stored now later ttl id token m live filled s before h =
      let (c, deadline, r, a, b, d, e) =
        jwt (new_claims u p id now ttl) token (now + ttl) later s refl before in
      (
        deadline,
        verify_native-session later (parse later) token m (session u p id deadline) c live r
            (native_identity-session c u p id deadline a b d e native filled lo hi) h,
      )

  -- A user who logs in again on a platform is the holder of the new token there from then on: until a
  -- second before the first token's deadline the new token is accepted, for that user, platform and
  -- token id, and the first one is refused as expired, whatever happened between the two logins.
  pub issue-verify_native :
      (now now' later ttl d d' : ℕ) (id id' token token' : Bytes) (m m' : Cache)
      → is_empty id ≡ false
      → is_empty id' ≡ false
      → id ≢ id'
      → (issue (local now) sign now ttl id u (pos p) m).0 ≡ accepted (token, d)
      → (issue (local now') sign now' ttl id' u (pos p) m').0 ≡ accepted (token', d')
      → now ≤ now'
      → now' ≤ later
      → later + 1000000000 ≤ now + ttl
      → ((verify_native
            (local later)
            (parse later)
            token
            (issue (local now') sign now' ttl id' u (pos p) m').1).0
          ≡ refused token_expired)
        × (deadline : ℕ) × ((verify_native
              (local later)
              (parse later)
              token'
              (issue (local now') sign now' ttl id' u (pos p) m').1).0
            ≡ accepted (session u p id' deadline))
  issue-verify_native now now' later ttl d d' id id' token token' m m' f f' ne i i' le le' before =
      let (s, _) = issue-accepted now ttl id token d m i in
      let (s', kept) = issue-accepted now' ttl id' token' d' m' i' in
      let old : (check_token (local later) u (pos p) id
            (issue (local now') sign now' ttl id' u (pos p) m').1).0
          ≡ ok false =
        ground (
          arith,
          check_token-set_token u u p p id' id ttl now' later m' (omega arith) (omega arith)
              (omega arith),
          eq_iff u u,
          eq_iff id' id,
          kept,
        ) in
      let new : (check_token (local later) u (pos p) id'
            (issue (local now') sign now' ttl id' u (pos p) m').1).0
          ≡ ok true =
        ground (
          arith,
          check_token-set_token u u p p id' id' ttl now' later m' (omega arith) (omega arith)
              (omega arith),
          eq_iff u u,
          eq_iff id' id',
          kept,
        ) in
      let (_, refusal) = verify_native-stored now later ttl id token _ false f s before old in
      let (deadline, admission) =
        verify_native-stored now' later ttl id' token' _ true f' s' (omega arith) new in
      (refusal, deadline, admission)
