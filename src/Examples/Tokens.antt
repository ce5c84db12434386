-- ===== src/Examples/Tokens.antt =====
-- The cache, logins and signed requests at concrete inputs.
use nexo.Prelude.{
  ℕ, ◌+◌, ◌==◌ as nat_eq, ltb, ◌≡◌, ◌≢◌, refl, arith, List, [], ◌∷◌, ◌++◌, some, none, Option, true,
  false, Bool, if◌then◌else◌, ◌&&◌,
}
use nexo.Prelude.Bytes.{Bytes, ◌==◌, eq_iff}
use nexo.Prelude.Int.{ℤ, pos, negsuc}
use nexo.Errcode.{ok}
use nexo.Cache
use nexo.Cache.{
  Call, get_call, set_call, set_nx_call, del_if_value_call, sweep_call, Reply, found, stored, done,
  run,
}
use nexo.Cache.Port.{local}
use nexo.Cache.Refinement.{ideal_run, nothing, run-refines}
use nexo.Auth.{
  AuthError, token_invalid, token_expired, unavailable, Verdict, accepted, refused, Identity,
  Authenticator, verify,
}
use nexo.Auth.Chain.{ask, verdict_of, verify-ask}
use nexo.Auth.Tokens.{set_token, check_token, delete_token}
use nexo.Auth.Tokens.Supersede.{check_token-set_token, check_token-delete_token}
use nexo.Auth.Native.{NativeClaims, Parsed, claims_of, is_native, verify_native, issue}
use nexo.Auth.Native.Sessions.{IsJwt, session, issue-verify_native}
use nexo.Auth.Internal.{InternalRequest, Internal, verify_internal}
use nexo.Auth.Internal.Replay.{serve, verify_internal-once}

abbrev k1 : Bytes
k1 = 1 ∷ []

abbrev v1 : Bytes
v1 = 7 ∷ []

-- Stored for ten nanoseconds, found, held against a second store, swept, and stored anew after that.
abbrev calls : List (ℕ × Call)
calls =
    (0, set_call k1 v1 (pos 10))
    ∷ (3, get_call k1)
    ∷ (1, set_nx_call k1 v1 (pos 5))
    ∷ (9, sweep_call)
    ∷ (0, set_nx_call k1 v1 (pos 5))
    ∷ (1, del_if_value_call k1 v1)
    ∷ (0, get_call k1)
    ∷ []

calls_replies :
    run 100 calls []
    ≡ done ∷ found (some v1) ∷ stored false ∷ done ∷ stored true ∷ done ∷ found none ∷ []
unfolding run Cache.perform Cache.get Cache.set_nx Cache.get_entry nexo.Prelude.Map.lookup Cache.set
    nexo.Prelude.Map.insert ◌==◌ Cache.alive Cache.expiry Cache.sweep Cache.del_if_value
    nexo.Prelude.Map.delete
calls_replies = refl

run-refines_example : run 100 calls [] ≡ ideal_run 100 calls nothing
run-refines_example = run-refines 100 calls

abbrev native_user : Bytes
native_user = b'n' ∷ b'x' ∷ b'_' ∷ b'_' ∷ b'1' ∷ []

abbrev someone : Identity
someone = record {
  user_id = native_user;
  role = [];
  platform_id = pos 1;
  token_id = k1;
  expires_at = 5;
  source = [];
}

abbrev outage : Authenticator (Unit {0})
outage token s = (refused unavailable, s)

abbrev stranger : Authenticator (Unit {0})
stranger token s = (refused token_invalid, s)

abbrev host : Authenticator (Unit {0})
host token s = (if token == k1 then accepted someone else refused token_invalid, s)

-- The outage of the first provider is what the caller hears of.
outage_heard : verify (outage ∷ stranger ∷ host ∷ []) v1 tt ≡ (refused unavailable, tt)
unfolding verify ◌==◌ nexo.Auth.keep_error
outage_heard = refl

verify-ask_example :
    (verify (outage ∷ stranger ∷ host ∷ []) k1 tt).0
    ≡ verdict_of (ask (outage ∷ stranger ∷ host ∷ []) k1 tt)
verify-ask_example = verify-ask (outage ∷ stranger ∷ host ∷ []) k1 tt

check_token-set_token_example :
    (check_token
      (local 20)
      native_user
      (pos 1)
      v1
      (set_token (local 15) native_user (pos 1) k1 (pos 10) []).1).0
    ≡ (if native_user == native_user && true then ok (k1 == v1 && ltb 20 (15 + 10)) else ok false)
unfolding nexo.Auth.Tokens.check_token nexo.Auth.Tokens.matches Cache.get Cache.get_entry
    nexo.Prelude.Map.lookup
check_token-set_token_example =
    check_token-set_token native_user native_user 1 1 k1 v1 10 15 20 [] (omega arith) (omega arith)
      (omega arith)

check_token-delete_token_example :
    (check_token
      (local 20)
      native_user
      (pos 1)
      k1
      (delete_token (local 15) native_user (pos 1) k1 []).1).0
    ≡ (if native_user == native_user && nat_eq 1 1 && k1 == k1 then ok false else ok false)
unfolding nexo.Auth.Tokens.check_token nexo.Auth.Tokens.matches Cache.get Cache.get_entry
    nexo.Prelude.Map.lookup
check_token-delete_token_example =
    check_token-delete_token native_user native_user 1 1 k1 k1 15 20 [] (omega arith) (omega arith)
      (omega arith)

-- A token is its id, signed for one user on one platform.
abbrev sign_id : NativeClaims → Option Bytes
sign_id c =
    if c.subject == native_user && (elim c.platform_id [ pos n ↦ nat_eq n 1 | negsuc _ ↦ false ])
    then some c.id
    else none

abbrev claims_with : Bytes → NativeClaims
claims_with token = record {
  platform_id = pos 1;
  subject = native_user;
  id = token;
  issued_at = 0;
  expires_at = some 5000000000;
}

abbrev parse_id : ℕ → Bytes → Parsed NativeClaims
parse_id now token = claims_of (claims_with token)

sign_id-claims :
    (p : ℤ) (c : NativeClaims) (token : Bytes)
    → c.platform_id ≡ p
    → sign_id c ≡ some token
    → (pos 1 ≡ c.platform_id) × (native_user ≡ c.subject) × (token ≡ c.id)
sign_id-claims (pos n) c token e h = ground (arith, eq_iff c.subject native_user)
sign_id-claims (negsuc n) c token e h = ground (arith, eq_iff c.subject native_user)

sign_id-IsJwt : IsJwt sign_id parse_id
sign_id-IsJwt c token deadline now h e before =
    let (p, s, i) = sign_id-claims c.platform_id c token refl h in
    (claims_with token, 5000000000, refl, p, s, i, refl)

native_ok : is_native native_user ≡ true
unfolding is_native ◌==◌ nexo.Identity.prefix_native
native_ok = refl

k1-v1 : k1 ≢ v1
k1-v1 e = ground (arith, e)

first_login :
    (issue (local 100) sign_id 100 4000000000 k1 native_user (pos 1) []).0
    ≡ accepted (k1, 4000000100)
unfolding issue ◌==◌ set_token
first_login = refl

second_login :
    (issue (local 200) sign_id 200 4000000000 v1 native_user (pos 1) []).0
    ≡ accepted (v1, 4000000200)
unfolding issue ◌==◌ set_token
second_login = refl

issue-verify_native_example :
    ((verify_native
        (local 300)
        (parse_id 300)
        k1
        (issue (local 200) sign_id 200 4000000000 v1 native_user (pos 1) []).1).0
      ≡ refused token_expired)
    × (deadline : ℕ) × ((verify_native
          (local 300)
          (parse_id 300)
          v1
          (issue (local 200) sign_id 200 4000000000 v1 native_user (pos 1) []).1).0
        ≡ accepted (session native_user 1 v1 deadline))
issue-verify_native_example =
    issue-verify_native sign_id parse_id sign_id-IsJwt native_user 1 native_ok (omega arith)
      (omega arith) 100 200 300 4000000000 4000000100 4000000200 k1 v1 k1 v1 [] [] refl refl k1-v1
      first_login second_login (omega arith) (omega arith) (omega arith)

abbrev hmac : Bytes → Bytes → Bytes
hmac secret p = []

abbrev sha256 : Bytes → Bytes
sha256 body = []

-- A skew of one second.
abbrev trusted : Internal
trusted = record { secrets = k1 ∷ []; services = k1 ∷ []; skew = 1000000000 }

abbrev nonce16 : Bytes
nonce16 = 0 ∷ 0 ∷ 0 ∷ 0 ∷ 0 ∷ 0 ∷ 0 ∷ 0 ∷ 0 ∷ 0 ∷ 0 ∷ 0 ∷ 0 ∷ 0 ∷ 0 ∷ 0 ∷ []

-- Of the tenth second since 1970.
abbrev request : InternalRequest
request = record {
  service = k1;
  timestamp = b'1' ∷ b'0' ∷ [];
  nonce = nonce16;
  method_of = [];
  raw_path = [];
  raw_query = [];
  user_id = [];
  platform_id = [];
  body = [];
  signature = [];
}

request_accepted :
    (verify_internal (local 10000000000) hmac sha256 trusted 10000000000 request []).0 ≡ accepted tt
unfolding verify_internal nexo.Auth.Internal.refusal nexo.Prelude.any ◌==◌
    nexo.Identity.Decimal.parse_int nexo.Identity.Decimal.parse_unsigned
    nexo.Identity.Decimal.parse_nat nexo.Auth.Internal.distance nexo.Auth.Internal.signed
    nexo.Auth.Internal.sign nexo.Auth.Internal.sign_payload nexo.Auth.Internal.hex Cache.set_nx
    Cache.get_entry nexo.Prelude.Map.lookup
request_accepted = refl

serve_reached :
    serve hmac sha256 trusted 10000000000
      ((1000000000, 11000000000, request) ∷ [])
      (verify_internal (local 10000000000) hmac sha256 trusted 10000000000 request []).1
    ≡ (
      11000000000,
      (serve hmac sha256 trusted 10000000000
          ((1000000000, 11000000000, request) ∷ [])
          (verify_internal (local 10000000000) hmac sha256 trusted 10000000000 request []).1).1,
    )
unfolding serve
serve_reached = refl

verify_internal-once_example :
    (verify_internal
      (local (11000000000 + 500))
      hmac
      sha256
      trusted
      11000000500
      request
      (serve hmac sha256 trusted 10000000000
        ((1000000000, 11000000000, request) ∷ [])
        (verify_internal (local 10000000000) hmac sha256 trusted 10000000000 request []).1).1).0
    ≢ accepted tt
verify_internal-once_example =
    verify_internal-once hmac sha256 trusted 10000000000 10000000000 11000000500 11000000000 500
      request request []
      (serve hmac sha256 trusted 10000000000 ((1000000000, 11000000000, request) ∷ [])
        (verify_internal (local 10000000000) hmac sha256 trusted 10000000000 request []).1).1
      ((1000000000, 11000000000, request) ∷ []) request_accepted serve_reached refl refl
      (omega arith)

-- At the far edge of the window, two skews after the near one, the nonce is no longer held.
replayed_at_the_edge :
    (verify_internal
      (local 11000000000)
      hmac
      sha256
      trusted
      11000000000
      request
      (verify_internal (local 9000000000) hmac sha256 trusted 9000000000 request []).1).0
    ≡ accepted tt
unfolding verify_internal nexo.Auth.Internal.refusal nexo.Prelude.any ◌==◌
    nexo.Identity.Decimal.parse_int nexo.Identity.Decimal.parse_unsigned
    nexo.Identity.Decimal.parse_nat nexo.Auth.Internal.distance nexo.Auth.Internal.signed
    nexo.Auth.Internal.sign nexo.Auth.Internal.sign_payload nexo.Auth.Internal.hex Cache.set_nx
    Cache.get_entry nexo.Prelude.Map.lookup Cache.set nexo.Prelude.Map.insert
    nexo.Auth.Internal.nonce_key Cache.key_prefix nexo.Auth.Internal.inonce Cache.alive Cache.expiry
replayed_at_the_edge = refl
