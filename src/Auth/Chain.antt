-- ===== src/Auth/Chain.antt =====
-- internal/auth/chain.go: what a chain of providers answers, from what each of them answers.
use nexo.Prelude.{◌≡◌, refl, ap, ◌∙◌, ◌⊎◌, inl, inr, List, [], ◌∷◌, arith, keep}
use nexo.Prelude.Bytes.{Bytes}
use nexo.Auth.{
  AuthError, token_invalid, Verdict, accepted, refused, Identity, Authenticator, terminal,
  keep_error, verify_from, verify,
}

-- What the providers say in turn, up to the first that accepts.
pub data Answers : Type 0 where
  all_refused : List AuthError → Answers
  first_accepted : Identity → Answers

abbrev before : AuthError → Answers → Answers
before e (all_refused es) = all_refused (e ∷ es)
before e (first_accepted id) = first_accepted id

unfoldable pub ask : {S : Type 0} → List (Authenticator S) → Bytes → S → Answers
ask [] token s = all_refused []
ask (a ∷ chain) token s =
    let (r, s') = a token s in
    elim r [ accepted id ↦ first_accepted id | refused e ↦ before e (ask chain token s') ]

unfoldable pub latest : AuthError → List AuthError → AuthError
latest e [] = e
latest e (e' ∷ es) = latest e' es

-- The last error that has a meaning of its own, or else the last one.
unfoldable pub most_telling : List AuthError → AuthError
unfolding latest
most_telling es = elim (keep terminal es) [ [] ↦ latest token_invalid es | t ∷ ts ↦ latest t ts ]

unfoldable pub verdict_of : Answers → Verdict Identity
verdict_of (first_accepted id) = accepted id
verdict_of (all_refused es) = refused (most_telling es)

most_telling-keep_error :
    (last e : AuthError) (es : List AuthError)
    → most_telling (last ∷ e ∷ es) ≡ most_telling (keep_error last e ∷ es)
unfolding most_telling keep latest keep_error
most_telling-keep_error last e es = ground arith

Verdict-cases :
    (v : Verdict Identity)
    → ((id : Identity) × (v ≡ accepted id)) ⊎ ((e : AuthError) × (v ≡ refused e))
Verdict-cases (accepted id) = inl (id, refl)
Verdict-cases (refused e) = inr (e, refl)

verdict-keep_error :
    (last e : AuthError) (a : Answers)
    → verdict_of (before last (before e a)) ≡ verdict_of (before (keep_error last e) a)
unfolding verdict_of
verdict-keep_error last e (all_refused es) = ap refused (most_telling-keep_error last e es)
verdict-keep_error last e (first_accepted id) = refl

-- The error that a chain starts from says nothing.
verdict-invalid : (a : Answers) → verdict_of (before token_invalid a) ≡ verdict_of a
unfolding verdict_of most_telling keep latest terminal
verdict-invalid (all_refused es) = ground arith
verdict-invalid (first_accepted id) = refl

module _ {S : Type 0} where
  verify_from-ask :
      (last : AuthError) (chain : List (Authenticator S)) (token : Bytes) (s : S)
      → (verify_from last chain token s).0 ≡ verdict_of (before last (ask chain token s))
  unfolding verify_from ask verdict_of
  verify_from-ask last [] token s = unfold most_telling keep latest in ground arith
  verify_from-ask last (a ∷ chain) token s = elim (Verdict-cases (a token s).0) [
    | inl (id, e) ↦ ground (arith, e)
    | inr (x, e) ↦ ground (
      arith,
      e,
      verify_from-ask (keep_error last x) chain token (a token s).1,
      verdict-keep_error last x (ask chain token (a token s).1),
    )
  ]

-- The chain gives the identity of the first provider that accepts the token, whatever the ones before
-- it said. Where none accepts, its error is the last one that says the token has expired or that a
-- store failed, and only where there is no such error the last of the others: a provider that merely
-- does not know the token never hides an outage.
pub verify-ask :
    {S : Type 0} (chain : List (Authenticator S)) (token : Bytes) (s : S)
    → (verify chain token s).0 ≡ verdict_of (ask chain token s)
unfolding verify
verify-ask chain token s =
    verify_from-ask token_invalid chain token s ∙ verdict-invalid (ask chain token s)
