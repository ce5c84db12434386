-- ===== src/Conv/Base64.antt =====
-- `base64.RawURLEncoding` of Go's encoding/base64, which the cursors of internal/service/conv use:
-- groups of three bytes as four digits, no padding, line breaks skipped when read.
use nexo.Prelude.{
  ℕ, ◌+◌, ◌-◌, ◌*◌, ◌/◌, ◌%◌, ◌<◌, ◌≡◌, refl, Bool, false, ◌||◌, ◌&&◌, not, Option, none, some,
  List, [], ◌∷◌, arith, keep, All, ltb, leb, ◌==◌ as nat_eq, if◌then◌else◌,
}
use nexo.Prelude.Bytes.{Bytes}

-- The digit of a number below 64: A-Z, a-z, 0-9, `-` and `_`.
unfoldable pub digit : ℕ → ℕ
digit n =
    if ltb n 26
    then 65 + n
    else if ltb n 52
    then 71 + n
    else if ltb n 62
    then n - 4
    else if ltb n 63
    then 45
    else 95

unfoldable pub digit_value : ℕ → Option ℕ
digit_value c =
    if leb 65 c && leb c 90
    then some (c - 65)
    else if leb 97 c && leb c 122
    then some (c - 71)
    else if leb 48 c && leb c 57
    then some (c + 4)
    else if nat_eq c 45
    then some 62
    else if nat_eq c 95
    then some 63
    else none

unfoldable pub encode : Bytes → Bytes
encode [] = []
encode (a ∷ []) = digit (a / 4) ∷ digit (a % 4 * 16) ∷ []
encode (a ∷ b ∷ []) = digit (a / 4) ∷ digit (a % 4 * 16 + b / 16) ∷ digit (b % 16 * 4) ∷ []
encode (a ∷ b ∷ c ∷ rest) =
    digit (a / 4)
    ∷ digit (a % 4 * 16 + b / 16)
    ∷ digit (b % 16 * 4 + c / 64)
    ∷ digit (c % 64)
    ∷ encode rest

abbrev cons_value : Option ℕ → Option (List ℕ) → Option (List ℕ)
cons_value (some v) (some vs) = some (v ∷ vs)
cons_value _ _ = none

unfoldable pub digit_values : Bytes → Option (List ℕ)
digit_values [] = some []
digit_values (c ∷ cs) = cons_value (digit_value c) (digit_values cs)

-- The bits that are left over at the end are not looked at.
unfoldable pub bytes_of : List ℕ → Option Bytes
bytes_of [] = some []
bytes_of (p ∷ []) = none
bytes_of (p ∷ q ∷ []) = some ((p * 4 + q / 16) ∷ [])
bytes_of (p ∷ q ∷ r ∷ []) = some ((p * 4 + q / 16) ∷ (q % 16 * 16 + r / 4) ∷ [])
bytes_of (p ∷ q ∷ r ∷ s ∷ rest) = elim (bytes_of rest) [
  | none ↦ none
  | some bs ↦ some ((p * 4 + q / 16) ∷ (q % 16 * 16 + r / 4) ∷ (r % 4 * 64 + s) ∷ bs)
]

abbrev is_break : ℕ → Bool
is_break c = nat_eq c b'\n' || nat_eq c b'\r'

abbrev bytes_of_digits : Option (List ℕ) → Option Bytes
bytes_of_digits none = none
bytes_of_digits (some vs) = bytes_of vs

unfoldable pub decode : Bytes → Option Bytes
decode s = bytes_of_digits (digit_values (keep (λ c. not (is_break c)) s))

digit_value-digit : (n : ℕ) → n < 64 → digit_value (digit n) ≡ some n
unfolding digit_value digit
digit_value-digit n h = ground arith

digit-not_break : (n : ℕ) → n < 64 → is_break (digit n) ≡ false
unfolding digit
digit-not_break n h = ground arith

-- What `decode` looks at.
abbrev values : Bytes → Option (List ℕ)
values s = digit_values (keep (λ c. not (is_break c)) s)

values-digit :
    (n : ℕ) (rest : Bytes) (vs : List ℕ)
    → n < 64
    → values rest ≡ some vs
    → values (digit n ∷ rest) ≡ some (n ∷ vs)
unfolding keep digit_values
values-digit n rest vs h e = rw (digit-not_break n h, digit_value-digit n h, e) refl

-- The numbers that `encode` writes as digits.
sextets : Bytes → List ℕ
sextets [] = []
sextets (a ∷ []) = (a / 4) ∷ (a % 4 * 16) ∷ []
sextets (a ∷ b ∷ []) = (a / 4) ∷ (a % 4 * 16 + b / 16) ∷ (b % 16 * 4) ∷ []
sextets (a ∷ b ∷ c ∷ rest) =
    (a / 4) ∷ (a % 4 * 16 + b / 16) ∷ (b % 16 * 4 + c / 64) ∷ (c % 64) ∷ sextets rest

abbrev pub AreBytes : Bytes → Type 0
AreBytes = All (λ b. b < 256)

values-nil : values [] ≡ some []
unfolding digit_values keep
values-nil = refl

values-encode : (s : Bytes) → AreBytes s → values (encode s) ≡ some (sextets s)
unfolding encode sextets
values-encode [] h = values-nil
values-encode (a ∷ []) h =
    values-digit (a / 4) _ _ (omega arith) (values-digit (a % 4 * 16) _ _ (omega arith) values-nil)
values-encode (a ∷ b ∷ []) h = values-digit (a / 4) _ _ (omega arith) (
    values-digit (a % 4 * 16 + b / 16) _ _ (omega arith)
      (values-digit (b % 16 * 4) _ _ (omega arith) values-nil))
values-encode (a ∷ b ∷ c ∷ rest) h = values-digit (a / 4) _ _ (omega arith) (
    values-digit (a % 4 * 16 + b / 16) _ _ (omega arith) (
      values-digit (b % 16 * 4 + c / 64) _ _ (omega arith)
        (values-digit (c % 64) _ _ (omega arith) (values-encode rest h.1.1.1))))

bytes_of-sextets : (s : Bytes) → AreBytes s → bytes_of (sextets s) ≡ some s
unfolding bytes_of sextets
bytes_of-sextets [] h = refl
bytes_of-sextets (a ∷ []) h = ground arith
bytes_of-sextets (a ∷ b ∷ []) h = ground arith
bytes_of-sextets (a ∷ b ∷ c ∷ rest) h = ground (arith, bytes_of-sextets rest h.1.1.1)

-- Decoding what was encoded gives the bytes back.
pub decode-encode : (s : Bytes) → AreBytes s → decode (encode s) ≡ some s
unfolding decode
decode-encode s h = rw (values-encode s h) (bytes_of-sextets s h)
