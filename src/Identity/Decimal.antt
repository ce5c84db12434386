-- ===== src/Identity/Decimal.antt =====
-- `strconv.ParseInt(s, 10, 64)` and `strconv.FormatInt(n, 10)`.
use nexo.Prelude.{
  ℕ, zero, suc, ◌+◌, ◌-◌, ◌*◌, ◌/◌, ◌%◌, ◌^◌, ◌<◌, ◌≡◌, true, ◌&&◌, Option, none, some, [], ◌∷◌,
  ltb, leb, ◌==◌ as nat_eq, if◌then◌else◌, arith, Bool-cases, inl, inr, ◌∙◌,
}
use native.Mathlib.Nat.{pow-suc}
use nexo.Prelude.Bytes.{Bytes}
use nexo.Prelude.Int.{ℤ, pos, negsuc}

abbrev pub max_int64 : ℕ
max_int64 = 9223372036854775807

-- The decimal digits of `n` before `acc`; twenty rounds print any number of 64 bits.
unfoldable pub format_nat : ℕ → ℕ → Bytes → Bytes
format_nat zero n acc = acc
format_nat (suc f) n acc =
    let more = format_nat f (n / 10) ((48 + n % 10) ∷ acc) in
    if ltb n 10 then (48 + n) ∷ acc else more

unfoldable pub format_int : ℤ → Bytes
format_int (pos n) = format_nat 20 n []
format_int (negsuc n) = b'-' ∷ format_nat 20 (suc n) []

unfoldable pub parse_nat : ℕ → Bytes → Option ℕ
parse_nat acc [] = some acc
parse_nat acc (c ∷ cs) =
    let rest = parse_nat (acc * 10 + (c - 48)) cs in if leb 48 c && leb c 57 then rest else none

unfoldable pub parse_unsigned : Bytes → Option ℕ
parse_unsigned [] = none
parse_unsigned (c ∷ cs) = parse_nat 0 (c ∷ cs)

-- The magnitude of a text with a minus sign, in range.
unfoldable pub negated : ℕ → Option ℤ
negated zero = some (pos 0)
negated (suc n) = if leb n max_int64 then some (negsuc n) else none

unfoldable pub parse_int : Bytes → Option ℤ
unfolding negated
parse_int [] = none
parse_int (c ∷ cs) =
    if nat_eq c b'-'
    then (elim (parse_unsigned cs) [ none ↦ none | some n ↦ negated n ])
    else (elim (parse_unsigned (if nat_eq c b'+' then cs else c ∷ cs)) [
      | none ↦ none
      | some n ↦ if leb n max_int64 then some (pos n) else none
    ])

pub div10_lt : (f n : ℕ) → n < 10 ^ suc f → n / 10 < 10 ^ f
div10_lt f n h = let k : n < 10 ^ f * 10 = rw pow-suc at h in omega arith

next_digit : (n : ℕ) (acc : Bytes) → parse_nat (n / 10) ((48 + n % 10) ∷ acc) ≡ parse_nat n acc
unfolding parse_nat
next_digit n acc = let e : n / 10 * 10 + (48 + n % 10 - 48) ≡ n = omega arith in rw e (ground arith)

-- Reading what was printed goes on from the number that was printed.
pub parse_nat-format_nat :
    (f n : ℕ) (acc : Bytes)
    → n < 10 ^ suc f
    → parse_nat 0 (format_nat (suc f) n acc) ≡ parse_nat n acc
unfolding format_nat
parse_nat-format_nat zero n acc h =
    let small : ltb n 10 ≡ true = ground arith in rw small (unfold parse_nat in ground arith)
parse_nat-format_nat (suc f) n acc h = elim (Bool-cases (ltb n 10)) [
  | inl small ↦ rw small (unfold parse_nat in ground arith)
  | inr large ↦ rw large (
      parse_nat-format_nat f (n / 10) ((48 + n % 10) ∷ acc) (div10_lt (suc f) n h)
      ∙ next_digit n acc)
]
