-- ===== src/Prelude/Bytes.antt =====
-- Go strings: sequences of bytes, with their equality and their order.
use Prim.Native.Char.{code}
use Prim.Native.String.{String}
use nexo.Prelude.{
  ℕ, ◌≡◌, refl, ◌↔◌, Bool, true, false, ◌&&◌, ◌||◌, not, List, [], ◌∷◌, arith, ltb, ◌==◌ as nat_beq,
}

abbrev pub Bytes : Type 0
Bytes = List ℕ

-- The bytes of an ASCII literal.
unfoldable pub text : String → Bytes
text String.[] = []
text (String.◌∷◌ c s) = code c ∷ text s

infix 50 ◌==◌
unfoldable pub ◌==◌ : Bytes → Bytes → Bool
◌==◌ [] [] = true
◌==◌ [] (b ∷ bs) = false
◌==◌ (a ∷ as') [] = false
◌==◌ (a ∷ as') (b ∷ bs) = nat_beq a b && as' == bs

-- `a < b` on Go strings: lexicographic by byte.
unfoldable pub lt : Bytes → Bytes → Bool
lt [] [] = false
lt [] (b ∷ bs) = true
lt (a ∷ as') [] = false
lt (a ∷ as') (b ∷ bs) = ltb a b || (nat_beq a b && lt as' bs)

pub eq_iff : (s t : Bytes) → ((s == t) ≡ true) ↔ (s ≡ t)
unfolding ◌==◌
eq_iff [] [] = ground arith
eq_iff [] (b ∷ bs) = ground arith
eq_iff (a ∷ as') [] = ground arith
eq_iff (a ∷ as') (b ∷ bs) = ground (arith, eq_iff as' bs)

pub eq_refl : (s : Bytes) → (s == s) ≡ true
eq_refl s = (eq_iff s s).1 refl

-- The order is total: two different strings are in one order exactly.
pub lt_total : (s t : Bytes) → lt s t ≡ not (lt t s || s == t)
unfolding lt ◌==◌
lt_total [] [] = refl
lt_total [] (b ∷ bs) = refl
lt_total (a ∷ as') [] = refl
lt_total (a ∷ as') (b ∷ bs) = ground (arith, lt_total as' bs)
