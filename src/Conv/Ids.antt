-- ===== src/Conv/Ids.antt =====
-- Conversation ids name their conversation.
use nexo.Prelude.{◌≡◌, ◌⊎◌, ◌≢◌, Bool, true, false, [], ◌∷◌, ◌++◌, arith, any}
use nexo.Prelude.Bytes.{Bytes, lt_total, eq_iff}
use nexo.Identity.{has_colon, is_valid_id}
use nexo.Conv.{si_, sg_, single_id, group_conv_id}

-- Either party finds the same conversation.
pub single_id_comm : (a b : Bytes) → single_id a b ≡ single_id b a
unfolding single_id
single_id_comm a b = ground (arith, lt_total a b, eq_iff a b, eq_iff b a, lt_total b a)

-- A text without a colon ends at the first one.
cut_unique :
    (a b c d : Bytes)
    → has_colon a ≡ false
    → has_colon c ≡ false
    → a ++ (b':' ∷ b) ≡ c ++ (b':' ∷ d)
    → (a ≡ c) × (b ≡ d)
unfolding has_colon any
cut_unique [] b [] d h k e = ground arith
cut_unique [] b (y ∷ c) d h k e = ground arith
cut_unique (x ∷ a) b [] d h k e = ground arith
cut_unique (x ∷ a) b (y ∷ c) d h k e = ground (arith, cut_unique a b c d)

is_valid_id-has_colon :
    (uuid_ok : Bytes → Bool) (a : Bytes) → is_valid_id uuid_ok a ≡ true → has_colon a ≡ false
unfolding is_valid_id
is_valid_id-has_colon uuid_ok a h = ground arith

-- Between valid user ids, an id of a single chat tells the two parties, up to their order.
pub single_id_injective :
    (uuid_ok : Bytes → Bool) (a b c d : Bytes)
    → is_valid_id uuid_ok a ≡ true
    → is_valid_id uuid_ok b ≡ true
    → is_valid_id uuid_ok c ≡ true
    → is_valid_id uuid_ok d ≡ true
    → single_id a b ≡ single_id c d
    → ((a ≡ c) × (b ≡ d)) ⊎ ((a ≡ d) × (b ≡ c))
unfolding single_id si_
single_id_injective u a b c d va vb vc vd e = ground (
  arith,
  is_valid_id-has_colon u a va,
  is_valid_id-has_colon u b vb,
  is_valid_id-has_colon u c vc,
  is_valid_id-has_colon u d vd,
  cut_unique a b c d,
  cut_unique a b d c,
  cut_unique b a c d,
  cut_unique b a d c,
)

-- No group chat has the id of a single chat.
pub group_conv_id-ne-single_id : (g a b : Bytes) → group_conv_id g ≢ single_id a b
unfolding group_conv_id single_id si_ sg_
group_conv_id-ne-single_id g a b e = ground arith
