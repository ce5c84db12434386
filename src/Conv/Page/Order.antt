-- ===== src/Conv/Page/Order.antt =====
-- The order of internal/store/storetest/mem_message.go, `ListUserConversations`: by time, then by id,
-- the last first.
use nexo.Prelude.{◌≡◌, refl, Bool, true, false, ◌||◌, ◌&&◌, [], ◌∷◌, arith, ltb, ◌==◌ as nat_eq}
use nexo.Prelude.Bytes.{Bytes, lt, ◌==◌, eq_iff, lt_total}
use nexo.Store.{UserConversationRow}

-- The row `b` comes after the row `a`.
unfoldable pub after : UserConversationRow → UserConversationRow → Bool
after a b =
    ltb b.uc.updated_at a.uc.updated_at
    || (nat_eq b.uc.updated_at a.uc.updated_at && lt b.uc.conversation_id a.uc.conversation_id)

pub lt_trans : (s t u : Bytes) → lt s t ≡ true → lt t u ≡ true → lt s u ≡ true
unfolding lt
lt_trans [] [] (c ∷ u) h k = ground arith
lt_trans s [] [] h k = ground arith
lt_trans s (b ∷ t) [] h k = ground arith
lt_trans [] (b ∷ t) (c ∷ u) h k = refl
lt_trans (a ∷ s) [] u h k = ground arith
lt_trans (a ∷ s) (b ∷ t) (c ∷ u) h k = ground (arith, lt_trans s t u)

pub after_trans :
    (a b c : UserConversationRow) → after a b ≡ true → after b c ≡ true → after a c ≡ true
unfolding after
after_trans a b c h k =
    ground (arith, lt_trans c.uc.conversation_id b.uc.conversation_id a.uc.conversation_id)

pub after_asym : (a b : UserConversationRow) → after a b ≡ true → after b a ≡ false
unfolding after
after_asym a b h = ground (arith, lt_total a.uc.conversation_id b.uc.conversation_id)

-- Two rows of different conversations are ordered.
pub after_apart :
    (a b : UserConversationRow)
    → (a.uc.conversation_id == b.uc.conversation_id) ≡ false
    → (after a b || after b a) ≡ true
unfolding after
after_apart a b h = ground (
  arith,
  lt_total a.uc.conversation_id b.uc.conversation_id,
  eq_iff a.uc.conversation_id b.uc.conversation_id,
)
