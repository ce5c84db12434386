-- ===== src/Conv/Range.antt =====
-- The visible range is the set of seqs that every bound admits.
use nexo.Prelude.{ℕ, ◌≤◌, ◌≡◌, ◌↔◌, true, max, arith}
use nexo.Prelude.Int.{ℤ, pos, negsuc, pos_part}
use nexo.Store.{UserConversation}
use nexo.Store.Conversations.{covers}
use nexo.Conv.{visible_range, page_limit}

-- A seq lies in the range that the server answers for a request exactly when it lies in the
-- request, is not above the conversation's last seq, and the push filter would show it too.
pub visible_range-covers :
    (uc : UserConversation) (conv_max begin_seq end_seq s : ℕ)
    → ((visible_range uc conv_max begin_seq end_seq).0 ≤ s
        × (s ≤ (visible_range uc conv_max begin_seq end_seq).1))
      ↔ ((begin_seq ≤ s) × (s ≤ end_seq) × (s ≤ conv_max) × (covers uc s ≡ true))
unfolding visible_range covers
visible_range-covers uc conv_max b e s = ground arith

-- A page holds at least one row and at most the configured maximum, or one if that is not positive;
-- a request between one and the maximum is honoured as it is.
pub page_limit_bounds :
    (limit page_max : ℤ)
    → (1 ≤ page_limit limit page_max)
      × (page_limit limit page_max ≤ max (pos_part page_max) 1)
      × (1 ≤ pos_part limit
          → pos_part limit ≤ max (pos_part page_max) 1
          → page_limit limit page_max ≡ pos_part limit)
unfolding page_limit
page_limit_bounds (pos l) (pos m) = ground arith
page_limit_bounds (pos l) (negsuc m) = ground arith
page_limit_bounds (negsuc l) (pos m) = ground arith
page_limit_bounds (negsuc l) (negsuc m) = ground arith
