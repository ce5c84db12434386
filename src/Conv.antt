-- ===== src/Conv.antt =====
-- internal/service/conv: conversation ids, the range of seqs that a user sees, and page limits.
pub mod Ids
pub mod Range
pub mod Base64
pub mod Cursor
pub mod Page
use nexo.Prelude.{
  ℕ, ◌≤◌, ◌<◌, ◌≡◌, Bool, ◌||◌, List, [], ◌∷◌, ◌++◌, min, max, ltb, leb, if◌then◌else◌,
}
use nexo.Prelude.Bytes.{Bytes, text, lt}
use nexo.Prelude.Int.{ℤ, pos, pos_part, ltb_ℤ, leb_ℤ}
use nexo.Store.{UserConversation}

unfoldable pub si_ : Bytes
unfolding text
si_ = text "si_"

unfoldable pub sg_ : Bytes
unfolding text
sg_ = text "sg_"

-- `Single`: the smaller id first.
unfoldable pub single_id : Bytes → Bytes → Bytes
single_id a b = if lt b a then si_ ++ (b ++ (b':' ∷ a)) else si_ ++ (a ++ (b':' ∷ b))

-- `Group`
unfoldable pub group_conv_id : Bytes → Bytes
group_conv_id group_id = sg_ ++ group_id

unfoldable pub visible_max : UserConversation → ℕ → ℕ
visible_max uc conv_max = if ltb 0 uc.max_seq then min uc.max_seq conv_max else conv_max

unfoldable pub visible_range : UserConversation → ℕ → ℕ → ℕ → ℕ × ℕ
unfolding visible_max
visible_range uc conv_max begin_seq end_seq =
    (max begin_seq uc.min_seq, min end_seq (visible_max uc conv_max))

-- The page size that `ListPage` and `Pull` make of a request: at least 1, at most the maximum.
unfoldable pub page_limit : ℤ → ℤ → ℕ
page_limit limit page_max =
    let top = max (pos_part page_max) 1 in
    if leb_ℤ limit (pos 0) || ltb_ℤ (pos top) limit then top else pos_part limit
