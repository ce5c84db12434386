-- ===== src/Conv/Page/Listing.antt =====
-- internal/service/conv/page.go and cursor.go over the tables: what is listed at a cursor.
use nexo.Prelude.{
  ◌+◌, ◌<◌, ◌≡◌, ◌≢◌, refl, sym, Bool, true, false, ◌||◌, ◌&&◌, not, some, List, [], ◌∷◌, map,
  arith, keep, take, All,
}
use mathlib.Core.Path.{fun_ext}
use nexo.Prelude.Bytes.{Bytes, lt, ◌==◌}
use nexo.Prelude.Int.{ℤ, pos, ltb_ℤ}
use nexo.Prelude.Sort.{sort_by}
use nexo.Prelude.Sort.Pages.{Apart, All-weaken, keep-sort_by}
use nexo.Errcode.{ok}
use nexo.Store.{UserConversation, UserConversationRow, ListCursor}
use nexo.Store.Db.{Db}
use nexo.Store.Messages.{before_cursor, row_le, max_seq_of, list_user_conversations}
use nexo.Store.Action.{World, call, ◌>>=◌}
use nexo.Conv.{page_limit}
use nexo.Conv.Base64.{AreBytes}
use nexo.Conv.Page.{cursor_of, page_of, list_page_at}
use nexo.Conv.Page.Order.{lt_trans, after, after_trans, after_asym, after_apart}

abbrev row_of : Db → UserConversation → UserConversationRow
row_of db uc = record { uc = uc; conv_max_seq = max_seq_of uc.conversation_id db }

-- The conversations of a user.
unfoldable pub owned : Bytes → Db → List UserConversationRow
owned u db = map (row_of db) (keep (λ uc. uc.owner_id == u) (map (λ p. p.1) db.user_convs))

-- The same, the newest first.
unfoldable pub newest_first : Bytes → Db → List UserConversationRow
newest_first u db = sort_by row_le (owned u db)

-- No two rows are of one conversation.
abbrev pub Distinct : List UserConversationRow → Type 0
Distinct [] = Unit
Distinct (a ∷ rows) =
    All (λ b. (a.uc.conversation_id == b.uc.conversation_id) ≡ false) rows × Distinct rows

-- A row that a cursor can name: its id is a text that is not empty, its time before the year 9999.
abbrev pub IsNamed : UserConversationRow → Type 0
IsNamed r =
    (r.uc.conversation_id ≢ [])
    × AreBytes r.uc.conversation_id
    × (r.uc.updated_at < 253370764800000)

-- The row lies on the pages from the cursor on.
unfoldable pub past : ListCursor → UserConversationRow → Bool
past cur r =
    ltb_ℤ (pos r.uc.updated_at) cur.updated_at
    || (not (ltb_ℤ cur.updated_at (pos r.uc.updated_at))
        && lt r.uc.conversation_id cur.conversation_id)

pub row_le-after : (a b : UserConversationRow) → row_le a b ≡ not (after b a)
unfolding row_le after
row_le-after a b = ground arith

pub past-after : (a b : UserConversationRow) → past (cursor_of a) b ≡ after a b
unfolding past after
past-after a b = ground arith

pub past_trans :
    (cur : ListCursor) (a b : UserConversationRow)
    → past cur a ≡ true
    → after a b ≡ true
    → past cur b ≡ true
unfolding past after
past_trans cur a b h k =
    ground (arith, lt_trans b.uc.conversation_id a.uc.conversation_id cur.conversation_id)

pub Apart-Distinct : (rows : List UserConversationRow) → Distinct rows → Apart after rows
Apart-Distinct [] d = tt
Apart-Distinct (a ∷ rows) d = (
  All-weaken (λ b. (a.uc.conversation_id == b.uc.conversation_id) ≡ false)
      (λ b. (after a b || after b a) ≡ true) rows (after_apart a) d.0,
  Apart-Distinct rows d.1,
)

map-keep-before_cursor :
    (u : Bytes) (cur : ListCursor) (db : Db) (ucs : List UserConversation)
    → map (row_of db) (keep (before_cursor u cur) ucs)
      ≡ keep (past cur) (map (row_of db) (keep (λ uc. uc.owner_id == u) ucs))
unfolding keep before_cursor past
map-keep-before_cursor u cur db [] = refl
map-keep-before_cursor u cur db (uc ∷ ucs) = ground (arith, map-keep-before_cursor u cur db ucs)

-- The listing at a cursor is the part of the whole list that lies past it.
sorted_past :
    (u : Bytes) (cur : ListCursor) (db : Db)
    → Distinct (owned u db)
    → sort_by row_le (map (row_of db) (keep (before_cursor u cur) (map (λ p. p.1) db.user_convs)))
      ≡ keep (past cur) (newest_first u db)
unfolding owned newest_first
sorted_past u cur db d = rw (map-keep-before_cursor u cur db (map (λ p. p.1) db.user_convs)) (
    rw (fun_ext (λ a. fun_ext (row_le-after a))) (
      sym (
        keep-sort_by after after_trans after_asym (past cur) (owned u db)
          (Apart-Distinct (owned u db) d))))

pub list_page_at-rows :
    {E S : Type 0} (u : Bytes) (limit page_max : ℤ) (cur : ListCursor) (w : World E S)
    → w.faults ≡ []
    → Distinct (owned u w.db)
    → list_page_at u limit page_max (some cur) w ≡ (
      ok (
          page_of
            (page_limit limit page_max)
            (take (page_limit limit page_max + 1) (keep (past cur) (newest_first u w.db)))),
      w,
    )
unfolding list_page_at list_user_conversations ◌>>=◌ call
list_page_at-rows u limit page_max cur w quiet d = rw (quiet, sorted_past u cur w.db d) refl
