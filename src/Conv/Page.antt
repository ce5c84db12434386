-- ===== src/Conv/Page.antt =====
-- internal/service/conv/page.go: a page of a user's conversations, the newest first.
pub mod Order
pub mod Listing
pub mod Follow
use nexo.Prelude.{
  ℕ, suc, ◌+◌, Bool, true, false, Option, none, some, List, [], ◌∷◌, length, take, leb,
  if◌then◌else◌,
}
use nexo.Prelude.Bytes.{Bytes, text}
use nexo.Prelude.Int.{ℤ, pos}
use nexo.Prelude.Sort.Pages.{last_or}
use nexo.Errcode.{Result, ok, err, wrap, with_message, err_invalid_param, err_store_failed}
use nexo.Store.{UserConversationRow, ListCursor}
use nexo.Store.Messages.{list_user_conversations}
use nexo.Store.Action.{Action, pure, raise, call, map_error, ◌>>=◌}
use nexo.Conv.{page_limit}
use nexo.Conv.Cursor.{encode_cursor, decode_cursor}

pub record Page : Type 0 where
  pub rows : List UserConversationRow
  pub next_cursor : Bytes
  pub has_more : Bool

abbrev pub cursor_of : UserConversationRow → ListCursor
cursor_of r = record { updated_at = pos r.uc.updated_at; conversation_id = r.uc.conversation_id }

-- What is made of `limit + 1` rows or fewer. The first `limit` of more than `limit` rows have a last.
unfoldable pub page_of : ℕ → List UserConversationRow → Page
page_of limit [] = record { rows = []; next_cursor = []; has_more = false }
page_of limit (r ∷ rest) =
    if leb (length (r ∷ rest)) limit
    then record { rows = r ∷ rest; next_cursor = []; has_more = false }
    else record {
      rows = take limit (r ∷ rest);
      next_cursor = encode_cursor (cursor_of (last_or r (take limit (r ∷ rest))));
      has_more = true;
    }

module _ {E S : Type 0} where
  -- `ListPage` after the cursor is read.
  unfoldable pub list_page_at : Bytes → ℤ → ℤ → Option ListCursor → Action E S Page
  list_page_at user_id limit page_max none =
      raise (with_message err_invalid_param (text "bad cursor"))
  list_page_at user_id limit page_max (some cur) = do
    rows ←
        map_error (wrap err_store_failed)
          (call (list_user_conversations user_id cur (page_limit limit page_max + 1)))
    pure (page_of (page_limit limit page_max) rows)

  -- `ListPage`
  unfoldable pub list_page : Bytes → Bytes → ℤ → ℤ → Action E S Page
  list_page user_id cursor limit page_max =
      list_page_at user_id limit page_max (decode_cursor cursor)
