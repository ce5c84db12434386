-- ===== src/Conversation/Listing.antt =====
-- internal/service/conversation/conversation.go: `List`.
use nexo.Prelude.{Bool, none, some, List, [], ◌∷◌, map, if◌then◌else◌}
use nexo.Prelude.Bytes.{Bytes}
use nexo.Prelude.Int.{ℤ}
use nexo.Prelude.Map.{Map, lookup, insert, bytes_eq}
use nexo.Errcode.{wrap, err_store_failed}
use nexo.Dto.{message_from_store}
use nexo.Conv.Page.{list_page}
use nexo.Store
use nexo.Store.{MessageKey}
use nexo.Store.Messages.{get_messages}
use nexo.Store.Action.{pure, call, map_error, ◌>>=◌}
use nexo.Conversation.{Item, item_from_row, last_message_key, M}

pub record ListResult : Type 0 where
  pub conversations : List Item
  pub next_cursor : Bytes
  pub has_more : Bool

-- The keys of the items that have a message to show.
unfoldable pub last_keys : List Item → List MessageKey
last_keys [] = []
last_keys (i ∷ items) =
    let rest = last_keys items in elim (last_message_key i) [ none ↦ rest | some k ↦ k ∷ rest ]

-- `lo.SliceToMap`: of two messages of one conversation the later one.
unfoldable pub by_conv : List Store.Message → Map Bytes Store.Message → Map Bytes Store.Message
by_conv [] out = out
by_conv (m ∷ ms) out = by_conv ms (insert m.conversation_id m out)

unfoldable pub filled : Map Bytes Store.Message → Item → Item
filled out i = elim (lookup i.conversation_id out) [
  | none ↦ i
  | some m ↦ record i { last_message = some (message_from_store m) }
]

module _ {S : Type 0} where
  unfoldable pub with_last_messages : List MessageKey → List Item → M S (List Item)
  with_last_messages [] items = pure items
  with_last_messages (k ∷ keys) items = do
    msgs ← map_error (wrap err_store_failed) (call (get_messages (k ∷ keys)))
    pure (map (filled (by_conv msgs [])) items)

  -- `List`
  unfoldable pub list : Bytes → Bytes → ℤ → ℤ → Bool → M S ListResult
  list user_id cursor limit page_max with_last_message = do
    page ← list_page user_id cursor limit page_max
    let items = map item_from_row page.rows
    conversations ← with_last_messages (if with_last_message then last_keys items else []) items
    pure (record {
      conversations = conversations;
      next_cursor = page.next_cursor;
      has_more = page.has_more;
    })
