-- ===== src/Message/Sync.antt =====
-- internal/service/message/message.go: `MaxSeqs`, from which a client syncs.
use nexo.Prelude.{ℕ, Bool, List, map}
use nexo.Prelude.Bytes.{Bytes}
use nexo.Prelude.Int.{ℤ}
use nexo.Conv.{visible_max}
use nexo.Conv.Page.{list_page}
use nexo.Store.{UserConversationRow}
use nexo.Store.Action.{pure, ◌>>=◌}
use nexo.Message.Send.{M}

pub record MaxSeqItem : Type 0 where
  pub conversation_id : Bytes
  pub max_seq : ℕ
  pub min_seq : ℕ
  pub read_seq : ℕ

pub record MaxSeqsResult : Type 0 where
  pub items : List MaxSeqItem
  pub next_cursor : Bytes
  pub has_more : Bool

unfoldable pub max_seq_item : UserConversationRow → MaxSeqItem
max_seq_item r = record {
  conversation_id = r.uc.conversation_id;
  max_seq = visible_max r.uc r.conv_max_seq;
  min_seq = r.uc.min_seq;
  read_seq = r.uc.read_seq;
}

module _ {Limiter : Type 0} where
  -- `MaxSeqs`
  unfoldable pub max_seqs : Bytes → Bytes → ℤ → ℤ → M Limiter MaxSeqsResult
  max_seqs user_id cursor limit page_max = do
    page ← list_page user_id cursor limit page_max
    pure (record {
      items = map max_seq_item page.rows;
      next_cursor = page.next_cursor;
      has_more = page.has_more;
    })
