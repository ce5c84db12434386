-- ===== src/Message/Pull.antt =====
-- internal/service/message/message.go: `Pull`, `Recipients` and `VisibleTo`. The times that the
-- member cache reads during one call are one argument `now`.
pub mod Visible
pub mod Answer
use nexo.Prelude.{
  ℕ, suc, ◌+◌, min, Bool, true, false, ◌||◌, Option, none, some, List, [], ◌∷◌, map, take, length,
  ltb, if◌then◌else◌,
}
use nexo.Prelude.Bytes.{Bytes, text}
use nexo.Prelude.Int.{ℤ, pos, pos_part, ltb_ℤ}
use nexo.Errcode.{
  GoError, Result, ok, err, wrap, with_message, missing_as, err_invalid_param, err_no_permission,
  err_store_failed, err_message_pull_failed,
}
use nexo.Dto
use nexo.Dto.{message_from_store}
use nexo.Conv.{visible_range, page_limit}
use nexo.Store.{SessionType, single, group, unknown, UserConversationRow, GroupMember}
use nexo.Store
use nexo.Store.Groups.{list_group_members}
use nexo.Store.Conversations.{get_user_conversation_row, visible_owners}
use nexo.Store.Messages.{list_messages}
use nexo.Store.Action.{Action, pure, raise, call, map_error, with_service, ◌>>=◌, ◌>>◌}
use nexo.Message.{PushEvent, Event, State}
use nexo.Message.Members
use nexo.Message.Send.{M}

pub record PullInput : Type 0 where
  pub user_id : Bytes
  pub conversation_id : Bytes
  pub begin_seq : ℤ
  pub end_seq : ℤ
  pub limit : ℤ

pub record PullResult : Type 0 where
  pub messages : List Dto.Message
  pub has_more : Bool

-- At most `limit` of the rows that were read, and whether there was one more.
unfoldable pub page_of : ℕ → List Store.Message → PullResult
page_of limit rows = record {
  messages = map message_from_store (take (min (length rows) limit) rows);
  has_more = ltb limit (length rows);
}

module _ {Limiter : Type 0} where
  -- What follows the row read, for the bounds that it gives.
  unfoldable pub pull_range : Bytes → ℕ → ℕ × ℕ → M Limiter PullResult
  unfolding page_of
  pull_range conversation_id limit (begin_seq, end_seq) =
      if ltb end_seq begin_seq then pure (record { messages = []; has_more = false }) else (do
        rows ←
            map_error (wrap err_message_pull_failed)
              (call (list_messages conversation_id begin_seq end_seq (limit + 1)))
        pure (page_of limit rows))

  unfoldable pub pull : PullInput → ℤ → M Limiter PullResult
  unfolding pull_range
  pull i page_max =
      if ltb_ℤ i.begin_seq (pos 1) || ltb_ℤ i.end_seq i.begin_seq
      then raise (with_message err_invalid_param (text "need 1 <= begin_seq <= end_seq"))
      else (do
        row ←
            map_error (missing_as err_no_permission)
              (call (get_user_conversation_row i.user_id i.conversation_id))
        pull_range i.conversation_id (page_limit i.limit page_max)
            (visible_range row.uc row.conv_max_seq (pos_part i.begin_seq) (pos_part i.end_seq)))

  unfoldable pub roster_or_cached : Bytes → ℕ → Option (List Bytes) → M Limiter (List Bytes)
  roster_or_cached group_id now (some ids) = pure ids
  roster_or_cached group_id now none = do
    members ← map_error (wrap err_store_failed) (call (list_group_members group_id))
    let ids = map (λ (m : GroupMember). m.user_id) members
    with_service (λ s. (tt, record s { members = Members.set group_id ids now s.members }))
    pure ids

  unfoldable pub recipients_of : SessionType → PushEvent → ℕ → M Limiter (List Bytes)
  unfolding roster_or_cached
  recipients_of single ev now = pure (ev.sender_id ∷ ev.recv_id ∷ [])
  recipients_of _ ev now = do
    cached ←
        with_service
          (λ s. let (r, c) = Members.get ev.group_id now s.members in (r, record s { members = c }))
    roster_or_cached ev.group_id now cached

  unfoldable pub recipients : PushEvent → ℕ → M Limiter (List Bytes)
  unfolding recipients_of
  recipients ev now = recipients_of ev.session_type ev now

  unfoldable pub visible_to : Bytes → List Bytes → ℕ → M Limiter (List Bytes)
  visible_to conversation_id user_ids seq =
      map_error (wrap err_store_failed) (call (visible_owners conversation_id user_ids seq))

  -- `InvalidateGroup`
  unfoldable pub invalidate_group : Bytes → M Limiter (Unit {0})
  invalidate_group group_id =
      with_service (λ s. (tt, record s { members = Members.invalidate group_id s.members }))
