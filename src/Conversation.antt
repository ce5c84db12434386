-- ===== src/Conversation.antt =====
-- internal/service/conversation/conversation.go: what a user has read, and the conversation list.
pub mod Reading
pub mod Listing
use nexo.Prelude.{
  ℕ, ◌-◌, min, max, Bool, true, false, not, ◌&&◌, ◌||◌, Option, none, some, List, [], ◌∷◌, ltb, leb,
  ◌==◌ as nat_eq, if◌then◌else◌,
}
use nexo.Prelude.Bytes.{Bytes, text, ◌==◌}
use nexo.Prelude.Int.{ℤ, pos, negsuc, pos_part, ltb_ℤ}
use nexo.Errcode.{
  GoError, Result, ok, err, wrap, with_message, missing_as, err_invalid_param, err_no_permission,
  err_store_failed, err_conversation_not_found,
}
use nexo.Dto
use nexo.Dto.{message_from_store}
use nexo.Conv.{visible_max, single_id, group_conv_id}
use nexo.Store
use nexo.Store.{SessionType, UserConversationRow, MessageKey}
use nexo.Store.Conversations.{get_user_conversation_row, set_user_conversation_opt}
use nexo.Store.Messages.{get_messages, advance_read_seq}
use nexo.Store.Action.{Action, pure, raise, lift, call, map_error, emit, ◌>>=◌, ◌>>◌}

-- To the user's other connections; the reader's own is skipped.
pub record ReadEvent : Type 0 where
  pub user_id : Bytes
  pub reader_conn_id : Bytes
  pub conversation_id : Bytes
  pub read_seq : ℕ

pub record Item : Type 0 where
  pub conversation_id : Bytes
  pub type_of : SessionType
  pub peer_user_id : Bytes
  pub group_id : Bytes
  pub min_seq : ℕ
  pub max_seq : ℕ
  pub read_seq : ℕ
  pub unread : ℕ
  pub recv_msg_opt : ℕ
  pub is_pinned : Bool
  pub extra : Bytes
  pub updated_at : ℕ
  pub last_message : Option Dto.Message

-- `max(visibleMax-r.ReadSeq, 0)` is the subtraction that stops at 0.
unfoldable pub item_from_row : UserConversationRow → Item
item_from_row r = record {
  conversation_id = r.uc.conversation_id;
  type_of = r.uc.type_of;
  peer_user_id = r.uc.peer_user_id;
  group_id = r.uc.group_id;
  min_seq = r.uc.min_seq;
  max_seq = visible_max r.uc r.conv_max_seq;
  read_seq = r.uc.read_seq;
  unread = visible_max r.uc r.conv_max_seq - r.uc.read_seq;
  recv_msg_opt = r.uc.recv_msg_opt;
  is_pinned = r.uc.is_pinned;
  extra = r.uc.extra;
  updated_at = r.uc.updated_at;
  last_message = none;
}

-- The visible maximum, where the visible range holds a message.
unfoldable pub last_message_key : Item → Option MessageKey
last_message_key i =
    if ltb i.max_seq i.min_seq
    then none
    else some (record { conversation_id = i.conversation_id; seq = i.max_seq })

pub record GetKey : Type 0 where
  pub conversation_id : Bytes
  pub peer_user_id : Bytes
  pub group_id : Bytes

abbrev pub is_set : Bytes → Bool
is_set [] = false
is_set (_ ∷ _) = true

-- `lo.Count(…, true) == 1`
unfoldable pub exactly_one : Bool → Bool → Bool → Bool
exactly_one a b c = (a && not b && not c) || (not a && b && not c) || (not a && not b && c)

unfoldable pub resolve : GetKey → Bytes → Result Bytes
unfolding exactly_one
resolve k user_id =
    if not (exactly_one (is_set k.conversation_id) (is_set k.peer_user_id) (is_set k.group_id))
    then err (
        with_message err_invalid_param
          (text "exactly one of conversation_id, peer_user_id or group_id is required"))
    else if is_set k.conversation_id
    then ok k.conversation_id
    else if is_set k.group_id
    then ok (group_conv_id k.group_id)
    else if k.peer_user_id == user_id
    then err (with_message err_invalid_param (text "peer_user_id must not be the caller"))
    else ok (single_id user_id k.peer_user_id)

pub record Opt : Type 0 where
  pub recv_msg_opt : Option ℤ
  pub is_pinned : Option Bool

-- A preference that is given and is neither 0 nor 1.
unfoldable pub bad_opt : Option ℤ → Bool
bad_opt none = false
bad_opt (some (pos n)) = not (nat_eq n 0) && not (nat_eq n 1)
bad_opt (some (negsuc n)) = true

abbrev opt_value : Option ℤ → Option ℕ
opt_value none = none
opt_value (some n) = some (pos_part n)

abbrev pub M : Type 0 → Type 0 → Type 0
M S A = Action ReadEvent S A

unfoldable pub with_last : Item → List Store.Message → Item
with_last item [] = item
with_last item (m ∷ _) = record item { last_message = some (message_from_store m) }

module _ {S : Type 0} where
  -- The rest of `MarkRead`, for the row that was read.
  unfoldable pub advance_to : Bytes → Bytes → UserConversationRow → ℕ → M S ℕ
  advance_to user_id reader_conn_id row target =
      if leb target row.uc.read_seq then pure row.uc.read_seq else (do
        map_error (wrap err_store_failed)
            (call (advance_read_seq user_id row.uc.conversation_id target))
        emit (record {
          user_id = user_id;
          reader_conn_id = reader_conn_id;
          conversation_id = row.uc.conversation_id;
          read_seq = target;
        })
        pure target)

  unfoldable pub mark_read : Bytes → Bytes → Bytes → ℤ → M S ℕ
  unfolding advance_to
  mark_read user_id reader_conn_id conversation_id read_seq =
      if ltb_ℤ read_seq (pos 1)
      then raise (with_message err_invalid_param (text "read_seq must be >= 1"))
      else (do
        row ←
            map_error (missing_as err_no_permission)
              (call (get_user_conversation_row user_id conversation_id))
        advance_to user_id reader_conn_id row
            (min (pos_part read_seq) (visible_max row.uc row.conv_max_seq)))

  unfoldable pub fill_last : Item → Bool → Option MessageKey → M S Item
  unfolding with_last
  fill_last item with_last_message none = pure item
  fill_last item with_last_message (some k) = if not with_last_message then pure item else (do
    msgs ← map_error (wrap err_store_failed) (call (get_messages (k ∷ [])))
    pure (with_last item msgs))

  unfoldable pub get : Bytes → GetKey → Bool → M S Item
  unfolding fill_last
  get user_id key with_last_message = do
    conversation_id ← lift (resolve key user_id)
    row ←
        map_error (missing_as err_conversation_not_found)
          (call (get_user_conversation_row user_id conversation_id))
    let item = item_from_row row
    fill_last item with_last_message (last_message_key item)

  unfoldable pub set_opt : Bytes → Bytes → Opt → M S (Unit {0})
  unfolding bad_opt
  set_opt user_id conversation_id i =
      if bad_opt i.recv_msg_opt
      then raise (with_message err_invalid_param (text "recv_msg_opt must be 0 or 1"))
      else map_error (missing_as err_no_permission) (
          call (
            set_user_conversation_opt user_id conversation_id (opt_value i.recv_msg_opt)
              i.is_pinned))
