-- ===== src/Message/Send.antt =====
-- internal/service/message/message.go: `Send`. The time that the one call of `s.now()` on each path
-- reads is the argument `now`, and the new UUID is the argument `server_msg_id`.
pub mod Atomicity
pub mod Numbering
pub mod Commit
pub mod Sequence
pub mod Gapless
pub mod Insertion
pub mod Delivery
use nexo.Prelude.{
  ℕ, zero, suc, ◌+◌, Bool, true, false, not, ◌||◌, Option, none, some, List, [], ◌∷◌, ltb,
  ◌==◌ as nat_eq, if◌then◌else◌,
}
use nexo.Prelude.Bytes.{Bytes, text}
use nexo.Prelude.Int.{pos_part}
use nexo.Errcode.{
  GoError, Result, ok, err, rollback, plain, wrap, with_message, or_else, is_not_found, missing_as,
  err_store_failed, err_user_not_found, err_group_not_found, err_group_dismissed,
  err_not_group_member, err_too_many_requests, err_seq_alloc_failed, err_message_send_failed,
}
use nexo.Dto.{message_from_store}
use nexo.Conv.{single_id, group_conv_id}
use nexo.Store.{
  SessionType, single, group, unknown, Group, GroupStatus, group_normal, group_dismissed, Message,
  UserConversation, next_seq,
}
use nexo.Store.Users.{get_user}
use nexo.Store.Groups.{get_group, get_group_member}
use nexo.Store.Conversations.{lock_conversation}
use nexo.Store.Messages.{
  get_message_by_client_id, insert_message, set_conversation_max_seq, touch_user_conversation,
  touch_conversation_members, advance_read_seq,
}
use nexo.Store.Action.{
  Action, pure, raise, lift, call, attempt, map_error, with_service, emit, ◌>>=◌, ◌>>◌, with_tx,
}
use nexo.Ratelimit.{Limiters, allow}
use nexo.Message.{
  PushEvent, Event, push, offline_push, Config, State, SendInput, Ack, validate, is_group,
}

abbrev pub M : Type 0 → Type 0 → Type 0
M Limiter A = Action Event (State Limiter) A

unfoldable pub ack : Message → Ack
ack m = record {
  server_msg_id = m.server_msg_id;
  conversation_id = m.conversation_id;
  seq = m.seq;
  send_time = m.send_time;
}

unfoldable pub push_event : Message → Bytes → PushEvent
push_event msg sender_conn_id = record {
  conversation_id = msg.conversation_id;
  session_type = msg.session_type;
  sender_id = msg.sender_id;
  sender_conn_id = sender_conn_id;
  recv_id = msg.recv_id;
  group_id = msg.group_id;
  message = message_from_store msg;
}

-- The conversation, the input with the stored spelling of its destination, and the group read.
pub record Destination : Type 0 where
  pub conversation_id : Bytes
  pub input : SendInput
  pub group_row : Option Group

-- The row that the send's lock returned, and the message that the transaction inserts.
unfoldable pub new_message : Bytes → Bytes → SendInput → ℕ → ℕ → Message
new_message conversation_id server_msg_id i seq now = record {
  conversation_id = conversation_id;
  seq = seq;
  server_msg_id = server_msg_id;
  client_msg_id = i.client_msg_id;
  sender_id = i.sender_id;
  recv_id = i.recv_id;
  group_id = i.group_id;
  session_type = i.session_type;
  content_type = pos_part i.content_type;
  content = i.content;
  send_time = now;
  created_at = now;
}

-- The row that a touch of one party's list inserts where it is missing.
unfoldable pub party_row : Bytes → Bytes → Bytes → SessionType → ℕ → UserConversation
party_row owner peer conversation_id t now = record {
  owner_id = owner;
  conversation_id = conversation_id;
  type_of = t;
  peer_user_id = peer;
  group_id = [];
  min_seq = 0;
  max_seq = 0;
  read_seq = 0;
  recv_msg_opt = 0;
  is_pinned = false;
  extra = [];
  updated_at = now;
  created_at = 0;
}

-- What `checkGroupSend` makes of an error of the member read.
abbrev pub not_member_as : GoError → GoError
not_member_as e = if is_not_found e then plain err_not_group_member else e

abbrev is_ok : Result (Unit {0}) → Bool
is_ok (ok _) = true
is_ok (err _) = false

module _ {Limiter : Type 0} where
  unfoldable pub destination_of : SendInput → SessionType → M Limiter Destination
  destination_of i single = do
    u ← map_error (missing_as err_user_not_found) (call (get_user i.recv_id))
    pure (record {
      conversation_id = single_id i.sender_id u.id;
      input = record i { recv_id = u.id; group_id = [] };
      group_row = none;
    })
  destination_of i _ = do
    g ← map_error (missing_as err_group_not_found) (call (get_group i.group_id))
    pure (record {
      conversation_id = group_conv_id g.id;
      input = record i { group_id = g.id; recv_id = [] };
      group_row = some g;
    })

  -- `normalizeDestination`
  unfoldable pub normalize_destination : SendInput → M Limiter Destination
  unfolding destination_of
  normalize_destination i = destination_of i i.session_type

  unfoldable pub check_member : GroupStatus → Bytes → Bytes → M Limiter (Unit {0})
  check_member group_dismissed group_id user_id = raise (plain err_group_dismissed)
  check_member group_normal group_id user_id = do
    m ← map_error not_member_as (call (get_group_member group_id user_id))
    pure tt

  -- `checkGroupSend`
  unfoldable pub check_group_send : Group → Bytes → M Limiter (Unit {0})
  unfolding check_member
  check_group_send g user_id = check_member g.status g.id user_id

  -- `checkMembership`
  unfoldable pub check_membership : Bytes → Bytes → M Limiter (Unit {0})
  unfolding check_group_send
  check_membership group_id user_id = do g ← call (get_group group_id); check_group_send g user_id

  unfoldable pub allowed_by : Option Group → Bytes → M Limiter Bool
  unfolding check_group_send
  allowed_by none user_id = pure true
  allowed_by (some g) user_id = do r ← attempt (check_group_send g user_id); pure (is_ok r)

  -- `republishAllowed`: any error denies. Only a group chat has a group row.
  unfoldable pub republish_allowed : Destination → M Limiter Bool
  unfolding allowed_by
  republish_allowed d =
      if is_group d.input.session_type then allowed_by d.group_row d.input.sender_id else pure true

  unfoldable pub publish : Message → Bytes → M Limiter (Unit {0})
  publish msg sender_conn_id = emit (push (push_event msg sender_conn_id))

  unfoldable pub republish : Message → Bytes → M Limiter (Unit {0})
  unfolding publish
  republish msg sender_conn_id = do
    with_service (λ s. (tt, record s { republished = s.republished + 1 }))
    publish msg sender_conn_id

module _ {Limiter : Type 0} (lib : Limiters Limiter) where
  -- `s.sendLimit.Allow`, not asked for the internal channel
  unfoldable pub take_token : SendInput → ℕ → M Limiter Bool
  take_token i now =
      if i.unlimited
      then pure true
      else with_service (λ s.
        let (r, k) = allow lib i.sender_id now s.send_limit in (r, record s { send_limit = k }))

  -- A retry: the committed ack, and the message once more if the sender may still send it.
  unfoldable pub retried : ℕ → Destination → Message → M Limiter Ack
  unfolding take_token
  retried now d m = do
    allowed ← republish_allowed d
    if allowed
        then (do
          token ← take_token d.input now
          if token then republish m d.input.sender_conn_id else pure tt)
        else pure tt
    pure (ack m)

module _ {Limiter : Type 0} where
  -- `touchConversations`
  unfoldable pub touch_conversations :
      SendInput → SessionType → Bytes → ℕ → ℕ → M Limiter (Unit {0})
  touch_conversations i single conversation_id seq now = do
    call (
        touch_user_conversation (party_row i.sender_id i.recv_id conversation_id i.session_type now)
          (if i.sender_read then seq else 0))
    call (
        touch_user_conversation (party_row i.recv_id i.sender_id conversation_id i.session_type now)
          0)
  touch_conversations i _ conversation_id seq now = do
    call (touch_conversation_members conversation_id now)
    let sender_read = (if i.sender_read then seq else 0)
    if nat_eq sender_read 0
        then pure tt
        else call (advance_read_seq i.sender_id conversation_id sender_read)

  unfoldable pub inserted_or_rollback : SendInput → Bytes → Message → ℕ → Bool → M Limiter Message
  unfolding touch_conversations
  inserted_or_rollback i conversation_id msg now false = raise rollback
  inserted_or_rollback i conversation_id msg now true = do
    call (set_conversation_max_seq conversation_id msg.seq now)
    touch_conversations i i.session_type conversation_id msg.seq now
    pure msg

  -- The callback of `WithTx`. A timestamp never falls behind the conversation's.
  unfoldable pub send_body : Bytes → Bytes → ℕ → SendInput → M Limiter Message
  unfolding inserted_or_rollback
  send_body conversation_id server_msg_id arrived i = do
    c ← call (lock_conversation conversation_id i.session_type i.group_id arrived)
    if is_group i.session_type then check_membership i.group_id i.sender_id else pure tt
    let now = (if ltb arrived c.updated_at then c.updated_at else arrived)
    let msg = new_message conversation_id server_msg_id i (next_seq c.max_seq) now
    inserted ← call (insert_message msg)
    inserted_or_rollback i conversation_id msg now inserted

  -- The row of the send that came first, where the insert found a duplicate. None under this client
  -- id means that a seq or a server id collided.
  unfoldable pub duplicated : Destination → M Limiter Ack
  duplicated d = do
    m ←
        map_error
          (λ e. if is_not_found e then wrap err_seq_alloc_failed e else wrap err_store_failed e)
          (call
            (get_message_by_client_id d.conversation_id d.input.sender_id d.input.client_msg_id))
    republish m d.input.sender_conn_id
    pure (ack m)

  unfoldable pub after_tx : Config → Destination → Result Message → M Limiter Ack
  unfolding duplicated
  after_tx cfg d (ok msg) = do
    publish msg d.input.sender_conn_id
    if cfg.has_pusher then emit (offline_push (push_event msg d.input.sender_conn_id)) else pure tt
    pure (ack msg)
  after_tx cfg d (err rollback) = duplicated d
  after_tx cfg d (err e) = raise (or_else e err_message_send_failed)

module _ {Limiter : Type 0} (lib : Limiters Limiter) (cfg : Config) where
  unfoldable pub send_new : ℕ → Bytes → Destination → M Limiter Ack
  unfolding take_token after_tx
  send_new now server_msg_id d = do
    token ← take_token lib d.input now
    if token
        then (do
          r ← attempt (with_tx (send_body d.conversation_id server_msg_id now d.input))
          after_tx cfg d r)
        else raise (with_message err_too_many_requests (text "message send rate limit"))

  unfoldable pub after_lookup : ℕ → Bytes → Destination → Result Message → M Limiter Ack
  unfolding send_new retried
  after_lookup now server_msg_id d (ok m) = retried lib now d m
  after_lookup now server_msg_id d (err e) =
      if is_not_found e then send_new now server_msg_id d else raise (wrap err_store_failed e)

  unfoldable pub send : ℕ → Bytes → SendInput → M Limiter Ack
  unfolding after_lookup
  send now server_msg_id i = do
    lift (validate cfg i)
    d ← normalize_destination i
    r ←
        attempt (
          call (get_message_by_client_id d.conversation_id d.input.sender_id d.input.client_msg_id))
    after_lookup now server_msg_id d r
