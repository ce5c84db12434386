-- ===== src/Dto.antt =====
-- internal/service/dto/message.go: the message as responses and pushes show it.
use nexo.Prelude.{ℕ, Bool, Option, none, some, not}
use nexo.Prelude.Bytes.{Bytes}
use nexo.Store
use nexo.Store.{SessionType}

pub record Message : Type 0 where
  pub server_msg_id : Bytes
  pub client_msg_id : Bytes
  pub conversation_id : Bytes
  pub seq : ℕ
  pub session_type : SessionType
  pub sender_id : Bytes
  pub recv_id : Bytes
  pub group_id : Bytes
  pub content_type : ℕ
  pub content : Bytes
  pub send_time : ℕ

unfoldable pub message_from_store : Store.Message → Message
message_from_store m = record {
  server_msg_id = m.server_msg_id;
  client_msg_id = m.client_msg_id;
  conversation_id = m.conversation_id;
  seq = m.seq;
  session_type = m.session_type;
  sender_id = m.sender_id;
  recv_id = m.recv_id;
  group_id = m.group_id;
  content_type = m.content_type;
  content = m.content;
  send_time = m.send_time;
}

-- `SendRequest.SenderReadFor`: the field if it was sent, and else whether the client sent it.
unfoldable pub sender_read_for : Option Bool → Bool → Bool
sender_read_for (some b) internal = b
sender_read_for none internal = not internal
