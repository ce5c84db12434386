-- ===== src/Message/Bus.antt =====
-- internal/service/message/bus.go: a message on its way between nodes. `marshal` stands for the JSON
-- encoder, which may fail.
pub mod Found
pub mod Resolved
use nexo.Prelude.{
  ℕ, Bool, true, false, Option, none, some, List, [], ◌∷◌, length, ltb, if◌then◌else◌,
}
use nexo.Prelude.Bytes.{Bytes, text}
use nexo.Errcode
use nexo.Errcode.{GoError, wrapped, failure, wrap, err_store_failed, err_message_not_found}
use nexo.Dto
use nexo.Dto.{message_from_store}
use nexo.Store
use nexo.Store.{SessionType, MessageKey}
use nexo.Store.Messages.{get_messages}
use nexo.Store.Action.{Action, pure, raise, call, map_error, ◌>>=◌}
use nexo.Message.{PushEvent}
use nexo.Message.Send.{M}

-- `bus.MaxPayloadBytes`
abbrev pub max_payload_bytes : ℕ
max_payload_bytes = 7500

pub record PushPayload : Type 0 where
  pub conversation_id : Bytes
  pub seq : ℕ
  pub session_type : SessionType
  pub sender_id : Bytes
  pub sender_conn_id : Bytes
  pub recv_id : Bytes
  pub group_id : Bytes
  pub ref : Bool
  pub msg : Option Dto.Message

unfoldable pub payload_of : PushEvent → PushPayload
payload_of ev = record {
  conversation_id = ev.conversation_id;
  seq = ev.message.seq;
  session_type = ev.session_type;
  sender_id = ev.sender_id;
  sender_conn_id = ev.sender_conn_id;
  recv_id = ev.recv_id;
  group_id = ev.group_id;
  ref = false;
  msg = some ev.message;
}

abbrev pub as_ref : PushPayload → PushPayload
as_ref p = record p { ref = true; msg = none }

abbrev pub too_big : Option Bytes → Bool
too_big none = false
too_big (some raw) = ltb max_payload_bytes (length raw)

-- `Publish`: the bytes that are put on the bus; `none` where nothing could be encoded.
unfoldable pub publish : (PushPayload → Option Bytes) → PushEvent → Option Bytes
publish marshal ev =
    let p = payload_of ev in if too_big (marshal p) then marshal (as_ref p) else marshal p

abbrev pub event_of : PushPayload → Dto.Message → PushEvent
event_of p m = record {
  conversation_id = p.conversation_id;
  session_type = p.session_type;
  sender_id = p.sender_id;
  sender_conn_id = p.sender_conn_id;
  recv_id = p.recv_id;
  group_id = p.group_id;
  message = m;
}

module _ {Limiter : Type 0} where
  -- The first of the rows that were read.
  unfoldable pub resolved : PushPayload → List Store.Message → M Limiter PushEvent
  resolved p [] =
      raise (wrap err_message_not_found (wrapped (text "push ref not found") Errcode.nil))
  resolved p (m ∷ _) = pure (event_of p (message_from_store m))

  -- `ResolvePush`
  unfoldable pub resolve_push : PushPayload → M Limiter PushEvent
  resolve_push p = elim p.msg [
    | some m ↦ pure (event_of p m)
    | none ↦ do
      msgs ←
          map_error (wrap err_store_failed)
            (call (get_messages (record { conversation_id = p.conversation_id; seq = p.seq } ∷ [])))
      resolved p msgs
  ]
