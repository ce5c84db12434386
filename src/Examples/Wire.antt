-- ===== src/Examples/Wire.antt =====
-- A message that is too long for the bus, with an encoding of payloads that can be read back.
use nexo.Prelude.{
  ℕ, zero, suc, Bool, true, false, [], ◌∷◌, ◌++◌, Option, some, none, length, take, drop,
}
use nexo.Prelude.Bytes.{Bytes}
use nexo.Dto
use nexo.Message
use nexo.Store.{SessionType, single, group, unknown}
use nexo.Message.{Event, State}
use nexo.Message.Send.{push_event}
use nexo.Message.Bus.{PushPayload}
use nexo.Examples.Data.{message}

-- A string and its length before it.
put : Bytes → Bytes → Bytes
put s rest = length s ∷ s ++ rest

get {ℓ} : {R : Type ℓ} → (Bytes → Bytes → Option R) → Bytes → Option R
get f [] = none
get f (n ∷ raw) = f (take n raw) (drop n raw)

head_or : Bytes → ℕ
head_or [] = 0
head_or (n ∷ _) = n

kind_of : SessionType → ℕ
kind_of single = 0
kind_of group = 1
kind_of unknown = 2

kind_at : ℕ → SessionType
kind_at zero = single
kind_at (suc zero) = group
kind_at (suc (suc n)) = unknown

put_message : Dto.Message → Bytes
put_message m = put m.server_msg_id (
    put m.client_msg_id (
      put m.conversation_id (
        put (m.seq ∷ []) (
          put (kind_of m.session_type ∷ []) (
            put m.sender_id (
              put m.recv_id (
                put m.group_id
                  (put (m.content_type ∷ []) (put m.content (put (m.send_time ∷ []) []))))))))))

get_message : Bytes → Option Dto.Message
get_message = get (λ server_msg_id. get (λ client_msg_id. get (λ conversation_id. get (λ seq.
    get (λ kind. get (λ sender_id. get (λ recv_id. get (λ group_id. get (λ content_type.
      get (λ content. get (λ send_time rest. some (record {
        server_msg_id = server_msg_id;
        client_msg_id = client_msg_id;
        conversation_id = conversation_id;
        seq = head_or seq;
        session_type = kind_at (head_or kind);
        sender_id = sender_id;
        recv_id = recv_id;
        group_id = group_id;
        content_type = head_or content_type;
        content = content;
        send_time = head_or send_time;
      }))))))))))))

zeros : ℕ → Bytes
zeros zero = []
zeros (suc n) = 0 ∷ zeros n

-- A message takes so many bytes more than its fields.
put_some : ℕ → Option Dto.Message → Bytes
put_some pad none = []
put_some pad (some m) = 1 ∷ zeros pad ++ put_message m

whole : Option Dto.Message → Option (Option Dto.Message)
whole none = none
whole (some m) = some (some m)

get_some : ℕ → Bytes → Option (Option Dto.Message)
get_some pad [] = some none
get_some pad (_ ∷ raw) = whole (get_message (drop pad raw))

flag : Bool → ℕ
flag true = 1
flag false = 0

is_set : ℕ → Bool
is_set zero = false
is_set (suc n) = true

encode : ℕ → PushPayload → Bytes
encode pad p =
    (put p.conversation_id (
      put (p.seq ∷ []) (
        put (kind_of p.session_type ∷ []) (
          put p.sender_id (
            put p.sender_conn_id
              (put p.recv_id (put p.group_id (put (flag p.ref ∷ []) (put_some pad p.msg)))))))))

abbrev marshal : ℕ → PushPayload → Option Bytes
marshal pad p = some (encode pad p)

with_message : (Option Dto.Message → PushPayload) → Option (Option Dto.Message) → Option PushPayload
with_message f none = none
with_message f (some m) = some (f m)

unmarshal : ℕ → Bytes → Option PushPayload
unmarshal pad = get (λ conversation_id. get (λ seq. get (λ kind. get (λ sender_id.
    get (λ sender_conn_id. get (λ recv_id. get (λ group_id. get (λ ref rest.
      with_message
        (λ msg. record {
          conversation_id = conversation_id;
          seq = head_or seq;
          session_type = kind_at (head_or kind);
          sender_id = sender_id;
          sender_conn_id = sender_conn_id;
          recv_id = recv_id;
          group_id = group_id;
          ref = is_set (head_or ref);
          msg = msg;
        })
        (get_some pad rest)))))))))

abbrev event : Message.PushEvent
event = push_event (message 2) []
