-- ===== src/Message.antt =====
-- internal/service/message/message.go: the message service, its input and its state. The checks of
-- `encoding/json` and of the `uuid` package are the parameters `json_ok` and `uuid_ok` of `Config`.
pub mod Members
pub mod Send
pub mod Pull
pub mod Offline
pub mod Bus
pub mod Sync
use nexo.Prelude.{
  ℕ, zero, suc, ◌≤◌, Bool, true, false, ◌&&◌, ◌||◌, not, Option, none, some, List, [], ◌∷◌, length,
  ltb, leb, ◌==◌ as nat_eq, if◌then◌else◌,
}
use mathlib.Core.List.{reverse}
use nexo.Prelude.Bytes.{Bytes, ◌==◌, text}
use nexo.Prelude.Int.{ℤ, pos, negsuc}
use nexo.Errcode.{
  Result, ok, err, with_message, plain, err_invalid_param, err_message_content_too_long,
}
use nexo.Dto
use nexo.Identity.{is_valid_id}
use nexo.Store.{SessionType, single, group, unknown}
use nexo.Ratelimit.{Keyed}
use nexo.Message.Members.{MemberCache}

pub record PushEvent : Type 0 where
  pub conversation_id : Bytes
  pub session_type : SessionType
  pub sender_id : Bytes
  pub sender_conn_id : Bytes
  pub recv_id : Bytes
  pub group_id : Bytes
  pub message : Dto.Message

-- What leaves the service: a message on the bus, and the background job of its offline push.
pub data Event : Type 0 where
  push : PushEvent → Event
  offline_push : PushEvent → Event

pub record Config : Type 0 where
  pub json_ok : Bytes → Bool
  pub uuid_ok : Bytes → Bool
  pub max_content : ℕ
  -- a pusher is set
  pub has_pusher : Bool

pub record State (Limiter : Type 0) : Type 0 where
  pub send_limit : Keyed Limiter
  pub republished : ℕ
  pub members : MemberCache

pub record SendInput : Type 0 where
  pub sender_id : Bytes
  pub sender_conn_id : Bytes
  pub client_msg_id : Bytes
  pub session_type : SessionType
  pub recv_id : Bytes
  pub group_id : Bytes
  pub content_type : ℤ
  pub content : Bytes
  pub sender_read : Bool
  -- the internal channel has no send limit
  pub unlimited : Bool

pub record Ack : Type 0 where
  pub server_msg_id : Bytes
  pub conversation_id : Bytes
  pub seq : ℕ
  pub send_time : ℕ

-- `msgbody.ValidType`
unfoldable pub valid_type : ℤ → Bool
valid_type (pos t) = (leb 1 t && leb t 5) || nat_eq t 100
valid_type (negsuc _) = false

-- The last character is white space of `unicode.IsSpace`, in UTF-8, read from the last byte on.
unfoldable pub is_space_ending : Bytes → Bool
is_space_ending [] = false
is_space_ending (a ∷ []) = (leb 9 a && leb a 13) || nat_eq a 32
is_space_ending (a ∷ b ∷ []) =
    (leb 9 a && leb a 13) || nat_eq a 32 || ((nat_eq a 0x85 || nat_eq a 0xa0) && nat_eq b 0xc2)
is_space_ending (a ∷ b ∷ c ∷ _) =
    (leb 9 a && leb a 13)
    || nat_eq a 32
    || ((nat_eq a 0x85 || nat_eq a 0xa0) && nat_eq b 0xc2)
    || (nat_eq a 0x80 && nat_eq b 0x9a && nat_eq c 0xe1)
    || (((leb 0x80 a && leb a 0x8a) || nat_eq a 0xa8 || nat_eq a 0xa9 || nat_eq a 0xaf)
        && nat_eq b 0x80
        && nat_eq c 0xe2)
    || (nat_eq a 0x9f && nat_eq b 0x81 && nat_eq c 0xe2)
    || (nat_eq a 0x80 && nat_eq b 0x80 && nat_eq c 0xe3)

-- `strings.TrimRightFunc(s, unicode.IsSpace) != s`
unfoldable pub ends_in_space : Bytes → Bool
unfolding is_space_ending
ends_in_space s = is_space_ending (reverse s)

abbrev pub is_single : SessionType → Bool
is_single single = true
is_single _ = false

abbrev pub is_group : SessionType → Bool
is_group group = true
is_group _ = false

unfoldable pub validate : Config → SendInput → Result (Unit {0})
unfolding ends_in_space valid_type
validate cfg i =
    if i.client_msg_id == [] || ltb 64 (length i.client_msg_id)
    then err (with_message err_invalid_param (text "client_msg_id: 1-64 bytes"))
    else if ends_in_space i.client_msg_id
    then err (with_message err_invalid_param (text "client_msg_id must not end in whitespace"))
    else if is_single i.session_type && not (is_valid_id cfg.uuid_ok i.recv_id)
    then err (with_message err_invalid_param (text "recv_id is required for single chat"))
    else if is_single i.session_type && i.recv_id == i.sender_id
    then err (with_message err_invalid_param (text "cannot message yourself"))
    else if is_group i.session_type && i.group_id == []
    then err (with_message err_invalid_param (text "group_id is required for group chat"))
    else if not (is_single i.session_type) && not (is_group i.session_type)
    then err (with_message err_invalid_param (text "session_type must be 1 or 2"))
    else if not (valid_type i.content_type)
    then err (with_message err_invalid_param (text "unknown content_type"))
    else if ltb cfg.max_content (length i.content)
    then err (plain err_message_content_too_long)
    else if not (cfg.json_ok i.content)
    then err (with_message err_invalid_param (text "content must be a JSON value"))
    else ok tt
