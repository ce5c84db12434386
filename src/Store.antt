-- ===== src/Store.antt =====
-- internal/store/store.go: the rows that the services keep. Times are unix milliseconds, and the
-- seqs and counters of the rows are the non-negative values of their int64 columns.
pub mod Db
pub mod Users
pub mod Groups
pub mod Conversations
pub mod Messages
pub mod Online
pub mod Lock
pub mod Action
use nexo.Prelude.{ℕ, ◌+◌, ◌%◌, ◌^◌, ◌<◌, ◌≡◌, Bool, [], arith}
use nexo.Prelude.Bytes.{Bytes}
use nexo.Prelude.Int.{ℤ, pos}

abbrev pub max_extra_bytes : ℕ
max_extra_bytes = 65535

abbrev pub max_int64 : ℕ
max_int64 = 9223372036854775807

-- `max_seq + 1` on int64, as a bit pattern: at `max_int64` it leaves the non-negative range.
unfoldable pub next_seq : ℕ → ℕ
next_seq n = (n + 1) % 2 ^ 64

pub next_seq_lem : (n : ℕ) → n < max_int64 → next_seq n ≡ n + 1
unfolding next_seq
next_seq_lem n h = omega arith

pub record User : Type 0 where
  pub id : Bytes
  pub username : Bytes
  pub password_hash : Bytes
  pub nickname : Bytes
  pub avatar : Bytes
  pub extra : Bytes
  pub created_at : ℕ
  pub updated_at : ℕ

pub data GroupStatus : Type 0 where
  group_normal group_dismissed : GroupStatus

abbrev pub role_member : ℕ
role_member = 1

abbrev pub role_admin : ℕ
role_admin = 2

abbrev pub role_owner : ℕ
role_owner = 3

-- `session_type` and `type` columns: 1 and 2, and what a client may send besides.
pub data SessionType : Type 0 where
  single group unknown : SessionType

pub record Group : Type 0 where
  pub id : Bytes
  pub name : Bytes
  pub avatar : Bytes
  pub introduction : Bytes
  pub owner_id : Bytes
  pub status : GroupStatus
  pub extra : Bytes
  pub created_at : ℕ
  pub updated_at : ℕ

pub record GroupMember : Type 0 where
  pub group_id : Bytes
  pub user_id : Bytes
  pub role : ℕ
  pub nickname : Bytes
  pub inviter_user_id : Bytes
  pub joined_at : ℕ

pub record Conversation : Type 0 where
  pub conversation_id : Bytes
  pub type_of : SessionType
  pub group_id : Bytes
  pub max_seq : ℕ
  pub created_at : ℕ
  pub updated_at : ℕ

-- `max_seq` 0 is "no upper bound".
pub record UserConversation : Type 0 where
  pub owner_id : Bytes
  pub conversation_id : Bytes
  pub type_of : SessionType
  pub peer_user_id : Bytes
  pub group_id : Bytes
  pub min_seq : ℕ
  pub max_seq : ℕ
  pub read_seq : ℕ
  pub recv_msg_opt : ℕ
  pub is_pinned : Bool
  pub extra : Bytes
  pub updated_at : ℕ
  pub created_at : ℕ

pub record OnlineConn : Type 0 where
  pub conn_id : Bytes
  pub user_id : Bytes
  pub platform_id : ℕ
  pub node_id : Bytes
  pub heartbeat_at : ℕ

pub record Message : Type 0 where
  pub conversation_id : Bytes
  pub seq : ℕ
  pub server_msg_id : Bytes
  pub client_msg_id : Bytes
  pub sender_id : Bytes
  pub recv_id : Bytes
  pub group_id : Bytes
  pub session_type : SessionType
  pub content_type : ℕ
  pub content : Bytes
  pub send_time : ℕ
  pub created_at : ℕ

pub record MessageKey : Type 0 where
  pub conversation_id : Bytes
  pub seq : ℕ

pub record UserConversationRow : Type 0 where
  pub uc : UserConversation
  pub conv_max_seq : ℕ

pub record ListCursor : Type 0 where
  pub updated_at : ℤ
  pub conversation_id : Bytes

-- `time.Date(9999, 1, 1, 0, 0, 0, 0, time.UTC)` in unix milliseconds.
abbrev pub first_page : ListCursor
first_page = record { updated_at = pos 253370764800000; conversation_id = [] }
