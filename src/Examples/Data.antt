-- ===== src/Examples/Data.antt =====
-- Two users, a group of three, and a limiter that counts down from its burst.
use nexo.Prelude.{ℕ, ◌-◌, true, false, [], ◌∷◌, leb}
use nexo.Prelude.Bytes.{Bytes}
use nexo.Prelude.Int.{pos, pos_part}
use nexo.Store
use nexo.Store.{
  User, GroupMember, Conversation, UserConversation, single, group, group_normal, role_member,
  role_admin, role_owner,
}
use nexo.Store.Db.{Db}
use nexo.Store.Action.{World}
use nexo.Ratelimit.{Limiters, Keyed}
use nexo.Message
use nexo.Message.{SendInput}
use nexo.Group

abbrev pub alice : Bytes
alice = b'u' ∷ b'_' ∷ b'_' ∷ b'_' ∷ b'1' ∷ []

abbrev pub bob : Bytes
bob = b'u' ∷ b'_' ∷ b'_' ∷ b'_' ∷ b'2' ∷ []

abbrev pub carol : Bytes
carol = b'u' ∷ b'_' ∷ b'_' ∷ b'_' ∷ b'3' ∷ []

-- `single_id alice bob`
abbrev pub chat : Bytes
chat =
    b's' ∷ b'i' ∷ b'_' ∷ b'u' ∷ b'_' ∷ b'_' ∷ b'_' ∷ b'1' ∷ b':' ∷ b'u' ∷ b'_' ∷ b'_' ∷ b'_' ∷ b'2'
    ∷ []

abbrev pub team : Bytes
team = b'g' ∷ b'1' ∷ []

-- `group_conv_id team`
abbrev pub team_chat : Bytes
team_chat = b's' ∷ b'g' ∷ b'_' ∷ b'g' ∷ b'1' ∷ []

abbrev pub user : Bytes → User
user id = record {
  id = id;
  username = id;
  password_hash = [];
  nickname = [];
  avatar = [];
  extra = [];
  created_at = 1;
  updated_at = 1;
}

abbrev pub team_group : Store.Group
team_group = record {
  id = team;
  name = team;
  avatar = [];
  introduction = [];
  owner_id = alice;
  status = group_normal;
  extra = [];
  created_at = 1;
  updated_at = 1;
}

abbrev pub member : Bytes → ℕ → GroupMember
member id role = record {
  group_id = team;
  user_id = id;
  role = role;
  nickname = [];
  inviter_user_id = [];
  joined_at = 1;
}

abbrev pub member_view : Bytes → UserConversation
member_view id = record {
  owner_id = id;
  conversation_id = team_chat;
  type_of = group;
  peer_user_id = [];
  group_id = team;
  min_seq = 1;
  max_seq = 0;
  read_seq = 0;
  recv_msg_opt = 0;
  is_pinned = false;
  extra = [];
  updated_at = 1;
  created_at = 1;
}

abbrev pub message : ℕ → Store.Message
message n = record {
  conversation_id = team_chat;
  seq = n;
  server_msg_id = b'm' ∷ n ∷ [];
  client_msg_id = b'c' ∷ n ∷ [];
  sender_id = alice;
  recv_id = [];
  group_id = team;
  session_type = group;
  content_type = 1;
  content = [];
  send_time = n;
  created_at = n;
}

-- Alice owns the team of alice and bob, which has two messages; carol is no member.
abbrev pub tables : Db
tables = record {
  users = (alice, user alice) ∷ (bob, user bob) ∷ (carol, user carol) ∷ [];
  groups = (team, team_group) ∷ [];
  members = ((team, alice), member alice role_owner) ∷ ((team, bob), member bob role_member) ∷ [];
  convs =
      (
        team_chat,
        record {
          conversation_id = team_chat;
          type_of = group;
          group_id = team;
          max_seq = 2;
          created_at = 1;
          updated_at = 2;
        },
      )
      ∷ [];
  user_convs = ((alice, team_chat), member_view alice) ∷ ((bob, team_chat), member_view bob) ∷ [];
  messages = message 1 ∷ message 2 ∷ [];
  online = [];
}

-- A limiter is the number of events left.
abbrev pub lib : Limiters ℕ
lib = record {
  new_limiter = λ rate burst. pos_part burst;
  allow = λ now left. (leb 1 left, left - 1);
}

abbrev pub limiter : Keyed ℕ
limiter = record {
  rate = pos 60;
  burst = pos 5;
  capacity = 2;
  entries = [];
  overflow = 5;
  swept = 0;
}

abbrev pub config : Message.Config
config = record {
  json_ok = λ content. true;
  uuid_ok = λ id. true;
  max_content = 100;
  has_pusher = true;
}

-- No statement fails.
abbrev pub message_world : World Message.Event (Message.State ℕ)
message_world = record {
  db = tables;
  faults = [];
  events = [];
  service = record {
    send_limit = limiter;
    republished = 0;
    members = record { ttl = 10; entries = [] };
  };
}

abbrev pub group_config : Group.Config
group_config = record { uuid_ok = λ id. true; max_members = 3 }

abbrev pub group_world : World Group.Event ℕ
group_world = record { db = tables; faults = []; events = []; service = 0 }

abbrev pub input : SendInput
input = record {
  sender_id = alice;
  sender_conn_id = [];
  client_msg_id = b'x' ∷ [];
  session_type = single;
  recv_id = bob;
  group_id = [];
  content_type = pos 1;
  content = b'1' ∷ [];
  sender_read = true;
  unlimited = false;
}

abbrev pub new_id : Bytes
new_id = b'i' ∷ b'd' ∷ []
