-- ===== src/Store/Db.antt =====
-- internal/store/storetest/mem.go: the tables, as the maps and the slice of `Mem`.
use nexo.Prelude.{List, [], Option, none, some}
use nexo.Prelude.Bytes.{Bytes}
use nexo.Prelude.Map.{Map}
use nexo.Errcode.{Result, ok, err, not_found}
use nexo.Store.{User, Group, GroupMember, Conversation, UserConversation, Message, OnlineConn}

pub record Db : Type 0 where
  pub users : Map Bytes User
  pub groups : Map Bytes Group
  -- (group, user)
  pub members : Map (Bytes × Bytes) GroupMember
  pub convs : Map Bytes Conversation
  -- (owner, conversation)
  pub user_convs : Map (Bytes × Bytes) UserConversation
  pub messages : List Message
  pub online : Map Bytes OnlineConn

-- `NewMem`
abbrev pub new_mem : Db
new_mem = record {
  users = [];
  groups = [];
  members = [];
  convs = [];
  user_convs = [];
  messages = [];
  online = [];
}

-- One statement of the store: its result, and the tables after it.
abbrev pub Op : Type 0 → Type 0
Op A = Db → Result A × Db

-- A row that may be missing.
abbrev pub or_not_found : {A : Type 0} → Option A → Result A
or_not_found none = err not_found
or_not_found (some a) = ok a
