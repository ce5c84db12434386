-- ===== src/Store/Messages.antt =====
-- internal/store/storetest/mem_message.go: messages, and what a new one does to the other tables.
use nexo.Prelude.{
  ℕ, max, List, [], ◌∷◌, ◌++◌, map, Bool, true, false, ◌||◌, ◌&&◌, not, Option, none, some, keep,
  find, any, take, ltb, leb, ◌==◌ as nat_eq, if◌then◌else◌,
}
use nexo.Prelude.Bytes.{Bytes, ◌==◌, lt}
use nexo.Prelude.Int.{pos, ltb_ℤ}
use nexo.Prelude.Map.{lookup, insert, bytes_eq, pair_eq}
use nexo.Prelude.Sort.{sort_by}
use nexo.Errcode.{ok}
use nexo.Store.{
  unknown, Conversation, UserConversation, UserConversationRow, Message, MessageKey, ListCursor,
}
use nexo.Store.Db.{Db, Op, or_not_found}

unfoldable pub is_retry_of : Bytes → Bytes → Bytes → Message → Bool
is_retry_of conversation_id sender_id client_msg_id msg =
    msg.conversation_id == conversation_id
    && msg.sender_id == sender_id
    && msg.client_msg_id == client_msg_id

unfoldable pub get_message_by_client_id : Bytes → Bytes → Bytes → Op Message
unfolding is_retry_of
get_message_by_client_id conversation_id sender_id client_msg_id db =
    (or_not_found (find (is_retry_of conversation_id sender_id client_msg_id) db.messages), db)

-- One of the unique keys of the table is taken by `cur`.
unfoldable pub conflicts : Message → Message → Bool
conflicts msg cur =
    cur.server_msg_id == msg.server_msg_id
    || (cur.conversation_id == msg.conversation_id
        && (nat_eq cur.seq msg.seq
            || (cur.sender_id == msg.sender_id && cur.client_msg_id == msg.client_msg_id)))

-- `false` is a duplicate, and nothing is written.
unfoldable pub insert_message : Message → Op Bool
unfolding conflicts
insert_message msg db =
    if any (conflicts msg) db.messages
    then (ok false, db)
    else (ok true, record db { messages = db.messages ++ msg ∷ [] })

abbrev pub zero_conversation : Conversation
zero_conversation = record {
  conversation_id = [];
  type_of = unknown;
  group_id = [];
  max_seq = 0;
  created_at = 0;
  updated_at = 0;
}

-- A map read of a missing key is the zero value.
unfoldable pub or_zero : Option Conversation → Conversation
or_zero none = zero_conversation
or_zero (some c) = c

-- `m.convs[id].MaxSeq`
unfoldable pub max_seq_of : Bytes → Db → ℕ
unfolding or_zero
max_seq_of id db = (or_zero (lookup id db.convs)).max_seq

unfoldable pub set_conversation_max_seq : Bytes → ℕ → ℕ → Op (Unit {0})
unfolding or_zero
set_conversation_max_seq id max_seq now db = (
  ok tt,
  record db {
    convs =
        insert id (record (or_zero (lookup id db.convs)) { max_seq = max_seq; updated_at = now })
          db.convs;
  },
)

unfoldable pub in_range : Bytes → ℕ → ℕ → Message → Bool
in_range id begin_seq end_seq msg =
    msg.conversation_id == id && leb begin_seq msg.seq && leb msg.seq end_seq

unfoldable pub list_messages : Bytes → ℕ → ℕ → ℕ → Op (List Message)
unfolding in_range
list_messages id begin_seq end_seq limit db = (
  ok (
      take limit
        (sort_by (λ a b. leb a.seq b.seq) (keep (in_range id begin_seq end_seq) db.messages))),
  db,
)

unfoldable pub has_key : Message → MessageKey → Bool
has_key msg k = k.conversation_id == msg.conversation_id && nat_eq k.seq msg.seq

unfoldable pub get_messages : List MessageKey → Op (List Message)
unfolding has_key
get_messages keys db = (ok (keep (λ msg. any (has_key msg) keys) db.messages), db)

-- The row that a touch starts from: the stored one, or the given one with open bounds.
unfoldable pub touched : UserConversation → Option UserConversation → UserConversation
touched uc (some cur) = cur
touched uc none = record uc { min_seq = 1; max_seq = 0; created_at = uc.updated_at }

-- Neither `updated_at` nor `read_seq` ever falls.
unfoldable pub touch_user_conversation : UserConversation → ℕ → Op (Unit {0})
unfolding touched
touch_user_conversation uc read_seq db =
    let cur = touched uc (lookup (uc.owner_id, uc.conversation_id) db.user_convs) in
    (
      ok tt,
      record db {
        user_convs =
            insert (uc.owner_id, uc.conversation_id)
              (record cur {
                updated_at =
                    if ltb uc.updated_at cur.updated_at then cur.updated_at else uc.updated_at;
                read_seq = max cur.read_seq read_seq;
              })
              db.user_convs;
      },
    )

unfoldable pub touch_member : Bytes → ℕ → UserConversation → UserConversation
touch_member id now uc =
    if uc.conversation_id == id && nat_eq uc.max_seq 0 && ltb uc.updated_at now
    then record uc { updated_at = now }
    else uc

unfoldable pub touch_conversation_members : Bytes → ℕ → Op (Unit {0})
unfolding touch_member
touch_conversation_members id now db =
    (ok tt, record db { user_convs = map (λ p. (p.0, touch_member id now p.1)) db.user_convs })

unfoldable pub advance_read_seq : Bytes → Bytes → ℕ → Op (Unit {0})
advance_read_seq owner id read_seq db = elim (lookup (owner, id) db.user_convs) [
  | none ↦ (ok tt, db)
  | some uc ↦ (
    ok tt,
    record db {
      user_convs =
          insert (owner, id) (record uc { read_seq = max uc.read_seq read_seq }) db.user_convs;
    },
  )
]

-- Rows of the owner strictly after the cursor, in the order of the list.
unfoldable pub before_cursor : Bytes → ListCursor → UserConversation → Bool
before_cursor owner cursor uc =
    uc.owner_id == owner
    && (ltb_ℤ (pos uc.updated_at) cursor.updated_at
        || (not (ltb_ℤ cursor.updated_at (pos uc.updated_at))
            && lt uc.conversation_id cursor.conversation_id))

unfoldable pub row_le : UserConversationRow → UserConversationRow → Bool
row_le a b =
    ltb b.uc.updated_at a.uc.updated_at
    || (nat_eq a.uc.updated_at b.uc.updated_at
        && not (lt a.uc.conversation_id b.uc.conversation_id))

unfoldable pub list_user_conversations : Bytes → ListCursor → ℕ → Op (List UserConversationRow)
unfolding before_cursor row_le max_seq_of
list_user_conversations owner cursor limit db = (
  ok (
      take limit (
        sort_by row_le (
          map (λ uc. record { uc = uc; conv_max_seq = max_seq_of uc.conversation_id db })
            (keep (before_cursor owner cursor) (map (λ p. p.1) db.user_convs))))),
  db,
)
