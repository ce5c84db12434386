-- ===== src/Store/Conversations.antt =====
-- internal/store/storetest/mem_group.go: conversations, and each user's view of one.
use nexo.Prelude.{
  ℕ, List, [], ◌∷◌, Bool, true, false, ◌||◌, ◌&&◌, not, Option, none, some, keep, any, leb,
  ◌==◌ as nat_eq, if◌then◌else◌,
}
use nexo.Prelude.Bytes.{Bytes}
use nexo.Prelude.Map.{Map, lookup, insert, delete, bytes_eq, pair_eq, pair_beq}
use nexo.Errcode.{ok, err, duplicate, not_found}
use nexo.Store.{SessionType, Conversation, UserConversation, UserConversationRow}
use nexo.Store.Db.{Db, Op, or_not_found}
use nexo.Store.Users.{from_ptr_or}

abbrev pub new_conversation : Bytes → SessionType → Bytes → ℕ → Conversation
new_conversation id t group_id now = record {
  conversation_id = id;
  type_of = t;
  group_id = group_id;
  max_seq = 0;
  created_at = now;
  updated_at = now;
}

-- Creates the row if it is missing, and returns it.
unfoldable pub lock_conversation : Bytes → SessionType → Bytes → ℕ → Op Conversation
lock_conversation id t group_id now db = elim (lookup id db.convs) [
  | some c ↦ (ok c, db)
  | none ↦ (
    ok (new_conversation id t group_id now),
    record db { convs = insert id (new_conversation id t group_id now) db.convs },
  )
]

unfoldable pub get_conversation : Bytes → Op Conversation
get_conversation id db = (or_not_found (lookup id db.convs), db)

unfoldable pub get_user_conversation : Bytes → Bytes → Op UserConversation
get_user_conversation owner id db = (or_not_found (lookup (owner, id) db.user_convs), db)

unfoldable pub get_user_conversation_row : Bytes → Bytes → Op UserConversationRow
get_user_conversation_row owner id db = elim (lookup (owner, id) db.user_convs) [
  | none ↦ (err not_found, db)
  | some uc ↦ elim (lookup id db.convs) [
    | none ↦ (err not_found, db)
    | some c ↦ (ok (record { uc = uc; conv_max_seq = c.max_seq }), db)
  ]
]

-- The row that an upsert starts from: the stored one, or the given one as created now.
unfoldable pub current_or : UserConversation → Option UserConversation → UserConversation
current_or uc (some cur) = cur
current_or uc none = record uc { created_at = uc.updated_at }

-- On conflict resets the bounds, the read cursor and `updated_at`.
unfoldable pub upsert_user_conversation : UserConversation → Op (Unit {0})
unfolding current_or
upsert_user_conversation uc db =
    let cur = current_or uc (lookup (uc.owner_id, uc.conversation_id) db.user_convs) in
    (
      ok tt,
      record db {
        user_convs =
            insert (uc.owner_id, uc.conversation_id)
              (record cur {
                min_seq = uc.min_seq;
                max_seq = uc.max_seq;
                read_seq = uc.read_seq;
                updated_at = uc.updated_at;
              })
              db.user_convs;
      },
    )

unfoldable pub delete_user_conversation : Bytes → Bytes → Op (Unit {0})
delete_user_conversation owner id db =
    (ok tt, record db { user_convs = delete (owner, id) db.user_convs })

-- `uc.MinSeq <= seq && (uc.MaxSeq == 0 || seq <= uc.MaxSeq)`
unfoldable pub covers : UserConversation → ℕ → Bool
covers uc seq = leb uc.min_seq seq && (nat_eq uc.max_seq 0 || leb seq uc.max_seq)

unfoldable pub visible_to : Bytes → ℕ → Db → Bytes → Bool
unfolding covers
visible_to id seq db owner = elim (lookup (owner, id) db.user_convs) [
  | none ↦ false
  | some uc ↦ covers uc seq
]

unfoldable pub visible_owners : Bytes → List Bytes → ℕ → Op (List Bytes)
unfolding visible_to
visible_owners id owners seq db = (ok (keep (visible_to id seq db) owners), db)

unfoldable pub is_muted : Bytes → Db → Bytes → Bool
is_muted id db owner = elim (lookup (owner, id) db.user_convs) [
  | none ↦ false
  | some uc ↦ not (nat_eq uc.recv_msg_opt 0)
]

unfoldable pub muted_owners : Bytes → List Bytes → Op (List Bytes)
unfolding is_muted
muted_owners id owners db = (ok (keep (is_muted id db) owners), db)

-- A missing row is left missing.
unfoldable pub set_user_conversation_max_seq : Bytes → Bytes → ℕ → Op (Unit {0})
set_user_conversation_max_seq owner id max_seq db = elim (lookup (owner, id) db.user_convs) [
  | none ↦ (ok tt, db)
  | some uc ↦ (
    ok tt,
    record db { user_convs = insert (owner, id) (record uc { max_seq = max_seq }) db.user_convs },
  )
]

unfoldable pub set_user_conversation_opt : Bytes → Bytes → Option ℕ → Option Bool → Op (Unit {0})
set_user_conversation_opt owner id opt pinned db = elim (lookup (owner, id) db.user_convs) [
  | none ↦ (err not_found, db)
  | some uc ↦ (
    ok tt,
    record db {
      user_convs =
          insert (owner, id)
            (record uc {
              recv_msg_opt = from_ptr_or opt uc.recv_msg_opt;
              is_pinned = from_ptr_or pinned uc.is_pinned;
            })
            db.user_convs;
    },
  )
]

-- Whether a row is there already, or stands twice in the list.
unfoldable pub has_conflict :
    Map (Bytes × Bytes) UserConversation → List (Bytes × Bytes) → List UserConversation → Bool
has_conflict rows seen [] = false
has_conflict rows seen (uc ∷ ucs) =
    let key : Bytes × Bytes = (uc.owner_id, uc.conversation_id) in
    elim (lookup key rows) [
      | some _ ↦ true
      | none ↦ any (pair_beq key) seen || has_conflict rows (key ∷ seen) ucs
    ]

unfoldable pub put_user_conversations :
    List UserConversation
    → Map (Bytes × Bytes) UserConversation
    → Map (Bytes × Bytes) UserConversation
put_user_conversations [] m = m
put_user_conversations (uc ∷ ucs) m =
    put_user_conversations ucs
      (insert (uc.owner_id, uc.conversation_id) (record uc { created_at = uc.updated_at }) m)

-- All rows, or none where one is a duplicate.
unfoldable pub create_user_conversations : List UserConversation → Op (Unit {0})
unfolding has_conflict
create_user_conversations ucs db =
    if has_conflict db.user_convs [] ucs
    then (err duplicate, db)
    else (ok tt, record db { user_convs = put_user_conversations ucs db.user_convs })
