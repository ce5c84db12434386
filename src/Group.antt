-- ===== src/Group.antt =====
-- internal/service/group/group.go: groups and their membership. `now` is the time that the one call
-- of `s.now()` reads, and the result of `shortId`, ten random bytes in base32, is an argument.
pub mod Reads
pub mod Atomicity
pub mod Joining
pub mod Leaving
use nexo.Prelude.{
  ℕ, zero, suc, ◌+◌, Bool, true, false, not, ◌&&◌, ◌||◌, Option, none, some, List, [], ◌∷◌, ◌++◌,
  map, any, all, length, ltb, leb, ◌==◌ as nat_eq, if◌then◌else◌,
}
use nexo.Prelude.Bytes.{Bytes, text, ◌==◌}
use nexo.Errcode.{
  GoError, Result, ok, err, plain, wrap, with_message, or_else, is_not_found, missing_as,
  err_invalid_param, err_store_failed, err_user_not_found, err_group_not_found, err_group_dismissed,
  err_not_group_member, err_already_group_member, err_not_group_admin, err_cannot_kick_owner,
  err_group_full, err_no_permission,
}
use nexo.Identity.{is_valid_id}
use nexo.Conv.{group_conv_id}
use nexo.Store
use nexo.Store.{
  group, GroupStatus, group_normal, group_dismissed, GroupMember, UserConversation, Conversation,
  role_member, role_admin, role_owner, next_seq, max_extra_bytes,
}
use nexo.Store.Users.{get_user, get_users}
use nexo.Store.Groups.{
  create_group, get_group, add_group_member, remove_group_member, get_group_member,
  list_group_members, count_group_members,
}
use nexo.Store.Conversations.{
  lock_conversation, upsert_user_conversation, create_user_conversations,
  set_user_conversation_max_seq, delete_user_conversation,
}
use nexo.Store.Action.{
  Action, pure, raise, lift, call, attempt, map_error, emit, ◌>>=◌, ◌>>◌, with_tx,
}

-- `GroupChanged`, after a commit.
pub data Event : Type 0 where
  group_changed : Bytes → Event

pub record Config : Type 0 where
  pub uuid_ok : Bytes → Bool
  pub max_members : ℕ

pub record Info : Type 0 where
  pub id : Bytes
  pub name : Bytes
  pub avatar : Bytes
  pub introduction : Bytes
  pub owner_id : Bytes
  pub status : GroupStatus
  pub extra : Bytes
  pub member_count : ℕ
  pub created_at : ℕ
  pub updated_at : ℕ

unfoldable pub to_info : Store.Group → ℕ → Info
to_info g n = record {
  id = g.id;
  name = g.name;
  avatar = g.avatar;
  introduction = g.introduction;
  owner_id = g.owner_id;
  status = g.status;
  extra = g.extra;
  member_count = n;
  created_at = g.created_at;
  updated_at = g.updated_at;
}

pub record Member : Type 0 where
  pub user_id : Bytes
  pub role : ℕ
  pub nickname : Bytes
  pub inviter_user_id : Bytes
  pub joined_at : ℕ

pub record CreateInput : Type 0 where
  pub name : Bytes
  pub avatar : Bytes
  pub introduction : Bytes
  pub extra : Bytes
  pub member_ids : List Bytes

abbrev pub max_name : ℕ
max_name = 255

abbrev pub max_avatar : ℕ
max_avatar = 1024

abbrev pub max_introduction : ℕ
max_introduction = 1024

abbrev pub M : Type 0 → Type 0 → Type 0
M S A = Action Event S A

-- `lo.Uniq`: the first of each.
unfoldable pub uniq_from : List Bytes → List Bytes → List Bytes
uniq_from seen [] = []
uniq_from seen (x ∷ xs) =
    let rest = uniq_from (x ∷ seen) xs in
    let same = uniq_from seen xs in if any (λ y. y == x) seen then same else x ∷ rest

unfoldable pub check_create : CreateInput → Result (Unit {0})
check_create i =
    if i.name == []
    then err (with_message err_invalid_param (text "name is required"))
    else if ltb max_name (length i.name)
    then err (with_message err_invalid_param (text "name: at most 255 bytes"))
    else if ltb max_avatar (length i.avatar)
    then err (with_message err_invalid_param (text "avatar: at most 1024 bytes"))
    else if ltb max_introduction (length i.introduction)
    then err (with_message err_invalid_param (text "introduction: at most 1024 bytes"))
    else if ltb max_extra_bytes (length i.extra)
    then err (with_message err_invalid_param (text "extra: at most 65535 bytes"))
    else ok tt

unfoldable pub new_group : Bytes → Bytes → CreateInput → ℕ → Store.Group
new_group id owner_id i now = record {
  id = id;
  name = i.name;
  avatar = i.avatar;
  introduction = i.introduction;
  owner_id = owner_id;
  status = group_normal;
  extra = i.extra;
  created_at = now;
  updated_at = now;
}

unfoldable pub first_member : Bytes → Bytes → ℕ → Bytes → GroupMember
first_member group_id owner_id now id = record {
  group_id = group_id;
  user_id = id;
  role = if id == owner_id then role_owner else role_member;
  nickname = [];
  inviter_user_id = if id == owner_id then [] else owner_id;
  joined_at = now;
}

-- A member's row of the conversation, with its bounds.
unfoldable pub member_row : Bytes → Bytes → ℕ → ℕ → ℕ → UserConversation
member_row owner group_id min_seq read_seq now = record {
  owner_id = owner;
  conversation_id = group_conv_id group_id;
  type_of = group;
  peer_user_id = [];
  group_id = group_id;
  min_seq = min_seq;
  max_seq = 0;
  read_seq = read_seq;
  recv_msg_opt = 0;
  is_pinned = false;
  extra = [];
  updated_at = now;
  created_at = 0;
}

module _ {S : Type 0} where
  -- Create: the callback of `WithTx`. Initial members see the whole history.
  unfoldable pub create_body : Store.Group → List Bytes → ℕ → M S (Unit {0})
  create_body g ids now = do
    call (create_group g (map (first_member g.id g.owner_id now) ids))
    call (lock_conversation (group_conv_id g.id) group g.id now)
    call (create_user_conversations (map (λ id. member_row id g.id 1 0 now) ids))

  unfoldable pub create : Config → ℕ → Bytes → Bytes → CreateInput → M S Info
  unfolding create_body check_create
  create cfg now short_id owner_id i = do
    lift (check_create i)
    let ids = uniq_from [] (owner_id ∷ i.member_ids)
    if not (all (is_valid_id cfg.uuid_ok) ids)
        then raise (with_message err_invalid_param (text "invalid member id"))
        else pure tt
    if ltb cfg.max_members (length ids) then raise (plain err_group_full) else pure tt
    existing ← map_error (wrap err_store_failed) (call (get_users ids))
    if not (nat_eq (length existing) (length ids))
        then raise (plain err_user_not_found)
        else pure tt
    let g = new_group short_id owner_id i now
    map_error (wrap err_store_failed) (with_tx (create_body g ids now))
    emit (group_changed g.id)
    pure (to_info g (length ids))

  -- `group`
  unfoldable pub load_group : Bytes → M S Store.Group
  load_group group_id = map_error (missing_as err_group_not_found) (call (get_group group_id))

  unfoldable pub if_active : Store.Group → GroupStatus → M S Store.Group
  if_active g group_dismissed = raise (plain err_group_dismissed)
  if_active g group_normal = pure g

  -- `activeGroup`
  unfoldable pub active_group : Bytes → M S Store.Group
  unfolding load_group if_active
  active_group group_id = do g ← load_group group_id; if_active g g.status

  -- `member`
  unfoldable pub load_member : Bytes → Bytes → M S GroupMember
  load_member group_id user_id =
      map_error (missing_as err_not_group_member) (call (get_group_member group_id user_id))

  unfoldable pub not_yet_member : Result GroupMember → M S (Unit {0})
  not_yet_member (ok _) = raise (plain err_already_group_member)
  not_yet_member (err e) = if is_not_found e then pure tt else raise e

  -- Join: the callback of `WithTx`. A joiner sees only messages after this point.
  unfoldable pub join_body : Config → Store.Group → Bytes → ℕ → M S (Unit {0})
  unfolding not_yet_member
  join_body cfg g user_id now = do
    c ← call (lock_conversation (group_conv_id g.id) group g.id now)
    found ← attempt (call (get_group_member g.id user_id))
    not_yet_member found
    n ← call (count_group_members g.id)
    if leb cfg.max_members n then raise (plain err_group_full) else pure tt
    call (
        add_group_member (record {
          group_id = g.id;
          user_id = user_id;
          role = role_member;
          nickname = [];
          inviter_user_id = [];
          joined_at = now;
        }))
    call (upsert_user_conversation (member_row user_id g.id (next_seq c.max_seq) c.max_seq now))

  unfoldable pub join : Config → ℕ → Bytes → Bytes → M S (Unit {0})
  unfolding active_group join_body
  join cfg now group_id user_id = do
    g ← active_group group_id
    map_error (missing_as err_user_not_found) (call (get_user user_id))
    map_error (λ e. or_else e err_store_failed) (with_tx (join_body cfg g user_id now))
    emit (group_changed g.id)

  -- Who may remove whom, and the member's id in its stored spelling. Equal ids are a quit.
  unfoldable pub removal_target : Store.Group → Bytes → Bytes → M S Bytes
  unfolding load_member
  removal_target g operator_id user_id = if operator_id == user_id then pure user_id else (do
    op ← load_member g.id operator_id
    if ltb op.role role_admin then raise (plain err_not_group_admin) else pure tt
    target ← load_member g.id user_id
    if target.user_id == g.owner_id then raise (plain err_cannot_kick_owner) else pure tt
    if nat_eq op.role role_admin && leb role_admin target.role
        then raise (plain err_no_permission)
        else pure tt
    pure target.user_id)

  -- `remove`: the callback of `WithTx`. It freezes the visible bound at the last seq; a bound of 0
  -- would read as none, so a conversation with no message loses the row instead.
  unfoldable pub remove_body : Store.Group → Bytes → Bytes → ℕ → M S (Unit {0})
  unfolding removal_target
  remove_body g operator_id user_id now = do
    c ← call (lock_conversation (group_conv_id g.id) group g.id now)
    target ← removal_target g operator_id user_id
    removed ← call (remove_group_member g.id target)
    if not removed then raise (plain err_not_group_member) else pure tt
    if nat_eq c.max_seq 0
        then call (delete_user_conversation target (group_conv_id g.id))
        else call (set_user_conversation_max_seq target (group_conv_id g.id) c.max_seq)

  unfoldable pub remove : ℕ → Store.Group → Bytes → Bytes → M S (Unit {0})
  unfolding remove_body
  remove now g operator_id user_id = do
    map_error (λ e. or_else e err_store_failed) (with_tx (remove_body g operator_id user_id now))
    emit (group_changed g.id)

  unfoldable pub quit : ℕ → Bytes → Bytes → M S (Unit {0})
  unfolding active_group remove
  quit now group_id user_id = do
    g ← active_group group_id
    if g.owner_id == user_id
        then raise (with_message err_invalid_param (text "owner cannot quit the group"))
        else remove now g user_id user_id

  unfoldable pub kick : Config → ℕ → Bytes → Bytes → Bytes → M S (Unit {0})
  unfolding active_group remove
  kick cfg now group_id operator_id target_id = do
    g ← active_group group_id
    if not (is_valid_id cfg.uuid_ok target_id)
        then raise (with_message err_invalid_param (text "invalid user id: " ++ target_id))
        else if target_id == g.owner_id
        then raise (plain err_cannot_kick_owner)
        else if operator_id == target_id
        then raise (with_message err_invalid_param (text "use quit to leave the group"))
        else remove now g operator_id target_id

  unfoldable pub get : Bytes → Bytes → M S Info
  unfolding load_group load_member
  get group_id user_id = do
    g ← load_group group_id
    load_member g.id user_id
    n ← map_error (wrap err_store_failed) (call (count_group_members g.id))
    pure (to_info g n)

  unfoldable pub members : Bytes → Bytes → M S (List Member)
  unfolding load_group load_member
  members group_id user_id = do
    g ← load_group group_id
    load_member g.id user_id
    rows ← map_error (wrap err_store_failed) (call (list_group_members g.id))
    pure (
        map
          (λ (m : GroupMember). record {
            user_id = m.user_id;
            role = m.role;
            nickname = m.nickname;
            inviter_user_id = m.inviter_user_id;
            joined_at = m.joined_at;
          })
          rows)
