-- ===== src/Store/Groups.antt =====
-- internal/store/storetest/mem_group.go: groups and their members.
use nexo.Prelude.{
  ℕ, List, [], ◌∷◌, map, Bool, true, false, ◌||◌, ◌&&◌, not, Option, none, some, keep, length, ltb,
  ◌==◌ as nat_eq,
}
use nexo.Prelude.Bytes.{Bytes, ◌==◌, lt}
use nexo.Prelude.Map.{Map, lookup, insert, delete, bytes_eq, pair_eq}
use nexo.Prelude.Sort.{sort_by}
use nexo.Errcode.{ok, err, duplicate}
use nexo.Store.{Group, GroupMember}
use nexo.Store.Db.{Db, Op, or_not_found}

unfoldable pub put_members :
    List GroupMember → Map (Bytes × Bytes) GroupMember → Map (Bytes × Bytes) GroupMember
put_members [] m = m
put_members (gm ∷ gms) m = put_members gms (insert (gm.group_id, gm.user_id) gm m)

unfoldable pub create_group : Group → List GroupMember → Op (Unit {0})
create_group g gms db = elim (lookup g.id db.groups) [
  | some _ ↦ (err duplicate, db)
  | none ↦
      (ok tt, record db { groups = insert g.id g db.groups; members = put_members gms db.members })
]

unfoldable pub get_group : Bytes → Op Group
get_group id db = (or_not_found (lookup id db.groups), db)

unfoldable pub add_group_member : GroupMember → Op (Unit {0})
add_group_member gm db = elim (lookup (gm.group_id, gm.user_id) db.members) [
  | some _ ↦ (err duplicate, db)
  | none ↦ (ok tt, record db { members = insert (gm.group_id, gm.user_id) gm db.members })
]

abbrev is_some {ℓ} : {A : Type ℓ} → Option A → Bool
is_some none = false
is_some (some _) = true

-- Whether there was such a member, who is gone then.
unfoldable pub remove_group_member : Bytes → Bytes → Op Bool
remove_group_member group_id user_id db = (
  ok (is_some (lookup (group_id, user_id) db.members)),
  record db { members = delete (group_id, user_id) db.members },
)

unfoldable pub get_group_member : Bytes → Bytes → Op GroupMember
get_group_member group_id user_id db = (or_not_found (lookup (group_id, user_id) db.members), db)

-- The order by `joined_at`, then by `user_id`, of `sortedMembers`.
unfoldable pub member_le : GroupMember → GroupMember → Bool
member_le a b =
    ltb a.joined_at b.joined_at || (nat_eq a.joined_at b.joined_at && not (lt b.user_id a.user_id))

unfoldable pub sorted_members : (GroupMember → Bool) → Db → List GroupMember
unfolding member_le
sorted_members pred db = sort_by member_le (keep pred (map (λ p. p.1) db.members))

unfoldable pub list_group_members : Bytes → Op (List GroupMember)
unfolding sorted_members
list_group_members group_id db = (ok (sorted_members (λ gm. gm.group_id == group_id) db), db)

unfoldable pub member_count : Bytes → Db → ℕ
member_count group_id db = length (keep (λ p. p.1.group_id == group_id) db.members)

unfoldable pub count_group_members : Bytes → Op ℕ
count_group_members group_id db = (ok (member_count group_id db), db)

unfoldable pub list_user_group_ids : Bytes → Op (List Bytes)
unfolding sorted_members
list_user_group_ids user_id db =
    (ok (map (λ gm. gm.group_id) (sorted_members (λ gm. gm.user_id == user_id) db)), db)
