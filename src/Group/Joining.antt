-- ===== src/Group/Joining.antt =====
-- What a join does, and the limit on members.
use nexo.Prelude.{
  ℕ, suc, ◌+◌, ◌≤◌, ◌<◌, ◌≡◌, refl, ap, ◌∙◌, Bool, Option, none, some, [], ◌∷◌, if◌then◌else◌,
  arith, length, keep, leb,
}
use mathlib.Core.Path.{subst}
use nexo.Prelude.Bytes.{Bytes, ◌==◌, eq_refl}
use nexo.Prelude.Map.{Map, lookup, insert, lookup-insert, pair_eq, pair_iff, bytes_eq}
use nexo.Errcode.{ok, err, duplicate, plain, err_group_full}
use nexo.Conv.{group_conv_id}
use nexo.Store
use nexo.Store.{
  group, group_normal, GroupMember, UserConversation, Conversation, next_seq, next_seq_lem,
  max_int64, role_member,
}
use nexo.Store.Db.{Db}
use nexo.Store.Groups.{add_group_member, count_group_members, member_count}
use nexo.Store.Conversations.{upsert_user_conversation, current_or}
use nexo.Store.Messages.{max_seq_of}
use nexo.Store.Lock.{SameSeqs, SameRows, Ensures-lock}
use nexo.Store.Action.{World, pure, raise, call, ◌>>=◌}
use nexo.Store.Action.Rules.{Ensures, DbKept-ReadOnly, DbKept-emit}
use nexo.Store.Action.Hoare.{
  Ensures-call, Ensures-bind, Ensures-DbKept, Ensures-with_tx, Ensures-mono, Ensures-map_error,
  Ensures-fact, Ensures-guard,
}
use nexo.Group.{Event, Config, join_body, join, member_row}
use nexo.Group.Reads.{group_reads, active_group-found, not_yet_member-ReadOnly}

-- A new key adds itself to what a test keeps of a map.
length-keep-insert_new :
    {V : Type 0} (p : (Bytes × Bytes) × V → Bool) (k : Bytes × Bytes) (v : V)
    (m : Map (Bytes × Bytes) V)
    → lookup k m ≡ none
    → length (keep p (insert k v m)) ≡ (if p (k, v) then 1 else 0) + length (keep p m)
unfolding lookup insert keep
length-keep-insert_new p k v [] h = ground arith
length-keep-insert_new p k v ((j, u) ∷ m) h = ground (arith, length-keep-insert_new p k v m)

-- The group's size and the joiner's rows, after a join into the tables `before`.
pub record Joined (cfg : Config) (before : Db) (group_id user_id : Bytes) (db : Db) : Type 0 where
  pub was_absent : lookup (group_id, user_id) before.members ≡ none
  pub count : member_count group_id db ≡ suc (member_count group_id before)
  pub within : member_count group_id db ≤ cfg.max_members
  pub member :
      (gm : GroupMember) × (lookup (group_id, user_id) db.members ≡ some gm)
      × (gm.role ≡ role_member)
  pub row :
      (uc : UserConversation) × (lookup (user_id, group_conv_id group_id) db.user_convs ≡ some uc)
      × (uc.min_seq ≡ next_seq (max_seq_of (group_conv_id group_id) before))
      × (uc.read_seq ≡ max_seq_of (group_conv_id group_id) before)
      × (uc.max_seq ≡ 0)

abbrev joiner : Bytes → Bytes → ℕ → GroupMember
joiner group_id user_id now = record {
  group_id = group_id;
  user_id = user_id;
  role = role_member;
  nickname = [];
  inviter_user_id = [];
  joined_at = now;
}

add_cases :
    (g u : Bytes) (now : ℕ) (db : Db) (o : Option GroupMember)
    → lookup (g, u) db.members ≡ o
    → (add_group_member (joiner g u now) db).0 ≡ ok tt
    → (lookup (g, u) db.members ≡ none)
      × ((add_group_member (joiner g u now) db).1.members
          ≡ insert (g, u) (joiner g u now) db.members)
unfolding add_group_member
add_cases g u now db none e h = (e, rw (e, add_group_member))
add_cases g u now db (some x) e h =
    let k : add_group_member (joiner g u now) db ≡ (err duplicate, db) = rw (e, add_group_member) in
    absurd (ground (arith, k, h))

count-insert :
    (g u : Bytes) (now : ℕ) (before db : Db)
    → lookup (g, u) before.members ≡ none
    → db.members ≡ insert (g, u) (joiner g u now) before.members
    → member_count g db ≡ suc (member_count g before)
unfolding member_count
count-insert g u now before db h e = rw e (
    ground (
      arith,
      length-keep-insert_new (λ p. p.1.group_id == g) (g, u) (joiner g u now) before.members h,
      eq_refl g,
    ))

-- The joiner's row after the upsert, whatever row was there.
upsert_row :
    (db : Db) (uc : UserConversation) (o : Option UserConversation)
    → lookup (uc.owner_id, uc.conversation_id) db.user_convs ≡ o
    → (r : UserConversation) × (lookup
          (uc.owner_id, uc.conversation_id)
          (upsert_user_conversation uc db).1.user_convs
        ≡ some r)
      × (r.min_seq ≡ uc.min_seq)
      × (r.read_seq ≡ uc.read_seq)
      × (r.max_seq ≡ uc.max_seq)
unfolding upsert_user_conversation
upsert_row db uc o e =
    let k : Bytes × Bytes = (uc.owner_id, uc.conversation_id) in
    let r : UserConversation = record (current_or uc o) {
      min_seq = uc.min_seq;
      max_seq = uc.max_seq;
      read_seq = uc.read_seq;
      updated_at = uc.updated_at;
    } in
    (r, rw e (lookup-insert k k r db.user_convs ∙ rw ((pair_iff k k).1 refl)), refl, refl, refl)

-- The tables after the joiner's membership row came in.
record Added (cfg : Config) (before : Db) (group_id user_id : Bytes) (now : ℕ) (db : Db)
    : Type 0 where
  was_absent : lookup (group_id, user_id) before.members ≡ none
  members : db.members ≡ insert (group_id, user_id) (joiner group_id user_id now) before.members
  room : member_count group_id before < cfg.max_members

member_count-members :
    (g : Bytes) (db db' : Db) → db'.members ≡ db.members → member_count g db' ≡ member_count g db
unfolding member_count
member_count-members g db db' e = rw e

upsert-members :
    (uc : UserConversation) (db : Db) → (upsert_user_conversation uc db).1.members ≡ db.members
unfolding upsert_user_conversation
upsert-members uc db = refl

counted :
    (g : Bytes) (db : Db) (n : ℕ) → (count_group_members g db).0 ≡ ok n → n ≡ member_count g db
unfolding count_group_members
counted g db n h = ground arith

finish :
    (cfg : Config) (before : Db) (g u : Bytes) (now : ℕ) (c : Conversation) (db : Db)
    → c.max_seq ≡ max_seq_of (group_conv_id g) before
    → Added cfg before g u now db
    → Joined cfg before g u
        (upsert_user_conversation (member_row u g (next_seq c.max_seq) c.max_seq now) db).1
unfolding member_row
finish cfg before g u now c db e h =
    let uc : UserConversation = member_row u g (next_seq c.max_seq) c.max_seq now in
    let same = upsert-members uc db in
    let n =
      count-insert g u now before (upsert_user_conversation uc db).1 h.was_absent
        (same ∙ h.members) in
    let (r, at, p, q, s) = upsert_row db uc (lookup (u, group_conv_id g) db.user_convs) refl in
    record {
      was_absent = h.was_absent;
      count = n;
      within = omega (arith, n, h.room);
      member = (
        joiner g u now,
        ap (lookup (g, u)) (same ∙ h.members)
            ∙ lookup-insert (g, u) (g, u) (joiner g u now) before.members
            ∙ rw ((pair_iff (g, u) (g, u)).1 refl),
        refl,
      );
      row = (r, at, p ∙ ap next_seq e, q ∙ e, s);
    }

module _ {S : Type 0} (cfg : Config) (before : Db) (g : Store.Group) (user_id : Bytes)
    (now : ℕ) where
  count-Ensures :
      Ensures {E = Event} {S = S}
        (SameRows before)
        (call (count_group_members g.id))
        (λ n d. SameRows before d × (n ≡ member_count g.id before))
  unfolding count_group_members
  count-Ensures =
      Ensures-call _ _ _
        (λ db n h x. (h, counted g.id db n x ∙ member_count-members g.id before db h.members))

  add-Ensures :
      member_count g.id before < cfg.max_members
      → Ensures {E = Event} {S = S}
          (SameRows before)
          (call (add_group_member (joiner g.id user_id now)))
          (λ _ d. Added cfg before g.id user_id now d)
  add-Ensures room = Ensures-call _ _ _ (λ db _ h x.
      let (p, q) = add_cases g.id user_id now db (lookup (g.id, user_id) db.members) refl x in
      record {
        was_absent = subst (λ m. lookup (g.id, user_id) m ≡ none) h.members p;
        members = q ∙ ap (insert (g.id, user_id) (joiner g.id user_id now)) h.members;
        room = room;
      })

  body_tail :
      (c : Conversation)
      → c.max_seq ≡ max_seq_of (group_conv_id g.id) before
      → (n : ℕ) → n ≡ member_count g.id before
      → Ensures {E = Event} {S = S}
          (SameRows before)
          ((if leb cfg.max_members n then raise (plain err_group_full) else pure tt) >>= λ _.
            call (add_group_member (joiner g.id user_id now)) >>= λ _.
            call (
              upsert_user_conversation
                (member_row user_id g.id (next_seq c.max_seq) c.max_seq now)))
          (λ _ d. Joined cfg before g.id user_id d)
  body_tail c e n k = Ensures-bind _ _ _ _ _ (Ensures-guard _ (leb cfg.max_members n) _) (λ _.
      Ensures-fact (λ room.
        Ensures-bind _ _ _ _ _ (add-Ensures (ground arith))
          (λ _. Ensures-call _ _ _ (λ db _ h x. finish cfg before g.id user_id now c db e h))))

  join_body-Joined :
      Ensures {E = Event} {S = S}
        (λ d. d ≡ before)
        (join_body cfg g user_id now)
        (λ _ d. Joined cfg before g.id user_id d)
  unfolding join_body
  join_body-Joined =
      Ensures-bind _ _ _ _ _ (Ensures-lock before (group_conv_id g.id) group g.id now) (λ c.
        Ensures-fact (λ e.
          Ensures-bind _ (λ _ d. SameSeqs before d × SameRows before d) _ _ _
            (Ensures-DbKept _ _ (DbKept-ReadOnly (search group_reads)))
            (λ found.
              Ensures-bind _ (λ _ d. SameSeqs before d × SameRows before d) _ _ _
                (Ensures-DbKept _ _ (DbKept-ReadOnly (not_yet_member-ReadOnly found)))
                (λ _.
                  Ensures-bind _ _ _ _ _ (Ensures-mono _ (λ db h. h.1) (λ n d h. h) count-Ensures)
                    (λ n. Ensures-fact (λ k. body_tail c e n k))))))

-- The active group that `group_id` names, and what a join has done for it.
abbrev pub JoinedActive : Config → Db → Bytes → Bytes → Db → Type 0
JoinedActive cfg before group_id user_id d =
    (g : Store.Group) × (lookup group_id before.groups ≡ some g)
    × (g.status ≡ group_normal)
    × Joined cfg before g.id user_id d

module _ {S : Type 0} (cfg : Config) where
  join-Joined :
      (before : Db) (now : ℕ) (group_id user_id : Bytes)
      → Ensures {E = Event} {S = S}
          (λ d. d ≡ before)
          (join cfg now group_id user_id)
          (λ _ d. JoinedActive cfg before group_id user_id d)
  unfolding join
  join-Joined before now group_id user_id =
      Ensures-bind _ _ _ _ _ (active_group-found before group_id) (λ g. Ensures-fact (λ active.
        Ensures-bind _ (λ _ d. d ≡ before) _ _ _
          (Ensures-DbKept _ _ (DbKept-ReadOnly (search group_reads)))
          (λ _.
            Ensures-bind _ (λ _ d. Joined cfg before g.id user_id d) _ _ _
              (Ensures-map_error _ _ _ _
                (Ensures-with_tx _ _ _ (join_body-Joined cfg before g user_id now)))
              (λ _.
                Ensures-mono _ (λ db h. h) (λ _ db h. (g, active.0, active.1, h))
                  (Ensures-DbKept _ _ (DbKept-emit _))))))

  -- A join that succeeds was of an active group that the user was not in; then the user is an
  -- ordinary member, the group has one member more and at most the configured maximum, and the
  -- user's view of the conversation begins after its last seq, read up to that seq and not closed.
  pub join_outcome :
      (now : ℕ) (group_id user_id : Bytes) (w : World Event S)
      → (join cfg now group_id user_id w).0 ≡ ok tt
      → JoinedActive cfg w.db group_id user_id (join cfg now group_id user_id w).1.db
  join_outcome now group_id user_id w h = (join-Joined w.db now group_id user_id).at w tt refl h
