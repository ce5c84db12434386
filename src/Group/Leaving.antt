-- ===== src/Group/Leaving.antt =====
-- A member leaves: the rows that change, and who may remove whom.
pub mod Removal
use nexo.Prelude.{
  ℕ, ◌≤◌, ◌<◌, ◌≡◌, ◌≢◌, refl, sym, ap, ◌∙◌, Bool, true, false, not, ◌&&◌, Option, none, some, List,
  [], ◌∷◌, if◌then◌else◌, arith, leb, ltb, ◌==◌ as nat_eq, Bool-cases, inl, inr,
}
use mathlib.Core.Path.{subst}
use nexo.Prelude.Bytes.{Bytes, text, ◌==◌, eq_iff, eq_refl}
use nexo.Prelude.Map.{
  Map, lookup, insert, delete, lookup-insert, lookup-delete, pair_eq, pair_beq, pair_iff, bytes_eq,
}
use nexo.Errcode.{
  GoError, Result, ok, err, plain, with_message, err_invalid_param, err_not_group_member,
  err_cannot_kick_owner, err_no_permission,
}
use nexo.Identity.{is_valid_id}
use nexo.Conv.{group_conv_id}
use nexo.Store
use nexo.Store.{group, group_normal, GroupMember, UserConversation, Conversation, role_admin}
use nexo.Store.Db.{Db}
use nexo.Store.Groups.{remove_group_member, get_group_member}
use nexo.Store.Conversations.{delete_user_conversation, set_user_conversation_max_seq}
use nexo.Store.Messages.{max_seq_of}
use nexo.Store.Lock.{SameSeqs, SameRows, Ensures-lock}
use nexo.Store.Action.{World, pure, raise, call, emit, ◌>>=◌, ◌>>◌, with_tx}
use nexo.Store.Action.Rules.{Ensures, DbKept-emit}
use nexo.Store.Action.Hoare.{
  Ensures-raise, Ensures-pure, Ensures-call, Ensures-bind, Ensures-DbKept, Ensures-with_tx,
  Ensures-mono, Ensures-map_error, Ensures-if, Ensures-fact, Ensures-guard,
}
use nexo.Group.{
  Event, Config, remove_body, remove, removal_target, load_member, quit, kick, active_group,
}
use nexo.Group.Reads.{active_group-found, found_row}

-- A row whose visible bound is frozen at the last seq; with no message, no row.
abbrev pub frozen : ℕ → Option UserConversation → Option UserConversation
frozen n none = none
frozen n (some uc) = if nat_eq n 0 then none else some (record uc { max_seq = n })

-- A member is gone, and nothing of the other members has changed.
pub record Left (before : Db) (group_id target : Bytes) (db : Db) : Type 0 where
  pub was_member : (gm : GroupMember) × (lookup (group_id, target) before.members ≡ some gm)
  pub members :
      (k : Bytes × Bytes)
      → lookup k db.members
        ≡ (if pair_beq (group_id, target) k then none else lookup k before.members)
  pub row :
      lookup (target, group_conv_id group_id) db.user_convs
      ≡ frozen
          (max_seq_of (group_conv_id group_id) before)
          (lookup (target, group_conv_id group_id) before.user_convs)

-- Who may remove whom: oneself, or as an admin or the owner one who is not the owner, and as an
-- admin one who is no admin. The target is the member's id as it is stored.
pub data Allowed (before : Db) (g : Store.Group) (operator user_id target : Bytes) : Type 0 where
  own : operator ≡ user_id → target ≡ user_id → Allowed before g operator user_id target
  by_role :
      (op gm : GroupMember)
      → lookup (g.id, operator) before.members ≡ some op
      → lookup (g.id, user_id) before.members ≡ some gm
      → role_admin ≤ op.role
      → (op.role ≡ role_admin → gm.role < role_admin)
      → target ≡ gm.user_id
      → (target == g.owner_id) ≡ false
      → Allowed before g operator user_id target

removed_cases :
    (g t : Bytes) (db : Db) (o : Option GroupMember)
    → lookup (g, t) db.members ≡ o
    → (b : Bool) → (remove_group_member g t db).0 ≡ ok b
    → b ≡ true
    → (gm : GroupMember) × (lookup (g, t) db.members ≡ some gm)
unfolding remove_group_member
removed_cases g t db none e b h k = absurd (ground (arith, e))
removed_cases g t db (some x) e b h k = (x, e)

removed-members :
    (g t : Bytes) (db : Db) → (remove_group_member g t db).1.members ≡ delete (g, t) db.members
unfolding remove_group_member
removed-members g t db = refl

removed-user_convs :
    (g t : Bytes) (db : Db) → (remove_group_member g t db).1.user_convs ≡ db.user_convs
unfolding remove_group_member
removed-user_convs g t db = refl

-- The tables after the membership row went.
pub record Gone (before : Db) (group_id target : Bytes) (db : Db) : Type 0 where
  members : db.members ≡ delete (group_id, target) before.members
  user_convs : db.user_convs ≡ before.user_convs

row_deleted :
    (db : Db) (t id : Bytes) (n : ℕ) (o : Option UserConversation)
    → nat_eq n 0 ≡ true
    → lookup (t, id) (delete_user_conversation t id db).1.user_convs ≡ frozen n o
unfolding delete_user_conversation
row_deleted db t id n none z =
    lookup-delete (t, id) (t, id) db.user_convs ∙ rw ((pair_iff (t, id) (t, id)).1 refl)
row_deleted db t id n (some uc) z =
    lookup-delete (t, id) (t, id) db.user_convs ∙ rw ((pair_iff (t, id) (t, id)).1 refl, z)

row_frozen :
    (db : Db) (t id : Bytes) (n : ℕ) (o : Option UserConversation)
    → lookup (t, id) db.user_convs ≡ o
    → nat_eq n 0 ≡ false
    → lookup (t, id) (set_user_conversation_max_seq t id n db).1.user_convs ≡ frozen n o
unfolding set_user_conversation_max_seq
row_frozen db t id n none e z = rw (e, set_user_conversation_max_seq) e
row_frozen db t id n (some uc) e z =
    rw (e, set_user_conversation_max_seq)
      (lookup-insert (t, id) (t, id) (record uc { max_seq = n }) db.user_convs
        ∙ rw ((pair_iff (t, id) (t, id)).1 refl, z))

deleted-members :
    (t id : Bytes) (db : Db) → (delete_user_conversation t id db).1.members ≡ db.members
unfolding delete_user_conversation
deleted-members t id db = refl

set_cases :
    (t id : Bytes) (n : ℕ) (db : Db) (o : Option UserConversation)
    → lookup (t, id) db.user_convs ≡ o
    → (set_user_conversation_max_seq t id n db).1.members ≡ db.members
unfolding set_user_conversation_max_seq
set_cases t id n db none e = rw (e, set_user_conversation_max_seq) refl
set_cases t id n db (some uc) e = rw (e, set_user_conversation_max_seq) refl

module _ (before : Db) (g t : Bytes)
    (member : (gm : GroupMember) × (lookup (g, t) before.members ≡ some gm)) (n : ℕ)
    (last : n ≡ max_seq_of (group_conv_id g) before) where
  delete_row-Left :
      (db : Db)
      → Gone before g t db
      → nat_eq n 0 ≡ true
      → Left before g t (delete_user_conversation t (group_conv_id g) db).1
  delete_row-Left db h z = record {
    was_member = member;
    members = λ k.
        ap (lookup k) (deleted-members t (group_conv_id g) db ∙ h.members)
        ∙ lookup-delete (g, t) k before.members;
    row =
        subst
          (λ m.
            lookup (t, group_conv_id g)
              (delete_user_conversation t (group_conv_id g) db).1.user_convs
            ≡ frozen m (lookup (t, group_conv_id g) before.user_convs))
          last (row_deleted db t (group_conv_id g) n _ z);
  }

  freeze_row-Left :
      (db : Db)
      → Gone before g t db
      → nat_eq n 0 ≡ false
      → Left before g t (set_user_conversation_max_seq t (group_conv_id g) n db).1
  freeze_row-Left db h z = record {
    was_member = member;
    members = λ k.
        ap (lookup k) (set_cases t (group_conv_id g) n db _ refl ∙ h.members)
        ∙ lookup-delete (g, t) k before.members;
    row =
        subst
          (λ m.
            lookup (t, group_conv_id g)
              (set_user_conversation_max_seq t (group_conv_id g) n db).1.user_convs
            ≡ frozen m (lookup (t, group_conv_id g) before.user_convs))
          last
          (row_frozen db t (group_conv_id g) n _ (ap (lookup (t, group_conv_id g)) h.user_convs) z);
  }

module _ {S : Type 0} (before : Db) (g : Store.Group) where
  member-Ensures :
      (user_id : Bytes)
      → Ensures {E = Event} {S = S}
          (SameRows before)
          (load_member g.id user_id)
          (λ gm d. SameRows before d × (lookup (g.id, user_id) before.members ≡ some gm))
  unfolding load_member get_group_member
  member-Ensures user_id = Ensures-map_error _ _ _ _ (
      Ensures-call _ _ _ (λ db gm h x. (
        h,
        ap (lookup (g.id, user_id)) (sym h.members)
            ∙ found_row gm (lookup (g.id, user_id) db.members) x,
      )))

  roles-Ensures :
      (operator user_id : Bytes) (op gm : GroupMember)
      → lookup (g.id, operator) before.members ≡ some op
      → lookup (g.id, user_id) before.members ≡ some gm
      → ltb op.role role_admin ≡ false
      → Ensures {E = Event} {S = S}
          (SameRows before)
          ((if gm.user_id == g.owner_id then raise (plain err_cannot_kick_owner) else pure tt)
            >>= λ _.
                (if nat_eq op.role role_admin && leb role_admin gm.role
                  then raise (plain err_no_permission)
                  else pure tt)
                >>= λ _. pure gm.user_id)
          (λ t d. SameRows before d × Allowed before g operator user_id t)
  roles-Ensures operator user_id op gm p q r =
      Ensures-bind _ _ _ _ _ (Ensures-guard _ (gm.user_id == g.owner_id) _) (λ _.
        Ensures-fact (λ not_owner.
          Ensures-bind _ _ _ _ _
            (Ensures-guard _ (nat_eq op.role role_admin && leb role_admin gm.role) _)
            (λ _. Ensures-fact (λ lower.
              Ensures-pure _ _ gm.user_id (λ db h.
                (h, by_role op gm p q (ground arith) (λ e. ground arith) refl not_owner))))))

  pub target-Ensures :
      (operator user_id : Bytes)
      → Ensures {E = Event} {S = S}
          (SameRows before)
          (removal_target g operator user_id)
          (λ t d. SameRows before d × Allowed before g operator user_id t)
  unfolding removal_target
  target-Ensures operator user_id = elim (Bool-cases (operator == user_id)) [
    | inl h ↦
        rw h (Ensures-pure _ _ user_id (λ db s. (s, own ((eq_iff operator user_id).0 h) refl)))
    | inr h ↦ rw h (
        Ensures-bind _ _ _ _ _ (member-Ensures operator) (λ op. Ensures-fact (λ p.
          Ensures-bind _ _ _ _ _ (Ensures-guard _ (ltb op.role role_admin) _) (λ _.
            Ensures-fact (λ r.
              Ensures-bind _ _ _ _ _ (member-Ensures user_id)
                (λ gm. Ensures-fact (λ q. roles-Ensures operator user_id op gm p q r)))))))
  ]

removal-Gone :
    (before db : Db) (g t : Bytes)
    → SameRows before db
    → Gone before g t (remove_group_member g t db).1
removal-Gone before db g t h = record {
  members = removed-members g t db ∙ ap (delete (g, t)) h.members;
  user_convs = removed-user_convs g t db ∙ h.user_convs;
}

module _ {S : Type 0} (before : Db) (g : Store.Group) where
  pub remove_member-Ensures :
      (t : Bytes)
      → Ensures {E = Event} {S = S} (SameRows before) (call (remove_group_member g.id t)) (λ b d.
        Gone before g.id t d
        × (b ≡ true → (gm : GroupMember) × (lookup (g.id, t) before.members ≡ some gm)))
  remove_member-Ensures t = Ensures-call _ _ _ (λ db b h x. (
    removal-Gone before db g.id t h,
    λ e.
        let (gm, f) = removed_cases g.id t db (lookup (g.id, t) db.members) refl b x e in
        (gm, ap (lookup (g.id, t)) (sym h.members) ∙ f),
  ))

  pub bound-Left :
      (t : Bytes) (c : Conversation)
      → c.max_seq ≡ max_seq_of (group_conv_id g.id) before
      → (gm : GroupMember) × (lookup (g.id, t) before.members ≡ some gm)
      → Ensures {E = Event} {S = S}
          (Gone before g.id t)
          (if nat_eq c.max_seq 0
            then call (delete_user_conversation t (group_conv_id g.id))
            else call (set_user_conversation_max_seq t (group_conv_id g.id) c.max_seq))
          (λ _ d. Left before g.id t d)
  bound-Left t c last member = elim (Bool-cases (nat_eq c.max_seq 0)) [
    | inl z ↦ rw z (
        Ensures-call _ _ _ (λ db _ h x. delete_row-Left before g.id t member c.max_seq last db h z))
    | inr z ↦ rw z (
        Ensures-call _ _ _ (λ db _ h x. freeze_row-Left before g.id t member c.max_seq last db h z))
  ]
