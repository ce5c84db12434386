-- ===== src/Group/Leaving/Removal.antt =====
-- What quitting and kicking do.
use nexo.Prelude.{
  ℕ, ◌≡◌, refl, false, not, some, if◌then◌else◌, arith, ◌==◌ as nat_eq, Bool-cases, inl, inr,
}
use nexo.Prelude.Bytes.{Bytes, text, ◌==◌, eq_iff}
use nexo.Prelude.Map.{lookup, pair_eq, bytes_eq}
use nexo.Errcode.{
  ok, plain, with_message, err_invalid_param, err_not_group_member, err_cannot_kick_owner,
}
use nexo.Identity.{is_valid_id}
use nexo.Conv.{group_conv_id}
use nexo.Store
use nexo.Store.{group, group_normal, GroupMember, UserConversation, Conversation, role_admin}
use nexo.Store.Db.{Db}
use nexo.Store.Groups.{remove_group_member}
use nexo.Store.Conversations.{delete_user_conversation, set_user_conversation_max_seq}
use nexo.Store.Messages.{max_seq_of}
use nexo.Store.Lock.{SameRows, Ensures-lock}
use nexo.Store.Action.{World, pure, raise, call, ◌>>=◌}
use nexo.Store.Action.Rules.{Ensures, DbKept-emit}
use nexo.Store.Action.Hoare.{
  Ensures-raise, Ensures-bind, Ensures-DbKept, Ensures-with_tx, Ensures-mono, Ensures-map_error,
  Ensures-if, Ensures-fact, Ensures-guard,
}
use nexo.Group.{Event, Config, remove_body, remove, quit, kick}
use nexo.Group.Reads.{active_group-found}
use nexo.Group.Leaving.{Left, Allowed, remove_member-Ensures, bound-Left, target-Ensures}

-- A removal from the group: someone allowed to made the target leave.
pub record Removal (before : Db) (g : Store.Group) (operator user_id : Bytes) (db : Db)
    : Type 0 where
  pub target : Bytes
  pub allowed : Allowed before g operator user_id target
  pub left : Left before g.id target db

module _ {S : Type 0} (before : Db) (g : Store.Group) (operator user_id : Bytes) (now : ℕ) where
  body_tail :
      (c : Conversation)
      → c.max_seq ≡ max_seq_of (group_conv_id g.id) before
      → (t : Bytes) → Allowed before g operator user_id t
      → Ensures {E = Event} {S = S}
          (SameRows before)
          (call (remove_group_member g.id t) >>= λ removed.
            (if not removed then raise (plain err_not_group_member) else pure tt) >>= λ _.
            (if nat_eq c.max_seq 0
              then call (delete_user_conversation t (group_conv_id g.id))
              else call (set_user_conversation_max_seq t (group_conv_id g.id) c.max_seq)))
          (λ _ d. Removal before g operator user_id d)
  body_tail c last t allowed = Ensures-bind _ _ _ _ _ (remove_member-Ensures before g t) (λ removed.
      Ensures-fact (λ member. Ensures-bind _ _ _ _ _ (Ensures-guard _ (not removed) _) (λ _.
        Ensures-fact (λ did.
          Ensures-mono _ (λ db h. h)
            (λ _ db left. record { target = t; allowed = allowed; left = left })
            (bound-Left before g t c last (member (ground arith)))))))

  remove_body-Removal :
      Ensures {E = Event} {S = S}
        (λ d. d ≡ before)
        (remove_body g operator user_id now)
        (λ _ d. Removal before g operator user_id d)
  unfolding remove_body
  remove_body-Removal =
      Ensures-bind _ _ _ _ _ (Ensures-lock before (group_conv_id g.id) group g.id now) (λ c.
        Ensures-fact (λ last.
          Ensures-bind _ _ _ _ _
            (Ensures-mono _ (λ db h. h.1) (λ t d h. h) (target-Ensures before g operator user_id))
            (λ t. Ensures-fact (λ allowed. body_tail c last t allowed))))

  remove-Removal :
      Ensures {E = Event} {S = S}
        (λ d. d ≡ before)
        (remove now g operator user_id)
        (λ _ d. Removal before g operator user_id d)
  unfolding remove
  remove-Removal =
      Ensures-bind _ (λ _ d. Removal before g operator user_id d) _ _ _
        (Ensures-map_error _ _ _ _ (Ensures-with_tx _ _ _ remove_body-Removal))
        (λ _. Ensures-DbKept _ _ (DbKept-emit _))

-- The active group that `group_id` names, and a removal from it.
pub record Removed (before : Db) (group_id operator user_id : Bytes) (db : Db) : Type 0 where
  pub g : Store.Group
  pub stored : lookup group_id before.groups ≡ some g
  pub active : g.status ≡ group_normal
  pub not_owner : (g.owner_id == user_id) ≡ false
  pub removal : Removal before g operator user_id db

-- One member removed another.
abbrev pub Kicked : Db → Bytes → Bytes → Bytes → Db → Type 0
Kicked before group_id operator user_id db =
    ((operator == user_id) ≡ false) × Removed before group_id operator user_id db

module _ {S : Type 0} (before : Db) (now : ℕ) (group_id : Bytes) where
  active_remove-Removed :
      (g : Store.Group) (operator user_id : Bytes)
      → lookup group_id before.groups ≡ some g
      → g.status ≡ group_normal
      → (g.owner_id == user_id) ≡ false
      → Ensures {E = Event} {S = S}
          (λ d. d ≡ before)
          (remove now g operator user_id)
          (λ _ d. Removed before group_id operator user_id d)
  active_remove-Removed g operator user_id p q r =
      Ensures-mono _ (λ db h. h)
        (λ _ db h. record { g = g; stored = p; active = q; not_owner = r; removal = h })
        (remove-Removal before g operator user_id now)

  quit-Removed :
      (user_id : Bytes)
      → Ensures {E = Event} {S = S}
          (λ d. d ≡ before)
          (quit now group_id user_id)
          (λ _ d. Removed before group_id user_id user_id d)
  unfolding quit
  quit-Removed user_id = Ensures-bind _ _ _ _ _ (active_group-found before group_id) (λ g.
      Ensures-fact (λ f. elim (Bool-cases (g.owner_id == user_id)) [
        | inl h ↦ rw h (Ensures-raise _ _ _)
        | inr h ↦ rw h (active_remove-Removed g user_id user_id f.0 f.1 h)
      ]))

  kick_checked :
      (cfg : Config) (g : Store.Group) (operator user_id : Bytes)
      → lookup group_id before.groups ≡ some g
      → g.status ≡ group_normal
      → Ensures {E = Event} {S = S}
          (λ d. d ≡ before)
          (if user_id == g.owner_id
            then raise (plain err_cannot_kick_owner)
            else if operator == user_id
            then raise (with_message err_invalid_param (text "use quit to leave the group"))
            else remove now g operator user_id)
          (λ _ d. Kicked before group_id operator user_id d)
  kick_checked cfg g operator user_id p q = elim (Bool-cases (user_id == g.owner_id)) [
    | inl h ↦ rw h (Ensures-raise _ _ _)
    | inr h ↦ rw h (elim (Bool-cases (operator == user_id)) [
      | inl same ↦ rw same (Ensures-raise _ _ _)
      | inr other ↦ rw other (
          Ensures-mono _ (λ db e. e) (λ _ db r. (refl, r))
            (active_remove-Removed g operator user_id p q
              (ground (arith, eq_iff user_id g.owner_id, eq_iff g.owner_id user_id))))
    ])
  ]

  kick-Removed :
      (cfg : Config) (operator user_id : Bytes)
      → Ensures {E = Event} {S = S}
          (λ d. d ≡ before)
          (kick cfg now group_id operator user_id)
          (λ _ d. Kicked before group_id operator user_id d)
  unfolding kick
  kick-Removed cfg operator user_id =
      Ensures-bind _ _ _ _ _ (active_group-found before group_id) (λ g. Ensures-fact (λ f.
        Ensures-if (not (is_valid_id cfg.uuid_ok user_id)) (Ensures-raise _ _ _)
          (kick_checked cfg g operator user_id f.0 f.1)))

module _ {S : Type 0} (now : ℕ) (group_id : Bytes) where
  -- A quit that succeeds was of a member of an active group who does not own it. The membership row
  -- is gone and no other member's has changed. The user's view of the conversation is frozen at its
  -- last seq, or gone where the conversation has no message.
  pub quit_outcome :
      (user_id : Bytes) (w : World Event S)
      → (quit now group_id user_id w).0 ≡ ok tt
      → Removed w.db group_id user_id user_id (quit now group_id user_id w).1.db
  quit_outcome user_id w h = (quit-Removed w.db now group_id user_id).at w tt refl h

  -- A kick that succeeds was from an active group, of another member that does not own it, by an
  -- admin or the owner, and not of an admin by an admin. It has the effects of a quit for that
  -- member.
  pub kick_outcome :
      (cfg : Config) (operator user_id : Bytes) (w : World Event S)
      → (kick cfg now group_id operator user_id w).0 ≡ ok tt
      → Kicked w.db group_id operator user_id (kick cfg now group_id operator user_id w).1.db
  kick_outcome cfg operator user_id w h =
      (kick-Removed w.db now group_id cfg operator user_id).at w tt refl h
