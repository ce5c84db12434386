-- ===== src/Message/Send/Numbering.antt =====
-- What one send does to the messages and to the seqs of the conversations.
use nexo.Prelude.{
  ℕ, ◌≡◌, refl, false, [], ◌∷◌, ◌++◌, if◌then◌else◌, arith, any, ◌∙◌, ◌==◌ as nat_eq,
}
use nexo.Prelude.Bytes.{Bytes, ◌==◌}
use nexo.Prelude.Map.{lookup, lookup-insert, bytes_eq}
use nexo.Store.{SessionType, single, Message, UserConversation, next_seq}
use nexo.Store.Db.{Db, Op}
use nexo.Store.Messages.{
  conflicts, set_conversation_max_seq, max_seq_of, or_zero, touch_user_conversation,
  touch_conversation_members, advance_read_seq,
}
use nexo.Store.Action.{pure, call, ◌>>=◌}
use nexo.Store.Action.Rules.{Ensures}
use nexo.Store.Action.Hoare.{Ensures-pure, Ensures-call, Ensures-bind, Ensures-if}
use nexo.Message.{Event, State, SendInput}
use nexo.Message.Send.{touch_conversations}
use nexo.Store.Lock.{max_seq_of-convs}

-- `m` came in as the next message of its conversation, and no other conversation has moved.
pub record Numbered (before : Db) (m : Message) (db : Db) : Type 0 where
  pub messages : db.messages ≡ before.messages ++ m ∷ []
  pub max_seq :
      (x : Bytes)
      → max_seq_of x db ≡ (if m.conversation_id == x then m.seq else max_seq_of x before)
  pub seq : m.seq ≡ next_seq (max_seq_of m.conversation_id before)
  -- no stored message has one of its unique keys
  pub no_conflict : any (conflicts m) before.messages ≡ false

pub set_max-Numbered :
    (before db : Db) (m : Message) (now : ℕ)
    → db.messages ≡ before.messages ++ m ∷ []
    → ((x : Bytes) → max_seq_of x db ≡ max_seq_of x before)
    → m.seq ≡ next_seq (max_seq_of m.conversation_id before)
    → any (conflicts m) before.messages ≡ false
    → Numbered before m (set_conversation_max_seq m.conversation_id m.seq now db).1
unfolding set_conversation_max_seq max_seq_of
set_max-Numbered before db m now p q s u = record {
  messages = p;
  max_seq = λ x. ground (
    arith,
    q x,
    lookup-insert m.conversation_id x
        (record (or_zero (lookup m.conversation_id db.convs)) { max_seq = m.seq; updated_at = now })
        db.convs,
  );
  seq = s;
  no_conflict = u;
}

-- Statements that write the users' rows alone.
Numbered-moved :
    {before : Db} {m : Message} (db db' : Db)
    → db'.messages ≡ db.messages
    → db'.convs ≡ db.convs
    → Numbered before m db
    → Numbered before m db'
Numbered-moved db db' p q h = record {
  messages = p ∙ h.messages;
  max_seq = λ x. max_seq_of-convs x db db' q ∙ h.max_seq x;
  seq = h.seq;
  no_conflict = h.no_conflict;
}

advance_messages :
    (o c : Bytes) (r : ℕ) (db : Db)
    → ((advance_read_seq o c r db).1.messages ≡ db.messages)
      × ((advance_read_seq o c r db).1.convs ≡ db.convs)
unfolding advance_read_seq
advance_messages o c r db = ground arith

module _ {Limiter : Type 0} (before : Db) (m : Message) where
  users_only :
      {A : Type 0} (op : Op A)
      → ((db : Db) → (op db).1.messages ≡ db.messages)
      → ((db : Db) → (op db).1.convs ≡ db.convs)
      → Ensures {E = Event} {S = State Limiter}
          (Numbered before m)
          (call op)
          (λ _ d. Numbered before m d)
  users_only op p q =
      Ensures-call (Numbered before m) _ op
        (λ db a h x. Numbered-moved db (op db).1 (p db) (q db) h)

  touch-Numbered :
      (uc : UserConversation) (r : ℕ)
      → Ensures {E = Event} {S = State Limiter}
          (Numbered before m)
          (call (touch_user_conversation uc r))
          (λ _ d. Numbered before m d)
  touch-Numbered uc r =
      users_only _ (λ db. unfold touch_user_conversation in refl)
        (λ db. unfold touch_user_conversation in refl)

  advance-Numbered :
      (o c : Bytes) (r : ℕ)
      → Ensures {E = Event} {S = State Limiter}
          (Numbered before m)
          (call (advance_read_seq o c r))
          (λ _ d. Numbered before m d)
  advance-Numbered o c r =
      users_only _ (λ db. (advance_messages o c r db).0) (λ db. (advance_messages o c r db).1)

  members-Numbered :
      (c : Bytes) (now : ℕ)
      → Ensures {E = Event} {S = State Limiter}
          (Numbered before m)
          (call (touch_conversation_members c now))
          (λ _ d. Numbered before m d)
  members-Numbered c now =
      users_only _ (λ db. unfold touch_conversation_members in refl)
        (λ db. unfold touch_conversation_members in refl)

  touches_others :
      (i : SendInput) (c : Bytes) (seq now : ℕ)
      → Ensures {E = Event} {S = State Limiter}
          (Numbered before m)
          (call (touch_conversation_members c now) >>= (λ _.
            if nat_eq (if i.sender_read then seq else 0) 0
            then pure tt
            else call (advance_read_seq i.sender_id c (if i.sender_read then seq else 0))))
          (λ _ d. Numbered before m d)
  touches_others i c seq now =
      Ensures-bind _ _ _ _ _ (members-Numbered c now)
        (λ _. Ensures-if _ (Ensures-pure _ _ tt (λ db h. h)) (advance-Numbered i.sender_id c _))

  pub touches-Numbered :
      (i : SendInput) (t : SessionType) (c : Bytes) (seq now : ℕ)
      → Ensures {E = Event} {S = State Limiter}
          (Numbered before m)
          (touch_conversations i t c seq now)
          (λ _ d. Numbered before m d)
  unfolding touch_conversations
  touches-Numbered i single c seq now =
      Ensures-bind _ _ _ _ _ (touch-Numbered _ _) (λ _. touch-Numbered _ _)
  touches-Numbered i _ c seq now = touches_others i c seq now
