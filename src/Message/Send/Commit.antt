-- ===== src/Message/Send/Commit.antt =====
-- What the transaction of a send commits.
use nexo.Prelude.{
  ℕ, ◌≡◌, refl, Bool, true, false, List, [], ◌∷◌, ◌++◌, if◌then◌else◌, arith, any, ap, sym, ◌∙◌,
}
use mathlib.Core.Path.{subst}
use nexo.Prelude.Bytes.{Bytes}
use nexo.Prelude.Map.{bytes_eq}
use nexo.Errcode.{ok, rollback}
use nexo.Store.{Message, Conversation, next_seq}
use nexo.Store.Db.{Db}
use nexo.Store.Messages.{conflicts, insert_message}
use nexo.Store.Action.{pure, call, ◌>>=◌}
use nexo.Store.Action.Rules.{ReadOnly-pure, DbKept, Ensures, DbKept-ReadOnly, DbKept-if}
use nexo.Store.Action.Hoare.{
  Ensures-raise, Ensures-pure, Ensures-call, Ensures-bind, Ensures-DbKept, Ensures-mono,
  Ensures-fact,
}
use nexo.Message.{Event, State, SendInput, is_group}
use nexo.Message.Send.{new_message, inserted_or_rollback, send_body, check_membership}
use nexo.Message.Send.Atomicity.{check_membership-ReadOnly}
use nexo.Message.Send.Numbering.{Numbered, set_max-Numbered, touches-Numbered}
use nexo.Store.Messages.{max_seq_of}
use nexo.Store.Lock.{SameSeqs, Ensures-lock, max_seq_of-convs}

-- After the insert, on both of its answers.
abbrev Inserted : Db → Message → Bool → Db → Type 0
Inserted before m b db =
    (b ≡ true
      → (db.messages ≡ before.messages ++ m ∷ []) × (any (conflicts m) before.messages ≡ false))
    × ((x : Bytes) → max_seq_of x db ≡ max_seq_of x before)
    × (m.seq ≡ next_seq (max_seq_of m.conversation_id before))

insert_cases :
    (m : Message) (db : Db) (b : Bool)
    → (insert_message m db).0 ≡ ok b
    → (b ≡ true
        → ((insert_message m db).1.messages ≡ db.messages ++ m ∷ [])
          × (any (conflicts m) db.messages ≡ false))
      × ((insert_message m db).1.convs ≡ db.convs)
unfolding insert_message
insert_cases m db b h = (λ e. ground arith, ground arith)

-- The message that a send's transaction commits, and the tables it leaves.
abbrev pub Committed : Db → Bytes → Bytes → SendInput → Message → Db → Type 0
Committed before conversation_id server_msg_id i m d =
    Numbered before m d × (m ≡ new_message conversation_id server_msg_id i m.seq m.send_time)

module _ {Limiter : Type 0} (before : Db) where
  insert-Inserted :
      (m : Message)
      → m.seq ≡ next_seq (max_seq_of m.conversation_id before)
      → Ensures {E = Event} {S = State Limiter}
          (SameSeqs before)
          (call (insert_message m))
          (Inserted before m)
  insert-Inserted m s = Ensures-call _ _ (insert_message m) (λ db b h x.
      let (p, q) = insert_cases m db b x in
      (
        λ e. (
          (p e).0 ∙ ap (λ (l : List Message). l ++ m ∷ []) h.messages,
          ap (λ (l : List Message). any (conflicts m) l) (sym h.messages) ∙ (p e).1,
        ),
        λ y. max_seq_of-convs y db (insert_message m db).1 q ∙ h.max_seq y,
        s,
      ))

  Inserted-Numbered :
      (i : SendInput) (m : Message) (now : ℕ) (b : Bool)
      → Ensures {E = Event} {S = State Limiter}
          (Inserted before m b)
          (inserted_or_rollback i m.conversation_id m now b)
          (λ a d. Numbered before m d × (a ≡ m))
  unfolding inserted_or_rollback
  Inserted-Numbered i m now false = Ensures-raise _ _ rollback
  Inserted-Numbered i m now true =
      Ensures-bind _ (λ _ d. Numbered before m d) _ _ _
        (Ensures-call _ _ _
          (λ db a h x. set_max-Numbered before db m now (h.0 refl).0 h.1 h.2 (h.0 refl).1))
        (λ _.
          Ensures-bind _ (λ _ d. Numbered before m d) _ _ _ (touches-Numbered before m i _ _ _ _)
            (λ _. Ensures-pure _ _ m (λ db h. (h, refl))))

  body_tail :
      (conversation_id server_msg_id : Bytes) (i : SendInput) (now : ℕ) (c : Conversation)
      → c.max_seq ≡ max_seq_of conversation_id before
      → let m = new_message conversation_id server_msg_id i (next_seq c.max_seq) now in
        Ensures {E = Event} {S = State Limiter}
          (SameSeqs before)
          (call (insert_message m) >>= inserted_or_rollback i conversation_id m now)
          (Committed before conversation_id server_msg_id i)
  unfolding new_message
  body_tail conversation_id server_msg_id i now c e =
      let m = new_message conversation_id server_msg_id i (next_seq c.max_seq) now in
      Ensures-bind _ (Inserted before m) _ _ _ (insert-Inserted m (ap next_seq e)) (λ b.
        Ensures-mono _ (λ db h. h)
          (λ a d h. (
            subst (λ x. Numbered before x d) (sym h.1) h.0,
            subst (λ x. x ≡ new_message conversation_id server_msg_id i x.seq x.send_time) (sym h.1)
                refl,
          ))
          (Inserted-Numbered i m now b))

  member_part :
      (i : SendInput)
      → DbKept {E = Event} {S = State Limiter}
          (if is_group i.session_type then check_membership i.group_id i.sender_id else pure tt)
  member_part i =
      DbKept-if _ (DbKept-ReadOnly (check_membership-ReadOnly i.group_id i.sender_id))
        (DbKept-ReadOnly (ReadOnly-pure tt))

  pub body-Committed :
      (conversation_id server_msg_id : Bytes) (now : ℕ) (i : SendInput)
      → Ensures {E = Event} {S = State Limiter}
          (λ d. d ≡ before)
          (send_body conversation_id server_msg_id now i)
          (Committed before conversation_id server_msg_id i)
  unfolding send_body
  body-Committed conversation_id server_msg_id now i =
      Ensures-bind _ _ _ _ _
        (Ensures-mono _ (λ db h. h) (λ c db h. (h.0.0, h.1))
          (Ensures-lock before conversation_id i.session_type i.group_id now))
        (λ c.
          Ensures-bind _
            (λ _ d. SameSeqs before d × (c.max_seq ≡ max_seq_of conversation_id before)) _ _ _
            (Ensures-DbKept _ _ (member_part i))
            (λ _. Ensures-fact (λ e. body_tail conversation_id server_msg_id i _ c e)))
