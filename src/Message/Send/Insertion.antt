-- ===== src/Message/Send/Insertion.antt =====
-- What the transaction of a send meets: no unique key of the new message is taken.
use nexo.Prelude.{
  ℕ, zero, suc, ◌≤◌, ◌<◌, ◌≡◌, refl, sym, ap, inl, inr, true, false, Option, none, some, List, [],
  ◌∷◌, arith, find, any, Bool-cases, All, All-append,
}
use mathlib.Core.Path.{subst}
use nexo.Prelude.Bytes.{Bytes, ◌==◌}
use nexo.Prelude.Map.{lookup, bytes_eq}
use nexo.Errcode.{ok}
use nexo.Store.{SessionType, Conversation, Message, next_seq, next_seq_lem, max_int64}
use nexo.Store.Db.{Db}
use nexo.Store.Conversations.{lock_conversation, new_conversation}
use nexo.Store.Messages.{insert_message, is_retry_of, conflicts, max_seq_of}
use nexo.Message.{SendInput}
use nexo.Message.Send.{new_message}
use nexo.Message.Send.Gapless.{seqs_of, one_to, IsGapless}

one_to-bounded : (n : ℕ) → All (λ s. s ≤ n) (one_to n)
unfolding one_to
one_to-bounded zero = tt
one_to-bounded (suc n) =
    All-append (λ s. s ≤ suc n) (one_to n) (suc n ∷ []) (weaken n (one_to n) (one_to-bounded n))
      (omega arith, tt)
  where
    weaken : (n : ℕ) (xs : List ℕ) → All (λ s. s ≤ n) xs → All (λ s. s ≤ suc n) xs
    weaken n [] h = tt
    weaken n (x ∷ xs) h = (omega (arith, h.0), weaken n xs h.1)

-- A message that is next in its conversation, of a new id, and no retry, takes no unique key.
no_conflict :
    (msg : Message) (n : ℕ) (ms : List Message)
    → n < msg.seq
    → All (λ s. s ≤ n) (seqs_of msg.conversation_id ms)
    → any (λ m. m.server_msg_id == msg.server_msg_id) ms ≡ false
    → find (is_retry_of msg.conversation_id msg.sender_id msg.client_msg_id) ms ≡ none
    → any (conflicts msg) ms ≡ false
unfolding any find is_retry_of conflicts seqs_of
no_conflict msg n [] lt h f r = refl
no_conflict msg n (m ∷ ms) lt h f r = elim (Bool-cases (m.conversation_id == msg.conversation_id)) [
  | inl same ↦
      let k : (m.seq ≤ n) × All (λ s. s ≤ n) (seqs_of msg.conversation_id ms) = rw same at h in
      ground (arith, no_conflict msg n ms lt k.1)
  | inr other ↦
      let k : All (λ s. s ≤ n) (seqs_of msg.conversation_id ms) = rw other at h in
      ground (arith, no_conflict msg n ms lt k)
]

pub lock_total :
    (id : Bytes) (t : SessionType) (g : Bytes) (now : ℕ) (db : Db) (o : Option Conversation)
    → lookup id db.convs ≡ o
    → (c : Conversation) × ((lock_conversation id t g now db).0 ≡ ok c)
unfolding lock_conversation
lock_total id t g now db none e = (new_conversation id t g now, rw (e, lock_conversation) refl)
lock_total id t g now db (some c) e = (c, rw (e, lock_conversation) refl)

-- What a send of the sender's message under the client id meets in the tables: seqs without gap, a
-- new server id, and no earlier message under the client id.
pub record Fresh (conversation_id server_msg_id sender_id client_msg_id : Bytes) (db : Db)
    : Type 0 where
  pub gapless : IsGapless db
  pub room : max_seq_of conversation_id db < max_int64
  pub id : any (λ m. m.server_msg_id == server_msg_id) db.messages ≡ false
  pub first : find (is_retry_of conversation_id sender_id client_msg_id) db.messages ≡ none

pub insert_ok :
    (conv sid : Bytes) (j : SendInput) (c : Conversation) (now : ℕ) (before db : Db)
    → Fresh conv sid j.sender_id j.client_msg_id before
    → c.max_seq ≡ max_seq_of conv before
    → db.messages ≡ before.messages
    → (insert_message (new_message conv sid j (next_seq c.max_seq) now) db).0 ≡ ok true
unfolding insert_message new_message
insert_ok conv sid j c now before db h e same =
    let msg = new_message conv sid j (next_seq c.max_seq) now in
    let n = max_seq_of conv before in
    let later : n < next_seq c.max_seq = omega (arith, ap next_seq e, next_seq_lem n h.room) in
    let free : any (conflicts msg) before.messages ≡ false =
      no_conflict msg n before.messages later
        (subst (All (λ s. s ≤ n)) (sym (h.gapless.at conv)) (one_to-bounded n)) h.id h.first in
    ground (arith, free, same)
