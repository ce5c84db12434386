-- ===== src/Message/Send/Sequence.antt =====
-- What a send that returns an ack has done.
use nexo.Prelude.{ℕ, ◌≡◌, refl, sym, ap, ◌∙◌, Option, none, some, arith, find}
use mathlib.Core.Path.{subst}
use nexo.Prelude.Bytes.{Bytes}
use nexo.Errcode.{GoError, ok, err, rollback, is_not_found}
use nexo.Store.{SessionType, single, Message}
use nexo.Store.Db.{Db, or_not_found}
use nexo.Store.Messages.{get_message_by_client_id, is_retry_of}
use nexo.Store.Action.{World, call}
use nexo.Store.Action.Rules.{
  Ensures, DbKept-ReadOnly, db_kept_rules, Atomic-with_tx, Atomic-ReadOnly, ReadOnly-lift,
  ReadOnly-map_error,
}
use nexo.Store.Action.Hoare.{
  Ensures-raise, Ensures-pure, Ensures-call, Ensures-bind, Ensures-DbKept, Ensures-with_tx,
  Ensures-attempt, Ensures-map_error, Ensures-if, Ensures-fact,
}
use nexo.Ratelimit.{Limiters}
use nexo.Message.{Event, State, Config, SendInput, Ack}
use nexo.Message.Send.{
  Destination, new_message, destination_of, normalize_destination, ack, retried, duplicated,
  after_tx, send_new, after_lookup, send,
}
use nexo.Message.Send.Atomicity.{
  send_body-Silent, republish_allowed-DbKept, take_token-ReadOnly, get_message-ReadOnly,
  get_user-ReadOnly, get_group-ReadOnly, publish-DbKept, republish-DbKept, republication-DbKept,
}
use nexo.Message.Send.Numbering.{Numbered}
use nexo.Message.Send.Commit.{Committed, body-Committed}

-- The message of an ack: one that was stored before under this client id, with nothing written, or
-- a new one with what the client sent, numbered next in its conversation.
pub data Outcome (before : Db) (server_msg_id : Bytes) (i : SendInput) (a : Ack) (d : Db)
    : Type 0 where
  again :
      (c : Bytes) (m : Message)
      → find (is_retry_of c i.sender_id i.client_msg_id) before.messages ≡ some m
      → a ≡ ack m
      → d ≡ before
      → Outcome before server_msg_id i a d
  fresh :
      (m : Message)
      → Numbered before m d
      → a ≡ ack m
      → m.server_msg_id ≡ server_msg_id
      → m.sender_id ≡ i.sender_id
      → m.client_msg_id ≡ i.client_msg_id
      → m.content ≡ i.content
      → Outcome before server_msg_id i a d

-- The parts of the input that the destination leaves alone.
abbrev SameSender : SendInput → Destination → Type 0
SameSender i d =
    (d.input.sender_id ≡ i.sender_id)
    × (d.input.client_msg_id ≡ i.client_msg_id)
    × (d.input.content ≡ i.content)

found-or_not_found : (m : Message) (o : Option Message) → or_not_found o ≡ ok m → o ≡ some m
found-or_not_found m none h = cc
found-or_not_found m (some x) h = ground arith

module _ {Limiter : Type 0} (before : Db) where
  destination-SameSender :
      (i : SendInput) (t : SessionType)
      → Ensures {E = Event} {S = State Limiter}
          (λ d. d ≡ before)
          (destination_of i t)
          (λ dst d. (d ≡ before) × SameSender i dst)
  unfolding destination_of
  destination-SameSender i single =
      Ensures-bind _ (λ _ d. d ≡ before) _ _ _
        (Ensures-DbKept _ _
          (DbKept-ReadOnly (ReadOnly-map_error _ _ (get_user-ReadOnly i.recv_id))))
        (λ u. Ensures-pure _ _ _ (λ db h. (h, (refl, refl, refl))))
  destination-SameSender i _ =
      Ensures-bind _ (λ _ d. d ≡ before) _ _ _
        (Ensures-DbKept _ _
          (DbKept-ReadOnly (ReadOnly-map_error _ _ (get_group-ReadOnly i.group_id))))
        (λ g. Ensures-pure _ _ _ (λ db h. (h, (refl, refl, refl))))

  lookup-found :
      (c s m : Bytes)
      → Ensures {E = Event} {S = State Limiter}
          (λ d. d ≡ before)
          (call (get_message_by_client_id c s m))
          (λ msg d. (d ≡ before) × (find (is_retry_of c s m) before.messages ≡ some msg))
  unfolding get_message_by_client_id
  lookup-found c s m = Ensures-call _ _ _ (λ db msg h x. (
    h,
    ap (λ (b : Db). find (is_retry_of c s m) b.messages) (sym h)
        ∙ found-or_not_found msg (find (is_retry_of c s m) db.messages) x,
  ))

module _ (before : Db) (server_msg_id : Bytes) (i : SendInput) (d : Destination)
    (same : SameSender i d) where
  -- The ack of a stored message is a first outcome.
  again_of :
      (m : Message) (db : Db)
      → db ≡ before
      → find (is_retry_of d.conversation_id d.input.sender_id d.input.client_msg_id) before.messages
        ≡ some m
      → Outcome before server_msg_id i (ack m) db
  again_of m db h f =
      again d.conversation_id m
        (subst
          (λ s. find (is_retry_of d.conversation_id s i.client_msg_id) before.messages ≡ some m)
          same.0
          (subst
            (λ c. find (is_retry_of d.conversation_id d.input.sender_id c) before.messages ≡ some m)
            same.1 f))
        refl h

  fresh_of :
      (m : Message) (db : Db)
      → Committed before d.conversation_id server_msg_id d.input m db
      → Outcome before server_msg_id i (ack m) db
  unfolding new_message
  fresh_of m db h =
      fresh m h.0 refl (ap (λ (x : Message). x.server_msg_id) h.1)
        (ap (λ (x : Message). x.sender_id) h.1 ∙ same.0)
        (ap (λ (x : Message). x.client_msg_id) h.1 ∙ same.1)
        (ap (λ (x : Message). x.content) h.1 ∙ same.2)

module _ {Limiter : Type 0} (before : Db) (server_msg_id : Bytes) (i : SendInput) (d : Destination)
    (same : SameSender i d) where
  retried-Outcome :
      (lib : Limiters Limiter) (now : ℕ) (m : Message)
      → Ensures {E = Event} {S = State Limiter}
          (λ db.
            (db ≡ before)
            × (find
                  (is_retry_of d.conversation_id d.input.sender_id d.input.client_msg_id)
                  before.messages
                ≡ some m))
          (retried lib now d m)
          (Outcome before server_msg_id i)
  unfolding retried
  retried-Outcome lib now m =
      Ensures-bind _ (λ _ db. _) _ _ _ (Ensures-DbKept _ _ (republish_allowed-DbKept d))
        (λ allowed.
          Ensures-bind _ (λ _ db. _) _ _ _
            (Ensures-DbKept _ _ (republication-DbKept lib now d m allowed))
            (λ _. Ensures-pure _ _ _ (λ db h. again_of before server_msg_id i d same m db h.0 h.1)))

  duplicated-Outcome :
      Ensures {E = Event} {S = State Limiter}
        (λ db. db ≡ before)
        (duplicated d)
        (Outcome before server_msg_id i)
  unfolding duplicated
  duplicated-Outcome =
      Ensures-bind _ _ _ _ _ (Ensures-map_error _ _ _ _ (lookup-found before _ _ _)) (λ m.
        Ensures-bind _ (λ _ db. _) _ _ _
          (Ensures-DbKept _ _ (republish-DbKept m d.input.sender_conn_id))
          (λ _. Ensures-pure _ _ _ (λ db h. again_of before server_msg_id i d same m db h.0 h.1)))

  failed-Outcome :
      (cfg : Config) (e : GoError)
      → Ensures {E = Event} {S = State Limiter}
          (λ db. db ≡ before)
          (after_tx cfg d (err e))
          (Outcome before server_msg_id i)
  unfolding after_tx
  failed-Outcome cfg rollback = duplicated-Outcome
  failed-Outcome cfg _ = Ensures-raise _ _ _

  Committed-Outcome :
      (cfg : Config) (m : Message)
      → Ensures {E = Event} {S = State Limiter}
          (Committed before d.conversation_id server_msg_id d.input m)
          (after_tx cfg d (ok m))
          (Outcome before server_msg_id i)
  unfolding after_tx
  Committed-Outcome cfg m =
      Ensures-bind _ (λ _ db. _) _ _ _
        (Ensures-DbKept _ _ (publish-DbKept m d.input.sender_conn_id))
        (λ _.
          Ensures-bind _ (λ _ db. _) _ _ _ (Ensures-DbKept _ _ (search db_kept_rules))
            (λ _. Ensures-pure _ _ _ (λ db h. fresh_of before server_msg_id i d same m db h)))

  send_new-Outcome :
      (lib : Limiters Limiter) (cfg : Config) (now : ℕ)
      → Ensures {E = Event} {S = State Limiter}
          (λ db. db ≡ before)
          (send_new lib cfg now server_msg_id d)
          (Outcome before server_msg_id i)
  unfolding send_new
  send_new-Outcome lib cfg now =
      Ensures-bind _ (λ _ db. db ≡ before) _ _ _
        (Ensures-DbKept _ _ (DbKept-ReadOnly (take_token-ReadOnly lib d.input now)))
        (λ token.
          Ensures-if token
            (Ensures-attempt _ _ _ _ _ (Atomic-with_tx _ (send_body-Silent _ _ _ _))
              (Ensures-with_tx _ _ _ (body-Committed before _ server_msg_id now d.input))
              (failed-Outcome cfg) (Committed-Outcome cfg))
            (Ensures-raise _ _ _))

  lookup_failed-Outcome :
      (lib : Limiters Limiter) (cfg : Config) (now : ℕ) (e : GoError)
      → Ensures {E = Event} {S = State Limiter}
          (λ db. db ≡ before)
          (after_lookup lib cfg now server_msg_id d (err e))
          (Outcome before server_msg_id i)
  unfolding after_lookup
  lookup_failed-Outcome lib cfg now e =
      Ensures-if (is_not_found e) (send_new-Outcome lib cfg now) (Ensures-raise _ _ _)

module _ {Limiter : Type 0} (lib : Limiters Limiter) (cfg : Config) where
  send-Outcome :
      (before : Db) (now : ℕ) (server_msg_id : Bytes) (i : SendInput)
      → Ensures {E = Event} {S = State Limiter}
          (λ db. db ≡ before)
          (send lib cfg now server_msg_id i)
          (Outcome before server_msg_id i)
  unfolding send normalize_destination
  send-Outcome before now server_msg_id i =
      Ensures-bind _ (λ _ db. db ≡ before) _ _ _
        (Ensures-DbKept _ _ (DbKept-ReadOnly (ReadOnly-lift _)))
        (λ _. Ensures-bind _ _ _ _ _ (destination-SameSender before i i.session_type) (λ d.
          Ensures-fact (λ same.
            Ensures-attempt _ _ _ _ _ (Atomic-ReadOnly (get_message-ReadOnly _ _ _))
              (lookup-found before _ _ _)
              (lookup_failed-Outcome before server_msg_id i d same lib cfg now)
              (λ m.
                unfold after_lookup in retried-Outcome before server_msg_id i d same lib now m))))

  -- A send that is acknowledged has either found the message that the same sender stored under the
  -- same client id, and written nothing, or stored one new message: the one acknowledged, with the
  -- sender, client id and content of the input, in no conflict with a stored one, at the seq after
  -- its conversation's last, which is the last one then; the other conversations keep theirs.
  pub send_effect :
      (now : ℕ) (server_msg_id : Bytes) (i : SendInput) (w : World Event (State Limiter)) (a : Ack)
      → (send lib cfg now server_msg_id i w).0 ≡ ok a
      → Outcome w.db server_msg_id i a (send lib cfg now server_msg_id i w).1.db
  send_effect now server_msg_id i w a h = (send-Outcome w.db now server_msg_id i).at w a refl h
