-- ===== src/Message/Send/Delivery.antt =====
-- A send that meets no fault is acknowledged.
use nexo.Prelude.{
  ℕ, ◌<◌, ◌≡◌, refl, sym, ap, ◌∙◌, ◌⊎◌, inl, inr, Bool, true, false, Option, none, some, [], arith,
  find, any,
}
use mathlib.Core.Path.{subst}
use nexo.Prelude.Bytes.{Bytes, ◌==◌}
use nexo.Prelude.Map.{lookup, bytes_eq}
use nexo.Errcode.{Result, ok, is_not_found}
use nexo.Store.{single, Message, User, max_int64}
use nexo.Store.Db.{Db, or_not_found}
use nexo.Store.Users.{get_user}
use nexo.Store.Messages.{
  get_message_by_client_id, is_retry_of, max_seq_of, set_conversation_max_seq,
  touch_user_conversation,
}
use nexo.Store.Lock.{lock_cases}
use nexo.Store.Action.{World, call, attempt, ◌>>=◌}
use nexo.Store.Action.Runs.{
  Ran, Quiet, Ran-pure, Ran-lift, Ran-call, Ran-attempt-call, Ran-attempt, Ran-map_error,
  Ran-with_service, Ran-mono, Ran-emit, Ran-if, Ran-from, Ran-bind, Ran-with_tx,
}
use nexo.Conv.{single_id}
use nexo.Ratelimit.{Limiters, allow}
use nexo.Message.{Event, State, Config, SendInput, Ack, validate}
use nexo.Message.Send.{
  M, Destination, destination_of, normalize_destination, take_token, retried, republish, publish,
  republish_allowed, touch_conversations, inserted_or_rollback, send_body, after_tx, send_new,
  after_lookup, send,
}
use nexo.Message.Send.Gapless.{IsGapless}
use nexo.Message.Send.Insertion.{Fresh, lock_total, insert_ok}

module _ {Limiter : Type 0} where
  -- The sender is not held back by the limiter.
  abbrev pub May : Limiters Limiter → SendInput → ℕ → State Limiter → Type 0
  May lib i now s = (i.unlimited ≡ true) ⊎ ((allow lib i.sender_id now s.send_limit).0 ≡ true)

  token_of-Ran :
      (lib : Limiters Limiter) (i : SendInput) (now : ℕ) (w : World Event (State Limiter))
      (u : Bool)
      → i.unlimited ≡ u
      → Quiet w
      → May lib i now w.service
      → Ran (take_token lib i now) w (λ b v. (b ≡ true) × (v.db ≡ w.db) × Quiet v)
  unfolding take_token
  token_of-Ran lib i now w true e quiet may = rw e (
      Ran-mono _ _ _ _ (λ b v h. (h.0, ap (λ x. x.db) h.1, ap (λ x. x.faults) h.1 ∙ quiet))
        (Ran-pure true w))
  token_of-Ran lib i now w false e quiet (inl u) = absurd (ground arith)
  token_of-Ran lib i now w false e quiet (inr m) = rw e (
      Ran-mono _ _ _ _ (λ b v h. (h.0 ∙ m, ap (λ x. x.db) h.1, ap (λ x. x.faults) h.1 ∙ quiet))
        (Ran-with_service _ w))

module _ {Limiter : Type 0} (conv sid : Bytes) (j : SendInput) (e : j.session_type ≡ single) where
  touch-Ran :
      (seq now : ℕ) (w : World Event (State Limiter))
      → Quiet w
      → Ran (touch_conversations j j.session_type conv seq now) w (λ _ v. Quiet v)
  unfolding touch_conversations touch_user_conversation
  touch-Ran seq now w quiet = rw e (
      Ran-bind _ _ _ _ _ (Ran-call _ tt w quiet refl) (λ _ v h.
        let q : Quiet v = ap (λ x. x.faults) h.1 ∙ quiet in
        Ran-mono _ _ _ _ (λ _ u k. ap (λ x. x.faults) k.1 ∙ q) (Ran-call _ tt v q refl)))

  stored-Ran :
      (msg : Message) (now : ℕ) (w : World Event (State Limiter))
      → Quiet w
      → Ran (inserted_or_rollback j conv msg now true) w (λ _ v. Quiet v)
  unfolding inserted_or_rollback set_conversation_max_seq
  stored-Ran msg now w quiet = Ran-bind _ _ _ _ _ (Ran-call _ tt w quiet refl) (λ _ v h.
      Ran-bind _ _ _ _ _ (touch-Ran msg.seq now v (ap (λ x. x.faults) h.1 ∙ quiet))
        (λ _ u q. Ran-mono _ _ _ _ (λ _ x k. ap (λ y. y.faults) k.1 ∙ q) (Ran-pure msg u)))

  body-Ran :
      (now : ℕ) (w : World Event (State Limiter))
      → Quiet w
      → Fresh conv sid j.sender_id j.client_msg_id w.db
      → Ran (send_body conv sid now j) w (λ _ v. Quiet v × Quiet v)
  unfolding send_body
  body-Ran now w quiet fresh =
      let (c, locked) =
        lock_total conv j.session_type j.group_id now w.db (lookup conv w.db.convs) refl in
      let (same, last) =
        lock_cases conv j.session_type j.group_id now (lookup conv w.db.convs) w.db c refl locked in
      Ran-bind _ _ _ _ _ (Ran-call _ c w quiet locked) (λ c' v h.
        let q : Quiet v = ap (λ x. x.faults) h.1 ∙ quiet in
        Ran-bind _ _ _ (λ _ u. u ≡ v) _ (rw e (Ran-mono _ _ _ _ (λ _ u k. k.1) (Ran-pure tt v)))
          (λ _ u k.
            let q' : Quiet u = ap (λ x. x.faults) k ∙ q in
            let rows : u.db.messages ≡ w.db.messages =
              ap (λ x. x.db.messages) (k ∙ h.1) ∙ same.messages in
            let taken =
              insert_ok conv sid j c' _ w.db u.db fresh (ap (λ x. x.max_seq) h.0 ∙ last) rows in
            Ran-bind _ _ _ _ _ (Ran-call _ true u q' taken) (λ inserted x m. rw (m.0) (
              Ran-mono _ _ _ _ (λ _ y z. (z, z))
                (stored-Ran _ _ x (ap (λ y. y.faults) m.1 ∙ q'))))))

-- Only that the action returns.
abbrev Returns : {A E S : Type 0} → A → World E S → Type 0
Returns _ _ = Unit

module _ {Limiter : Type 0} (cfg : Config) (d : Destination) where
  pushed-Ran :
      (msg : Message) (w : World Event (State Limiter)) → Ran (after_tx cfg d (ok msg)) w Returns
  unfolding after_tx publish
  pushed-Ran msg w = Ran-bind _ _ _ _ _ (Ran-emit _ w) (λ _ v h.
      Ran-bind _ _ _ Returns _
        (Ran-if cfg.has_pusher _ _ v _ (Ran-mono _ _ _ _ (λ _ _ _. tt) (Ran-emit _ v))
          (Ran-mono _ _ _ _ (λ _ _ _. tt) (Ran-pure tt v)))
        (λ _ u k. Ran-mono _ _ _ _ (λ _ _ _. tt) (Ran-pure _ u)))

module _ {Limiter : Type 0} (lib : Limiters Limiter) (d : Destination)
    (e : d.input.session_type ≡ single) where
  republish-Ran :
      (m : Message) (c : Bytes) (w : World Event (State Limiter)) → Ran (republish m c) w Returns
  unfolding republish publish
  republish-Ran m c w =
      Ran-bind _ _ _ _ _ (Ran-with_service _ w)
        (λ _ v h. Ran-mono _ _ _ _ (λ _ _ _. tt) (Ran-emit _ v))

  any_token-Ran :
      (now : ℕ) (w : World Event (State Limiter)) → Ran (take_token lib d.input now) w Returns
  unfolding take_token
  any_token-Ran now w =
      Ran-if d.input.unlimited _ _ w _ (Ran-mono _ _ _ _ (λ _ _ _. tt) (Ran-pure true w))
        (Ran-mono _ _ _ _ (λ _ _ _. tt) (Ran-with_service _ w))

  retried-Ran :
      (now : ℕ) (m : Message) (w : World Event (State Limiter))
      → Ran (retried lib now d m) w Returns
  unfolding retried republish_allowed
  retried-Ran now m w = rw e (
      Ran-bind _ _ _ _ _ (Ran-pure true w) (λ allowed v h.
        Ran-bind _ _ _ Returns _
          (Ran-if allowed _ _ v _
            (Ran-bind _ _ _ _ _ (any_token-Ran now v) (λ token u k.
              Ran-if token _ _ u _ (republish-Ran m d.input.sender_conn_id u)
                (Ran-mono _ _ _ _ (λ _ _ _. tt) (Ran-pure tt u))))
            (Ran-mono _ _ _ _ (λ _ _ _. tt) (Ran-pure tt v)))
          (λ _ u k. Ran-mono _ _ _ _ (λ _ _ _. tt) (Ran-pure _ u))))

  send_new-Ran :
      (cfg : Config) (now : ℕ) (sid : Bytes) (w : World Event (State Limiter))
      → Quiet w
      → May lib d.input now w.service
      → Fresh d.conversation_id sid d.input.sender_id d.input.client_msg_id w.db
      → Ran (send_new lib cfg now sid d) w Returns
  unfolding send_new
  send_new-Ran cfg now sid w quiet may fresh =
      Ran-bind _ _ _ _ _ (token_of-Ran lib d.input now w d.input.unlimited refl quiet may)
        (λ token v h. rw (h.0) (
          Ran-bind _ _ _ _ _
            (Ran-attempt _ v _ (
              Ran-with_tx _ v _ h.2 (
                body-Ran d.conversation_id sid d.input e now v h.2 (
                  subst (Fresh d.conversation_id sid d.input.sender_id d.input.client_msg_id)
                    (sym h.1) fresh))))
            (λ r u k. rw (k.1) (pushed-Ran cfg d k.0 u))))

-- The tables of a send of a message with a new server id.
record Ready (server_msg_id : Bytes) (db : Db) : Type 0 where
  gapless : IsGapless db
  room : (id : Bytes) → max_seq_of id db < max_int64
  id : any (λ m. m.server_msg_id == server_msg_id) db.messages ≡ false

module _ {Limiter : Type 0} (lib : Limiters Limiter) (cfg : Config) (now : ℕ) (sid : Bytes) where
  looked_up-Ran :
      (d : Destination) (w : World Event (State Limiter)) (o : Option Message) (r : Result Message)
      → d.input.session_type ≡ single
      → Quiet w
      → May lib d.input now w.service
      → Ready sid w.db
      → find (is_retry_of d.conversation_id d.input.sender_id d.input.client_msg_id) w.db.messages
        ≡ o
      → r ≡ or_not_found o
      → Ran (after_lookup lib cfg now sid d r) w Returns
  unfolding after_lookup is_not_found
  looked_up-Ran d w none r e quiet may ready f x = rw x (
      send_new-Ran lib d e cfg now sid w quiet may (record {
        gapless = ready.gapless;
        room = ready.room d.conversation_id;
        id = ready.id;
        first = f;
      }))
  looked_up-Ran d w (some m) r e quiet may ready f x = rw x (retried-Ran lib d e now m w)

  found-Ran :
      (d : Destination) (w : World Event (State Limiter))
      → d.input.session_type ≡ single
      → Quiet w
      → May lib d.input now w.service
      → Ready sid w.db
      → Ran
          (attempt (
              call (
                get_message_by_client_id d.conversation_id d.input.sender_id d.input.client_msg_id))
            >>= after_lookup lib cfg now sid d)
          w
          Returns
  unfolding get_message_by_client_id
  found-Ran d w e quiet may ready = Ran-bind _ _ _ _ _ (Ran-attempt-call _ w quiet) (λ r v h.
      subst (λ v'. Ran (after_lookup lib cfg now sid d r) v' Returns) (sym h.1)
        (looked_up-Ran d w _ r e quiet may ready refl h.0))

abbrev single_destination : SendInput → User → Destination
single_destination i u = record {
  conversation_id = single_id i.sender_id u.id;
  input = record i { recv_id = u.id; group_id = [] };
  group_row = none;
}

destination-Ran :
    {Limiter : Type 0} (i : SendInput) (u : User) (w : World Event (State Limiter))
    → i.session_type ≡ single
    → lookup i.recv_id w.db.users ≡ some u
    → Quiet w
    → Ran (normalize_destination i) w (λ d v. (d ≡ single_destination i u) × (v ≡ w))
unfolding normalize_destination destination_of get_user
destination-Ran i u w e found quiet =
    subst (λ t. Ran (destination_of i t) w (λ d v. (d ≡ single_destination i u) × (v ≡ w))) (sym e)
      (Ran-bind _ _ _ _ _ (Ran-map_error _ _ _ _ (Ran-call _ u w quiet (ap or_not_found found)))
        (λ x v h.
          Ran-mono _ _ _ _ (λ d y k. (k.0 ∙ ap (single_destination i) h.0, k.1 ∙ h.1))
            (Ran-pure _ v)))

module _ {Limiter : Type 0} (lib : Limiters Limiter) (cfg : Config) where
  abbrev from_lookup : ℕ → Bytes → Destination → M Limiter Ack
  from_lookup now sid d =
      attempt
        (call (get_message_by_client_id d.conversation_id d.input.sender_id d.input.client_msg_id))
      >>= after_lookup lib cfg now sid d

  at_destination :
      (now : ℕ) (sid : Bytes) (w : World Event (State Limiter)) (d d' : Destination)
      → d ≡ d'
      → Ran (from_lookup now sid d') w Returns
      → Ran (from_lookup now sid d) w Returns
  at_destination now sid w d d' e h = subst (λ x. Ran (from_lookup now sid x) w Returns) (sym e) h

  send-Ran :
      (now : ℕ) (sid : Bytes) (i : SendInput) (u : User) (w : World Event (State Limiter))
      → Quiet w
      → validate cfg i ≡ ok tt
      → i.session_type ≡ single
      → lookup i.recv_id w.db.users ≡ some u
      → May lib i now w.service
      → Ready sid w.db
      → Ran (send lib cfg now sid i) w Returns
  unfolding send
  send-Ran now sid i u w quiet valid e found may ready =
      Ran-bind _ _ _ _ _ (Ran-lift _ tt w valid) (λ _ v h. Ran-from _ w v _ h.1 (
        Ran-bind _ _ w _ _ (destination-Ran i u w e found quiet) (λ d x k. Ran-from _ w x _ k.1 (
          at_destination now sid w d (single_destination i u) k.0
            (found-Ran lib cfg now sid (single_destination i u) w e quiet may ready)))))

  -- A valid message to a stored user is acknowledged, where the limiter lets the sender send, no
  -- statement of the store fails, the new server id is new, the seqs of every conversation are the
  -- numbers from 1 to its last, and that is below the last int64.
  pub send_acknowledges :
      (now : ℕ) (server_msg_id : Bytes) (i : SendInput) (u : User) (w : World Event (State Limiter))
      → Quiet w
      → validate cfg i ≡ ok tt
      → i.session_type ≡ single
      → lookup i.recv_id w.db.users ≡ some u
      → May lib i now w.service
      → IsGapless w.db
      → ((id : Bytes) → max_seq_of id w.db < max_int64)
      → any (λ m. m.server_msg_id == server_msg_id) w.db.messages ≡ false
      → (a : Ack) × ((send lib cfg now server_msg_id i w).0 ≡ ok a)
  send_acknowledges now sid i u w quiet valid e found may g room new =
      let h =
        send-Ran now sid i u w quiet valid e found may
          (record { gapless = g; room = room; id = new }) in
      (h.value, ap (λ p. p.0) h.runs)
