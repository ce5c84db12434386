-- ===== src/Message/Send/Atomicity.antt =====
-- A send that returns an error leaves no trace, whatever the store does.
use nexo.Prelude.{ℕ, ◌≡◌, refl, Bool, true, false, Option, none, some, if◌then◌else◌}
use nexo.Prelude.Bytes.{Bytes}
use nexo.Errcode.{GoError, Result, ok, err, rollback}
use nexo.Store.{SessionType, single, Group, GroupStatus, group_normal, group_dismissed, Message}
use nexo.Store.Users.{get_user}
use nexo.Store.Groups.{get_group, get_group_member}
use nexo.Store.Messages.{get_message_by_client_id}
use nexo.Store.Action.{World, pure, call, attempt, ◌>>=◌, with_tx}
use nexo.Store.Action.Rules.{
  DbKept, DbKept-ReadOnly, db_kept_rules, ReadOnly, Silent, Atomic, Succeeds, ReadOnly-call,
  Atomic-bind, Atomic-raise, Atomic-attempt, Atomic-Succeeds, Atomic-with_tx, Atomic-if,
  read_only_rules, silent_rules, succeeds_rules, Silent-ReadOnly, ReadOnly-bind, ReadOnly-lift,
}
use nexo.Ratelimit.{Limiters}
use nexo.Message.{Event, State, Config, SendInput}
use nexo.Message.Send.{
  Destination, destination_of, normalize_destination, check_member, check_group_send,
  check_membership, allowed_by, republish_allowed, publish, republish, take_token, retried,
  touch_conversations, inserted_or_rollback, send_body, duplicated, after_tx, send_new,
  after_lookup, send,
}

module _ {Limiter : Type 0} where
  pub get_user-ReadOnly :
      (id : Bytes) → ReadOnly {E = Event} {S = State Limiter} (call (get_user id))
  get_user-ReadOnly id = ReadOnly-call (get_user id) (λ db. unfold get_user in refl)

  pub get_group-ReadOnly :
      (id : Bytes) → ReadOnly {E = Event} {S = State Limiter} (call (get_group id))
  get_group-ReadOnly id = ReadOnly-call (get_group id) (λ db. unfold get_group in refl)

  pub get_group_member-ReadOnly :
      (g u : Bytes) → ReadOnly {E = Event} {S = State Limiter} (call (get_group_member g u))
  get_group_member-ReadOnly g u =
      ReadOnly-call (get_group_member g u) (λ db. unfold get_group_member in refl)

  pub get_message-ReadOnly :
      (c s m : Bytes)
      → ReadOnly {E = Event} {S = State Limiter} (call (get_message_by_client_id c s m))
  get_message-ReadOnly c s m =
      ReadOnly-call (get_message_by_client_id c s m) (λ db. unfold get_message_by_client_id in refl)

  ruleset reads = (
    read_only_rules, get_user-ReadOnly, get_group-ReadOnly, get_group_member-ReadOnly,
    get_message-ReadOnly,
  )

  pub destination_of-ReadOnly :
      (i : SendInput) (t : SessionType)
      → ReadOnly {E = Event} {S = State Limiter} (destination_of i t)
  unfolding destination_of
  destination_of-ReadOnly i single = search reads
  destination_of-ReadOnly i _ = search reads

  check_member-ReadOnly :
      (t : GroupStatus) (g u : Bytes)
      → ReadOnly {E = Event} {S = State Limiter} (check_member t g u)
  unfolding check_member
  check_member-ReadOnly group_dismissed g u = search reads
  check_member-ReadOnly group_normal g u = search reads

  pub check_membership-ReadOnly :
      (g u : Bytes) → ReadOnly {E = Event} {S = State Limiter} (check_membership g u)
  unfolding check_membership check_group_send
  check_membership-ReadOnly g u =
      ReadOnly-bind _ _ (get_group-ReadOnly g) (λ row. check_member-ReadOnly row.status row.id u)

  check_membership-Silent :
      (g u : Bytes) → Silent {E = Event} {S = State Limiter} (check_membership g u)
  check_membership-Silent g u = Silent-ReadOnly (check_membership-ReadOnly g u)

  allowed_by-Succeeds :
      (g : Option Group) (u : Bytes) → Succeeds {E = Event} {S = State Limiter} (allowed_by g u)
  unfolding allowed_by
  allowed_by-Succeeds none u = search succeeds_rules
  allowed_by-Succeeds (some g) u = search succeeds_rules

  republish-Succeeds :
      (m : Message) (c : Bytes) → Succeeds {E = Event} {S = State Limiter} (republish m c)
  unfolding republish
  republish-Succeeds m c = search succeeds_rules

  check_group_send-ReadOnly :
      (g : Group) (u : Bytes) → ReadOnly {E = Event} {S = State Limiter} (check_group_send g u)
  unfolding check_group_send
  check_group_send-ReadOnly g u = check_member-ReadOnly g.status g.id u

  allowed_by-ReadOnly :
      (g : Option Group) (u : Bytes) → ReadOnly {E = Event} {S = State Limiter} (allowed_by g u)
  unfolding allowed_by
  allowed_by-ReadOnly none u = search reads
  allowed_by-ReadOnly (some g) u = search (reads, check_group_send-ReadOnly)

  republish_allowed-ReadOnly :
      (d : Destination) → ReadOnly {E = Event} {S = State Limiter} (republish_allowed d)
  unfolding republish_allowed
  republish_allowed-ReadOnly d = search (reads, allowed_by-ReadOnly)

  pub republish_allowed-DbKept :
      (d : Destination) → DbKept {E = Event} {S = State Limiter} (republish_allowed d)
  republish_allowed-DbKept d = DbKept-ReadOnly (republish_allowed-ReadOnly d)

  pub publish-DbKept :
      (m : Message) (c : Bytes) → DbKept {E = Event} {S = State Limiter} (publish m c)
  unfolding publish
  publish-DbKept m c = search db_kept_rules

  pub republish-DbKept :
      (m : Message) (c : Bytes) → DbKept {E = Event} {S = State Limiter} (republish m c)
  unfolding republish
  republish-DbKept m c = search db_kept_rules

  republish_allowed-Succeeds :
      (d : Destination) → Succeeds {E = Event} {S = State Limiter} (republish_allowed d)
  unfolding republish_allowed
  republish_allowed-Succeeds d = search (succeeds_rules, allowed_by-Succeeds)

  touch_conversations-Silent :
      (i : SendInput) (t : SessionType) (c : Bytes) (seq now : ℕ)
      → Silent {E = Event} {S = State Limiter} (touch_conversations i t c seq now)
  unfolding touch_conversations
  touch_conversations-Silent i single c seq now = search silent_rules
  touch_conversations-Silent i _ c seq now = search silent_rules

  inserted_or_rollback-Silent :
      (i : SendInput) (c : Bytes) (m : Message) (now : ℕ) (b : Bool)
      → Silent {E = Event} {S = State Limiter} (inserted_or_rollback i c m now b)
  unfolding inserted_or_rollback
  inserted_or_rollback-Silent i c m now false = search silent_rules
  inserted_or_rollback-Silent i c m now true = search (silent_rules, touch_conversations-Silent)

  pub send_body-Silent :
      (c id : Bytes) (now : ℕ) (i : SendInput)
      → Silent {E = Event} {S = State Limiter} (send_body c id now i)
  unfolding send_body
  send_body-Silent c id now i =
      search (silent_rules, check_membership-Silent, inserted_or_rollback-Silent)

  duplicated-Atomic : (d : Destination) → Atomic {E = Event} {S = State Limiter} (duplicated d)
  unfolding duplicated
  duplicated-Atomic d =
      Atomic-bind _ _ (search reads)
        (λ m. Atomic-Succeeds (search (succeeds_rules, republish-Succeeds)))

  after_tx-Atomic :
      (cfg : Config) (d : Destination) (e : GoError)
      → Atomic {E = Event} {S = State Limiter} (after_tx cfg d (err e))
  unfolding after_tx
  after_tx-Atomic cfg d rollback = duplicated-Atomic d
  after_tx-Atomic cfg d _ = Atomic-raise _

  after_tx-Succeeds :
      (cfg : Config) (d : Destination) (m : Message)
      → Succeeds {E = Event} {S = State Limiter} (after_tx cfg d (ok m))
  unfolding after_tx publish
  after_tx-Succeeds cfg d m = search succeeds_rules

  -- The transaction of a send and what follows it.
  pub in_tx-Atomic :
      (cfg : Config) (d : Destination) (id : Bytes) (now : ℕ)
      → Atomic {E = Event} {S = State Limiter}
          (attempt (with_tx (send_body d.conversation_id id now d.input)) >>= after_tx cfg d)
  in_tx-Atomic cfg d id now =
      Atomic-attempt _ _ (Atomic-with_tx _ (send_body-Silent d.conversation_id id now d.input))
        (after_tx-Atomic cfg d) (after_tx-Succeeds cfg d)

module _ {Limiter : Type 0} (lib : Limiters Limiter) where
  retried-Succeeds : (now : ℕ) (d : Destination) (m : Message) → Succeeds (retried lib now d m)
  unfolding retried take_token
  retried-Succeeds now d m =
      search (succeeds_rules, republish_allowed-Succeeds, republish-Succeeds) depth 9

  pub take_token-ReadOnly : (i : SendInput) (now : ℕ) → ReadOnly (take_token lib i now)
  unfolding take_token
  take_token-ReadOnly i now = search read_only_rules

  -- What a retry does before it acknowledges.
  pub republication-DbKept :
      (now : ℕ) (d : Destination) (m : Message) (allowed : Bool)
      → DbKept {E = Event} {S = State Limiter} (
          if allowed
          then (take_token lib d.input now >>= λ token.
              if token then republish m d.input.sender_conn_id else pure tt)
          else pure tt)
  republication-DbKept now d m allowed =
      search (db_kept_rules, take_token-ReadOnly, republish-DbKept)

module _ {Limiter : Type 0} (lib : Limiters Limiter) (cfg : Config) where
  send_new-Atomic : (now : ℕ) (id : Bytes) (d : Destination) → Atomic (send_new lib cfg now id d)
  unfolding send_new
  send_new-Atomic now id d =
      Atomic-bind _ _ (take_token-ReadOnly lib d.input now)
        (λ token. Atomic-if token (in_tx-Atomic cfg d id now) (Atomic-raise _))

  after_lookup-Atomic :
      (now : ℕ) (id : Bytes) (d : Destination) (r : Result Message)
      → Atomic (after_lookup lib cfg now id d r)
  unfolding after_lookup
  after_lookup-Atomic now id d (ok m) = Atomic-Succeeds (retried-Succeeds lib now d m)
  after_lookup-Atomic now id d (err e) = Atomic-if _ (send_new-Atomic now id d) (Atomic-raise _)

  send-Atomic : (now : ℕ) (id : Bytes) (i : SendInput) → Atomic (send lib cfg now id i)
  unfolding send normalize_destination
  send-Atomic now id i = Atomic-bind _ _ (ReadOnly-lift _) λ _.
      Atomic-bind _ _ (destination_of-ReadOnly i i.session_type)
        λ d. Atomic-bind _ _ (search reads) (after_lookup-Atomic now id d)

  -- Whatever fails in a send, the tables and the events sent are those before it.
  pub send_error_leaves_no_trace :
      (now : ℕ) (id : Bytes) (i : SendInput) (w : World Event (State Limiter)) (e : GoError)
      → (send lib cfg now id i w).0 ≡ err e
      → ((send lib cfg now id i w).1.db ≡ w.db) × ((send lib cfg now id i w).1.events ≡ w.events)
  send_error_leaves_no_trace now id i w e h =
      let same = (send-Atomic now id i).at w e h in (same.db, same.events)
