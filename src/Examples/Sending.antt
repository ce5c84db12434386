-- ===== src/Examples/Sending.antt =====
-- Sends at concrete inputs.
use nexo.Prelude.{some, inr, any, find, ℕ, ◌≡◌, ◌<◌, refl, arith, [], ◌∷◌, true, false}
use nexo.Prelude.Bytes.{Bytes, ◌==◌, lt}
use nexo.Prelude.Map.{bytes_eq, lookup, insert}
use nexo.Identity.{is_valid_id, has_colon, prefix_user, parse_actor}
use nexo.Identity.Decimal.{parse_int, parse_unsigned, parse_nat, format_int, format_nat}
use nexo.Conv.{single_id, si_}
use nexo.Dto.{message_from_store}
use nexo.Ratelimit.{allow}
use nexo.Store.Users.{get_user}
use nexo.Store.Conversations.{lock_conversation}
use nexo.Errcode.{wrap, err_message_send_failed, Result, ok, err, failure}
use nexo.Store.{max_int64, next_seq}
use nexo.Store.Action.{World, ◌>>=◌, call, with_tx}
use nexo.Store.Messages.{
  max_seq_of, or_zero, get_message_by_client_id, insert_message, set_conversation_max_seq,
  touch_user_conversation, advance_read_seq,
}
use nexo.Message.{Ack, Event, State, validate}
use nexo.Message.Send.Gapless.{IsGapless, send-IsGapless, seqs_of, one_to}
use nexo.Message.Send.Atomicity.{send_error_leaves_no_trace}
use nexo.Message.Send.{
  send, normalize_destination, check_group_send, check_membership, republish_allowed, retried,
  publish, republish, send_body, duplicated, ack, push_event, new_message, party_row, take_token,
  after_tx, after_lookup,
}
use nexo.Message.Send.Delivery.{send_acknowledges}
use nexo.Message.Send.Sequence.{Outcome, send_effect}
use nexo.Examples.Data.{user, bob, chat, lib, config, message_world, input, new_id}

abbrev first_ack : Ack
first_ack = record { server_msg_id = new_id; conversation_id = chat; seq = 1; send_time = 7 }

acknowledged : (send lib config 7 new_id input message_world).0 ≡ ok first_ack
unfolding nexo.Errcode.is_not_found send normalize_destination check_group_send check_membership
    republish_allowed retried publish republish send_body duplicated ◌>>=◌ call validate ◌==◌
    is_valid_id has_colon any prefix_user parse_actor parse_int parse_unsigned parse_nat format_int
    format_nat get_user lookup get_message_by_client_id find single_id lt si_ ack push_event
    new_message party_row take_token allow after_tx after_lookup with_tx lock_conversation
    insert_message set_conversation_max_seq touch_user_conversation insert advance_read_seq next_seq
    max_seq_of or_zero message_from_store
acknowledged = refl

-- A send that the store acknowledges stores the message.
send_effect_example :
    Outcome message_world.db new_id input first_ack
      (send lib config 7 new_id input message_world).1.db
send_effect_example = send_effect lib config 7 new_id input message_world first_ack acknowledged

small : (id : Bytes) → max_seq_of id message_world.db < max_int64
unfolding max_seq_of or_zero lookup
small id = ground arith

gapless : IsGapless message_world.db
unfolding seqs_of max_seq_of or_zero lookup one_to
gapless = record { at = λ id. ground arith }

send-IsGapless_example : IsGapless (send lib config 7 new_id input message_world).1.db
send-IsGapless_example = send-IsGapless lib config 7 new_id input message_world small gapless

-- The insert fails in the middle of the transaction.
abbrev failing : World Event (State ℕ)
failing = record message_world { faults = false ∷ false ∷ false ∷ false ∷ true ∷ [] }

not_stored : (send lib config 7 new_id input failing).0 ≡ err (wrap err_message_send_failed failure)
unfolding send ◌>>=◌ validate ◌==◌ is_valid_id has_colon any prefix_user parse_actor parse_int
    parse_unsigned parse_nat format_int format_nat normalize_destination call get_user lookup
    get_message_by_client_id find single_id lt si_ nexo.Errcode.is_not_found allow with_tx send_body
    lock_conversation wrap nexo.Errcode.or_else
not_stored = refl

send_error_leaves_no_trace_example :
    ((send lib config 7 new_id input failing).1.db ≡ failing.db)
    × ((send lib config 7 new_id input failing).1.events ≡ failing.events)
send_error_leaves_no_trace_example =
    send_error_leaves_no_trace lib config 7 new_id input failing
      (wrap err_message_send_failed failure) not_stored

valid : validate config input ≡ ok tt
unfolding validate ◌==◌ is_valid_id has_colon any prefix_user parse_actor parse_int parse_unsigned
    parse_nat format_int format_nat
valid = refl

stored_bob : lookup bob message_world.db.users ≡ some (user bob)
unfolding lookup ◌==◌
stored_bob = refl

unused : any (λ m. m.server_msg_id == new_id) message_world.db.messages ≡ false
unfolding any ◌==◌
unused = refl

has_token : (allow lib input.sender_id 7 message_world.service.send_limit).0 ≡ true
unfolding allow lookup
has_token = refl

send_acknowledges_example : (a : Ack) × ((send lib config 7 new_id input message_world).0 ≡ ok a)
send_acknowledges_example =
    send_acknowledges lib config 7 new_id input (user bob) message_world refl valid refl stored_bob
      (inr has_token) gapless small unused
