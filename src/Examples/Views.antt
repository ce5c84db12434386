-- ===== src/Examples/Views.antt =====
-- Pulls and reads at concrete inputs.
use nexo.Prelude.{ℕ, ◌≡◌, refl, arith, [], ◌∷◌, Option, some, true, false}
use nexo.Prelude.Bytes.{Bytes}
use nexo.Prelude.Int.{pos}
use nexo.Prelude.Map.{bytes_eq, lookup, pair_eq}
use nexo.Errcode.{ok}
use nexo.Dto.{message_from_store}
use nexo.Store.{UserConversation, Conversation, group}
use nexo.Store.Action.{World}
use nexo.Message.Pull.{PullInput, PullResult, pull}
use nexo.Message.Pull.Answer.{pull_answers}
use nexo.Message.Pull.Visible.{Pulled, pull_outcome}
use nexo.Conversation.{ReadEvent, mark_read}
use nexo.Conversation.Reading.{MarkedRead, mark_read_outcome}
use nexo.Examples.Data.{team, member_view, bob, team_chat, message, tables, message_world}

abbrev request : PullInput
request = record {
  user_id = bob;
  conversation_id = team_chat;
  begin_seq = pos 1;
  end_seq = pos 9;
  limit = pos 1;
}

abbrev first_page : PullResult
first_page = record { messages = message_from_store (message 1) ∷ []; has_more = true }

pulled : (pull request (pos 100) message_world).0 ≡ ok first_page
unfolding pull nexo.Store.Action.◌>>=◌ nexo.Store.Action.call
    nexo.Store.Conversations.get_user_conversation_row lookup nexo.Prelude.Bytes.◌==◌
    nexo.Conv.visible_range nexo.Store.Messages.list_messages nexo.Conv.page_limit
    nexo.Prelude.Sort.sort_by nexo.Prelude.keep
pulled = refl

pull_outcome_example : Pulled message_world.db request (pos 100) first_page
pull_outcome_example = pull_outcome request (pos 100) message_world first_page pulled

abbrev reader : World ReadEvent ℕ
reader = record { db = tables; faults = []; events = []; service = 0 }

marked : (mark_read bob [] team_chat (pos 9) reader).0 ≡ ok 2
unfolding mark_read nexo.Store.Action.◌>>=◌ nexo.Store.Action.call
    nexo.Store.Conversations.get_user_conversation_row lookup nexo.Prelude.Bytes.◌==◌
    nexo.Conv.visible_max nexo.Store.Messages.advance_read_seq
marked = refl

keyed :
    (uc : UserConversation)
    → lookup (bob, team_chat) reader.db.user_convs ≡ some uc
    → uc.conversation_id ≡ team_chat
unfolding lookup
keyed uc h = ground arith

mark_read_outcome_example :
    MarkedRead reader.db bob team_chat 9 2 (mark_read bob [] team_chat (pos 9) reader).1.db
mark_read_outcome_example = mark_read_outcome bob [] team_chat (pos 9) reader 2 keyed marked

abbrev team_row : Conversation
team_row = record {
  conversation_id = team_chat;
  type_of = group;
  group_id = team;
  max_seq = 2;
  created_at = 1;
  updated_at = 2;
}

bob_view : lookup (bob, team_chat) message_world.db.user_convs ≡ some (member_view bob)
unfolding lookup nexo.Prelude.Bytes.◌==◌
bob_view = refl

team_stored : lookup team_chat message_world.db.convs ≡ some team_row
unfolding lookup nexo.Prelude.Bytes.◌==◌
team_stored = refl

pull_answers_example : (res : PullResult) × ((pull request (pos 100) message_world).0 ≡ ok res)
pull_answers_example =
    pull_answers request (pos 100) (member_view bob) team_row message_world refl refl bob_view
      team_stored
