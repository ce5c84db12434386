-- ===== src/Examples/Flows.antt =====
-- Pages, pushes and the send budget at concrete inputs.
use nexo.Prelude.{
  ℕ, ◌+◌, ◌≡◌, ◌≢◌, ◌≤◌, ◌<◌, refl, arith, List, [], ◌∷◌, ◌++◌, map, keep, some, none, Option, true,
  false, Bool, All, length, ltb,
}
use nexo.Prelude.Bytes.{Bytes, ◌==◌}
use nexo.Prelude.Int.{pos}
use nexo.Errcode.{ok}
use nexo.Store
use nexo.Store.{UserConversation, UserConversationRow, ListCursor}
use nexo.Store.Action.{World}
use nexo.Store.Conversations.{visible_to as sees}
use nexo.Store.Online.{renew_online_conns}
use nexo.Conv.Cursor.{encode_cursor, decode_cursor, decode_cursor-encode_cursor}
use nexo.Conv.Page.Listing.{owned, newest_first, Distinct, IsNamed}
use nexo.Conv.Page.Follow.{follow, follow-newest_first}
use nexo.Onlinestore.{ConnRef, renew, online, platforms_of}
use nexo.Onlinestore.Presence.{connected, online-connected}
use nexo.Onlinestore.Renewal.{renew-renew_online_conns}
use nexo.Message.{Event, State, PushEvent}
use nexo.Message.Members
use nexo.Message.Members.Fresh
use nexo.Message.Members.Fresh.{get-noted, after-bounded}
use nexo.Message.Pull.{recipients}
use nexo.Message.Offline.{notification, offline_push}
use nexo.Gateway.Push.{deliver, fanout_all}
use nexo.Gateway.Push.Delivered.{deliver-frames_due, frames_due, count}
use nexo.Gateway.Budget
use nexo.Gateway.Budget.Books.{IsBalanced}
use nexo.Gateway.Budget.Balance.{run-IsBalanced, run-drained}
use nexo.Conv.Base64.{AreBytes}
use nexo.Dto.{message_from_store}
use nexo.Gateway.Usermap.{Client, UserMap}
use nexo.Examples.Data.{
  alice, bob, chat, team, team_chat, message, member_view, tables, message_world,
}

chat_bytes : AreBytes chat
chat_bytes = ground arith

decode_cursor-encode_cursor_example :
    decode_cursor (encode_cursor (record { updated_at = pos 1700; conversation_id = chat }))
    ≡ some (record { updated_at = pos 1700; conversation_id = chat })
decode_cursor-encode_cursor_example =
    decode_cursor-encode_cursor 1700 chat (omega arith) (λ e. ground (arith, e)) chat_bytes

abbrev row_at : Bytes → ℕ → UserConversation
row_at id at = record (member_view alice) { conversation_id = id; updated_at = at }

abbrev a : Bytes
a = b'a' ∷ []

abbrev b : Bytes
b = b'b' ∷ []

abbrev c : Bytes
c = b'c' ∷ []

-- Alice has three conversations, two of them of one time.
abbrev three : World Event (State ℕ)
three = record message_world {
  db = record tables {
    user_convs =
        ((alice, a), row_at a 5)
        ∷ ((alice, b), row_at b 9)
        ∷ ((bob, a), member_view bob)
        ∷ ((alice, c), row_at c 5)
        ∷ [];
  };
}

abbrev listed : UserConversation → UserConversationRow
listed uc = record { uc = uc; conv_max_seq = 0 }

three_owned :
    owned alice three.db ≡ listed (row_at a 5) ∷ listed (row_at b 9) ∷ listed (row_at c 5) ∷ []
unfolding owned keep nexo.Prelude.Bytes.◌==◌ nexo.Store.Messages.max_seq_of nexo.Prelude.Map.lookup
three_owned = refl

three_sorted :
    newest_first alice three.db
    ≡ listed (row_at b 9) ∷ listed (row_at c 5) ∷ listed (row_at a 5) ∷ []
unfolding newest_first nexo.Prelude.Sort.sort_by owned keep nexo.Prelude.Bytes.◌==◌
    nexo.Store.Messages.row_le nexo.Store.Messages.max_seq_of nexo.Prelude.Bytes.lt
    nexo.Prelude.Map.lookup
three_sorted = refl

three_Distinct : Distinct (owned alice three.db)
three_Distinct =
    rw three_owned (unfold nexo.Prelude.Bytes.◌==◌ in ((refl, (refl, tt)), ((refl, tt), (tt, tt))))

short_bytes : (x : ℕ) → x < 256 → AreBytes (x ∷ [])
short_bytes x h = (h, tt)

three_IsNamed : All IsNamed (owned alice three.db)
three_IsNamed = rw three_owned (
    (
      ((λ e. ground (arith, e)), short_bytes b'a' (omega arith), omega arith),
      (
        ((λ e. ground (arith, e)), short_bytes b'b' (omega arith), omega arith),
        (((λ e. ground (arith, e)), short_bytes b'c' (omega arith), omega arith), tt),
      ),
    ))

-- Four pages are more than enough for two pages of two rows.
follow-newest_first_example :
    follow alice (pos 2) (pos 100) 4 [] three ≡ some (newest_first alice three.db)
follow-newest_first_example =
    follow-newest_first alice (pos 2) (pos 100) three refl three_Distinct three_IsNamed 4
      (rw three_owned (omega arith))

abbrev renewals : List ConnRef
renewals = record { user_id = alice; platform_id = 1; conn_id = a } ∷ []

renew-renew_online_conns_example :
    renew b renewals 7 message_world
    ≡ (ok [], record message_world { db = (renew_online_conns b (a ∷ []) 7 tables).1 })
renew-renew_online_conns_example = renew-renew_online_conns b renewals 7 message_world refl

abbrev team_event : PushEvent
team_event = record {
  conversation_id = team_chat;
  session_type = Store.group;
  sender_id = alice;
  sender_conn_id = [];
  recv_id = [];
  group_id = team;
  message = message_from_store (message 2);
}

-- A connection of Bob whose last heartbeat is of the time `at`.
abbrev seen_at : ℕ → World Event (State ℕ)
seen_at at = record message_world {
  db = record tables {
    online =
        (a, record { conn_id = a; user_id = bob; platform_id = 1; node_id = b; heartbeat_at = at })
        ∷ [];
  };
}

-- Bob is told once his connection is older than a minute, and not before.
bob_told :
    (offline_push true (some (online 100000 60000)) team_event 5 (seen_at 30000)).0
    ≡ some (bob ∷ [], notification team_event)
unfolding offline_push nexo.Message.Offline.tell nexo.Store.Action.◌>>=◌ recipients
    nexo.Message.Members.get nexo.Prelude.Map.lookup nexo.Store.Action.call
    nexo.Store.Groups.list_group_members keep nexo.Prelude.Sort.sort_by nexo.Prelude.Bytes.◌==◌
    nexo.Prelude.Bytes.lt nexo.Message.Offline.tell_unmuted nexo.Store.Conversations.muted_owners
    nexo.Prelude.any nexo.Message.Offline.tell_visible nexo.Message.Pull.visible_to
    nexo.Store.Conversations.visible_owners message_from_store nexo.Message.Offline.tell_offline
    online nexo.Store.Online.list_online_conns nexo.Onlinestore.group_platforms
    nexo.Onlinestore.platforms_of nexo.Prelude.Map.insert nexo.Message.Offline.is_online
bob_told = refl

bob_not_told :
    (offline_push true (some (online 100000 60000)) team_event 5 (seen_at 50000)).0 ≡ none
unfolding offline_push nexo.Message.Offline.tell nexo.Store.Action.◌>>=◌ recipients
    nexo.Message.Members.get nexo.Prelude.Map.lookup nexo.Store.Action.call
    nexo.Store.Groups.list_group_members keep nexo.Prelude.Sort.sort_by nexo.Prelude.Bytes.◌==◌
    nexo.Prelude.Bytes.lt nexo.Message.Offline.tell_unmuted nexo.Store.Conversations.muted_owners
    nexo.Prelude.any nexo.Message.Offline.tell_visible nexo.Message.Pull.visible_to
    nexo.Store.Conversations.visible_owners message_from_store nexo.Message.Offline.tell_offline
    online nexo.Store.Online.list_online_conns nexo.Onlinestore.group_platforms
    nexo.Onlinestore.platforms_of nexo.Prelude.Map.insert nexo.Message.Offline.is_online
bob_not_told = refl

online-connected_example :
    ltb 0 (length (platforms_of bob ((bob, 1 ∷ []) ∷ [])))
    ≡ connected 100000 60000 (seen_at 50000).db bob
unfolding online nexo.Store.Online.list_online_conns nexo.Onlinestore.group_platforms keep
    nexo.Onlinestore.platforms_of nexo.Prelude.Map.insert nexo.Prelude.Map.lookup nexo.Prelude.any
    nexo.Prelude.Bytes.◌==◌
online-connected_example =
    online-connected 100000 60000 (alice ∷ bob ∷ []) (seen_at 50000).db ((bob, 1 ∷ []) ∷ []) bob
      refl refl

-- Bob has two connections.
abbrev bobs : Bytes → Client
bobs id = record { ref = 0; id = id; user_id = bob; token_id = []; ip = []; closed = false }

abbrev users : UserMap
users = record {
  limits = record {
    ws_conns_total = pos 0;
    ws_conns_per_user = pos 0;
    ws_conns_per_token = pos 0;
    ws_conns_per_ip = pos 0;
  };
  by_user = (bob, bobs a ∷ bobs b ∷ []) ∷ [];
  by_user_n = (bob, 2) ∷ [];
  by_token = [];
  by_ip = [];
  total = pos 2;
  closing = false;
}

roster : (recipients team_event 5 message_world).0 ≡ ok (alice ∷ bob ∷ [])
unfolding recipients nexo.Store.Action.◌>>=◌ nexo.Message.Members.get nexo.Prelude.Map.lookup
    nexo.Store.Action.call nexo.Store.Groups.list_group_members nexo.Prelude.Sort.sort_by keep
    nexo.Prelude.Bytes.◌==◌ nexo.Prelude.Bytes.lt
roster = refl

delivered : (deliver users team_event 5 message_world).0 ≡ ok (bobs a ∷ bobs b ∷ [])
unfolding deliver nexo.Store.Action.◌>>=◌ recipients nexo.Message.Members.get
    nexo.Prelude.Map.lookup nexo.Store.Action.call nexo.Store.Groups.list_group_members
    nexo.Gateway.Push.deliver_local nexo.Gateway.Usermap.online_except keep
    nexo.Prelude.Sort.sort_by nexo.Prelude.Bytes.◌==◌ nexo.Prelude.Bytes.lt nexo.Gateway.Usermap.get
    nexo.Message.Pull.visible_to nexo.Store.Conversations.visible_owners fanout_all
    message_from_store nexo.Gateway.Push.fanout
delivered = refl

-- One frame is due to Bob's first connection.
deliver-frames_due_example :
    count (λ c. c.id == a) (bobs a ∷ bobs b ∷ [])
    ≡ frames_due (λ c. c.id == a) users.by_user [] (sees team_chat 2 tables) (alice ∷ bob ∷ [])
unfolding message_from_store
deliver-frames_due_example =
    deliver-frames_due users team_event 5 message_world (bobs a ∷ bobs b ∷ []) (alice ∷ bob ∷ [])
      (λ c. c.id == a) roster delivered

-- Two frames are queued, one is dropped for the full channel, one is written, and the connection closes.
abbrev frames : List Budget.Call
frames =
    Budget.new_client_call a
    ∷ Budget.send_call a 3
    ∷ Budget.push_call a 4
    ∷ Budget.resume_call 1
    ∷ Budget.resume_call 0
    ∷ Budget.send_call a 9
    ∷ Budget.resume_call 0
    ∷ Budget.resume_call 0
    ∷ Budget.receive_call a
    ∷ Budget.write_call a
    ∷ Budget.close_call a
    ∷ Budget.resume_call 0
    ∷ []

run-IsBalanced_example : IsBalanced (Budget.run 2 frames (Budget.new_node 100))
run-IsBalanced_example = run-IsBalanced 2 100 frames

everyone_closed : All (λ e. e.1.closing ≡ true) (Budget.run 2 frames (Budget.new_node 100)).clients
unfolding Budget.run Budget.step Budget.resume Budget.pick Budget.at_client nexo.Prelude.Map.lookup
    Budget.send Budget.finish Budget.queue_frame Budget.push Budget.over Budget.new_client
    nexo.Prelude.Map.insert nexo.Prelude.Bytes.◌==◌ Budget.write Budget.receive Budget.account
    Budget.close
everyone_closed = (refl, tt)

nobody_left : (Budget.run 2 frames (Budget.new_node 100)).pending ≡ []
unfolding Budget.run Budget.step Budget.resume Budget.pick Budget.at_client nexo.Prelude.Map.lookup
    Budget.send Budget.finish Budget.queue_frame Budget.push Budget.over Budget.new_client
    nexo.Prelude.Map.insert nexo.Prelude.Bytes.◌==◌ Budget.write Budget.receive Budget.account
    Budget.close
nobody_left = refl

run-drained_example :
    (Budget.run 2 frames (Budget.new_node 100)).budget.queued.added
    ≡ (Budget.run 2 frames (Budget.new_node 100)).budget.queued.taken
run-drained_example = run-drained 2 100 frames everyone_closed nobody_left

-- Two groups, one of them stored anew and the other invalidated.
abbrev rosters : List (ℕ × Fresh.Call)
rosters =
    (1, Fresh.set_call team (alice ∷ []))
    ∷ (2, Fresh.set_call a (bob ∷ []))
    ∷ (3, Fresh.set_call team (alice ∷ bob ∷ []))
    ∷ (4, Fresh.invalidate_call a)
    ∷ []

team_cached :
    (Members.get team 9 (Fresh.after rosters (Fresh.new_cache 10))).0 ≡ some (alice ∷ bob ∷ [])
unfolding Fresh.after Members.get Fresh.perform Members.invalidate Members.set
    nexo.Prelude.Map.lookup nexo.Prelude.Map.delete nexo.Prelude.Map.insert nexo.Prelude.Bytes.◌==◌
team_cached = refl

get-noted_example :
    (e : Members.MemberEntry) × (Fresh.noted 10 rosters Fresh.nothing team ≡ some e)
    × (e.ids ≡ alice ∷ bob ∷ [])
    × (9 ≤ e.expires)
get-noted_example = get-noted 10 9 rosters team (alice ∷ bob ∷ []) team_cached

after-bounded_example :
    length (Fresh.after rosters (Fresh.new_cache 10)).entries ≤ Members.member_cache_max
after-bounded_example = after-bounded 10 rosters
