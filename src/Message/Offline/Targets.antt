-- ===== src/Message/Offline/Targets.antt =====
-- internal/service/message/offline.go: nobody is told who should not be.
use nexo.Prelude.{ℕ, ◌≡◌, ◌≢◌, refl, Bool, true, false, Option, none, some, List, [], any, All}
use nexo.Prelude.Bytes.{Bytes, ◌==◌}
use nexo.Prelude.Map.{Map, pair_eq}
use nexo.Errcode.{ok}
use nexo.Store.{SessionType, single, group, unknown}
use nexo.Store.Groups.{list_group_members}
use nexo.Store.Db.{Db, Op}
use nexo.Store.Conversations.{is_muted, visible_to as sees}
use nexo.Store.Action.{World}
use nexo.Store.Action.Rules.{ReadOnly, ReadOnly-call, read_only_rules}
use nexo.Message.{PushEvent, Event, State}
use nexo.Message.Pull.{recipients, recipients_of, roster_or_cached, visible_to}
use nexo.Message.Offline.{notification, Push, is_online}

-- Someone whom a push may tell.
abbrev pub IsTarget : Db → PushEvent → Bytes → Type 0
IsTarget db ev id =
    ((id == ev.sender_id) ≡ false)
    × (is_muted ev.conversation_id db id ≡ false)
    × (sees ev.conversation_id ev.message.seq db id ≡ true)

abbrev pub OnlineStore : Type 0
OnlineStore = List Bytes → Op (Map Bytes (List ℕ))

abbrev is_in : List Bytes → Bytes → Bool
is_in ids x = any (λ m. m == x) ids

-- What `Online` promises: of each user who is asked for, whether he has a live connection.
abbrev pub Answers : Option OnlineStore → (Db → Bytes → Bool) → Type 0
Answers none connected = Unit
Answers (some online) connected =
    (asked : List Bytes) (db : Db) (out : Map Bytes (List ℕ)) (id : Bytes)
    → (online asked db).0 ≡ ok out
    → is_in asked id ≡ true
    → is_online out id ≡ connected db id

-- The user has no live connection, where there is a store that knows.
abbrev pub IsOffline : Option OnlineStore → (Db → Bytes → Bool) → Db → Bytes → Type 0
IsOffline none connected db id = Unit
IsOffline (some online) connected db id = connected db id ≡ false

-- A push tells somebody, each of them a target who is offline, and carries the message's facts.
abbrev pub IsProper : Db → PushEvent → Option OnlineStore → (Db → Bytes → Bool) → Push → Type 0
IsProper db ev online connected none = Unit
IsProper db ev online connected (some (ids, n)) =
    (ids ≢ [])
    × (n ≡ notification ev)
    × All (IsTarget db ev) ids
    × All (IsOffline online connected db) ids

abbrev IsPushed : Db → PushEvent → Option OnlineStore → (Db → Bytes → Bool) → Push → Db → Type 0
IsPushed before ev online connected p db = IsProper before ev online connected p

abbrev NotSender : PushEvent → Bytes → Type 0
NotSender ev id = (id == ev.sender_id) ≡ false

module _ {Limiter : Type 0} (before : Db) (ev : PushEvent) (connected : Db → Bytes → Bool) where
  roster_or_cached-ReadOnly :
      (g : Bytes) (now : ℕ) (o : Option (List Bytes))
      → ReadOnly {E = Event} {S = State Limiter} (roster_or_cached g now o)
  unfolding roster_or_cached list_group_members
  roster_or_cached-ReadOnly g now none =
      search (read_only_rules, ReadOnly-call (list_group_members g) (λ db. refl)) depth 12
  roster_or_cached-ReadOnly g now (some ids) = search read_only_rules

  recipients_of-ReadOnly :
      (t : SessionType) (now : ℕ)
      → ReadOnly {E = Event} {S = State Limiter} (recipients_of t ev now)
  unfolding recipients_of
  recipients_of-ReadOnly single now = search read_only_rules
  recipients_of-ReadOnly group now = search (read_only_rules, roster_or_cached-ReadOnly) depth 12
  recipients_of-ReadOnly unknown now = search (read_only_rules, roster_or_cached-ReadOnly) depth 12

-- Finding the recipients writes nothing to the tables.
pub recipients-db :
    {Limiter : Type 0} (ev : PushEvent) (now : ℕ) (w : World Event (State Limiter))
    → (recipients ev now w).1.db ≡ w.db
unfolding recipients
recipients-db ev now w =
    ((recipients_of-ReadOnly w.db ev (λ _ _. false) ev.session_type now).at w).db
