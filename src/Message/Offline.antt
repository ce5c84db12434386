-- ===== src/Message/Offline.antt =====
-- internal/service/message/offline.go: who is told of a message by an app push. A push handed to the
-- `Pusher` is the result; an error is logged and nobody is told.
pub mod Targets
use nexo.Prelude.{
  ℕ, Bool, true, false, not, Option, none, some, List, [], ◌∷◌, keep, any, length, ltb,
  ◌==◌ as nat_eq, if◌then◌else◌,
}
use nexo.Prelude.Bytes.{Bytes, ◌==◌}
use nexo.Prelude.Map.{Map}
use nexo.Errcode.{Result, ok, err, wrap, err_store_failed}
use nexo.Onlinestore.{platforms_of}
use nexo.Store.{SessionType}
use nexo.Store.Db.{Op}
use nexo.Store.Conversations.{muted_owners}
use nexo.Store.Action.{World, Action, pure, call, ◌>>=◌}
use nexo.Message.{PushEvent, Event, State}
use nexo.Message.Send.{M}
use nexo.Message.Pull.{recipients, visible_to}

-- internal/offlinepush/offlinepush.go
pub record Notification : Type 0 where
  pub conversation_id : Bytes
  pub seq : ℕ
  pub session_type : SessionType
  pub sender_id : Bytes
  pub group_id : Bytes
  pub content_type : ℕ
  pub content : Bytes
  pub send_time : ℕ

unfoldable pub notification : PushEvent → Notification
notification ev = record {
  conversation_id = ev.conversation_id;
  seq = ev.message.seq;
  session_type = ev.session_type;
  sender_id = ev.sender_id;
  group_id = ev.group_id;
  content_type = ev.message.content_type;
  content = ev.message.content;
  send_time = ev.message.send_time;
}

abbrev pub Push : Type 0
Push = Option (List Bytes × Notification)

abbrev pub not_in : List Bytes → Bytes → Bool
not_in ids id = not (any (λ m. m == id) ids)

-- `len(online[id]) > 0`
unfoldable pub is_online : Map Bytes (List ℕ) → Bytes → Bool
is_online out id = ltb 0 (length (platforms_of id out))

abbrev pub push_of : Result Push → Push
push_of (ok p) = p
push_of (err _) = none

module _ {Limiter : Type 0} where
  -- Go on unless nobody is left.
  abbrev pub unless_none : (List Bytes → M Limiter Push) → List Bytes → M Limiter Push
  unless_none f [] = pure none
  unless_none f (id ∷ ids) = f (id ∷ ids)

  -- Whom the online store, where there is one, does not know to be connected.
  unfoldable pub tell_offline :
      Option (List Bytes → Op (Map Bytes (List ℕ))) → PushEvent → List Bytes → M Limiter Push
  tell_offline none ev ids = pure (some (ids, notification ev))
  tell_offline (some online) ev ids = do
    out ← call (online ids)
    unless_none (λ rest. pure (some (rest, notification ev)))
        (keep (λ id. not (is_online out id)) ids)

  unfoldable pub tell_visible :
      Option (List Bytes → Op (Map Bytes (List ℕ))) → PushEvent → List Bytes → M Limiter Push
  tell_visible online ev ids = do
    visible ← visible_to ev.conversation_id ids ev.message.seq
    unless_none (tell_offline online ev) visible

  unfoldable pub tell_unmuted :
      Option (List Bytes → Op (Map Bytes (List ℕ))) → PushEvent → List Bytes → M Limiter Push
  tell_unmuted online ev ids = do
    muted ← call (muted_owners ev.conversation_id ids)
    unless_none (tell_visible online ev) (keep (not_in muted) ids)

  -- `offlinePush` up to its errors.
  unfoldable pub tell :
      Option (List Bytes → Op (Map Bytes (List ℕ))) → PushEvent → ℕ → M Limiter Push
  tell online ev now = do
    targets ← recipients ev now
    unless_none (tell_unmuted online ev) (keep (λ id. not (id == ev.sender_id)) targets)

  -- `offlinePush`, with or without a pusher.
  unfoldable pub offline_push :
      Bool
      → Option (List Bytes → Op (Map Bytes (List ℕ)))
      → PushEvent
      → ℕ
      → World Event (State Limiter)
      → Push × World Event (State Limiter)
  offline_push false online ev now w = (none, w)
  offline_push true online ev now w = let (r, w') = tell online ev now w in (push_of r, w')
