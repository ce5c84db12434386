-- ===== src/Gateway/Push.antt =====
-- internal/gateway/push.go: a message to the connections of a node. The frames are handed to the
-- clients that are the result; an error is logged and nobody gets one.
pub mod Delivered
use nexo.Prelude.{
  ℕ, Bool, true, false, not, Option, none, some, List, [], ◌∷◌, ◌++◌, keep, if◌then◌else◌,
}
use nexo.Prelude.Bytes.{Bytes, ◌==◌}
use nexo.Errcode.{Result, ok, err}
use nexo.Store.Action.{World, Action, pure, ◌>>=◌}
use nexo.Message.{PushEvent, Event, State}
use nexo.Message.Send.{M}
use nexo.Message.Pull.{recipients, visible_to}
use nexo.Message.Bus.{PushPayload, resolve_push}
use nexo.Gateway.Usermap.{Client, UserMap, get, online_except}

-- `fanout`: every connection of the user except the one that caused the push.
unfoldable pub fanout : UserMap → Bytes → Bytes → List Client
fanout users except user_id = keep (λ c. not (c.id == except)) (get user_id users)

-- The loop over the targets.
unfoldable pub fanout_all : UserMap → Bytes → List Bytes → List Client
fanout_all users except [] = []
fanout_all users except (id ∷ ids) = fanout users except id ++ fanout_all users except ids

module _ {Limiter : Type 0} where
  -- `Deliver` for the candidates that have a connection here.
  unfoldable pub deliver_local : UserMap → PushEvent → List Bytes → M Limiter (List Client)
  deliver_local users ev [] = pure []
  deliver_local users ev (id ∷ ids) = do
    targets ← visible_to ev.conversation_id (id ∷ ids) ev.message.seq
    pure (fanout_all users ev.sender_conn_id targets)

  -- `Deliver`, its error kept.
  unfoldable pub deliver : UserMap → PushEvent → ℕ → M Limiter (List Client)
  deliver users ev now = do
    candidates ← recipients ev now
    deliver_local users ev (online_except candidates ev.sender_conn_id users)

  -- `deliverOne`
  unfoldable pub deliver_one : UserMap → PushPayload → ℕ → M Limiter (List Client)
  deliver_one users p now = do ev ← resolve_push p; deliver users ev now
