-- ===== src/Gateway/Budget.antt =====
-- internal/gateway/budget.go and the queue of internal/gateway/client.go: the bytes that wait to be
-- written on a node. A goroutine runs from one atomic operation or locked section to the next, so what
-- a node does is a sequence of the calls of `Call`, in any order. A frame counts by its length.
pub mod Books
pub mod Balance
use nexo.Prelude.{
  ℕ, zero, suc, ◌+◌, ◌-◌, Bool, true, false, ◌&&◌, not, Option, none, some, List, [], ◌∷◌, ◌++◌,
  length, ltb, if◌then◌else◌,
}
use nexo.Prelude.Bytes.{Bytes}
use nexo.Prelude.Map.{Map, lookup, insert, bytes_eq}

-- An atomic counter that holds `added - taken`, which may be negative.
pub record Counter : Type 0 where
  pub added : ℕ
  pub taken : ℕ

pub record SendBudget : Type 0 where
  -- 0 is no limit
  pub limit : ℕ
  pub queued : Counter
  pub slow_consumers : ℕ
  pub dropped : ℕ

-- `Client`, its queue: the channel, the frame that the writer has received and not yet accounted for,
-- and the bytes that count as queued.
pub record Queue : Type 0 where
  pub send : List ℕ
  pub held : Option ℕ
  pub queued : ℕ
  pub closing : Bool

-- What a goroutine between two steps still does: put a frame whose bytes are charged on a queue, or give
-- bytes back.
pub data Pending : Type 0 where
  to_queue : Bytes → ℕ → Pending
  to_release : ℕ → Pending

pub record Node : Type 0 where
  pub budget : SendBudget
  pub clients : Map Bytes Queue
  pub pending : List Pending

abbrev charged : ℕ → SendBudget → SendBudget
charged n b = record b { queued = record { added = b.queued.added + n; taken = b.queued.taken } }

-- `release`
unfoldable pub release : ℕ → SendBudget → SendBudget
release n b = record b { queued = record { added = b.queued.added; taken = b.queued.taken + n } }

-- `b.limit > 0 && total > b.limit`
unfoldable pub over : SendBudget → Bool
over b = ltb 0 b.limit && ltb (b.limit + b.queued.taken) b.queued.added

-- `Send` up to `enqueue`: `take`
unfoldable pub send : Bytes → ℕ → Node → Node
send c n s = record s { budget = charged n s.budget; pending = to_queue c n ∷ s.pending }

-- `Push` up to `enqueue` or the release of `tryTake`; the resync that replaces a dropped push is a
-- `Send` of its own.
unfoldable pub push : Bytes → ℕ → Node → Node
push c n s =
    let b = charged n s.budget in
    if over b
    then record s {
      budget = record b { dropped = b.dropped + 1 };
      pending = to_release n ∷ s.pending;
    }
    else record s { budget = b; pending = to_queue c n ∷ s.pending }

-- `queueFrame` under `sendMu`, for a channel of the capacity `room`; what it does not queue it gives
-- back after the unlock.
unfoldable pub queue_frame : ℕ → Bytes → ℕ → Node → Node
queue_frame room c n s = elim (lookup c s.clients) [
  | none ↦ record s { pending = to_release n ∷ s.pending }
  | some q ↦
      if q.closing
      then record s { pending = to_release n ∷ s.pending }
      else if ltb (length q.send) room
      then record s {
        clients = insert c (record q { send = q.send ++ n ∷ []; queued = q.queued + n }) s.clients;
      }
      else record s {
        budget = record s.budget { slow_consumers = s.budget.slow_consumers + 1 };
        pending = to_release n ∷ s.pending;
      }
]

unfoldable pub finish : ℕ → Pending → Node → Node
finish room (to_queue c n) s = queue_frame room c n s
finish room (to_release n) s = record s { budget = release n s.budget }

-- The goroutine at a place of the list goes on.
unfoldable pub pick : ℕ → List Pending → Option (Pending × List Pending)
pick i [] = none
pick zero (p ∷ ps) = some (p, ps)
pick (suc i) (p ∷ ps) = elim (pick i ps) [ none ↦ none | some (x, rest) ↦ some (x, p ∷ rest) ]

unfoldable pub resume : ℕ → ℕ → Node → Node
resume room i s = elim (pick i s.pending) [
  | none ↦ s
  | some (p, rest) ↦ finish room p (record s { pending = rest })
]

-- The writer receives a frame: `frame := <-c.send`.
unfoldable pub receive : Queue → Queue
receive q = elim q.held [
  | some n ↦ q
  | none ↦ elim q.send [ [] ↦ q | n ∷ ns ↦ record q { send = ns; held = some n } ]
]

-- The locked section of `write`: nothing is accounted once `close` has done so.
unfoldable pub account : Bytes → Queue → ℕ → Node → Node
account c q n s =
    if q.closing
    then record s { clients = insert c (record q { held = none }) s.clients }
    else record s {
      budget = release n s.budget;
      clients = insert c (record q { held = none; queued = q.queued - n }) s.clients;
    }

unfoldable pub write : Bytes → Queue → Node → Node
write c q s = elim q.held [ none ↦ s | some n ↦ account c q n s ]

-- The cleanup of `close`, once: what is queued is given back in one piece.
unfoldable pub close : Bytes → Queue → Node → Node
close c q s = if q.closing then s else record s {
  clients = insert c (record q { queued = 0; closing = true }) s.clients;
  pending = to_release q.queued ∷ s.pending;
}

-- `newClient`, under a connection id of its own.
unfoldable pub new_client : Bytes → Node → Node
new_client c s = record s {
  clients = insert c (record { send = []; held = none; queued = 0; closing = false }) s.clients;
}

pub data Call : Type 0 where
  new_client_call : Bytes → Call
  send_call : Bytes → ℕ → Call
  push_call : Bytes → ℕ → Call
  resume_call : ℕ → Call
  receive_call : Bytes → Call
  write_call : Bytes → Call
  close_call : Bytes → Call

-- A client that is not there does nothing.
unfoldable pub at_client : Bytes → (Queue → Node → Node) → Node → Node
at_client c f s = elim (lookup c s.clients) [ none ↦ s | some q ↦ f q s ]

unfoldable pub step : ℕ → Call → Node → Node
step room (new_client_call c) s = elim (lookup c s.clients) [ some _ ↦ s | none ↦ new_client c s ]
step room (send_call c n) s = send c n s
step room (push_call c n) s = push c n s
step room (resume_call i) s = resume room i s
step room (receive_call c) s =
    at_client c (λ q s. record s { clients = insert c (receive q) s.clients }) s
step room (write_call c) s = at_client c (write c) s
step room (close_call c) s = at_client c (close c) s

unfoldable pub run : ℕ → List Call → Node → Node
run room [] s = s
run room (c ∷ calls) s = run room calls (step room c s)

-- `newSendBudget`, on a node without connections.
abbrev pub new_node : ℕ → Node
new_node limit = record {
  budget = record {
    limit = limit;
    queued = record { added = 0; taken = 0 };
    slow_consumers = 0;
    dropped = 0;
  };
  clients = [];
  pending = [];
}
