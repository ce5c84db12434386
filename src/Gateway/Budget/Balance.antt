-- ===== src/Gateway/Budget/Balance.antt =====
-- internal/gateway/budget.go: every byte that enters the budget leaves it exactly once.
use nexo.Prelude.{
  ℕ, ◌+◌, ◌-◌, ◌≡◌, refl, ap, true, false, none, some, List, [], ◌∷◌, ◌++◌, arith, All,
  Option-cases, inl, inr,
}
use nexo.Prelude.Bytes.{Bytes}
use nexo.Prelude.Map.{Map, lookup, insert, bytes_eq}
use nexo.Gateway.Budget.{
  Queue, Pending, to_queue, to_release, Node, release, send, push, queue_frame, finish, pick,
  resume, receive, account, write, close, new_client, Call, new_client_call, send_call, push_call,
  resume_call, receive_call, write_call, close_call, at_client, step, run, new_node,
}
use nexo.Gateway.Budget.Books.{
  IsKept, queued_bytes, bytes_of, pending_bytes, IsBalanced, queued_bytes-insert,
  queued_bytes-insert_new, All-insert, lookup-IsKept, pending_bytes-pick, sum-append,
}

abbrev appended : Queue → ℕ → Queue
appended q n = record q { send = q.send ++ n ∷ []; queued = q.queued + n }

queue_frame-IsBalanced :
    (room : ℕ) (c : Bytes) (n : ℕ) (s : Node)
    → (s.budget.queued.added
        ≡ s.budget.queued.taken + (queued_bytes s.clients + (n + pending_bytes s.pending)))
    → All (λ e. IsKept e.1) s.clients
    → IsBalanced (queue_frame room c n s)
unfolding queue_frame
queue_frame-IsBalanced room c n s b k = elim (Option-cases (lookup c s.clients)) [
  | inl e ↦ record { books = ground (arith, e, b); kept = ground (arith, e, k) }
  | inr (q, e) ↦ record {
    books = ground (arith, e, b, queued_bytes-insert c (appended q n) s.clients q e);
    kept = ground (
      arith,
      e,
      k,
      sum-append q.send n,
      lookup-IsKept c s.clients q k e,
      All-insert c (appended q n) s.clients,
    );
  }
]

finish-IsBalanced :
    (room : ℕ) (p : Pending) (s : Node)
    → (s.budget.queued.added
        ≡ s.budget.queued.taken + (queued_bytes s.clients + (bytes_of p + pending_bytes s.pending)))
    → All (λ e. IsKept e.1) s.clients
    → IsBalanced (finish room p s)
unfolding finish release
finish-IsBalanced room (to_queue c n) s b k = queue_frame-IsBalanced room c n s b k
finish-IsBalanced room (to_release n) s b k = record { books = omega arith; kept = k }

resume-IsBalanced : (room i : ℕ) (s : Node) → IsBalanced s → IsBalanced (resume room i s)
unfolding resume
resume-IsBalanced room i s b = elim (Option-cases (pick i s.pending)) [
  | inl e ↦ rw (e, resume) b
  | inr ((p, rest), e) ↦
      rw (e, resume)
        (finish-IsBalanced room p (record s { pending = rest })
          (omega (arith, b.books, pending_bytes-pick i s.pending p rest e)) b.kept)
]

receive-IsKept : (q : Queue) → IsKept q → (IsKept (receive q)) × ((receive q).queued ≡ q.queued)
unfolding receive
receive-IsKept q k = ground arith

push-IsBalanced : (c : Bytes) (n : ℕ) (s : Node) → IsBalanced s → IsBalanced (push c n s)
unfolding push
push-IsBalanced c n s b = record { books = ground (arith, b.books); kept = ground (arith, b.kept) }

write-IsBalanced :
    (c : Bytes) (q : Queue) (s : Node)
    → lookup c s.clients ≡ some q
    → IsBalanced s
    → IsBalanced (write c q s)
unfolding write account release
write-IsBalanced c q s e b = elim (Option-cases q.held) [
  | inl h ↦ record { books = ground (arith, h, b.books); kept = ground (arith, h, b.kept) }
  | inr (n, h) ↦
      let idle : Queue = record q { held = none } in
      let paid : Queue = record q { held = none; queued = q.queued - n } in
      record {
        books = ground (
          arith,
          h,
          b.books,
          queued_bytes-insert c idle s.clients q e,
          queued_bytes-insert c paid s.clients q e,
          lookup-IsKept c s.clients q b.kept e,
        );
        kept = ground (
          arith,
          h,
          b.kept,
          lookup-IsKept c s.clients q b.kept e,
          All-insert c idle s.clients,
          All-insert c paid s.clients,
        );
      }
]

close-IsBalanced :
    (c : Bytes) (q : Queue) (s : Node)
    → lookup c s.clients ≡ some q
    → IsBalanced s
    → IsBalanced (close c q s)
unfolding close
close-IsBalanced c q s e b =
    let q' : Queue = record q { queued = 0; closing = true } in
    record {
      books = ground (arith, b.books, queued_bytes-insert c q' s.clients q e);
      kept = ground (arith, b.kept, All-insert c q' s.clients);
    }

at_client-IsBalanced :
    (c : Bytes) (f : Queue → Node → Node) (s : Node)
    → ((q : Queue) → lookup c s.clients ≡ some q → IsBalanced (f q s))
    → IsBalanced s
    → IsBalanced (at_client c f s)
unfolding at_client
at_client-IsBalanced c f s h b = elim (Option-cases (lookup c s.clients)) [
  | inl e ↦ rw (e, at_client) b
  | inr (q, e) ↦ rw (e, at_client) (h q e)
]

new_client-IsBalanced :
    (c : Bytes) (s : Node) → lookup c s.clients ≡ none → IsBalanced s → IsBalanced (new_client c s)
unfolding new_client
new_client-IsBalanced c s e b =
    let q : Queue = record { send = []; held = none; queued = 0; closing = false } in
    record {
      books = omega (arith, b.books, queued_bytes-insert_new c q s.clients e);
      kept = All-insert c q s.clients refl b.kept;
    }

received-IsBalanced :
    (c : Bytes) (q : Queue) (s : Node)
    → lookup c s.clients ≡ some q
    → IsBalanced s
    → IsBalanced (record s { clients = insert c (receive q) s.clients })
received-IsBalanced c q s e b =
    let (kept, same) = receive-IsKept q (lookup-IsKept c s.clients q b.kept e) in
    record {
      books = omega (arith, b.books, same, queued_bytes-insert c (receive q) s.clients q e);
      kept = All-insert c (receive q) s.clients kept b.kept;
    }

step-IsBalanced : (room : ℕ) (call : Call) (s : Node) → IsBalanced s → IsBalanced (step room call s)
unfolding step send
step-IsBalanced room (new_client_call c) s b = elim (Option-cases (lookup c s.clients)) [
  | inl e ↦ rw (e, step) (new_client-IsBalanced c s e b)
  | inr (q, e) ↦ rw (e, step) b
]
step-IsBalanced room (send_call c n) s b = record { books = omega (arith, b.books); kept = b.kept }
step-IsBalanced room (push_call c n) s b = push-IsBalanced c n s b
step-IsBalanced room (resume_call i) s b = resume-IsBalanced room i s b
step-IsBalanced room (receive_call c) s b =
    at_client-IsBalanced c _ s (λ q e. received-IsBalanced c q s e b) b
step-IsBalanced room (write_call c) s b =
    at_client-IsBalanced c (write c) s (λ q e. write-IsBalanced c q s e b) b
step-IsBalanced room (close_call c) s b =
    at_client-IsBalanced c (close c) s (λ q e. close-IsBalanced c q s e b) b

run-from : (room : ℕ) (calls : List Call) (s : Node) → IsBalanced s → IsBalanced (run room calls s)
unfolding run
run-from room [] s b = b
run-from room (c ∷ calls) s b = run-from room calls (step room c s) (step-IsBalanced room c s b)

-- Whatever the goroutines of a node do and in whatever order their steps come, the budget holds just
-- the bytes that the connections count as queued and those that a goroutine has charged and not yet
-- queued or is about to give back; a connection that is open counts the bytes of the frames on its
-- channel and of the one its writer holds, and one that is closing counts none.
pub run-IsBalanced :
    (room limit : ℕ) (calls : List Call) → IsBalanced (run room calls (new_node limit))
run-IsBalanced room limit calls =
    run-from room calls (new_node limit) (record { books = refl; kept = tt })

closed_bytes :
    (m : Map Bytes Queue)
    → All (λ e. IsKept e.1) m
    → All (λ e. e.1.closing ≡ true) m
    → queued_bytes m ≡ 0
closed_bytes [] k h = refl
closed_bytes ((c, q) ∷ m) k h = ground (arith, closed_bytes m k.1 h.1)

-- Once every connection is closing and no goroutine is on its way, the budget is back at zero: as many
-- bytes were given back as were ever charged, whichever of the writer, a full queue and the close took
-- each frame.
pub run-drained :
    (room limit : ℕ) (calls : List Call)
    → All (λ e. e.1.closing ≡ true) (run room calls (new_node limit)).clients
    → (run room calls (new_node limit)).pending ≡ []
    → (run room calls (new_node limit)).budget.queued.added
      ≡ (run room calls (new_node limit)).budget.queued.taken
run-drained room limit calls h p =
    let b = run-IsBalanced room limit calls in
    omega (arith, b.books, ap pending_bytes p, closed_bytes _ b.kept h)
