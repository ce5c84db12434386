-- ===== src/Gateway/Budget/Books.antt =====
-- internal/gateway/budget.go: what the budget holds, and the sums over connections and goroutines.
use nexo.Prelude.{
  ℕ, zero, suc, ◌+◌, ◌≡◌, Option, none, some, List, [], ◌∷◌, ◌++◌, arith, All, if◌then◌else◌,
  Option-cases, inl, inr,
}
use nexo.Prelude.Bytes.{Bytes}
use nexo.Prelude.Map.{Map, lookup, insert, bytes_eq}
use nexo.Gateway.Budget.{Queue, Pending, to_queue, to_release, Node, pick}

abbrev pub sum : List ℕ → ℕ
sum [] = 0
sum (n ∷ ns) = n + sum ns

abbrev pub held_bytes : Option ℕ → ℕ
held_bytes none = 0
held_bytes (some n) = n

-- The bytes of a connection that is open are those of its frames, on the channel and with the writer.
abbrev pub IsKept : Queue → Type 0
IsKept q = q.queued ≡ (if q.closing then 0 else sum q.send + held_bytes q.held)

abbrev pub queued_bytes : Map Bytes Queue → ℕ
queued_bytes [] = 0
queued_bytes ((_, q) ∷ m) = q.queued + queued_bytes m

abbrev pub bytes_of : Pending → ℕ
bytes_of (to_queue c n) = n
bytes_of (to_release n) = n

abbrev pub pending_bytes : List Pending → ℕ
pending_bytes [] = 0
pending_bytes (p ∷ ps) = bytes_of p + pending_bytes ps

-- The budget holds the bytes that the connections count and those that goroutines are about to queue
-- or to give back.
pub record IsBalanced (s : Node) : Type 0 where
  pub books :
      s.budget.queued.added
      ≡ s.budget.queued.taken + (queued_bytes s.clients + pending_bytes s.pending)
  pub kept : All (λ e. IsKept e.1) s.clients

module _ (c : Bytes) where
  pub queued_bytes-insert :
      (q : Queue) (m : Map Bytes Queue) (old : Queue)
      → lookup c m ≡ some old
      → queued_bytes (insert c q m) + old.queued ≡ queued_bytes m + q.queued
  unfolding lookup insert
  queued_bytes-insert q [] old h = cc
  queued_bytes-insert q ((j, x) ∷ m) old h = ground (arith, queued_bytes-insert q m old)

  pub queued_bytes-insert_new :
      (q : Queue) (m : Map Bytes Queue)
      → lookup c m ≡ none
      → queued_bytes (insert c q m) ≡ queued_bytes m + q.queued
  unfolding lookup insert
  queued_bytes-insert_new q [] h = omega arith
  queued_bytes-insert_new q ((j, x) ∷ m) h = ground (arith, queued_bytes-insert_new q m)

  pub All-insert :
      (q : Queue) (m : Map Bytes Queue)
      → IsKept q
      → All (λ e. IsKept e.1) m
      → All (λ e. IsKept e.1) (insert c q m)
  unfolding insert
  All-insert q [] k h = (k, tt)
  All-insert q ((j, x) ∷ m) k h = ground (arith, All-insert q m k h.1)

  pub lookup-IsKept :
      (m : Map Bytes Queue) (q : Queue) → All (λ e. IsKept e.1) m → lookup c m ≡ some q → IsKept q
  unfolding lookup
  lookup-IsKept [] q h e = cc
  lookup-IsKept ((j, x) ∷ m) q h e = ground (arith, lookup-IsKept m q h.1)

pub pending_bytes-pick :
    (i : ℕ) (ps : List Pending) (p : Pending) (rest : List Pending)
    → pick i ps ≡ some (p, rest)
    → pending_bytes ps ≡ pending_bytes (p ∷ rest)
unfolding pick
pending_bytes-pick i [] p rest h = cc
pending_bytes-pick zero (x ∷ ps) p rest h = ground arith
pending_bytes-pick (suc i) (x ∷ ps) p rest h = elim (Option-cases (pick i ps)) [
  | inl e ↦ ground (arith, e)
  | inr ((y, ys), e) ↦ ground (arith, e, pending_bytes-pick i ps y ys e)
]

pub sum-append : (ns : List ℕ) (n : ℕ) → sum (ns ++ n ∷ []) ≡ sum ns + n
sum-append [] n = omega arith
sum-append (x ∷ ns) n = omega (arith, sum-append ns n)
