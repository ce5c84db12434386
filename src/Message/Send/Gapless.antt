-- ===== src/Message/Send/Gapless.antt =====
-- Seqs run from 1 without gap or repetition in every conversation.
use nexo.Prelude.{ℕ, zero, suc, ◌<◌, ◌≡◌, refl, sym, ap, List, [], ◌∷◌, ◌++◌, if◌then◌else◌, arith}
use mathlib.Core.Path.{subst}
use nexo.Prelude.Bytes.{Bytes, ◌==◌, eq_iff}
use nexo.Errcode.{Result, ok, err}
use nexo.Store.{Message, next_seq, next_seq_lem, max_int64}
use nexo.Store.Db.{Db}
use nexo.Store.Action.{World}
use nexo.Ratelimit.{Limiters}
use nexo.Message.{Event, State, Config, SendInput, Ack}
use nexo.Message.Send.{send}
use nexo.Message.Send.Atomicity.{send_error_leaves_no_trace}
use nexo.Message.Send.Numbering.{Numbered}
use nexo.Store.Messages.{max_seq_of}
use nexo.Message.Send.Sequence.{Outcome, again, fresh, send_effect}

-- The seqs of one conversation's messages, in the order of their insertion.
unfoldable pub seqs_of : Bytes → List Message → List ℕ
seqs_of id [] = []
seqs_of id (m ∷ ms) = if m.conversation_id == id then m.seq ∷ seqs_of id ms else seqs_of id ms

-- 1, 2, …, n
unfoldable pub one_to : ℕ → List ℕ
one_to zero = []
one_to (suc n) = one_to n ++ suc n ∷ []

-- In every conversation the messages came in with the seqs 1, 2, … up to its last.
pub record IsGapless (db : Db) : Type 0 where
  pub at : (id : Bytes) → seqs_of id db.messages ≡ one_to (max_seq_of id db)

seqs_of-append :
    (id : Bytes) (ms : List Message) (m : Message)
    → seqs_of id (ms ++ m ∷ [])
      ≡ (if m.conversation_id == id then seqs_of id ms ++ m.seq ∷ [] else seqs_of id ms)
unfolding seqs_of
seqs_of-append id [] m = ground arith
seqs_of-append id (x ∷ ms) m = ground (arith, seqs_of-append id ms m)

one_to-next : (n : ℕ) → n < max_int64 → one_to n ++ next_seq n ∷ [] ≡ one_to (next_seq n)
unfolding one_to
one_to-next n h = rw (next_seq_lem n h) (ground arith)

Numbered-IsGapless :
    (before db : Db) (m : Message)
    → ((id : Bytes) → max_seq_of id before < max_int64)
    → Numbered before m db
    → IsGapless before
    → IsGapless db
Numbered-IsGapless before db m small h g = record {
  at = λ id. ground (
    arith,
    ap (seqs_of id) h.messages,
    seqs_of-append id before.messages m,
    h.max_seq id,
    g.at id,
    eq_iff m.conversation_id id,
    one_to-next (max_seq_of id before) (small id),
    h.seq,
  );
}

Outcome-IsGapless :
    (before db : Db) (server_msg_id : Bytes) (i : SendInput) (a : Ack)
    → ((id : Bytes) → max_seq_of id before < max_int64)
    → Outcome before server_msg_id i a db
    → IsGapless before
    → IsGapless db
Outcome-IsGapless before db s i a small (again c m f e same) g = subst IsGapless (sym same) g
Outcome-IsGapless before db s i a small (fresh m n e1 e2 e3 e4 e5) g =
    Numbered-IsGapless before db m small n g

module _ {Limiter : Type 0} (lib : Limiters Limiter) (cfg : Config) where
  result_cases :
      (now : ℕ) (server_msg_id : Bytes) (i : SendInput) (w : World Event (State Limiter))
      (r : Result Ack)
      → (send lib cfg now server_msg_id i w).0 ≡ r
      → ((id : Bytes) → max_seq_of id w.db < max_int64)
      → IsGapless w.db
      → IsGapless (send lib cfg now server_msg_id i w).1.db
  result_cases now s i w (ok a) h small g =
      Outcome-IsGapless w.db _ s i a small (send_effect lib cfg now s i w a h) g
  result_cases now s i w (err e) h small g =
      subst IsGapless (sym (send_error_leaves_no_trace lib cfg now s i w e h).0) g

  -- While no conversation is at the last int64, a send keeps the seqs of every conversation the
  -- numbers from 1 to its last seq, each once and in order, whether it is acknowledged or fails,
  -- and whatever statements of the store fail.
  pub send-IsGapless :
      (now : ℕ) (server_msg_id : Bytes) (i : SendInput) (w : World Event (State Limiter))
      → ((id : Bytes) → max_seq_of id w.db < max_int64)
      → IsGapless w.db
      → IsGapless (send lib cfg now server_msg_id i w).1.db
  send-IsGapless now s i w small g = result_cases now s i w _ refl small g
