-- ===== src/Message/Pull/Answer.antt =====
-- A pull that meets no fault is answered.
use nexo.Prelude.{ℕ, ◌≡◌, refl, ap, ◌∙◌, false, ◌||◌, some, ltb}
use nexo.Prelude.Bytes.{Bytes}
use nexo.Prelude.Int.{ℤ, pos, ltb_ℤ}
use nexo.Prelude.Map.{lookup, bytes_eq, pair_eq}
use nexo.Errcode.{ok}
use nexo.Store.{UserConversation, Conversation}
use nexo.Store.Db.{Db}
use nexo.Store.Conversations.{get_user_conversation_row}
use nexo.Store.Messages.{list_messages}
use nexo.Store.Action.{World}
use nexo.Store.Action.Runs.{
  Ran, Quiet, Ran-pure, Ran-call, Ran-map_error, Ran-mono, Ran-if, Ran-bind,
}
use nexo.Message.{Event, State}
use nexo.Message.Pull.{PullInput, PullResult, pull_range, pull}

row_read :
    (u id : Bytes) (db : Db) (uc : UserConversation) (c : Conversation)
    → lookup (u, id) db.user_convs ≡ some uc
    → lookup id db.convs ≡ some c
    → get_user_conversation_row u id db ≡ (ok (record { uc = uc; conv_max_seq = c.max_seq }), db)
unfolding get_user_conversation_row
row_read u id db uc c e f = rw (e, f, get_user_conversation_row) refl

module _ {Limiter : Type 0} where
  range-Ran :
      (id : Bytes) (limit : ℕ) (range : ℕ × ℕ) (w : World Event (State Limiter))
      → Quiet w
      → Ran (pull_range id limit range) w (λ _ _. Unit {0})
  unfolding pull_range list_messages
  range-Ran id limit (lo, hi) w quiet =
      Ran-if (ltb hi lo) _ _ w _ (Ran-mono _ _ _ _ (λ _ _ _. tt) (Ran-pure _ w)) (
        Ran-bind _ _ _ _ _ (Ran-map_error _ _ _ _ (Ran-call _ _ w quiet refl))
          (λ rows v h. Ran-mono _ _ _ _ (λ _ _ _. tt) (Ran-pure _ v)))

  pull-Ran :
      (i : PullInput) (page_max : ℤ) (uc : UserConversation) (c : Conversation)
      (w : World Event (State Limiter))
      → Quiet w
      → (ltb_ℤ i.begin_seq (pos 1) || ltb_ℤ i.end_seq i.begin_seq) ≡ false
      → lookup (i.user_id, i.conversation_id) w.db.user_convs ≡ some uc
      → lookup i.conversation_id w.db.convs ≡ some c
      → Ran (pull i page_max) w (λ _ _. Unit {0})
  unfolding pull
  pull-Ran i page_max uc c w quiet valid e f = rw valid (
      Ran-bind _ _ _ _ _
        (Ran-map_error _ _ _ _ (
          Ran-call _ _ w quiet
            (ap (λ p. p.0) (row_read i.user_id i.conversation_id w.db uc c e f))))
        (λ row v h. range-Ran i.conversation_id _ _ v (ap (λ x. x.faults) h.1 ∙ quiet)))

  -- A pull with 1 <= begin <= end by a user who has a row of a stored conversation is answered,
  -- where no statement of the store fails.
  pub pull_answers :
      (i : PullInput) (page_max : ℤ) (uc : UserConversation) (c : Conversation)
      (w : World Event (State Limiter))
      → Quiet w
      → (ltb_ℤ i.begin_seq (pos 1) || ltb_ℤ i.end_seq i.begin_seq) ≡ false
      → lookup (i.user_id, i.conversation_id) w.db.user_convs ≡ some uc
      → lookup i.conversation_id w.db.convs ≡ some c
      → (res : PullResult) × ((pull i page_max w).0 ≡ ok res)
  pull_answers i page_max uc c w quiet valid e f =
      let h = pull-Ran i page_max uc c w quiet valid e f in (h.value, ap (λ p. p.0) h.runs)
