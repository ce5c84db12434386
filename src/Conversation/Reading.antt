-- ===== src/Conversation/Reading.antt =====
-- What `MarkRead` does to the read cursor.
use nexo.Prelude.{
  ℕ, ◌≡◌, refl, sym, ap, ◌∙◌, min, max, true, false, Option, none, some, if◌then◌else◌, arith, leb,
  Bool-cases, inl, inr,
}
use mathlib.Core.Path.{subst}
use nexo.Prelude.Bytes.{Bytes}
use nexo.Prelude.Int.{ℤ, pos, pos_part, ltb_ℤ}
use nexo.Prelude.Map.{lookup, lookup-insert, pair_eq, pair_beq, pair_iff, bytes_eq}
use nexo.Errcode.{ok}
use nexo.Conv.{visible_max}
use nexo.Store.{UserConversation, UserConversationRow, Conversation}
use nexo.Store.Db.{Db}
use nexo.Store.Conversations.{get_user_conversation_row}
use nexo.Store.Messages.{advance_read_seq}
use nexo.Store.Action.{World, call}
use nexo.Store.Action.Rules.{Ensures, DbKept-emit}
use nexo.Store.Action.Hoare.{
  Ensures-raise, Ensures-pure, Ensures-call, Ensures-bind, Ensures-DbKept, Ensures-map_error,
  Ensures-if, Ensures-fact,
}
use nexo.Conversation.{ReadEvent, advance_to, mark_read}

-- The rows that a read of one user's view of a conversation finds.
pub record RowOf (db : Db) (user_id id : Bytes) (row : UserConversationRow) : Type 0 where
  pub mine : lookup (user_id, id) db.user_convs ≡ some row.uc
  pub conv : (c : Conversation) × (lookup id db.convs ≡ some c) × (row.conv_max_seq ≡ c.max_seq)

row_cases :
    (u id : Bytes) (db : Db) (row : UserConversationRow) (o : Option UserConversation)
    (p : Option Conversation)
    → lookup (u, id) db.user_convs ≡ o
    → lookup id db.convs ≡ p
    → (get_user_conversation_row u id db).0 ≡ ok row
    → RowOf db u id row
unfolding get_user_conversation_row
row_cases u id db row none p e f h = absurd (ground arith)
row_cases u id db row (some uc) none e f h = absurd (ground arith)
row_cases u id db row (some uc) (some c) e f h =
    let k : row ≡ record { uc = uc; conv_max_seq = c.max_seq } = ground arith in
    record {
      mine = e ∙ ap (λ (r : UserConversationRow). some r.uc) (sym k);
      conv = (c, f, ap (λ (r : UserConversationRow). r.conv_max_seq) k);
    }

get_row-db : (u id : Bytes) (db : Db) → (get_user_conversation_row u id db).1 ≡ db
unfolding get_user_conversation_row
get_row-db u id db = ground arith

module _ {E S : Type 0} (before : Db) where
  pub Ensures-row :
      (u id : Bytes)
      → Ensures {E = E} {S = S}
          (λ d. d ≡ before)
          (call (get_user_conversation_row u id))
          (λ row d. (d ≡ before) × RowOf before u id row)
  Ensures-row u id = Ensures-call _ _ _ (λ db row h x. (
    get_row-db u id db ∙ h,
    subst (λ b. RowOf b u id row) h
        (row_cases u id db row (lookup (u, id) db.user_convs) (lookup id db.convs) refl refl x),
  ))

-- The cursor moved to `r`, which is where it was or the request cut to the visible maximum,
-- whichever is further, and nothing else in the users' rows moved.
pub record MarkedRead (before : Db) (user_id id : Bytes) (n r : ℕ) (db : Db) : Type 0 where
  pub row : UserConversationRow
  pub found : RowOf before user_id id row
  pub cursor : r ≡ max row.uc.read_seq (min n (visible_max row.uc row.conv_max_seq))
  pub rows :
      (o k : Bytes)
      → lookup (o, k) db.user_convs ≡ (
          if pair_beq (user_id, id) (o, k)
          then some (record row.uc { read_seq = r })
          else lookup (o, k) before.user_convs)

advance_rows :
    (u id : Bytes) (db : Db) (uc : UserConversation) (t : ℕ) (q : Option UserConversation)
    → lookup (u, id) db.user_convs ≡ q
    → q ≡ some uc
    → (o k : Bytes)
    → lookup (o, k) (advance_read_seq u id t db).1.user_convs ≡ (
        if pair_beq (u, id) (o, k)
        then some (record uc { read_seq = max uc.read_seq t })
        else lookup (o, k) db.user_convs)
unfolding advance_read_seq
advance_rows u id db uc t none e f o k = cc
advance_rows u id db uc t (some x) e f o k =
    let same : x ≡ uc = ground arith in
    rw (e, advance_read_seq)
      (lookup-insert (u, id) (o, k) (record x { read_seq = max x.read_seq t }) db.user_convs
        ∙ rw same)

unmoved_rows :
    (u id : Bytes) (db : Db) (uc : UserConversation) (r : ℕ)
    → lookup (u, id) db.user_convs ≡ some uc
    → r ≡ uc.read_seq
    → (o k : Bytes)
    → lookup (o, k) db.user_convs ≡ (
        if pair_beq (u, id) (o, k)
        then some (record uc { read_seq = r })
        else lookup (o, k) db.user_convs)
unmoved_rows u id db uc r e f o k = elim (Bool-cases (pair_beq (u, id) (o, k))) [
  | inl same ↦
      rw (same, f)
        (subst (λ key. lookup key db.user_convs ≡ some uc) ((pair_iff (u, id) (o, k)).0 same) e)
  | inr other ↦ rw other
]

-- How far a request for `n` can move the cursor.
abbrev target : UserConversationRow → ℕ → ℕ
target row n = min n (visible_max row.uc row.conv_max_seq)

module _ (before : Db) (u id : Bytes) (row : UserConversationRow) (n : ℕ)
    (found : RowOf before u id row) where
  stays :
      leb (target row n) row.uc.read_seq ≡ true → MarkedRead before u id n row.uc.read_seq before
  stays h = record {
    row = row;
    found = found;
    cursor = ground arith;
    rows = unmoved_rows u id before row.uc row.uc.read_seq found.mine refl;
  }

  moves_here :
      leb (target row n) row.uc.read_seq ≡ false
      → MarkedRead before u id n (target row n) (advance_read_seq u id (target row n) before).1
  moves_here h =
      let further : max row.uc.read_seq (target row n) ≡ target row n = ground arith in
      record {
        row = row;
        found = found;
        cursor = ground arith;
        rows = λ o k.
            advance_rows u id before row.uc (target row n) (lookup (u, id) before.user_convs) refl
              found.mine o k
            ∙ ap
                (λ (t : ℕ).
                  if pair_beq (u, id) (o, k)
                  then some (record row.uc { read_seq = t })
                  else lookup (o, k) before.user_convs)
                further;
      }

  moves :
      (db : Db)
      → db ≡ before
      → row.uc.conversation_id ≡ id
      → leb (target row n) row.uc.read_seq ≡ false
      → MarkedRead before u id n
          (target row n)
          (advance_read_seq u row.uc.conversation_id (target row n) db).1
  moves db same keyed h =
      subst
        (λ c. MarkedRead before u id n (target row n) (advance_read_seq u c (target row n) db).1)
        (sym keyed)
        (subst
          (λ d. MarkedRead before u id n (target row n) (advance_read_seq u id (target row n) d).1)
          (sym same) (moves_here h))

module _ {S : Type 0} (before : Db) (u conn id : Bytes) (row : UserConversationRow) (n : ℕ)
    (found : RowOf before u id row) (keyed : row.uc.conversation_id ≡ id) where
  advance_to-MarkedRead :
      Ensures {E = ReadEvent} {S = S}
        (λ d. d ≡ before)
        (advance_to u conn row (target row n))
        (MarkedRead before u id n)
  unfolding advance_to
  advance_to-MarkedRead = elim (Bool-cases (leb (target row n) row.uc.read_seq)) [
    | inl h ↦ rw h (
        Ensures-pure _ _ row.uc.read_seq (λ db e.
          subst (MarkedRead before u id n row.uc.read_seq) (sym e)
            (stays before u id row n found h)))
    | inr h ↦ rw h (
        Ensures-bind _ (λ _ d. MarkedRead before u id n (target row n) d) _ _ _
          (Ensures-map_error _ _ _ _
            (Ensures-call _ _ _ (λ db _ e x. moves before u id row n found db e keyed h)))
          (λ _.
            Ensures-bind _ (λ _ d. MarkedRead before u id n (target row n) d) _ _ _
              (Ensures-DbKept _ _ (DbKept-emit _))
              (λ _. Ensures-pure _ _ (target row n) (λ db m. m))))
  ]

module _ {S : Type 0} where
  mark_read-Ensures :
      (before : Db) (u conn id : Bytes) (n : ℤ)
      → ((uc : UserConversation)
          → lookup (u, id) before.user_convs ≡ some uc
          → uc.conversation_id ≡ id)
      → Ensures {E = ReadEvent} {S = S}
          (λ d. d ≡ before)
          (mark_read u conn id n)
          (MarkedRead before u id (pos_part n))
  unfolding mark_read
  mark_read-Ensures before u conn id n keyed = Ensures-if (ltb_ℤ n (pos 1)) (Ensures-raise _ _ _) (
      Ensures-bind _ _ _ _ _ (Ensures-map_error _ _ _ _ (Ensures-row before u id)) (λ row.
        Ensures-fact (λ found.
          advance_to-MarkedRead before u conn id row (pos_part n) found (keyed row.uc found.mine))))

  -- Where rows carry the conversation that they are stored under, a read that succeeds answers with
  -- the cursor that is stored then: the further of the old one and the request cut to the visible
  -- maximum. No other user's row and no other conversation's changes.
  pub mark_read_outcome :
      (u conn id : Bytes) (n : ℤ) (w : World ReadEvent S) (r : ℕ)
      → ((uc : UserConversation)
          → lookup (u, id) w.db.user_convs ≡ some uc
          → uc.conversation_id ≡ id)
      → (mark_read u conn id n w).0 ≡ ok r
      → MarkedRead w.db u id (pos_part n) r (mark_read u conn id n w).1.db
  mark_read_outcome u conn id n w r keyed h =
      (mark_read-Ensures w.db u conn id n keyed).at w r refl h
