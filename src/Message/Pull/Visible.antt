-- ===== src/Message/Pull/Visible.antt =====
-- What a pull shows.
use mathlib.Core.List.{Perm}
use nexo.Prelude.{
  zero, suc, ◌++◌, drop, take-append-drop, ◌&&◌, Bool, ℕ, ◌+◌, ◌≤◌, ◌<◌, ◌≡◌, refl, sym, ap, ◌∙◌,
  min, true, false, ◌||◌, List, [], ◌∷◌, map, keep, take, length, arith, leb, ltb, length-take,
  Bool-cases, inl, inr,
}
use nexo.Prelude.Bytes.{Bytes, ◌==◌}
use nexo.Prelude.Int.{ℤ, pos, pos_part, ltb_ℤ}
use nexo.Prelude.Sort.{sort_by, length-sort_by}
use nexo.Prelude.Sort.Pages.{Chain}
use nexo.Prelude.Sort.Order.{sort_by-Perm, sort_by-Ordered}
use nexo.Prelude.Map.{pair_eq}
use nexo.Errcode.{ok}
use nexo.Dto
use nexo.Dto.{message_from_store}
use nexo.Conv.{visible_range, page_limit}
use nexo.Conversation.Reading.{RowOf, Ensures-row}
use nexo.Store
use nexo.Store.{UserConversation, UserConversationRow}
use nexo.Store.Db.{Db}
use nexo.Store.Messages.{list_messages, in_range}
use nexo.Store.Action.{World}
use nexo.Store.Action.Rules.{Ensures}
use nexo.Store.Action.Hoare.{
  Ensures-raise, Ensures-pure, Ensures-call, Ensures-bind, Ensures-map_error, Ensures-if,
  Ensures-fact, Ensures-mono,
}
use nexo.Message.{Event, State}
use nexo.Message.Pull.{PullInput, PullResult, page_of, pull_range, pull}

-- A message of the conversation within the bounds.
abbrev lies_in : Bytes → ℕ → ℕ → Store.Message → Bool
lies_in id lo hi m = m.conversation_id == id && leb lo m.seq && leb m.seq hi

-- The messages that are stored there.
abbrev pub within : Bytes → ℕ → ℕ → Db → List Store.Message
within id lo hi db = keep (lies_in id lo hi) db.messages

-- The message of a response has the facts of the stored one.
pub record Shows (row : Store.Message) (m : Dto.Message) : Type 0 where
  pub server_msg_id : m.server_msg_id ≡ row.server_msg_id
  pub client_msg_id : m.client_msg_id ≡ row.client_msg_id
  pub conversation_id : m.conversation_id ≡ row.conversation_id
  pub seq : m.seq ≡ row.seq
  pub session_type : m.session_type ≡ row.session_type
  pub sender_id : m.sender_id ≡ row.sender_id
  pub recv_id : m.recv_id ≡ row.recv_id
  pub group_id : m.group_id ≡ row.group_id
  pub content_type : m.content_type ≡ row.content_type
  pub content : m.content ≡ row.content
  pub send_time : m.send_time ≡ row.send_time

abbrev pub ShowsAll : List Store.Message → List Dto.Message → Type 0
ShowsAll [] [] = Unit
ShowsAll [] (m ∷ ms) = ⊥
ShowsAll (row ∷ rows) [] = ⊥
ShowsAll (row ∷ rows) (m ∷ ms) = Shows row m × ShowsAll rows ms

abbrev pub by_seq : Store.Message → Store.Message → Bool
by_seq a b = leb a.seq b.seq

-- The answer to a range: the stored messages there, in the order of their seqs, are the `shown` and the
-- `left` ones; the answer shows the first, as many as there are up to `limit`, and says whether it
-- left any.
pub record Page (db : Db) (id : Bytes) (lo hi limit : ℕ) (res : PullResult) : Type 0 where
  pub shown : List Store.Message
  pub left : List Store.Message
  pub all_there : Perm (shown ++ left) (within id lo hi db)
  pub ordered : Chain by_seq (shown ++ left)
  pub content : ShowsAll shown res.messages
  pub size : length shown ≡ min (length (within id lo hi db)) limit
  pub more : res.has_more ≡ ltb limit (length (within id lo hi db))

ShowsAll-map : (rows : List Store.Message) → ShowsAll rows (map message_from_store rows)
unfolding message_from_store
ShowsAll-map [] = tt
ShowsAll-map (row ∷ rows) = (
  record {
    server_msg_id = refl;
    client_msg_id = refl;
    conversation_id = refl;
    seq = refl;
    session_type = refl;
    sender_id = refl;
    recv_id = refl;
    group_id = refl;
    content_type = refl;
    content = refl;
    send_time = refl;
  },
  ShowsAll-map rows,
)

take-min : (n : ℕ) (xs : List Store.Message) → take (min (length xs) n) xs ≡ take n xs
take-min zero xs = let e : min (length xs) 0 ≡ 0 = omega arith in rw e refl
take-min (suc n) [] = let e : min 0 (suc n) ≡ 0 = omega arith in rw e refl
take-min (suc n) (x ∷ xs) =
    let e : min (suc (length xs)) (suc n) ≡ suc (min (length xs) n) = omega arith in
    rw e (ap (◌∷◌ x) (take-min n xs))

take-take_more : (n : ℕ) (xs : List Store.Message) → take n (take (suc n) xs) ≡ take n xs
take-take_more zero xs = refl
take-take_more (suc n) [] = refl
take-take_more (suc n) (x ∷ xs) = ap (◌∷◌ x) (take-take_more n xs)

rows-Page :
    (db : Db) (id : Bytes) (lo hi limit : ℕ) (rows : List Store.Message)
    → (list_messages id lo hi (limit + 1) db).0 ≡ ok rows
    → Page db id lo hi limit (page_of limit rows)
unfolding page_of list_messages in_range
rows-Page db id lo hi limit rows h =
    let there = within id lo hi db in
    let sorted = sort_by by_seq there in
    let one_more : limit + 1 ≡ suc limit = omega arith in
    let e : rows ≡ take (suc limit) sorted = ground (arith, h) in
    let first : take (min (length rows) limit) rows ≡ take limit sorted =
      take-min limit rows ∙ (ap (take limit) e ∙ take-take_more limit sorted) in
    let n : length rows ≡ min (suc limit) (length there) =
      rw e (length-take (suc limit) sorted ∙ rw (length-sort_by by_seq there) refl) in
    let split = take-append-drop limit sorted in
    record {
      shown = take limit sorted;
      left = drop limit sorted;
      all_there = rw split (sort_by-Perm by_seq there);
      ordered =
          rw split (sort_by-Ordered by_seq (λ x y. ground arith) (λ x y z f g. ground arith) there);
      content = rw first (ShowsAll-map (take limit sorted));
      size = rw (length-take limit sorted, length-sort_by by_seq there) (omega arith);
      more = ground (arith, n);
    }

-- The answer to the bounds of a request. Bounds in the wrong order hold nothing.
pub record PageOf (db : Db) (id : Bytes) (limit : ℕ) (range : ℕ × ℕ) (res : PullResult)
    : Type 0 where
  pub page : range.0 ≤ range.1 → Page db id range.0 range.1 limit res
  pub empty : range.1 < range.0 → res ≡ record { messages = []; has_more = false }

module _ (before : Db) (id : Bytes) (limit lo hi : ℕ) where
  empty-PageOf :
      ltb hi lo ≡ true
      → PageOf before id limit (lo, hi) (record { messages = []; has_more = false })
  empty-PageOf h = record { page = λ le. absurd (ground arith); empty = λ _. refl }

  rows-PageOf :
      (rows : List Store.Message)
      → ltb hi lo ≡ false
      → (list_messages id lo hi (limit + 1) before).0 ≡ ok rows
      → PageOf before id limit (lo, hi) (page_of limit rows)
  rows-PageOf rows h e = record {
    page = λ _. rows-Page before id lo hi limit rows e;
    empty = λ lt. absurd (ground arith);
  }

module _ {Limiter : Type 0} (before : Db) where
  pull_range-PageOf :
      (id : Bytes) (limit : ℕ) (range : ℕ × ℕ)
      → Ensures {E = Event} {S = State Limiter}
          (λ d. d ≡ before)
          (pull_range id limit range)
          (λ res d. PageOf before id limit range res)
  unfolding pull_range
  pull_range-PageOf id limit (lo, hi) = elim (Bool-cases (ltb hi lo)) [
    | inl h ↦ rw h (Ensures-pure _ _ _ (λ db e. empty-PageOf before id limit lo hi h))
    | inr h ↦ rw h (
        Ensures-bind _ (λ rows d. (list_messages id lo hi (limit + 1) before).0 ≡ ok rows) _ _ _
          (Ensures-map_error _ _ _ _ (
            Ensures-call _ _ _
              (λ db rows e x. ap (λ d. (list_messages id lo hi (limit + 1) d).0) (sym e) ∙ x)))
          (λ rows. Ensures-pure _ _ _ (λ db x. rows-PageOf before id limit lo hi rows h x)))
  ]

-- What a pull answers: the page of the bounds that the puller's row of the conversation leaves.
pub record Pulled (db : Db) (i : PullInput) (page_max : ℤ) (res : PullResult) : Type 0 where
  pub row : UserConversationRow
  pub found : RowOf db i.user_id i.conversation_id row
  pub answer :
      PageOf db i.conversation_id
        (page_limit i.limit page_max)
        (visible_range row.uc row.conv_max_seq (pos_part i.begin_seq) (pos_part i.end_seq))
        res

module _ {Limiter : Type 0} where
  pull-Pulled :
      (before : Db) (i : PullInput) (page_max : ℤ)
      → Ensures {E = Event} {S = State Limiter}
          (λ d. d ≡ before)
          (pull i page_max)
          (λ res d. Pulled before i page_max res)
  unfolding pull
  pull-Pulled before i page_max =
      Ensures-if (ltb_ℤ i.begin_seq (pos 1) || ltb_ℤ i.end_seq i.begin_seq) (Ensures-raise _ _ _) (
        Ensures-bind _ _ _ _ _
          (Ensures-map_error _ _ _ _ (Ensures-row before i.user_id i.conversation_id))
          (λ row. Ensures-fact (λ found.
            Ensures-mono _ (λ db e. e)
              (λ res db answer. record { row = row; found = found; answer = answer })
              (pull_range-PageOf before i.conversation_id _ _))))

  -- A pull that succeeds was made by a user with a row of the conversation. Its answer shows, with all
  -- their facts and in the order of their seqs, the first of the messages of that conversation that are
  -- stored within the bounds that the request and the row leave, as many as there are up to the page's
  -- limit, and says whether there are more; bounds in the wrong order hold nothing.
  pub pull_outcome :
      (i : PullInput) (page_max : ℤ) (w : World Event (State Limiter)) (res : PullResult)
      → (pull i page_max w).0 ≡ ok res
      → Pulled w.db i page_max res
  pull_outcome i page_max w res h = (pull-Pulled w.db i page_max).at w res refl h
