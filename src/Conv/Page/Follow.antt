-- ===== src/Conv/Page/Follow.antt =====
-- internal/service/conv/page.go and cursor.go: a client that follows the cursors from page to page.
use nexo.Prelude.{
  ℕ, zero, suc, ◌+◌, ◌≤◌, ◌<◌, ◌≡◌, refl, sym, ap, ◌∙◌, inl, inr, true, false, Option, none, some,
  List, [], ◌∷◌, ◌++◌, arith, ltb, leb, keep, take, drop, take-append-drop, length-drop-le, length,
  length-take, All-keep, ltb→lt, All, Bool-cases, if◌then◌else◌,
}
use mathlib.Core.Path.{fun_ext, subst}
use nexo.Prelude.Bytes.{Bytes}
use nexo.Prelude.Int.{ℤ}
use nexo.Prelude.Sort.{sort_by-All, length-sort_by}
use nexo.Prelude.Sort.Pages.{
  Chain, last_or, keep_every, All-weaken, All-last_or, All-keep_of, Chain-keep, sort_by-Chain,
  keep-last_or, keep-keep,
}
use nexo.Errcode.{Result, ok, err}
use nexo.Store.{UserConversationRow, ListCursor, first_page}
use nexo.Store.Messages.{row_le}
use nexo.Store.Action.{World}
use nexo.Conv.{page_limit}
use nexo.Conv.Range.{page_limit_bounds}
use nexo.Conv.Cursor.{encode_cursor, decode_cursor, decode_cursor-encode_cursor}
use nexo.Conv.Page.{Page, cursor_of, page_of, list_page}
use nexo.Conv.Page.Order.{after, after_trans, after_asym}
use nexo.Conv.Page.Listing.{
  owned, newest_first, Distinct, IsNamed, past, past-after, past_trans, Apart-Distinct,
  row_le-after, list_page_at-rows,
}

abbrev prepend :
    List UserConversationRow → Option (List UserConversationRow) → Option (List UserConversationRow)
prepend rows none = none
prepend rows (some rest) = some (rows ++ rest)

abbrev more : Page → Option (List UserConversationRow) → Option (List UserConversationRow)
more p rest = if p.has_more then prepend p.rows rest else some p.rows

-- The rows of a page, and those that the next ones give.
abbrev joined :
    {E S : Type 0}
    → (Bytes → World E S → Option (List UserConversationRow))
    → Result Page × World E S
    → Option (List UserConversationRow)
joined next (err _, w) = none
joined next (ok p, w) = more p (next p.next_cursor w)

module _ {E S : Type 0} (u : Bytes) (limit page_max : ℤ) where
  -- The rows that a client gathers until a page says that it is the last, in at most so many pages;
  -- `none` where a page fails or none of so many is the last.
  unfoldable pub follow : ℕ → Bytes → World E S → Option (List UserConversationRow)
  follow zero cursor w = none
  follow (suc n) cursor w = joined (follow n) (list_page u cursor limit page_max w)

take_all {ℓ} : {A : Type ℓ} (n : ℕ) (xs : List A) → length xs ≤ n → take n xs ≡ xs
take_all zero [] h = refl
take_all zero (x ∷ xs) h = absurd (omega arith)
take_all (suc n) [] h = refl
take_all (suc n) (x ∷ xs) h = ap (◌∷◌ x) (take_all n xs (omega arith))

take-take {ℓ} : {A : Type ℓ} (n : ℕ) (xs : List A) → take n (take (suc n) xs) ≡ take n xs
take-take zero xs = refl
take-take (suc n) [] = refl
take-take (suc n) (x ∷ xs) = ap (◌∷◌ x) (take-take n xs)

-- Rows that fit in a page.
page_of-short :
    (n : ℕ) (rows : List UserConversationRow)
    → length rows ≤ n
    → page_of n (take (suc n) rows) ≡ record { rows = rows; next_cursor = []; has_more = false }
unfolding page_of
page_of-short n [] h = refl
page_of-short n (x ∷ xs) h =
    let fits : leb (suc (length xs)) n ≡ true = ground arith in
    rw (take_all {A = UserConversationRow} n xs (omega arith), fits) refl

-- Rows that do not.
page_of-long :
    (k : ℕ) (x : UserConversationRow) (xs : List UserConversationRow)
    → k < length xs
    → page_of (suc k) (take (suc (suc k)) (x ∷ xs)) ≡ record {
      rows = x ∷ take k xs;
      next_cursor = encode_cursor (cursor_of (last_or x (take k xs)));
      has_more = true;
    }
unfolding page_of
page_of-long k x xs h =
    let full : leb (suc (length (take (suc k) xs))) (suc k) ≡ false =
      rw (length-take (suc k) xs) (ground arith) in
    rw (full, take-take k xs) refl

pred_of : (n : ℕ) → 1 ≤ n → (k : ℕ) × (n ≡ suc k)
pred_of zero h = absurd (omega arith)
pred_of (suc n) h = (n, refl)

named_past : (r : UserConversationRow) → IsNamed r → past first_page r ≡ true
unfolding past
named_past r (_, _, early) = ground arith

module _ {E S : Type 0} (u : Bytes) (limit page_max : ℤ) (w : World E S) (quiet : w.faults ≡ [])
    (distinct : Distinct (owned u w.db)) (named : All IsNamed (owned u w.db)) where
  abbrev whole : List UserConversationRow
  whole = newest_first u w.db

  whole-Chain : Chain after whole
  unfolding newest_first
  whole-Chain = rw (fun_ext (λ a. fun_ext (row_le-after a))) (
      sort_by-Chain after after_trans after_asym (owned u w.db)
        (Apart-Distinct (owned u w.db) distinct))

  whole-IsNamed : All IsNamed whole
  unfolding newest_first
  whole-IsNamed = sort_by-All IsNamed row_le (owned u w.db) named

  -- The first page begins at the first row.
  past-first_page : keep (past first_page) whole ≡ whole
  past-first_page =
      keep_every (past first_page) whole
        (All-weaken IsNamed (λ r. past first_page r ≡ true) whole named_past whole-IsNamed)

  -- A cursor that names a row is read back.
  cursor_of-decoded :
      (r : UserConversationRow)
      → IsNamed r
      → decode_cursor (encode_cursor (cursor_of r)) ≡ some (cursor_of r)
  cursor_of-decoded r (filled, bytes, early) =
      decode_cursor-encode_cursor r.uc.updated_at r.uc.conversation_id (omega arith) filled bytes

  next_rest :
      (cur : ListCursor) (k : ℕ) (x : UserConversationRow) (xs : List UserConversationRow)
      → keep (past cur) whole ≡ x ∷ xs
      → keep (past (cursor_of (last_or x (take k xs)))) whole ≡ drop k xs
  next_rest cur k x xs e =
      let l = last_or x (take k xs) in
      let all_past : All (λ r. past cur r ≡ true) (x ∷ xs) =
        subst (All (λ r. past cur r ≡ true)) e
          (All-keep (λ r. past cur r ≡ true) (past cur) whole (λ r h. h)) in
      let here : past cur l ≡ true =
        All-last_or (λ r. past cur r ≡ true) x k xs all_past.0 all_past.1 in
      let chain : Chain after (x ∷ xs) =
        subst (Chain after) e (Chain-keep after (past cur) whole whole-Chain) in
      rw (fun_ext (past-after l)) (
        sym (keep-keep (after l) (past cur) whole (λ z h. past_trans cur l z here h))
        ∙ ap (keep (after l)) e
        ∙ keep-last_or after after_trans after_asym k x xs chain)

  last_IsNamed :
      (cur : ListCursor) (k : ℕ) (x : UserConversationRow) (xs : List UserConversationRow)
      → keep (past cur) whole ≡ x ∷ xs
      → IsNamed (last_or x (take k xs))
  last_IsNamed cur k x xs e =
      let all_named : All IsNamed (x ∷ xs) =
        subst (All IsNamed) e (All-keep_of IsNamed (past cur) whole whole-IsNamed) in
      All-last_or IsNamed x k xs all_named.0 all_named.1

  list_page-at :
      (k : ℕ) (cursor : Bytes) (cur : ListCursor) (rest : List UserConversationRow)
      → page_limit limit page_max ≡ suc k
      → decode_cursor cursor ≡ some cur
      → keep (past cur) whole ≡ rest
      → list_page u cursor limit page_max w ≡ (ok (page_of (suc k) (take (suc (suc k)) rest)), w)
  unfolding list_page
  list_page-at k cursor cur rest p d e =
      let one_more : suc k + 1 ≡ suc (suc k) = omega arith in
      rw d (list_page_at-rows u limit page_max cur w quiet distinct ∙ rw (p, one_more, e) refl)

  follow-from :
      (fuel k : ℕ) (cursor : Bytes) (cur : ListCursor) (rest : List UserConversationRow)
      → page_limit limit page_max ≡ suc k
      → decode_cursor cursor ≡ some cur
      → keep (past cur) whole ≡ rest
      → length rest < fuel
      → follow u limit page_max fuel cursor w ≡ some rest
  unfolding follow
  follow-from zero k cursor cur rest p d e h = absurd (omega arith)
  follow-from (suc fuel) k cursor cur [] p d e h =
      rw (list_page-at k cursor cur [] p d e, page_of-short (suc k) [] (omega arith)) refl
  follow-from (suc fuel) k cursor cur (x ∷ xs) p d e h = elim (Bool-cases (ltb k (length xs))) [
    | inr short ↦
        rw (list_page-at k cursor cur (x ∷ xs) p d e, page_of-short (suc k) (x ∷ xs) (ground arith))
          refl
    | inl long ↦
        rw
          (
            list_page-at k cursor cur (x ∷ xs) p d e,
            page_of-long k x xs (ltb→lt k (length xs) long),
            follow-from fuel k (encode_cursor (cursor_of (last_or x (take k xs))))
                (cursor_of (last_or x (take k xs))) (drop k xs) p
                (cursor_of-decoded (last_or x (take k xs)) (last_IsNamed cur k x xs e))
                (next_rest cur k x xs e) (omega (arith, length-drop-le k xs)),
          )
          (ap (λ r. some (x ∷ r)) (take-append-drop k xs))
  ]

  limit_suc : (k : ℕ) × (page_limit limit page_max ≡ suc k)
  limit_suc = pred_of (page_limit limit page_max) (page_limit_bounds limit page_max).0

  -- Where the ids of a user's conversation rows are not empty, their times are before the year 9999
  -- and no conversation stands twice, and where no statement fails and nothing changes in between, a
  -- client that asks for the first page and follows the cursors comes to a page that is the last,
  -- after at most one page more than there are rows and whatever page size it asks for, and has
  -- then read every row once, the newest first.
  pub follow-newest_first :
      (fuel : ℕ) → length (owned u w.db) < fuel → follow u limit page_max fuel [] w ≡ some whole
  follow-newest_first fuel h =
      let (k, p) = limit_suc in
      follow-from fuel k [] first_page whole p (unfold decode_cursor in refl) past-first_page
        (unfold newest_first in rw (length-sort_by row_le (owned u w.db)) h)
