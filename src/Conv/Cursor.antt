-- ===== src/Conv/Cursor.antt =====
-- internal/service/conv/cursor.go: the cursor of a page of conversations. A time is in milliseconds.
use nexo.Prelude.{
  ℕ, ◌≤◌, ◌<◌, ◌≡◌, ◌≢◌, refl, false, Option, none, some, [], ◌∷◌, ◌++◌, arith, any, ◌==◌ as nat_eq,
  if◌then◌else◌, All-append,
}
use nexo.Prelude.Bytes.{Bytes}
use nexo.Prelude.Int.{ℤ, pos}
use nexo.Identity.{has_colon}
use nexo.Identity.Decimal.{max_int64, parse_int, format_int}
use nexo.Identity.Spelling.{parse_int-format_int, format_int-has_colon, format_int-AreBytes}
use nexo.Store.{ListCursor, first_page}
use nexo.Conv.Base64.{encode, decode, AreBytes, decode-encode}

-- The text inside a cursor.
unfoldable pub cursor_text : ListCursor → Bytes
cursor_text c = format_int c.updated_at ++ (b':' ∷ c.conversation_id)

-- `EncodeCursor`
unfoldable pub encode_cursor : ListCursor → Bytes
encode_cursor c = encode (cursor_text c)

-- `strings.Cut(s, ":")`
unfoldable pub cut : Bytes → Option (Bytes × Bytes)
cut [] = none
cut (c ∷ cs) =
    let rest = cut cs in
    if nat_eq c b':'
    then some ([], cs)
    else (elim rest [ none ↦ none | some (before, after) ↦ some (c ∷ before, after) ])

abbrev cursor_at : Option ℤ → Bytes → Option ListCursor
cursor_at none id = none
cursor_at (some n) id = some (record { updated_at = n; conversation_id = id })

-- The two halves of the text.
unfoldable pub parse_cursor : Option (Bytes × Bytes) → Option ListCursor
parse_cursor none = none
parse_cursor (some (ms, [])) = none
parse_cursor (some (ms, c ∷ id)) = cursor_at (parse_int ms) (c ∷ id)

abbrev decoded : Option Bytes → Option ListCursor
decoded none = none
decoded (some raw) = parse_cursor (cut raw)

-- `DecodeCursor`
unfoldable pub decode_cursor : Bytes → Option ListCursor
decode_cursor [] = some first_page
decode_cursor (c ∷ s) = decoded (decode (c ∷ s))

cut-append : (a b : Bytes) → has_colon a ≡ false → cut (a ++ (b':' ∷ b)) ≡ some (a, b)
unfolding cut has_colon any
cut-append [] b h = ground arith
cut-append (c ∷ a) b h = ground (arith, cut-append a b)

parse_cursor-cut-cursor_text :
    (n : ℕ) (id : Bytes)
    → n ≤ max_int64
    → id ≢ []
    → parse_cursor (cut (cursor_text (record { updated_at = pos n; conversation_id = id })))
      ≡ some (record { updated_at = pos n; conversation_id = id })
unfolding parse_cursor cursor_text
parse_cursor-cut-cursor_text n [] h filled = absurd (filled refl)
parse_cursor-cut-cursor_text n (c ∷ id) h filled =
    rw
      (
        cut-append (format_int (pos n)) (c ∷ id) (format_int-has_colon (pos n)),
        parse_int-format_int n h,
      )
      refl

decode_cursor-filled : (s : Bytes) → s ≢ [] → decode_cursor s ≡ decoded (decode s)
unfolding decode_cursor
decode_cursor-filled [] h = absurd (h refl)
decode_cursor-filled (c ∷ s) h = refl

encode-filled : (s : Bytes) → s ≢ [] → encode s ≢ []
unfolding encode
encode-filled [] h e = h refl
encode-filled (a ∷ []) h e = ground (arith, e)
encode-filled (a ∷ b ∷ []) h e = ground (arith, e)
encode-filled (a ∷ b ∷ c ∷ rest) h e = ground (arith, e)

append-filled : (s : Bytes) (c : ℕ) (t : Bytes) → s ++ (c ∷ t) ≢ []
append-filled [] c t e = ground (arith, e)
append-filled (a ∷ s) c t e = ground (arith, e)

-- The cursor that a page ends with is read back as the place of its last row, for any conversation
-- id that is not empty and any time from 1970 on.
pub decode_cursor-encode_cursor :
    (n : ℕ) (id : Bytes)
    → n ≤ max_int64
    → id ≢ []
    → AreBytes id
    → decode_cursor (encode_cursor (record { updated_at = pos n; conversation_id = id }))
      ≡ some (record { updated_at = pos n; conversation_id = id })
decode_cursor-encode_cursor n id h filled b =
    let c : ListCursor = record { updated_at = pos n; conversation_id = id } in
    let whole : AreBytes (cursor_text c) =
      unfold cursor_text in
      All-append (λ b. b < 256) (format_int (pos n)) (b':' ∷ id) (format_int-AreBytes (pos n))
        (omega arith, b) in
    let some_text : cursor_text c ≢ [] =
      unfold cursor_text in append-filled (format_int (pos n)) b':' id in
    unfold encode_cursor in
    rw
      (
        decode_cursor-filled (encode (cursor_text c)) (encode-filled (cursor_text c) some_text),
        decode-encode (cursor_text c) whole,
      )
      (parse_cursor-cut-cursor_text n id h filled)
