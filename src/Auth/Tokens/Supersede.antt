-- ===== src/Auth/Tokens/Supersede.antt =====
-- internal/tokenstore/tokenstore.go: the keys are distinct, and a login replaces one token.
use nexo.Prelude.{
  ℕ, ◌+◌, ◌≤◌, ◌≡◌, refl, ap, true, false, ◌&&◌, Option, none, some, [], ◌∷◌, ◌++◌, arith, any, ltb,
  ◌==◌ as nat_eq, if◌then◌else◌,
}
use nexo.Prelude.Bytes.{Bytes, ◌==◌, eq_iff}
use nexo.Prelude.Int.{ℤ, pos}
use nexo.Prelude.Map.{lookup, bytes_eq}
use nexo.Errcode.{ok}
use nexo.Identity.{has_colon}
use nexo.Identity.Spelling.{parse_int-format_int, format_int-has_colon}
use nexo.Identity.Decimal.{max_int64, format_int}
use nexo.Cache
use nexo.Cache.{Cache, Entry, expiry, alive, get_entry}
use nexo.Cache.Live.{live, view, get_entry-live, view-set, view-del_if_value}
use nexo.Cache.Port.{local}
use nexo.Auth.Tokens.{tok, key, matches, set_token, check_token, delete_token}

has_colon-append : (c d : Bytes) → has_colon (c ++ (b':' ∷ d)) ≡ true
unfolding has_colon any
has_colon-append [] d = refl
has_colon-append (y ∷ c) d = ground (arith, has_colon-append c d)

colon_clash : (b c d : Bytes) → has_colon b ≡ false → ¬ (b ≡ c ++ (b':' ∷ d))
colon_clash b c d h e = ground (arith, has_colon-append c d, ap has_colon e)

-- A text is cut at its last colon in one way.
last_cut_unique :
    (a b c d : Bytes)
    → has_colon b ≡ false
    → has_colon d ≡ false
    → a ++ (b':' ∷ b) ≡ c ++ (b':' ∷ d)
    → (a ≡ c) × (b ≡ d)
unfolding has_colon any
last_cut_unique [] b [] d hb hd e = ground arith
last_cut_unique [] b (y ∷ c) d hb hd e = absurd (colon_clash b c d hb (ground arith))
last_cut_unique (x ∷ a) b [] d hb hd e = absurd (colon_clash d a b hd (ground arith))
last_cut_unique (x ∷ a) b (y ∷ c) d hb hd e = ground (arith, last_cut_unique a b c d hb hd)

pub key_injective :
    (u v : Bytes) (p q : ℕ)
    → p ≤ max_int64
    → q ≤ max_int64
    → key u (pos p) ≡ key v (pos q)
    → (u ≡ v) × (p ≡ q)
unfolding key nexo.Cache.key_prefix tok
key_injective u v p q hp hq e = ground (
  arith,
  last_cut_unique u (format_int (pos p)) v (format_int (pos q)),
  format_int-has_colon (pos p),
  format_int-has_colon (pos q),
  parse_int-format_int p hp,
  parse_int-format_int q hq,
)

-- The one statement of `key_injective` that the theorems below use.
keys_differ :
    (u v : Bytes) (p q : ℕ)
    → p ≤ max_int64
    → q ≤ max_int64
    → (key u (pos p) == key v (pos q)) ≡ (u == v && nat_eq p q)
keys_differ u v p q hp hq =
    ground (arith, eq_iff u v, eq_iff (key u (pos p)) (key v (pos q)), key_injective u v p q hp hq)

check_token-view :
    (later : ℕ) (u : Bytes) (p : ℤ) (id : Bytes) (m : Cache)
    → (check_token (local later) u p id m).0
      ≡ ok (matches id (Cache.val_of (view later m (key u p))))
unfolding check_token Cache.get
check_token-view later u p id m = ground (arith, get_entry-live later (key u p) m)

-- A login stores one token for its user and platform: until its lifetime is over exactly that token
-- passes the check there, so the one before it is refused at once, and what the check answers for
-- every other user or platform is as before.
pub check_token-set_token :
    (u v : Bytes) (p q : ℕ) (id id' : Bytes) (ttl now later : ℕ) (m : Cache)
    → p ≤ max_int64
    → q ≤ max_int64
    → 1 ≤ ttl
    → (check_token (local later) v (pos q) id' (set_token (local now) u (pos p) id (pos ttl) m).1).0
      ≡ (if u == v && nat_eq p q
          then ok (id == id' && ltb later (now + ttl))
          else (check_token (local later) v (pos q) id' m).0)
unfolding set_token live alive expiry matches
check_token-set_token u v p q id id' ttl now later m hp hq ht = ground (
  arith,
  keys_differ u v p q hp hq,
  view-set now later (key u (pos p)) (key v (pos q)) id (pos ttl) m,
  check_token-view later v (pos q) id' m,
  check_token-view later v (pos q) id' (Cache.set now (key u (pos p)) id (pos ttl) m),
)

-- What a holder of `id'` still sees of an entry that a logout with `id` looked at.
after_logout :
    (now later : ℕ) (id id' : Bytes) (o : Option Entry)
    → now ≤ later
    → matches id' (
        Cache.val_of (elim (live now o) [
          | none ↦ none
          | some e ↦ if e.val == id then none else live later (some e)
        ]))
      ≡ (if id == id' then false else matches id' (Cache.val_of (live later o)))
unfolding live alive matches
after_logout now later id id' none h = ground arith
after_logout now later id id' (some e) h =
    ground (arith, eq_iff e.val id, eq_iff e.val id', eq_iff id id')

-- A logout that names a token revokes that token of its user and platform and nothing else: a token
-- that a newer login stored there stays, as do the tokens of every other user and platform.
pub check_token-delete_token :
    (u v : Bytes) (p q : ℕ) (id id' : Bytes) (now later : ℕ) (m : Cache)
    → p ≤ max_int64
    → q ≤ max_int64
    → now ≤ later
    → (check_token (local later) v (pos q) id' (delete_token (local now) u (pos p) id m).1).0 ≡ (
        if u == v && nat_eq p q && id == id'
        then ok false
        else (check_token (local later) v (pos q) id' m).0)
unfolding delete_token view
check_token-delete_token u v p q id id' now later m hp hq h = ground (
  arith,
  keys_differ u v p q hp hq,
  eq_iff (key u (pos p)) (key v (pos q)),
  after_logout now later id id' (lookup (key u (pos p)) m) h,
  view-del_if_value now later (key u (pos p)) id (key v (pos q)) m h,
  check_token-view later v (pos q) id' m,
  check_token-view later v (pos q) id' (Cache.del_if_value now (key u (pos p)) id m),
)
