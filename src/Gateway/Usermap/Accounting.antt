-- ===== src/Gateway/Usermap/Accounting.antt =====
-- The counters against the slots that are held: those of a handshake in progress, and those of the
-- adopted clients.
use nexo.Prelude.{
  ℕ, suc, ◌+◌, ◌≡◌, ◌≢◌, refl, ap, ◌∙◌, Bool, true, false, none, some, List, [], ◌∷◌, ◌++◌, keep,
  length, All, arith, if◌then◌else◌, length-append, ◌==◌ as nat_eq,
}
use nexo.Prelude.Bytes.{Bytes, ◌==◌, eq_iff}
use nexo.Prelude.Int.{pos}
use nexo.Prelude.Map.{Map, lookup, insert, bytes_eq, lookup-insert, lookup-delete}
use nexo.Gateway.Usermap.{
  Limits, Slot, Client, slot_of, UserMap, new_user_map, count, up, down, charge, release, get,
  without, put_conns, or_empty,
}
use nexo.Gateway.Usermap.Counts.{count-bump, count-incr, count-decr}

-- How many of the held slots pass a test.
unfoldable pub tally : (Slot → Bool) → List Slot → List Client → ℕ
tally p pending clients = length (keep p pending) + length (keep (λ c. p (slot_of c)) clients)

unfoldable pub owned_by : Bytes → Client → Bool
owned_by u c = c.user_id == u

-- Every counter shows how many slots are held for its key, and routing finds a user's clients in
-- the order of their adoption.
pub record IsCounted (pending : List Slot) (clients : List Client) (m : UserMap) : Type 0 where
  pub total : m.total ≡ pos (length pending + length clients)
  pub users :
      (u : Bytes) → u ≢ [] → count u m.by_user_n ≡ tally (λ s. s.user_id == u) pending clients
  pub tokens :
      (t : Bytes) → t ≢ [] → count t m.by_token ≡ tally (λ s. s.token_id == t) pending clients
  pub ips : (i : Bytes) → i ≢ [] → count i m.by_ip ≡ tally (λ s. s.ip == i) pending clients
  pub routing : (u : Bytes) → get u m ≡ keep (owned_by u) clients

module _ {A : Type 0} (p : A → Bool) where
  length-keep-append :
      (xs ys : List A) → length (keep p (xs ++ ys)) ≡ length (keep p xs) + length (keep p ys)
  unfolding keep
  length-keep-append [] ys = omega arith
  length-keep-append (x ∷ xs) ys = ground (arith, length-keep-append xs ys)

  keep-snoc :
      (xs : List A) (x : A)
      → keep p (xs ++ x ∷ []) ≡ (if p x then keep p xs ++ x ∷ [] else keep p xs)
  unfolding keep
  keep-snoc [] x = ground arith
  keep-snoc (y ∷ xs) x = ground (arith, keep-snoc xs x)

  length-keep-middle :
      (xs ys : List A) (x : A)
      → length (keep p (xs ++ x ∷ ys)) ≡ (if p x then 1 else 0) + length (keep p (xs ++ ys))
  unfolding keep
  length-keep-middle [] ys x = ground arith
  length-keep-middle (y ∷ xs) ys x = ground (arith, length-keep-middle xs ys x)

module _ {A : Type 0} where
  length-middle : (xs ys : List A) (x : A) → length (xs ++ x ∷ ys) ≡ suc (length (xs ++ ys))
  length-middle xs ys x = omega (arith, length-append xs (x ∷ ys), length-append xs ys)

tally-cons :
    (p : Slot → Bool) (s : Slot) (pending : List Slot) (clients : List Client)
    → tally p (s ∷ pending) clients
      ≡ (if p s then suc (tally p pending clients) else tally p pending clients)
unfolding tally keep
tally-cons p s pending clients = ground arith

tally-middle :
    (p : Slot → Bool) (s : Slot) (xs ys : List Slot) (clients : List Client)
    → tally p (xs ++ s ∷ ys) clients
      ≡ (if p s then suc (tally p (xs ++ ys) clients) else tally p (xs ++ ys) clients)
unfolding tally
tally-middle p s xs ys clients = ground (arith, length-keep-middle p xs ys s)

tally-client :
    (p : Slot → Bool) (pending : List Slot) (c : Client) (xs ys : List Client)
    → tally p pending (xs ++ c ∷ ys)
      ≡ (if p (slot_of c) then suc (tally p pending (xs ++ ys)) else tally p pending (xs ++ ys))
unfolding tally
tally-client p pending c xs ys = ground (arith, length-keep-middle (λ d. p (slot_of d)) xs ys c)

pub new-IsCounted : (limits : Limits) → IsCounted [] [] (new_user_map limits)
unfolding new_user_map count lookup tally keep get
new-IsCounted limits = record {
  total = refl;
  users = λ u h. refl;
  tokens = λ t h. refl;
  ips = λ i h. refl;
  routing = λ u. refl;
}

-- A charge holds one slot more.
pub charge-IsCounted :
    (s : Slot) (pending : List Slot) (clients : List Client) (m : UserMap)
    → IsCounted pending clients m
    → IsCounted (s ∷ pending) clients (charge s m)
unfolding charge get
charge-IsCounted s pending clients m h = record {
  total = ap up h.total ∙ ap pos (omega arith);
  users = λ u x. ground (
    arith,
    count-bump s.user_id u m.by_user_n,
    h.users u x,
    tally-cons (λ r. r.user_id == u) s pending clients,
  );
  tokens = λ t x. ground (
    arith,
    count-incr s.token_id t m.by_token x,
    h.tokens t x,
    tally-cons (λ r. r.token_id == t) s pending clients,
  );
  ips = λ i x. ground (
    arith,
    count-incr s.ip i m.by_ip x,
    h.ips i x,
    tally-cons (λ r. r.ip == i) s pending clients,
  );
  routing = h.routing;
}

-- A release gives back one slot of those that handshakes hold.
pub release-IsCounted :
    (s : Slot) (xs ys : List Slot) (clients : List Client) (m : UserMap)
    → IsCounted (xs ++ s ∷ ys) clients m
    → IsCounted (xs ++ ys) clients (release s m)
unfolding release get
release-IsCounted s xs ys clients m h = record {
  total = ap down (
      h.total
      ∙ ap pos (
          let e : length (xs ++ s ∷ ys) + length clients
              ≡ suc (length (xs ++ ys) + length clients) =
            omega (arith, length-middle xs ys s) in
          e));
  users = λ u x. ground (
    arith,
    count-decr s.user_id u m.by_user_n x,
    h.users u x,
    tally-middle (λ r. r.user_id == u) s xs ys clients,
  );
  tokens = λ t x. ground (
    arith,
    count-decr s.token_id t m.by_token x,
    h.tokens t x,
    tally-middle (λ r. r.token_id == t) s xs ys clients,
  );
  ips = λ i x. ground (
    arith,
    count-decr s.ip i m.by_ip x,
    h.ips i x,
    tally-middle (λ r. r.ip == i) s xs ys clients,
  );
  routing = h.routing;
}

get-insert :
    (u v : Bytes) (cs : List Client) (m : Map Bytes (List Client))
    → or_empty (lookup v (insert u cs m)) ≡ (if u == v then cs else or_empty (lookup v m))
get-insert u v cs m = ground (arith, lookup-insert u v cs m)

tally-bind :
    (c : Client) (xs ys : List Slot) (clients : List Client) (p : Slot → Bool)
    → tally p (xs ++ slot_of c ∷ ys) clients ≡ tally p (xs ++ ys) (clients ++ c ∷ [])
unfolding tally keep
tally-bind c xs ys clients p = ground (
  arith,
  length-keep-middle p xs ys (slot_of c),
  length-keep-append (λ d. p (slot_of d)) clients (c ∷ []),
)

-- An adoption turns a slot of a handshake into a client.
pub bind-IsCounted :
    (c : Client) (xs ys : List Slot) (clients : List Client) (m : UserMap)
    → IsCounted (xs ++ slot_of c ∷ ys) clients m
    → IsCounted
        (xs ++ ys)
        (clients ++ c ∷ [])
        (record m { by_user = insert c.user_id (get c.user_id m ++ c ∷ []) m.by_user })
unfolding get owned_by
bind-IsCounted c xs ys clients m h = record {
  total =
      h.total
      ∙ ap pos (omega (arith, length-middle xs ys (slot_of c), length-append clients (c ∷ [])));
  users = λ u x. h.users u x ∙ tally-bind c xs ys clients (λ r. r.user_id == u);
  tokens = λ t x. h.tokens t x ∙ tally-bind c xs ys clients (λ r. r.token_id == t);
  ips = λ i x. h.ips i x ∙ tally-bind c xs ys clients (λ r. r.ip == i);
  routing = λ u. ground (
    arith,
    get-insert c.user_id u (get c.user_id m ++ c ∷ []) m.by_user,
    h.routing u,
    h.routing c.user_id,
    keep-snoc (owned_by u) clients c,
    eq_iff c.user_id u,
  );
}

keep-skip :
    (q : Client → Bool) (c : Client) (xs ys : List Client)
    → q c ≡ false
    → keep q (xs ++ c ∷ ys) ≡ keep q (xs ++ ys)
unfolding keep
keep-skip q c [] ys h = ground arith
keep-skip q c (x ∷ xs) ys h = ground (arith, keep-skip q c xs ys h)

-- No client of a list is the given one.
abbrev pub Absent : Client → List Client → Type 0
Absent c = All (λ d. nat_eq d.ref c.ref ≡ false)

pub without-keep :
    (q : Client → Bool) (c : Client) (xs ys : List Client)
    → q c ≡ true
    → Absent c xs
    → without c (keep q (xs ++ c ∷ ys)) ≡ some (keep q (xs ++ ys))
unfolding keep without
without-keep q c [] ys h a = ground arith
without-keep q c (x ∷ xs) ys h a = ground (arith, without-keep q c xs ys h a.1)

pub without-Absent :
    (q : Client → Bool) (c : Client) (xs : List Client) → Absent c xs → without c (keep q xs) ≡ none
unfolding keep without
without-Absent q c [] a = refl
without-Absent q c (x ∷ xs) a = ground (arith, without-Absent q c xs a.1)

get-put_conns :
    (u v : Bytes) (cs : List Client) (m : Map Bytes (List Client))
    → or_empty (lookup v (put_conns u cs m)) ≡ (if u == v then cs else or_empty (lookup v m))
unfolding put_conns
get-put_conns u v [] m = ground (arith, lookup-delete u v m)
get-put_conns u v (c ∷ cs) m = ground (arith, lookup-insert u v (c ∷ cs) m)

-- A client that left routing still holds its slot.
pub unbind-IsCounted :
    (c : Client) (pending : List Slot) (xs ys : List Client) (m : UserMap)
    → IsCounted pending (xs ++ c ∷ ys) m
    → IsCounted (slot_of c ∷ pending) (xs ++ ys) (record m {
      by_user = put_conns c.user_id (keep (owned_by c.user_id) (xs ++ ys)) m.by_user;
    })
unfolding get owned_by
unbind-IsCounted c pending xs ys m h = record {
  total = h.total ∙ ap pos (omega (arith, length-middle xs ys c));
  users = λ u x. h.users u x ∙ tally-unbind (λ r. r.user_id == u);
  tokens = λ t x. h.tokens t x ∙ tally-unbind (λ r. r.token_id == t);
  ips = λ i x. h.ips i x ∙ tally-unbind (λ r. r.ip == i);
  routing = λ u. ground (
    arith,
    get-put_conns c.user_id u (keep (owned_by c.user_id) (xs ++ ys)) m.by_user,
    h.routing u,
    keep-skip (owned_by u) c xs ys,
    eq_iff c.user_id u,
  );
}
  where
    tally-unbind :
        (p : Slot → Bool)
        → tally p pending (xs ++ c ∷ ys) ≡ tally p (slot_of c ∷ pending) (xs ++ ys)
    tally-unbind p =
        ground (arith, tally-client p pending c xs ys, tally-cons p (slot_of c) pending (xs ++ ys))
