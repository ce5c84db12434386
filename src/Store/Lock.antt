-- ===== src/Store/Lock.antt =====
-- What the lock of a conversation row returns and what it leaves alone.
use nexo.Prelude.{◌≡◌, refl, ap, Option, none, some, ℕ, arith}
use mathlib.Core.Path.{subst}
use nexo.Store.Action.{call}
use nexo.Store.Action.Rules.{Ensures}
use nexo.Store.Action.Hoare.{Ensures-call}
use nexo.Prelude.Bytes.{Bytes, eq_iff}
use nexo.Prelude.Map.{Map, lookup, lookup-insert, bytes_eq}
use nexo.Errcode.{ok}
use nexo.Store.{SessionType, Conversation}
use nexo.Store.Db.{Db}
use nexo.Store.Conversations.{lock_conversation, new_conversation}
use nexo.Store.Messages.{max_seq_of, or_zero}

pub max_seq_of-convs :
    (x : Bytes) (db db' : Db) → db'.convs ≡ db.convs → max_seq_of x db' ≡ max_seq_of x db
unfolding max_seq_of
max_seq_of-convs x db db' q = ap (λ (c : Map Bytes Conversation). (or_zero (lookup x c)).max_seq) q

-- The tables differ in neither messages nor seqs.
pub record SameSeqs (before db : Db) : Type 0 where
  pub messages : db.messages ≡ before.messages
  pub max_seq : (x : Bytes) → max_seq_of x db ≡ max_seq_of x before

pub lock_cases :
    (id : Bytes) (t : SessionType) (g : Bytes) (now : ℕ) (o : Option Conversation) (db : Db)
    (c : Conversation)
    → lookup id db.convs ≡ o
    → (lock_conversation id t g now db).0 ≡ ok c
    → SameSeqs db (lock_conversation id t g now db).1 × (c.max_seq ≡ max_seq_of id db)
unfolding lock_conversation max_seq_of
lock_cases id t g now none db c e h =
    rw (e, lock_conversation)
      (
        record {
          messages = refl;
          max_seq = λ x.
              ground
                (arith, lookup-insert id x (new_conversation id t g now) db.convs, eq_iff id x, e);
        },
        ground (arith, e),
      )
lock_cases id t g now (some c') db c e h =
    rw (e, lock_conversation) (record { messages = refl; max_seq = λ x. refl }, ground (arith, e))

-- The lock writes no table but that of the conversations.
pub record SameRows (before db : Db) : Type 0 where
  pub users : db.users ≡ before.users
  pub groups : db.groups ≡ before.groups
  pub members : db.members ≡ before.members
  pub user_convs : db.user_convs ≡ before.user_convs
  pub messages : db.messages ≡ before.messages

rows_cases :
    (id : Bytes) (t : SessionType) (g : Bytes) (now : ℕ) (o : Option Conversation) (db : Db)
    → lookup id db.convs ≡ o
    → SameRows db (lock_conversation id t g now db).1
unfolding lock_conversation
rows_cases id t g now none db e =
    rw (e, lock_conversation)
      (record { users = refl; groups = refl; members = refl; user_convs = refl; messages = refl })
rows_cases id t g now (some c) db e =
    rw (e, lock_conversation)
      (record { users = refl; groups = refl; members = refl; user_convs = refl; messages = refl })

pub lock-SameRows :
    (id : Bytes) (t : SessionType) (g : Bytes) (now : ℕ) (db : Db)
    → SameRows db (lock_conversation id t g now db).1
lock-SameRows id t g now db = rows_cases id t g now (lookup id db.convs) db refl

-- A statement that locks a conversation, from the tables `before`.
module _ {E S : Type 0} (before : Db) where
  pub Ensures-lock :
      (id : Bytes) (t : SessionType) (g : Bytes) (now : ℕ)
      → Ensures {E = E} {S = S}
          (λ d. d ≡ before)
          (call (lock_conversation id t g now))
          (λ c d. (SameSeqs before d × SameRows before d) × (c.max_seq ≡ max_seq_of id before))
  Ensures-lock id t g now = Ensures-call _ _ _ (λ db c h x.
      let (p, q) = lock_cases id t g now (lookup id db.convs) db c refl x in
      subst
        (λ b.
          (SameSeqs b (lock_conversation id t g now db).1
            × SameRows b (lock_conversation id t g now db).1)
          × (c.max_seq ≡ max_seq_of id b))
        h ((p, lock-SameRows id t g now db), q))
