-- ===== src/Store/Action/Rules.antt =====
-- Rules for what actions keep and reach, one for each way to build an action.
use nexo.Prelude.{◌≡◌, ◌≢◌, Bool, true, false, List, [], ◌∷◌, refl, ◌∙◌, if◌then◌else◌}
use nexo.Errcode.{GoError, Result, ok, err}
use nexo.Store.Db.{Db, Op}
use nexo.Store.Action.{
  World, Action, pure, raise, lift, call, attempt, map_error, map_error_of, with_service, emit,
  ◌>>=◌, with_tx, settle, settle_commit, in_tx, fault_or, continue, idle,
}

module _ {E S : Type 0} where
  -- Nothing that a client can see has changed.
  pub record Same (v w : World E S) : Type 0 where
    pub db : v.db ≡ w.db
    pub events : v.events ≡ w.events

  pub Same-trans : {u v w : World E S} → Same u v → Same v w → Same u w
  Same-trans p q = record { db = p.db ∙ q.db; events = p.events ∙ q.events }

module _ {E S A : Type 0} where
  -- Reads only, and sends nothing.
  pub record ReadOnly (m : Action E S A) : Type 0 where
    pub at : (w : World E S) → Same (m w).1 w

  -- Writes nothing; may send.
  pub record DbKept (m : Action E S A) : Type 0 where
    pub at : (w : World E S) → (m w).1.db ≡ w.db

  -- Sends nothing; may write.
  pub record Silent (m : Action E S A) : Type 0 where
    pub at : (w : World E S) → (m w).1.events ≡ w.events

  -- Returns an error only where it has written and sent nothing.
  pub record Atomic (m : Action E S A) : Type 0 where
    pub at : (w : World E S) (e : GoError) → (m w).0 ≡ err e → Same (m w).1 w

  -- Returns no error, whatever the store does.
  pub record Succeeds (m : Action E S A) : Type 0 where
    pub at : (w : World E S) (e : GoError) → (m w).0 ≢ err e

  -- From tables with `P` a result comes with tables and value in `Q`.
  pub record Ensures (P : Db → Type 0) (m : Action E S A) (Q : A → Db → Type 0) : Type 0 where
    pub at : (w : World E S) (a : A) → P w.db → (m w).0 ≡ ok a → Q a (m w).1.db

module _ {E S A : Type 0} where
  pub ReadOnly-pure : (a : A) → ReadOnly {E = E} {S = S} (pure a)
  unfolding pure
  ReadOnly-pure a = record { at = λ w. record { db = refl; events = refl } }

  pub ReadOnly-raise : (e : GoError) → ReadOnly {E = E} {S = S} {A = A} (raise e)
  unfolding raise
  ReadOnly-raise e = record { at = λ w. record { db = refl; events = refl } }

  pub ReadOnly-lift : (r : Result A) → ReadOnly {E = E} {S = S} (lift r)
  unfolding lift
  ReadOnly-lift r = record { at = λ w. record { db = refl; events = refl } }

  fault_or-ReadOnly :
      (op : Op A)
      → ((db : Db) → (op db).1 ≡ db)
      → (fs : List Bool) (w : World E S) → Same (fault_or fs op w).1 w
  unfolding fault_or
  fault_or-ReadOnly op h [] w = record { db = h w.db; events = refl }
  fault_or-ReadOnly op h (true ∷ fs) w = record { db = refl; events = refl }
  fault_or-ReadOnly op h (false ∷ fs) w = record { db = h w.db; events = refl }

  pub ReadOnly-call :
      (op : Op A) → ((db : Db) → (op db).1 ≡ db) → ReadOnly {E = E} {S = S} (call op)
  unfolding call
  ReadOnly-call op h = record { at = λ w. fault_or-ReadOnly op h w.faults w }

  fault_or-Silent :
      (op : Op A) (fs : List Bool) (w : World E S) → (fault_or fs op w).1.events ≡ w.events
  unfolding fault_or
  fault_or-Silent op [] w = refl
  fault_or-Silent op (true ∷ fs) w = refl
  fault_or-Silent op (false ∷ fs) w = refl

  pub Silent-call : (op : Op A) → Silent {E = E} {S = S} (call op)
  unfolding call
  Silent-call op = record { at = λ w. fault_or-Silent op w.faults w }

  pub Silent-ReadOnly : {m : Action E S A} → ReadOnly m → Silent m
  Silent-ReadOnly h = record { at = λ w. (h.at w).events }

  pub Atomic-ReadOnly : {m : Action E S A} → ReadOnly m → Atomic m
  Atomic-ReadOnly h = record { at = λ w e x. h.at w }

  pub Atomic-raise : (e : GoError) → Atomic {E = E} {S = S} {A = A} (raise e)
  Atomic-raise e = Atomic-ReadOnly (ReadOnly-raise e)

  pub Succeeds-pure : (a : A) → Succeeds {E = E} {S = S} (pure a)
  unfolding pure
  Succeeds-pure a = record { at = λ w e x. cc }

  pub Succeeds-attempt : (m : Action E S A) → Succeeds (attempt m)
  unfolding attempt
  Succeeds-attempt m = record { at = λ w e x. cc }

  pub Atomic-Succeeds : {m : Action E S A} → Succeeds m → Atomic m
  Atomic-Succeeds h = record { at = λ w e x. absurd (h.at w e x) }

  map_error_of-Same :
      (f : GoError → GoError) (r : Result A) (w v : World E S) (e : GoError)
      → ((x : GoError) → r ≡ err x → Same w v)
      → map_error_of f r ≡ err e
      → Same w v
  map_error_of-Same f (ok a) w v e h x = cc
  map_error_of-Same f (err y) w v e h x = h y refl

  pub Atomic-map_error :
      (f : GoError → GoError) (m : Action E S A) → Atomic m → Atomic (map_error f m)
  unfolding map_error
  Atomic-map_error f m h = record {
    at = λ w e x. map_error_of-Same f (m w).0 (m w).1 w e (h.at w) x;
  }

  pub ReadOnly-map_error :
      (f : GoError → GoError) (m : Action E S A) → ReadOnly m → ReadOnly (map_error f m)
  unfolding map_error
  ReadOnly-map_error f m h = record { at = λ w. h.at w }

  pub Silent-map_error :
      (f : GoError → GoError) (m : Action E S A) → Silent m → Silent (map_error f m)
  unfolding map_error
  Silent-map_error f m h = record { at = λ w. h.at w }

  pub ReadOnly-with_service : (f : S → A × S) → ReadOnly {E = E} (with_service f)
  unfolding with_service
  ReadOnly-with_service f = record { at = λ w. record { db = refl; events = refl } }

  pub Succeeds-with_service : (f : S → A × S) → Succeeds {E = E} (with_service f)
  unfolding with_service
  Succeeds-with_service f = record { at = λ w e x. cc }

  pub Silent-pure : (a : A) → Silent {E = E} {S = S} (pure a)
  Silent-pure a = Silent-ReadOnly (ReadOnly-pure a)

  pub Silent-raise : (e : GoError) → Silent {E = E} {S = S} {A = A} (raise e)
  Silent-raise e = Silent-ReadOnly (ReadOnly-raise e)

  pub Silent-attempt : (m : Action E S A) → Silent m → Silent (attempt m)
  unfolding attempt
  Silent-attempt m h = record { at = λ w. h.at w }

  pub ReadOnly-attempt : {m : Action E S A} → ReadOnly m → ReadOnly (attempt m)
  unfolding attempt
  ReadOnly-attempt h = record { at = λ w. h.at w }

module _ {E S : Type 0} where
  pub Succeeds-emit : (e : E) → Succeeds {S = S} (emit e)
  unfolding emit
  Succeeds-emit e = record { at = λ w x p. cc }

module _ {E S A B : Type 0} where
  continue-ReadOnly :
      (r : Result A) (f : A → Action E S B) (w : World E S)
      → ((a : A) → ReadOnly (f a))
      → Same (continue r f w).1 w
  continue-ReadOnly (ok a) f w h = (h a).at w
  continue-ReadOnly (err e) f w h = record { db = refl; events = refl }

  pub ReadOnly-bind :
      (m : Action E S A) (f : A → Action E S B)
      → ReadOnly m
      → ((a : A) → ReadOnly (f a))
      → ReadOnly (m >>= f)
  unfolding ◌>>=◌
  ReadOnly-bind m f hm hf = record {
    at = λ w. Same-trans (continue-ReadOnly (m w).0 f (m w).1 hf) (hm.at w);
  }

  continue-Silent :
      (r : Result A) (f : A → Action E S B) (w : World E S)
      → ((a : A) → Silent (f a))
      → (continue r f w).1.events ≡ w.events
  continue-Silent (ok a) f w h = (h a).at w
  continue-Silent (err e) f w h = refl

  pub Silent-bind :
      (m : Action E S A) (f : A → Action E S B)
      → Silent m
      → ((a : A) → Silent (f a))
      → Silent (m >>= f)
  unfolding ◌>>=◌
  Silent-bind m f hm hf = record { at = λ w. continue-Silent (m w).0 f (m w).1 hf ∙ hm.at w }

  continue-Atomic :
      (r : Result A) (f : A → Action E S B) (w : World E S)
      → ((a : A) → Atomic (f a))
      → (e : GoError) → (continue r f w).0 ≡ err e
      → Same (continue r f w).1 w
  continue-Atomic (ok a) f w h e x = (h a).at w e x
  continue-Atomic (err e') f w h e x = record { db = refl; events = refl }

  -- What reads first and is atomic after is atomic.
  pub Atomic-bind :
      (m : Action E S A) (f : A → Action E S B)
      → ReadOnly m
      → ((a : A) → Atomic (f a))
      → Atomic (m >>= f)
  unfolding ◌>>=◌
  Atomic-bind m f hm hf = record {
    at = λ w e x. Same-trans (continue-Atomic (m w).0 f (m w).1 hf e x) (hm.at w);
  }

  continue-Atomic_then :
      (v : World E S) (r : Result A) (f : A → Action E S B) (w : World E S)
      → ((e : GoError) → r ≡ err e → Same w v)
      → ((a : A) → Succeeds (f a))
      → (e : GoError) → (continue r f w).0 ≡ err e
      → Same (continue r f w).1 v
  continue-Atomic_then v (ok a) f w s h e x = absurd ((h a).at w e x)
  continue-Atomic_then v (err e') f w s h e x = s e' refl

  -- What is atomic first and cannot fail after is atomic.
  pub Atomic-then :
      (m : Action E S A) (f : A → Action E S B)
      → Atomic m
      → ((a : A) → Succeeds (f a))
      → Atomic (m >>= f)
  unfolding ◌>>=◌
  Atomic-then m f hm hf = record {
    at = λ w e x. continue-Atomic_then w (m w).0 f (m w).1 (hm.at w) hf e x;
  }

  continue-Succeeds :
      (r : Result A) (f : A → Action E S B) (w : World E S)
      → ((e : GoError) → r ≢ err e)
      → ((a : A) → Succeeds (f a))
      → (e : GoError) → (continue r f w).0 ≢ err e
  continue-Succeeds (ok a) f w h k e x = (k a).at w e x
  continue-Succeeds (err e') f w h k e x = h e' refl

  pub Succeeds-bind :
      (m : Action E S A) (f : A → Action E S B)
      → Succeeds m
      → ((a : A) → Succeeds (f a))
      → Succeeds (m >>= f)
  unfolding ◌>>=◌
  Succeeds-bind m f hm hf = record {
    at = λ w e x. continue-Succeeds (m w).0 f (m w).1 (hm.at w) hf e x;
  }

  attempt_cases :
      (v : World E S) (r : Result A) (f : Result A → Action E S B) (w : World E S)
      → ((e : GoError) → r ≡ err e → Same w v)
      → ((e : GoError) → Atomic (f (err e)))
      → ((a : A) → Succeeds (f (ok a)))
      → (e : GoError) → (f r w).0 ≡ err e
      → Same (f r w).1 v
  attempt_cases v (ok a) f w s he ha e x = absurd ((ha a).at w e x)
  attempt_cases v (err e') f w s he ha e x = Same-trans ((he e').at w e x) (s e' refl)

  -- A handler of the error of an atomic action starts from where the action started.
  pub Atomic-attempt :
      (m : Action E S A) (f : Result A → Action E S B)
      → Atomic m
      → ((e : GoError) → Atomic (f (err e)))
      → ((a : A) → Succeeds (f (ok a)))
      → Atomic (attempt m >>= f)
  unfolding ◌>>=◌
  Atomic-attempt m f hm he ha = record {
    at = λ w e x. attempt_cases w (m w).0 f (m w).1 (hm.at w) he ha e x;
  }

module _ {E S A : Type 0} where
  settle_commit-Atomic :
      (v : World E S) (before : Db) (a : A) (r : Result (Unit {0})) (w : World E S)
      → before ≡ v.db
      → w.events ≡ v.events
      → (e : GoError) → (settle_commit before a r w).0 ≡ err e
      → Same (settle_commit before a r w).1 v
  unfolding settle_commit
  settle_commit-Atomic v before a (ok _) w p q e x = cc
  settle_commit-Atomic v before a (err e') w p q e x = record { db = p; events = q }

  settle-Atomic :
      (v : World E S) (before : Db) (r : Result A) (w : World E S)
      → before ≡ v.db
      → w.events ≡ v.events
      → (e : GoError) → (settle before r w).0 ≡ err e
      → Same (settle before r w).1 v
  unfolding settle
  settle-Atomic v before (err e') w p q e x = record { db = p; events = q }
  settle-Atomic v before (ok a) w p q e x =
      settle_commit-Atomic v before a (call idle w).0 (call idle w).1 p
        ((Silent-call idle).at w ∙ q) e x

  in_tx-Atomic :
      (v : World E S) (body : Action E S A) (r : Result (Unit {0})) (w : World E S)
      → Same w v
      → Silent body
      → (e : GoError) → (in_tx body r w).0 ≡ err e
      → Same (in_tx body r w).1 v
  unfolding in_tx
  in_tx-Atomic v body (err e') w s h e x = s
  in_tx-Atomic v body (ok _) w s h e x =
      settle-Atomic v w.db (body w).0 (body w).1 s.db (h.at w ∙ s.events) e x

  -- A transaction that returns an error has written nothing, whatever its callback wrote.
  pub Atomic-with_tx : (body : Action E S A) → Silent body → Atomic (with_tx body)
  unfolding with_tx
  Atomic-with_tx body h = record {
    at = λ w e x.
        in_tx-Atomic w body (call idle w).0 (call idle w).1 ((ReadOnly-call idle (λ db. refl)).at w)
          h e x;
  }

module _ {E S A : Type 0} where
  pub DbKept-ReadOnly : {m : Action E S A} → ReadOnly m → DbKept m
  DbKept-ReadOnly h = record { at = λ w. (h.at w).db }

  pub DbKept-attempt : (m : Action E S A) → DbKept m → DbKept (attempt m)
  unfolding attempt
  DbKept-attempt m h = record { at = λ w. h.at w }

  pub DbKept-if :
      (b : Bool) {m n : Action E S A} → DbKept m → DbKept n → DbKept (if b then m else n)
  DbKept-if true hm hn = hm
  DbKept-if false hm hn = hn

module _ {E S : Type 0} where
  pub DbKept-emit : (e : E) → DbKept {S = S} (emit e)
  unfolding emit
  DbKept-emit e = record { at = λ w. refl }

module _ {E S A B : Type 0} where
  continue-DbKept :
      (r : Result A) (f : A → Action E S B) (w : World E S)
      → ((a : A) → DbKept (f a))
      → (continue r f w).1.db ≡ w.db
  continue-DbKept (ok a) f w h = (h a).at w
  continue-DbKept (err e) f w h = refl

  pub DbKept-bind :
      (m : Action E S A) (f : A → Action E S B)
      → DbKept m
      → ((a : A) → DbKept (f a))
      → DbKept (m >>= f)
  unfolding ◌>>=◌
  DbKept-bind m f hm hf = record { at = λ w. continue-DbKept (m w).0 f (m w).1 hf ∙ hm.at w }

-- By the shape of the action.
module _ {E S A : Type 0} where
  pub ReadOnly-if :
      (b : Bool) {m n : Action E S A} → ReadOnly m → ReadOnly n → ReadOnly (if b then m else n)
  ReadOnly-if true hm hn = hm
  ReadOnly-if false hm hn = hn

  pub Silent-if :
      (b : Bool) {m n : Action E S A} → Silent m → Silent n → Silent (if b then m else n)
  Silent-if true hm hn = hm
  Silent-if false hm hn = hn

  pub Atomic-if :
      (b : Bool) {m n : Action E S A} → Atomic m → Atomic n → Atomic (if b then m else n)
  Atomic-if true hm hn = hm
  Atomic-if false hm hn = hn

  pub Succeeds-if :
      (b : Bool) {m n : Action E S A} → Succeeds m → Succeeds n → Succeeds (if b then m else n)
  Succeeds-if true hm hn = hm
  Succeeds-if false hm hn = hn

pub ruleset read_only_rules = (
  ReadOnly-pure, ReadOnly-raise, ReadOnly-lift, ReadOnly-map_error, ReadOnly-with_service,
  ReadOnly-attempt, ReadOnly-bind, ReadOnly-if,
)

pub ruleset db_kept_rules =
    (read_only_rules, DbKept-ReadOnly, DbKept-attempt, DbKept-emit, DbKept-bind, DbKept-if)

pub ruleset silent_rules = (
  Silent-pure, Silent-raise, Silent-call, Silent-map_error, Silent-attempt, Silent-bind, Silent-if,
)

pub ruleset succeeds_rules = (
  Succeeds-pure, Succeeds-attempt, Succeeds-with_service, Succeeds-emit, Succeeds-bind, Succeeds-if,
)
