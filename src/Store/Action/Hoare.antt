-- ===== src/Store/Action/Hoare.antt =====
-- What a result says of the tables: rules for `Ensures`, one for each way to build an action.
use nexo.Prelude.{◌≡◌, Bool, true, false, List, [], ◌∷◌, refl, arith, sym, if◌then◌else◌}
use mathlib.Core.Path.{subst}
use nexo.Errcode.{GoError, Result, ok, err}
use nexo.Store.Db.{Db, Op}
use nexo.Store.Action.{
  World, Action, pure, raise, lift, call, attempt, map_error, map_error_of, ◌>>=◌, with_tx, settle,
  settle_commit, in_tx, fault_or, continue, idle,
}
use nexo.Store.Action.Rules.{DbKept, Atomic, Ensures, ReadOnly-call}

module _ {E S A : Type 0} where
  pub Ensures-raise :
      (P : Db → Type 0) (Q : A → Db → Type 0) (e : GoError) → Ensures {E = E} {S = S} P (raise e) Q
  unfolding raise
  Ensures-raise P Q e = record { at = λ w a p x. cc }

  pub Ensures-pure :
      (P : Db → Type 0) (Q : A → Db → Type 0) (a : A)
      → ((db : Db) → P db → Q a db)
      → Ensures {E = E} {S = S} P (pure a) Q
  unfolding pure
  Ensures-pure P Q a h = record { at = λ w b p x. subst (λ c. Q c w.db) (ground arith) (h w.db p) }

  pub Ensures-lift :
      (P : Db → Type 0) (Q : A → Db → Type 0) (r : Result A)
      → ((db : Db) (a : A) → r ≡ ok a → P db → Q a db)
      → Ensures {E = E} {S = S} P (lift r) Q
  unfolding lift
  Ensures-lift P Q r h = record { at = λ w b p x. h w.db b x p }

  fault_or-Ensures :
      (P : Db → Type 0) (Q : A → Db → Type 0) (op : Op A)
      → ((db : Db) (a : A) → P db → (op db).0 ≡ ok a → Q a (op db).1)
      → (fs : List Bool) (w : World E S) (a : A) → P w.db
      → (fault_or fs op w).0 ≡ ok a
      → Q a (fault_or fs op w).1.db
  unfolding fault_or
  fault_or-Ensures P Q op h [] w a p x = h w.db a p x
  fault_or-Ensures P Q op h (true ∷ fs) w a p x = cc
  fault_or-Ensures P Q op h (false ∷ fs) w a p x = h w.db a p x

  pub Ensures-call :
      (P : Db → Type 0) (Q : A → Db → Type 0) (op : Op A)
      → ((db : Db) (a : A) → P db → (op db).0 ≡ ok a → Q a (op db).1)
      → Ensures {E = E} {S = S} P (call op) Q
  unfolding call
  Ensures-call P Q op h = record { at = λ w a p x. fault_or-Ensures P Q op h w.faults w a p x }

  map_error_of-Ensures :
      (Q : A → Db → Type 0) (f : GoError → GoError) (r : Result A) (w : World E S)
      → ((a : A) → r ≡ ok a → Q a w.db)
      → (b : A) → map_error_of f r ≡ ok b
      → Q b w.db
  map_error_of-Ensures Q f (ok a) w q b x = q b (ground arith)
  map_error_of-Ensures Q f (err e) w q b x = cc

  pub Ensures-map_error :
      (P : Db → Type 0) (Q : A → Db → Type 0) (f : GoError → GoError) (m : Action E S A)
      → Ensures P m Q
      → Ensures P (map_error f m) Q
  unfolding map_error
  Ensures-map_error P Q f m h = record {
    at = λ w b p x. map_error_of-Ensures Q f (m w).0 (m w).1 (λ a y. h.at w a p y) b x;
  }

  -- What writes nothing keeps every property of the tables.
  pub Ensures-DbKept : (P : Db → Type 0) (m : Action E S A) → DbKept m → Ensures P m (λ _ d. P d)
  Ensures-DbKept P m h = record { at = λ w b p x. subst P (sym (h.at w)) p }

  pub Ensures-if :
      {P : Db → Type 0} {Q : A → Db → Type 0} (b : Bool) {m n : Action E S A}
      → Ensures P m Q
      → Ensures P n Q
      → Ensures P (if b then m else n) Q
  Ensures-if true hm hn = hm
  Ensures-if false hm hn = hn

  -- A fact of the start that speaks of no tables.
  pub Ensures-fact :
      {P : Db → Type 0} {F : Type 0} {Q : A → Db → Type 0} {m : Action E S A}
      → (F → Ensures P m Q)
      → Ensures (λ d. P d × F) m Q
  Ensures-fact h = record { at = λ w a p x. (h p.1).at w a p.0 x }

  -- A weaker conclusion from a stronger start.
  pub Ensures-mono :
      {P P' : Db → Type 0} {Q Q' : A → Db → Type 0} (m : Action E S A)
      → ((db : Db) → P' db → P db)
      → ((a : A) (db : Db) → Q a db → Q' a db)
      → Ensures P m Q
      → Ensures P' m Q'
  Ensures-mono m f g h = record { at = λ w a p x. g a _ (h.at w a (f w.db p) x) }

module _ {E S : Type 0} where
  -- Past a test that raises, the test has failed.
  pub Ensures-guard :
      (P : Db → Type 0) (b : Bool) (e : GoError)
      → Ensures {E = E} {S = S} P (if b then raise e else pure tt) (λ _ d. P d × (b ≡ false))
  Ensures-guard P true e = Ensures-raise P _ e
  Ensures-guard P false e = Ensures-pure P _ tt (λ db p. (p, refl))

module _ {E S A B : Type 0} where
  continue-Ensures :
      (Q : A → Db → Type 0) (R : B → Db → Type 0) (r : Result A) (f : A → Action E S B)
      (w : World E S)
      → ((a : A) → r ≡ ok a → Q a w.db)
      → ((a : A) → Ensures (Q a) (f a) R)
      → (b : B) → (continue r f w).0 ≡ ok b
      → R b (continue r f w).1.db
  continue-Ensures Q R (ok a) f w q h b x = (h a).at w b (q a refl) x
  continue-Ensures Q R (err e) f w q h b x = cc

  pub Ensures-bind :
      (P : Db → Type 0) (Q : A → Db → Type 0) (R : B → Db → Type 0) (m : Action E S A)
      (f : A → Action E S B)
      → Ensures P m Q
      → ((a : A) → Ensures (Q a) (f a) R)
      → Ensures P (m >>= f) R
  unfolding ◌>>=◌
  Ensures-bind P Q R m f hm hf = record {
    at = λ w b p x. continue-Ensures Q R (m w).0 f (m w).1 (λ a y. hm.at w a p y) hf b x;
  }

  attempt_cases :
      (Q : A → Db → Type 0) (R : B → Db → Type 0) (P : Db → Type 0) (r : Result A)
      (f : Result A → Action E S B) (w : World E S)
      → ((e : GoError) → r ≡ err e → P w.db)
      → ((a : A) → r ≡ ok a → Q a w.db)
      → ((e : GoError) → Ensures P (f (err e)) R)
      → ((a : A) → Ensures (Q a) (f (ok a)) R)
      → (b : B) → (f r w).0 ≡ ok b
      → R b (f r w).1.db
  attempt_cases Q R P (ok a) f w p q he ha b x = (ha a).at w b (q a refl) x
  attempt_cases Q R P (err e) f w p q he ha b x = (he e).at w b (p e refl) x

  -- After the error of an atomic action the start still holds.
  pub Ensures-attempt :
      (P : Db → Type 0) (Q : A → Db → Type 0) (R : B → Db → Type 0) (m : Action E S A)
      (f : Result A → Action E S B)
      → Atomic m
      → Ensures P m Q
      → ((e : GoError) → Ensures P (f (err e)) R)
      → ((a : A) → Ensures (Q a) (f (ok a)) R)
      → Ensures P (attempt m >>= f) R
  unfolding ◌>>=◌
  Ensures-attempt P Q R m f at hm he ha = record {
    at = λ w b p x.
        attempt_cases Q R P (m w).0 f (m w).1 (λ e y. subst P (sym (at.at w e y).db) p)
          (λ a y. hm.at w a p y) he ha b x;
  }

module _ {E S A : Type 0} where
  settle_commit-Ensures :
      (Q : A → Db → Type 0) (before : Db) (a : A) (r : Result (Unit {0})) (w : World E S)
      → Q a w.db
      → (b : A) → (settle_commit before a r w).0 ≡ ok b
      → Q b (settle_commit before a r w).1.db
  unfolding settle_commit
  settle_commit-Ensures Q before a (ok _) w q b x = subst (λ c. Q c w.db) (ground arith) q
  settle_commit-Ensures Q before a (err e) w q b x = cc

  settle-Ensures :
      (Q : A → Db → Type 0) (before : Db) (r : Result A) (w : World E S)
      → ((a : A) → r ≡ ok a → Q a w.db)
      → (b : A) → (settle before r w).0 ≡ ok b
      → Q b (settle before r w).1.db
  unfolding settle
  settle-Ensures Q before (err e) w q b x = cc
  settle-Ensures Q before (ok a) w q b x =
      settle_commit-Ensures Q before a (call idle w).0 (call idle w).1
        (subst (Q a) (sym ((ReadOnly-call idle (λ db. refl)).at w).db) (q a refl)) b x

  in_tx-Ensures :
      (P : Db → Type 0) (Q : A → Db → Type 0) (body : Action E S A) (r : Result (Unit {0}))
      (w : World E S)
      → Ensures P body Q
      → P w.db
      → (b : A) → (in_tx body r w).0 ≡ ok b
      → Q b (in_tx body r w).1.db
  unfolding in_tx
  in_tx-Ensures P Q body (err e) w h p b x = cc
  in_tx-Ensures P Q body (ok _) w h p b x =
      settle-Ensures Q w.db (body w).0 (body w).1 (λ a y. h.at w a p y) b x

  -- What the callback reaches, the committed transaction has reached.
  pub Ensures-with_tx :
      (P : Db → Type 0) (Q : A → Db → Type 0) (body : Action E S A)
      → Ensures P body Q
      → Ensures P (with_tx body) Q
  unfolding with_tx
  Ensures-with_tx P Q body h = record {
    at = λ w b p x.
        in_tx-Ensures P Q body (call idle w).0 (call idle w).1 h
          (subst P (sym ((ReadOnly-call idle (λ db. refl)).at w).db) p) b x;
  }
