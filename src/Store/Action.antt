-- ===== src/Store/Action.antt =====
-- Service code as actions on the world that it shares: the tables, what the next statements of the
-- store do (`true`: the statement fails and does nothing), the events sent after a commit, and the
-- in-memory state of the service itself, of any type. What was done before an error stays done beside it.
-- `with_tx` is internal/store/pgstore/store.go's `WithTx`.
pub mod Rules
pub mod Hoare
pub mod Runs
use nexo.Prelude.{◌≡◌, Bool, true, false, List, [], ◌∷◌, ◌++◌, refl}
use nexo.Errcode.{GoError, Result, ok, err, failure}
use nexo.Store.Db.{Db, Op}

pub record World (E S : Type 0) : Type 0 where
  pub db : Db
  pub faults : List Bool
  pub events : List E
  pub service : S

abbrev pub Action : Type 0 → Type 0 → Type 0 → Type 0
Action E S A = World E S → Result A × World E S

module _ {E S A : Type 0} where
  pub pure : A → Action E S A
  pure a w = (ok a, w)

  pub raise : GoError → Action E S A
  raise e w = (err e, w)

  pub lift : Result A → Action E S A
  lift r w = (r, w)

  run_op : Op A → World E S → Result A × World E S
  run_op op w = let (r, db) = op w.db in (r, record w { db = db })

  fault_or : List Bool → Op A → World E S → Result A × World E S
  unfolding run_op
  fault_or [] op w = run_op op w
  fault_or (true ∷ fs) op w = (err failure, record w { faults = fs })
  fault_or (false ∷ fs) op w = run_op op (record w { faults = fs })

  -- One statement. It may fail for reasons of its own, and then nothing is written.
  unfoldable pub call : Op A → Action E S A
  unfolding fault_or
  call op w = fault_or w.faults op w

  -- The result as a value, for code that looks at the error itself.
  pub attempt : Action E S A → Action E S (Result A)
  attempt m w = let (r, w') = m w in (ok r, w')

abbrev map_error_of {ℓ} : {A : Type ℓ} → (GoError → GoError) → Result A → Result A
map_error_of f (ok a) = ok a
map_error_of f (err e) = err (f e)

module _ {E S A : Type 0} where
  -- What the caller makes of an error.
  pub map_error : (GoError → GoError) → Action E S A → Action E S A
  map_error f m w = let (r, w') = m w in (map_error_of f r, w')

  -- The service reads and changes its own state.
  pub with_service : (S → A × S) → Action E S A
  with_service f w = let (a, s) = f w.service in (ok a, record w { service = s })

module _ {E S : Type 0} where
  -- An event leaves the node; nothing of it comes back.
  pub emit : E → Action E S (Unit {0})
  emit e w = (ok tt, record w { events = w.events ++ e ∷ [] })

module _ {E S A B : Type 0} where
  abbrev continue : Result A → (A → Action E S B) → World E S → Result B × World E S
  continue (ok a) f w = f a w
  continue (err e) f w = (err e, w)

  infixl 10 ◌>>=◌ ◌>>◌
  -- Opening this opens the simple actions too.
  unfoldable pub ◌>>=◌ : Action E S A → (A → Action E S B) → Action E S B
  unfolding pure raise lift attempt map_error with_service emit
  ◌>>=◌ m f w = let (r, w') = m w in continue r f w'

  abbrev pub ◌>>◌ : Action E S A → Action E S B → Action E S B
  m >> n = m >>= λ _. n

-- `BEGIN` and `COMMIT` may fail as any statement does.
abbrev idle : Op (Unit {0})
idle db = (ok tt, db)

module _ {E S A : Type 0} where
  -- The end of a transaction that began at `before`.
  settle_commit : Db → A → Result (Unit {0}) → Action E S A
  settle_commit before a (ok _) w = (ok a, w)
  settle_commit before a (err e) w = (err e, record w { db = before })

  settle : Db → Result A → Action E S A
  unfolding call settle_commit
  settle before (err e) w = (err e, record w { db = before })
  settle before (ok a) w = let (r, w') = call idle w in settle_commit before a r w'

  in_tx : Action E S A → Result (Unit {0}) → Action E S A
  unfolding settle
  in_tx body (err e) w = (err e, w)
  in_tx body (ok _) w = let (r, w') = body w in settle w.db r w'

  -- The writes of the callback stay only if it returned no error and `COMMIT` succeeded.
  unfoldable pub with_tx : Action E S A → Action E S A
  unfolding call in_tx
  with_tx body w = let (r, w') = call idle w in in_tx body r w'
