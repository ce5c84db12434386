-- ===== src/Store/Action/Runs.antt =====
-- How an action that meets no fault runs to its result.
use nexo.Prelude.{◌≡◌, Bool, true, false, List, [], ◌∷◌, refl, sym, ap, ◌∙◌, arith, if◌then◌else◌}
use mathlib.Core.Path.{subst}
use nexo.Errcode.{GoError, Result, ok}
use nexo.Store.Db.{Op}
use nexo.Store.Action.{
  World, Action, pure, lift, call, attempt, map_error, map_error_of, with_service, emit, ◌>>=◌,
  with_tx, settle, settle_commit, in_tx, fault_or, run_op, continue, idle,
}

-- The action returns a value, and the value and the world after it are in `Q`.
pub record Ran {E S A : Type 0} (m : Action E S A) (w : World E S) (Q : A → World E S → Type 0)
    : Type 0 where
  pub value : A
  pub after : World E S
  pub runs : m w ≡ (ok value, after)
  pub holds : Q value after

module _ {E S A : Type 0} where
  pub Ran-pure : (a : A) (w : World E S) → Ran (pure a) w (λ b v. (b ≡ a) × (v ≡ w))
  unfolding pure
  Ran-pure a w = record { value = a; after = w; runs = refl; holds = (refl, refl) }

  pub Ran-lift :
      (r : Result A) (a : A) (w : World E S) → r ≡ ok a → Ran (lift r) w (λ b v. (b ≡ a) × (v ≡ w))
  unfolding lift
  Ran-lift r a w e = record {
    value = a;
    after = w;
    runs = ap (λ x. (x, w)) e;
    holds = (refl, refl);
  }

  fault_or_none :
      (fs : List Bool) (op : Op A) (w : World E S) → fs ≡ [] → fault_or fs op w ≡ run_op op w
  unfolding fault_or
  fault_or_none [] op w e = refl
  fault_or_none (f ∷ fs) op w e = absurd (ground arith)

  pub Ran-call :
      (op : Op A) (a : A) (w : World E S)
      → w.faults ≡ []
      → (op w.db).0 ≡ ok a
      → Ran (call op) w (λ b v. (b ≡ a) × (v ≡ record w { db = (op w.db).1 }))
  unfolding call run_op
  Ran-call op a w quiet e = record {
    value = a;
    after = record w { db = (op w.db).1 };
    runs =
        fault_or_none w.faults op w quiet
        ∙ ap (λ (r : Result A). (r, record w { db = (op w.db).1 })) e;
    holds = (refl, refl);
  }

  -- A statement whose error the code looks at.
  pub Ran-attempt-call :
      (op : Op A) (w : World E S)
      → w.faults ≡ []
      → Ran (attempt (call op)) w (λ r v. (r ≡ (op w.db).0) × (v ≡ record w { db = (op w.db).1 }))
  unfolding call run_op attempt
  Ran-attempt-call op w quiet = record {
    value = (op w.db).0;
    after = record w { db = (op w.db).1 };
    runs = ap (λ (p : Result A × World E S). (ok p.0, p.1)) (fault_or_none w.faults op w quiet);
    holds = (refl, refl);
  }

  pub Ran-attempt :
      (m : Action E S A) (w : World E S) (Q : A → World E S → Type 0)
      → Ran m w Q
      → Ran (attempt m) w (λ r v. (a : A) × (r ≡ ok a) × Q a v)
  unfolding attempt
  Ran-attempt m w Q h = record {
    value = ok h.value;
    after = h.after;
    runs = ap (λ (p : Result A × World E S). (ok p.0, p.1)) h.runs;
    holds = (h.value, refl, h.holds);
  }

  pub Ran-map_error :
      (f : GoError → GoError) (m : Action E S A) (w : World E S) (Q : A → World E S → Type 0)
      → Ran m w Q
      → Ran (map_error f m) w Q
  unfolding map_error
  Ran-map_error f m w Q h = record {
    value = h.value;
    after = h.after;
    runs = ap (λ (p : Result A × World E S). (map_error_of f p.0, p.1)) h.runs;
    holds = h.holds;
  }

  pub Ran-with_service :
      (f : S → A × S) (w : World E S)
      → Ran {E = E}
          (with_service f)
          w
          (λ a v. (a ≡ (f w.service).0) × (v ≡ record w { service = (f w.service).1 }))
  unfolding with_service
  Ran-with_service f w = record {
    value = (f w.service).0;
    after = record w { service = (f w.service).1 };
    runs = refl;
    holds = (refl, refl);
  }

  pub Ran-mono :
      (m : Action E S A) (w : World E S) (Q R : A → World E S → Type 0)
      → ((a : A) (v : World E S) → Q a v → R a v)
      → Ran m w Q
      → Ran m w R
  Ran-mono m w Q R f h = record {
    value = h.value;
    after = h.after;
    runs = h.runs;
    holds = f h.value h.after h.holds;
  }

  -- From an equal world.
  pub Ran-from :
      (m : Action E S A) (w v : World E S) (Q : A → World E S → Type 0)
      → v ≡ w
      → Ran m w Q
      → Ran m v Q
  Ran-from m w v Q e h = subst (λ x. Ran m x Q) (sym e) h

  pub Ran-if :
      (b : Bool) (m n : Action E S A) (w : World E S) (Q : A → World E S → Type 0)
      → Ran m w Q
      → Ran n w Q
      → Ran (if b then m else n) w Q
  Ran-if true m n w Q hm hn = hm
  Ran-if false m n w Q hm hn = hn

module _ {E S : Type 0} where
  pub Ran-emit :
      (x : E) (w : World E S)
      → Ran (emit x) w (λ _ v. (v.db ≡ w.db) × (v.faults ≡ w.faults) × (v.service ≡ w.service))
  unfolding emit
  Ran-emit x w = record { value = tt; after = _; runs = refl; holds = (refl, refl, refl) }

module _ {E S A B : Type 0} where
  pub Ran-bind :
      (m : Action E S A) (f : A → Action E S B) (w : World E S) (Q : A → World E S → Type 0)
      (R : B → World E S → Type 0)
      → Ran m w Q
      → ((a : A) (v : World E S) → Q a v → Ran (f a) v R)
      → Ran (m >>= f) w R
  unfolding ◌>>=◌
  Ran-bind m f w Q R h k =
      let next = k h.value h.after h.holds in
      record {
        value = next.value;
        after = next.after;
        runs = ap (λ (p : Result A × World E S). continue p.0 f p.1) h.runs ∙ next.runs;
        holds = next.holds;
      }

-- No statement is to fail.
abbrev pub Quiet : {E S : Type 0} → World E S → Type 0
Quiet w = w.faults ≡ []

module _ {E S : Type 0} where
  idle-runs : (w : World E S) → Quiet w → call idle w ≡ (ok tt, w)
  idle-runs w quiet =
      let h = Ran-call idle tt w quiet refl in h.runs ∙ ap (λ v. (ok tt, v)) h.holds.1

module _ {E S A : Type 0} where
  -- A transaction commits where its callback returns a value and no statement fails.
  pub Ran-with_tx :
      (body : Action E S A) (w : World E S) (Q : A → World E S → Type 0)
      → Quiet w
      → Ran body w (λ a v. Quiet v × Q a v)
      → Ran (with_tx body) w Q
  unfolding with_tx in_tx settle settle_commit
  Ran-with_tx body w Q quiet h = record {
    value = h.value;
    after = h.after;
    runs =
        ap (λ (p : Result (Unit {0}) × World E S). in_tx body p.0 p.1) (idle-runs w quiet)
        ∙ ap (λ (p : Result A × World E S). settle w.db p.0 p.1) h.runs
        ∙ ap (λ (p : Result (Unit {0}) × World E S). settle_commit w.db h.value p.0 p.1)
            (idle-runs h.after h.holds.0);
    holds = h.holds.1;
  }
