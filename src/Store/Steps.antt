-- ===== src/Store/Steps.antt =====
-- Rules for a statement whose rows the rest of the run depends on.
use ketapod_website.Base.{◌≡◌, refl, Bool, true, false, List}
use ketapod_website.Schema.{Error, Db}
use ketapod_website.Store.{
  Result, ok, err, World, M, then_run, query, run_query, is_faulty, later, caught,
}
use ketapod_website.Store.Rules.{Keeps, Ensures}

module _ {A B : Type 0} where
  step-Keeps :
      (I : Db → Type 0) (b : Bool) (fs : List Bool) (db : Db) (x : Result A × Db) (k : A → M B)
      → I db
      → I x.1
      → ((a : A) → x.0 ≡ ok a → Keeps I (k a (record { db = x.1; faults = fs })))
      → Keeps I (then_run (run_query b fs db x) k)
  unfolding Keeps
  step-Keeps I true fs db x k h g next = h
  step-Keeps I false fs db (ok a, d) k h g next = next a refl
  step-Keeps I false fs db (err e, d) k h g next = g

  pub Keeps-step :
      (I : Db → Type 0) (q : Db → Result A × Db) (k : A → M B) (w : World)
      → I w.db
      → I (q w.db).1
      → ((a : A) (fs : List Bool)
          → (q w.db).0 ≡ ok a
          → Keeps I (k a (record { db = (q w.db).1; faults = fs })))
      → Keeps I (then_run (query q w) k)
  unfolding query
  Keeps-step I q k w h g next =
      step-Keeps I (is_faulty w.faults) (later w.faults) w.db (q w.db) k h g
        (λ a e. next a (later w.faults) e)

  step-Ensures :
      (Q : B → Db → Type 0) (b : Bool) (fs : List Bool) (db : Db) (x : Result A × Db) (k : A → M B)
      → ((a : A) → x.0 ≡ ok a → Ensures Q (k a (record { db = x.1; faults = fs })))
      → Ensures Q (then_run (run_query b fs db x) k)
  unfolding Ensures
  step-Ensures Q true fs db x k next = tt
  step-Ensures Q false fs db (ok a, d) k next = next a refl
  step-Ensures Q false fs db (err e, d) k next = tt

  pub Ensures-step :
      (Q : B → Db → Type 0) (q : Db → Result A × Db) (k : A → M B) (w : World)
      → ((a : A) (fs : List Bool)
          → (q w.db).0 ≡ ok a
          → Ensures Q (k a (record { db = (q w.db).1; faults = fs })))
      → Ensures Q (then_run (query q w) k)
  unfolding query
  Ensures-step Q q k w next =
      step-Ensures Q (is_faulty w.faults) (later w.faults) w.db (q w.db) k
        (λ a e. next a (later w.faults) e)

module _ {A : Type 0} (P : A → Db → Type 0) where
  -- What a statement has written, if it has not failed.
  abbrev pub Holds : Result A × Db → Type 0
  Holds (ok a, d) = P a d
  Holds (err e, d) = Unit {0}

  write_run :
      (b : Bool) (fs : List Bool) (db : Db) (x : Result A × Db)
      → Holds x
      → Ensures P (run_query b fs db x)
  unfolding Ensures
  write_run true fs db x h = tt
  write_run false fs db (ok a, d) h = h
  write_run false fs db (err e, d) h = tt

  pub Ensures-write : (q : Db → Result A × Db) (w : World) → Holds (q w.db) → Ensures P (query q w)
  unfolding query
  Ensures-write q w h = write_run (is_faulty w.faults) (later w.faults) w.db (q w.db) h

module _ {A B : Type 0} (P : A → Db → Type 0) (Q : B → Db → Type 0) where
  -- A run whose error is caught: either it has ensured what it ensures, or its error is handled.
  pub Ensures-caught_then :
      (m : M A) (k : Result A → M B) (w : World)
      → Ensures P (m w)
      → ((a : A) (w' : World) → P a w'.db → Ensures Q (k (ok a) w'))
      → ((e : Error) (w' : World) → Ensures Q (k (err e) w'))
      → Ensures Q (then_run (caught m w) k)
  unfolding caught Ensures
  Ensures-caught_then m k w h good bad = by_result (m w) h
    where
      by_result : (x : Result A × World) → Ensures P x → Ensures Q (k x.0 x.1)
      by_result (ok a, w') p = good a w' p
      by_result (err e, w') p = bad e w'
