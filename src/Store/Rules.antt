-- ===== src/Store/Rules.antt =====
-- Rules for runs of the repository monad: what a successful run ensures, what every run keeps, and
-- when a failed run has changed nothing.
use ketapod_website.Base.{◌≡◌, refl, sym, Bool, true, false, List, arith}
use mathlib.Core.Path.{subst}
use ketapod_website.Schema.{Error, Db}
use ketapod_website.Store.{
  Result, ok, err, World, M, then_run, query, run_query, reads, lift, raise_if, roll_back, in_tx,
  is_faulty, later, caught, recast, recast_result,
}

-- What holds of the result and the tables of a run that succeeds.
unfoldable pub Ensures : {A : Type 0} → (A → Db → Type 0) → Result A × World → Type 0
Ensures P (ok a, w) = P a w.db
Ensures P (err e, w) = Unit {0}

-- What holds of the tables after a run, however it ends.
unfoldable pub Keeps : {A : Type 0} → (Db → Type 0) → Result A × World → Type 0
Keeps I (r, w) = I w.db

-- A failed run leaves the tables as they were.
unfoldable pub IsAtomic : {A : Type 0} → Db → Result A × World → Type 0
IsAtomic db (ok a, w) = Unit {0}
IsAtomic db (err e, w) = w.db ≡ db

module _ {A : Type 0} where
  Ensures-run_query :
      (P : A → Db → Type 0) (b : Bool) (fs : List Bool) (db : Db) (x : Result A × Db)
      → ((a : A) (d : Db) → x ≡ (ok a, d) → P a d)
      → Ensures P (run_query b fs db x)
  unfolding Ensures Keeps IsAtomic
  Ensures-run_query P true fs db x h = tt
  Ensures-run_query P false fs db (ok a, d) h = h a d refl
  Ensures-run_query P false fs db (err e, d) h = tt

  pub Ensures-query :
      (P : A → Db → Type 0) (q : Db → Result A × Db) (w : World)
      → ((a : A) (d : Db) → q w.db ≡ (ok a, d) → P a d)
      → Ensures P (query q w)
  unfolding query Ensures Keeps IsAtomic
  Ensures-query P q w h = Ensures-run_query P (is_faulty w.faults) _ w.db (q w.db) h

  Keeps-run_query :
      (I : Db → Type 0) (b : Bool) (fs : List Bool) (db : Db) (x : Result A × Db)
      → I db
      → I x.1
      → Keeps I (run_query b fs db x)
  unfolding Ensures Keeps IsAtomic
  Keeps-run_query I true fs db x h k = h
  Keeps-run_query I false fs db (r, d) h k = k

  pub Keeps-query :
      (I : Db → Type 0) (q : Db → Result A × Db) (w : World)
      → I w.db
      → I (q w.db).1
      → Keeps I (query q w)
  unfolding query Ensures Keeps IsAtomic
  Keeps-query I q w h k = Keeps-run_query I (is_faulty w.faults) _ w.db (q w.db) h k

  pub Ensures-map :
      (P Q : A → Db → Type 0) (x : Result A × World)
      → Ensures P x
      → ((a : A) (d : Db) → P a d → Q a d)
      → Ensures Q x
  unfolding Ensures Keeps IsAtomic
  Ensures-map P Q (ok a, w) h k = k a w.db h
  Ensures-map P Q (err e, w) h k = tt

  pub Ensures-pure : (P : A → Db → Type 0) (a : A) (w : World) → P a w.db → Ensures P (ok a, w)
  unfolding Ensures
  Ensures-pure P a w h = h

  pub Ensures-err : (P : A → Db → Type 0) (e : Error) (w : World) → Ensures P (err e, w)
  unfolding Ensures
  Ensures-err P e w = tt

  pub Ensures-any : (x : Result A × World) → Ensures (λ a d. Unit {0}) x
  unfolding Ensures
  Ensures-any (ok a, w) = tt
  Ensures-any (err e, w) = tt

  pub Keeps-same : (I : Db → Type 0) (r : Result A) (w : World) → I w.db → Keeps I (r, w)
  unfolding Keeps
  Keeps-same I r w h = h

  pub lift-Keeps : (I : Db → Type 0) (r : Result A) (w : World) → I w.db → Keeps I (lift r w)
  unfolding lift Keeps
  lift-Keeps I r w h = h

  pub Keeps-db : (I : Db → Type 0) (x : Result A × World) → Keeps I x → I x.1.db
  unfolding Keeps
  Keeps-db I x h = h

  pub Ensures-ok :
      (P : A → Db → Type 0) (x : Result A × World) {a : A} {w : World}
      → Ensures P x
      → x ≡ (ok a, w)
      → P a w.db
  unfolding Ensures Keeps IsAtomic
  Ensures-ok P x h e = subst (Ensures P) e h

  pub IsAtomic-err :
      (db : Db) (x : Result A × World) {e : Error} {w : World}
      → IsAtomic db x
      → x ≡ (err e, w)
      → w.db ≡ db
  unfolding Ensures Keeps IsAtomic
  IsAtomic-err db x h e = subst (IsAtomic db) e h

  pub Ensures-IsAtomic :
      (I : Db → Type 0) (db : Db) (x : Result A × World)
      → Ensures (λ a d. I d) x
      → IsAtomic db x
      → I db
      → Keeps I x
  unfolding Ensures Keeps IsAtomic
  Ensures-IsAtomic I db (ok a, w) h k i = h
  Ensures-IsAtomic I db (err e, w) h k i = subst I (sym k) i

  pub Keeps-IsAtomic : (db : Db) (x : Result A × World) → Keeps (λ d. d ≡ db) x → IsAtomic db x
  unfolding Ensures Keeps IsAtomic
  Keeps-IsAtomic db (ok a, w) h = tt
  Keeps-IsAtomic db (err e, w) h = h

  roll_back-IsAtomic : (db : Db) (x : Result A × World) → IsAtomic db (roll_back db x)
  unfolding Ensures Keeps IsAtomic
  roll_back-IsAtomic db (ok a, w) = tt
  roll_back-IsAtomic db (err e, w) = refl

  pub in_tx-IsAtomic : (m : M A) (w : World) → IsAtomic w.db (in_tx m w)
  unfolding in_tx Ensures Keeps IsAtomic
  in_tx-IsAtomic m w = roll_back-IsAtomic w.db _

module _ {A B : Type 0} where
  pub Ensures-then :
      (P : A → Db → Type 0) (Q : B → Db → Type 0) (x : Result A × World) (f : A → M B)
      → Ensures P x
      → ((a : A) (w : World) → P a w.db → Ensures Q (f a w))
      → Ensures Q (then_run x f)
  unfolding Ensures Keeps IsAtomic
  Ensures-then P Q (ok a, w) f h k = k a w h
  Ensures-then P Q (err e, w) f h k = tt

  pub Keeps-then :
      (I : Db → Type 0) (x : Result A × World) (f : A → M B)
      → Keeps I x
      → ((a : A) (w : World) → I w.db → Keeps I (f a w))
      → Keeps I (then_run x f)
  unfolding Ensures Keeps IsAtomic
  Keeps-then I (ok a, w) f h k = k a w h
  Keeps-then I (err e, w) f h k = h

  -- After a part that only reads, a run is atomic if the rest is.
  pub IsAtomic-then :
      (db : Db) (x : Result A × World) (f : A → M B)
      → Keeps (λ d. d ≡ db) x
      → ((a : A) (w : World) → w.db ≡ db → IsAtomic db (f a w))
      → IsAtomic db (then_run x f)
  unfolding Ensures Keeps IsAtomic
  IsAtomic-then db (ok a, w) f h k = k a w h
  IsAtomic-then db (err e, w) f h k = h

module _ {A : Type 0} where
  roll_back-Ensures :
      (P : A → Db → Type 0) (db : Db) (x : Result A × World)
      → Ensures P x
      → Ensures P (roll_back db x)
  unfolding Ensures Keeps IsAtomic
  roll_back-Ensures P db (ok a, w) h = h
  roll_back-Ensures P db (err e, w) h = tt

  roll_back-Keeps :
      (I : Db → Type 0) (db : Db) (x : Result A × World)
      → I db
      → Keeps I x
      → Keeps I (roll_back db x)
  unfolding Ensures Keeps IsAtomic
  roll_back-Keeps I db (ok a, w) h k = k
  roll_back-Keeps I db (err e, w) h k = h

  pub in_tx-Ensures :
      (P : A → Db → Type 0) (m : M A) (w : World) → Ensures P (m w) → Ensures P (in_tx m w)
  unfolding in_tx Ensures Keeps IsAtomic
  in_tx-Ensures P m w h = roll_back-Ensures P w.db _ (
      Ensures-then P P (m w) _ h
        (λ a w' p. Ensures-query P (λ db. (ok a, db)) w' (λ a' d e. ground (arith, p))))

  pub in_tx-Keeps :
      (I : Db → Type 0) (m : M A) (w : World) → I w.db → Keeps I (m w) → Keeps I (in_tx m w)
  unfolding in_tx Ensures Keeps IsAtomic
  in_tx-Keeps I m w h k =
      roll_back-Keeps I w.db _ h
        (Keeps-then I (m w) _ k (λ a w' p. Keeps-query I (λ db. (ok a, db)) w' p p))

module _ {A : Type 0} where
  -- Of a run whose error is caught, only what it keeps is known.
  pub Ensures-caught :
      (I : Db → Type 0) (m : M A) (w : World) → Keeps I (m w) → Ensures (λ r d. I d) (caught m w)
  unfolding caught Ensures
  Ensures-caught I m w h = Keeps-db I (m w) h

-- Steps through a chain of statements.
module _ {A B : Type 0} where
  pub then_run_read :
      (P : Result B × World → Type 0) (b : Bool) (fs : List Bool) (db : Db) (a : A) (k : A → M B)
      → P (err Error.storage, record { db = db; faults = fs })
      → P (k a (record { db = db; faults = fs }))
      → P (then_run (run_query b fs db (ok a, db)) k)
  then_run_read P true fs db a k h g = h
  then_run_read P false fs db a k h g = g

  pub Ensures-reads :
      (Q : B → Db → Type 0) (f : Db → A) (k : A → M B) (w : World)
      → ((fs : List Bool) → Ensures Q (k (f w.db) (record { db = w.db; faults = fs })))
      → Ensures Q (then_run (reads f w) k)
  unfolding reads Ensures
  Ensures-reads Q f k w h =
      then_run_read (Ensures Q) (is_faulty w.faults) (later w.faults) w.db (f w.db) k tt (h _)

  pub IsAtomic-reads :
      (f : Db → A) (k : A → M B) (w : World)
      → ((fs : List Bool) → IsAtomic w.db (k (f w.db) (record { db = w.db; faults = fs })))
      → IsAtomic w.db (then_run (reads f w) k)
  unfolding reads IsAtomic
  IsAtomic-reads f k w h =
      then_run_read (IsAtomic w.db) (is_faulty w.faults) (later w.faults) w.db (f w.db) k refl (h _)

  pub Keeps-reads :
      (I : Db → Type 0) (f : Db → A) (k : A → M B) (w : World)
      → I w.db
      → ((fs : List Bool) → Keeps I (k (f w.db) (record { db = w.db; faults = fs })))
      → Keeps I (then_run (reads f w) k)
  unfolding reads Keeps
  Keeps-reads I f k w i h =
      then_run_read (Keeps I) (is_faulty w.faults) (later w.faults) w.db (f w.db) k i (h _)

  pub Ensures-lift :
      (Q : B → Db → Type 0) (r : Result A) (k : A → M B) (w : World)
      → ((a : A) → r ≡ ok a → Ensures Q (k a w))
      → Ensures Q (then_run (lift r w) k)
  unfolding lift Ensures
  Ensures-lift Q (ok a) k w h = h a refl
  Ensures-lift Q (err e) k w h = tt

  pub IsAtomic-lift :
      (r : Result A) (k : A → M B) (w : World)
      → ((a : A) → r ≡ ok a → IsAtomic w.db (k a w))
      → IsAtomic w.db (then_run (lift r w) k)
  unfolding lift IsAtomic
  IsAtomic-lift (ok a) k w h = h a refl
  IsAtomic-lift (err e) k w h = refl

  pub Keeps-lift :
      (I : Db → Type 0) (r : Result A) (k : A → M B) (w : World)
      → I w.db
      → ((a : A) → r ≡ ok a → Keeps I (k a w))
      → Keeps I (then_run (lift r w) k)
  unfolding lift Keeps
  Keeps-lift I (ok a) k w i h = h a refl
  Keeps-lift I (err e) k w i h = i

module _ {B : Type 0} where
  pub Ensures-raise_if :
      (Q : B → Db → Type 0) (b : Bool) (e : Error) (k : Unit {0} → M B) (w : World)
      → (b ≡ false → Ensures Q (k tt w))
      → Ensures Q (then_run (raise_if b e w) k)
  unfolding raise_if Ensures
  Ensures-raise_if Q true e k w h = tt
  Ensures-raise_if Q false e k w h = h refl

  pub IsAtomic-raise_if :
      (b : Bool) (e : Error) (k : Unit {0} → M B) (w : World)
      → (b ≡ false → IsAtomic w.db (k tt w))
      → IsAtomic w.db (then_run (raise_if b e w) k)
  unfolding raise_if IsAtomic
  IsAtomic-raise_if true e k w h = refl
  IsAtomic-raise_if false e k w h = h refl

  pub Keeps-raise_if :
      (I : Db → Type 0) (b : Bool) (e : Error) (k : Unit {0} → M B) (w : World)
      → I w.db
      → (b ≡ false → Keeps I (k tt w))
      → Keeps I (then_run (raise_if b e w) k)
  unfolding raise_if Keeps
  Keeps-raise_if I true e k w i h = i
  Keeps-raise_if I false e k w i h = h refl

module _ {A B : Type 0} where
  -- Of a run whose error is answered with another one, the success is that of the run.
  pub Ensures-recast-reads :
      (Q : B → Db → Type 0) (e : Error) (f : Db → A) (k : A → M B) (w : World)
      → ((fs : List Bool) → Ensures Q (k (f w.db) (record { db = w.db; faults = fs })))
      → Ensures Q (then_run (recast e (reads f) w) k)
  unfolding recast reads query Ensures
  Ensures-recast-reads Q e f k w h = recast_step Q (is_faulty w.faults) (h (later w.faults))
    where
      recast_step :
          (Q' : B → Db → Type 0) (b : Bool)
          → Ensures Q' (k (f w.db) (record { db = w.db; faults = later w.faults }))
          → Ensures Q' (
              then_run
                (
                  recast_result e (run_query b (later w.faults) w.db (ok (f w.db), w.db)).0,
                  (run_query b (later w.faults) w.db (ok (f w.db), w.db)).1,
                )
                k)
      recast_step Q' true g = tt
      recast_step Q' false g = g

module _ {A B : Type 0} where
  -- What ends by an error ensures whatever is asked.
  pub Ensures-then_raise :
      (Q : B → Db → Type 0) (x : Result A × World) (e : Error)
      → Ensures Q (then_run x (λ a w. (err e, w)))
  unfolding Ensures
  Ensures-then_raise Q (ok a, w) e = tt
  Ensures-then_raise Q (err e', w) e = tt
