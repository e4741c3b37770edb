-- ===== src/Store/Reads.antt =====
-- Rules for the parts of a run that only read the tables.
use ketapod_website.Base.{◌≡◌, refl, sym, Bool, true, false, List, Option, none, some, arith}
use mathlib.Core.Path.{subst}
use ketapod_website.Schema.{Error, Db}
use ketapod_website.Store.{
  Result, ok, err, World, M, then_run, reads, lift, raise_if, or_fail, caught,
}
use ketapod_website.Store.Rules.{Ensures, Keeps, IsAtomic, Keeps-query, Keeps-db, then_run_read}

-- The run has changed nothing, and its result is as told if it succeeds.
unfoldable pub Reads : {A : Type 0} → (A → Type 0) → Db → Result A × World → Type 0
Reads P db (ok a, w) = P a × (w.db ≡ db)
Reads P db (err e, w) = w.db ≡ db

pub or_fail-ok : {A : Type 0} (e : Error) (o : Option A) {a : A} → or_fail e o ≡ ok a → o ≡ some a
or_fail-ok e none h = cc
or_fail-ok e (some a) h = ground arith

module _ {A : Type 0} (P : A → Type 0) (db : Db) where
  pub Reads-pure :
      (a : A) (fs : List Bool) → P a → Reads P db (ok a, record { db = db; faults = fs })
  unfolding Reads
  Reads-pure a fs h = (h, refl)

  pub Reads-raise :
      (e : Error) (fs : List Bool) → Reads P db (err e, record { db = db; faults = fs })
  unfolding Reads
  Reads-raise e fs = refl

module _ {A B : Type 0} (P : A → Type 0) where
  -- What follows a part that only reads may be proved at the tables before it.
  after_read :
      (Q : Result B × World → Type 0) (db : Db) (a : A) (k : A → M B) (w : World)
      → w.db ≡ db
      → ((fs : List Bool) → Q (k a (record { db = db; faults = fs })))
      → Q (k a w)
  after_read Q db a k w e h =
      subst (λ d. Q (k a (record { db = d; faults = w.faults }))) (sym e) (h w.faults)

  pub Ensures-Reads :
      (Q : B → Db → Type 0) (db : Db) (x : Result A × World) (k : A → M B)
      → Reads P db x
      → ((a : A) (fs : List Bool) → P a → Ensures Q (k a (record { db = db; faults = fs })))
      → Ensures Q (then_run x k)
  unfolding Reads Ensures
  Ensures-Reads Q db (ok a, w) k r h = after_read (Ensures Q) db a k w r.1 (λ fs. h a fs r.0)
  Ensures-Reads Q db (err e, w) k r h = tt

  pub IsAtomic-Reads :
      (db : Db) (x : Result A × World) (k : A → M B)
      → Reads P db x
      → ((a : A) (fs : List Bool) → P a → IsAtomic db (k a (record { db = db; faults = fs })))
      → IsAtomic db (then_run x k)
  unfolding Reads IsAtomic
  IsAtomic-Reads db (ok a, w) k r h = after_read (IsAtomic db) db a k w r.1 (λ fs. h a fs r.0)
  IsAtomic-Reads db (err e, w) k r h = r

  pub Keeps-Reads :
      (I : Db → Type 0) (db : Db) (x : Result A × World) (k : A → M B)
      → I db
      → Reads P db x
      → ((a : A) (fs : List Bool) → P a → Keeps I (k a (record { db = db; faults = fs })))
      → Keeps I (then_run x k)
  unfolding Reads Keeps
  Keeps-Reads I db (ok a, w) k i r h = after_read (Keeps I) db a k w r.1 (λ fs. h a fs r.0)
  Keeps-Reads I db (err e, w) k i r h = subst I (sym r) i

  pub Reads-then :
      (R : B → Type 0) (db : Db) (x : Result A × World) (k : A → M B)
      → Reads P db x
      → ((a : A) (fs : List Bool) → P a → Reads R db (k a (record { db = db; faults = fs })))
      → Reads R db (then_run x k)
  unfolding Reads
  Reads-then R db (ok a, w) k r h = after_read (Reads R db) db a k w r.1 (λ fs. h a fs r.0)
  Reads-then R db (err e, w) k r h = r

module _ {A B : Type 0} (R : B → Type 0) where
  pub Reads-reads :
      (f : Db → A) (k : A → M B) (w : World)
      → ((fs : List Bool) → Reads R w.db (k (f w.db) (record { db = w.db; faults = fs })))
      → Reads R w.db (then_run (reads f w) k)
  unfolding reads Reads
  Reads-reads f k w h = then_run_read (Reads R w.db) _ _ w.db (f w.db) k refl (h _)

  pub Reads-lift :
      (r : Result A) (k : A → M B) (w : World)
      → ((a : A) → r ≡ ok a → Reads R w.db (k a w))
      → Reads R w.db (then_run (lift r w) k)
  unfolding lift Reads
  Reads-lift (ok a) k w h = h a refl
  Reads-lift (err e) k w h = refl

module _ {B : Type 0} (R : B → Type 0) where
  pub Reads-raise_if :
      (b : Bool) (e : Error) (k : Unit {0} → M B) (w : World)
      → (b ≡ false → Reads R w.db (k tt w))
      → Reads R w.db (then_run (raise_if b e w) k)
  unfolding raise_if Reads
  Reads-raise_if true e k w h = refl
  Reads-raise_if false e k w h = h refl

-- A statement that only reads and may fail, with its error caught.
pub reads-Keeps : {A : Type 0} (f : Db → A) (w : World) → Keeps (λ d. d ≡ w.db) (reads f w)
unfolding reads
reads-Keeps f w = Keeps-query (λ d. d ≡ w.db) (λ db. (ok (f db), db)) w refl refl

pub Reads-caught :
    {A B : Type 0} (R : B → Type 0) (m : M A) (k : Result A → M B) (w : World)
    → Keeps (λ d. d ≡ w.db) (m w)
    → ((r : Result A) (fs : List Bool) → Reads R w.db (k r (record { db = w.db; faults = fs })))
    → Reads R w.db (then_run (caught m w) k)
unfolding caught
Reads-caught R m k w h g =
    subst (λ d. Reads R w.db (k (m w).0 (record { db = d; faults = (m w).1.faults })))
      (sym (Keeps-db (λ d. d ≡ w.db) (m w) h)) (g (m w).0 (m w).1.faults)

-- A test that stands last.
pub Reads-raise_if_last :
    (R : Unit {0} → Type 0) (b : Bool) (e : Error) (w : World)
    → (b ≡ false → R tt)
    → Reads R w.db (raise_if b e w)
unfolding raise_if Reads
Reads-raise_if_last R true e w h = refl
Reads-raise_if_last R false e w h = (h refl, refl)

pub Reads-ok :
    {A : Type 0} (P : A → Type 0) (db : Db) (x : Result A × World) {a : A} {w : World}
    → Reads P db x
    → x ≡ (ok a, w)
    → P a × (w.db ≡ db)
unfolding Reads
Reads-ok P db x h e = subst (Reads P db) e h

pub Reads-map :
    {A : Type 0} (P Q : A → Type 0) (db : Db) (x : Result A × World)
    → Reads P db x
    → ((a : A) → P a → Q a)
    → Reads Q db x
unfolding Reads
Reads-map P Q db (ok a, w) r h = (h a r.0, r.1)
Reads-map P Q db (err e, w) r h = r

-- A row that has to be there, read last.
pub Reads-or_fail :
    {A : Type 0} (e : Error) (o : Option A) (w : World)
    → Reads (λ a. o ≡ some a) w.db (lift (or_fail e o) w)
unfolding lift Reads
Reads-or_fail e none w = refl
Reads-or_fail e (some a) w = (refl, refl)

pub Reads-told :
    {A : Type 0} (P : A → Type 0) (db : Db) (x : Result A × World) {a : A}
    → Reads P db x
    → x.0 ≡ ok a
    → P a
unfolding Reads
Reads-told P db (ok b, w) {a} r e = subst P (ground arith) r.0
Reads-told P db (err e', w) r e = cc
