-- ===== src/Store.antt =====
-- The repository as a state monad with errors: `InTx` of backend/internal/commerce/repo.go, and
-- what running one statement does. A schedule says which statements the database fails, so that
-- every error path of the code is a run of the model.
pub mod Rules
pub mod Reads
pub mod Steps
use ketapod_website.Base.{Bool, true, false, Option, none, some, List, [], ◌∷◌, if◌then◌else◌}
use ketapod_website.Schema.{Error, Db}

pub data Result (A : Type 0) : Type 0 where
  ok : A → Result A
  err : Error → Result A

pub record World : Type 0 where
  pub db : Db
  pub faults : List Bool

abbrev pub M : Type 0 → Type 0
M A = World → Result A × World

-- `errors.Is(err, pgx.ErrNoRows)` turned into an error of the module.
abbrev pub or_fail : {A : Type 0} → Error → Option A → Result A
or_fail e none = err e
or_fail e (some a) = ok a

module _ {A : Type 0} where
  abbrev pub pure : A → M A
  pure a w = (ok a, w)

  abbrev pub raise : Error → M A
  raise e w = (err e, w)

  unfoldable pub lift : Result A → M A
  lift r w = (r, w)

abbrev pub then_run : {A B : Type 0} → Result A × World → (A → M B) → Result B × World
then_run (ok a, w) f = f a w
then_run (err e, w) f = (err e, w)

infixl 5 ◌>>=◌ ◌>>◌
abbrev pub ◌>>=◌ : {A B : Type 0} → M A → (A → M B) → M B
◌>>=◌ m f w = then_run (m w) f

abbrev pub ◌>>◌ : {A B : Type 0} → M A → M B → M B
m >> k = m >>= λ _. k

unfoldable pub when : Bool → M (Unit {0}) → M (Unit {0})
when b m = if b then m else pure tt

unfoldable pub raise_if : Bool → Error → M (Unit {0})
raise_if b e = if b then raise e else pure tt

abbrev pub recast_result : {A : Type 0} → Error → Result A → Result A
recast_result e (ok a) = ok a
recast_result e (err e') = err e

abbrev pub is_faulty : List Bool → Bool
is_faulty [] = false
is_faulty (b ∷ bs) = b

abbrev pub later : List Bool → List Bool
later [] = []
later (b ∷ bs) = bs

module _ {A : Type 0} where
  abbrev pub run_query : Bool → List Bool → Db → Result A × Db → Result A × World
  run_query true fs db r = (err Error.storage, record { db = db; faults = fs })
  run_query false fs db (r, db') = (r, record { db = db'; faults = fs })

  -- One statement. It fails by the schedule, and then changes nothing.
  unfoldable pub query : (Db → Result A × Db) → M A
  query q w = run_query (is_faulty w.faults) (later w.faults) w.db (q w.db)

  -- A statement that only reads.
  unfoldable pub reads : (Db → A) → M A
  unfolding query
  reads f = query (λ db. (ok (f db), db))

  abbrev pub roll_back : Db → Result A × World → Result A × World
  roll_back db (ok a, w) = (ok a, w)
  roll_back db (err e, w) = (err e, record w { db = db })

  -- `InTx`: the changes stay only if the function and the commit both succeed.
  unfoldable pub in_tx : M A → M A
  unfolding query
  in_tx m w = roll_back w.db ((m >>= λ a. query (λ db. (ok a, db))) w)

  -- The error of a run as a value.
  unfoldable pub caught : M A → M (Result A)
  caught m w = (ok (m w).0, (m w).1)

  -- An error of whatever kind answered with this one.
  unfoldable pub recast : Error → M A → M A
  recast e m w = (recast_result e (m w).0, (m w).1)
