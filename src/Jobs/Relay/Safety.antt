-- ===== src/Jobs/Relay/Safety.antt =====
-- What one batch of backend/internal/platform/outbox/relay.go does to each row.
use ketapod_website.Base.{
  ℕ, suc, ◌≡◌, ◌||◌, inl, inr, Bool, true, false, List, [], ◌∷◌, ◌==◌, arith, Bool-cases, ==_refl,
}
use ketapod_website.Jobs.{claim, mark_dispatched, mark_attempt_failed}
use ketapod_website.Jobs.Model.{OutboxRow}
use ketapod_website.Jobs.Relay.{
  RelayConfig, Batch, after_mark, commit, dispatch_rows, dispatch_claimed, after_begin,
  dispatch_batch,
}
use ketapod_website.Schema.{Db}
use ketapod_website.Store.{
  Result, ok, err, World, run_query, query, reads, roll_back, is_faulty, later,
}
use ketapod_website.Jobs.Relay.Follows.{
  is_sent, Follows, Zip, Zip-refl, Zip-trans, Zip-update_where, to_dispatched-Follows,
  to_failed_attempt-Follows,
}

or_left : {a : Bool} (b : Bool) → a ≡ true → (a || b) ≡ true
or_left b h = rw h

or_right : {b : Bool} (a : Bool) → b ≡ true → (a || b) ≡ true
or_right a h = ground arith

module _ (refuses : OutboxRow → Bool) (cause : ℕ) (config : RelayConfig) where
  -- What a batch may do, when the rows that it sends are among `all`.
  unfoldable IsSafe : List OutboxRow → Db → Batch → Type 0
  IsSafe all db (x, sent) =
      ((i : ℕ) → is_sent sent i ≡ true → is_sent all i ≡ true)
      → Zip (Follows config.max_dispatch_attempts all) db.outbox x.1.db.outbox

  after_query-IsSafe :
      (all : List OutboxRow) (f : Db → Db) (b : Bool) (fs : List Bool) (db : Db) (k : World → Batch)
      → Zip (Follows config.max_dispatch_attempts all) db.outbox (f db).outbox
      → ((w : World) → IsSafe all w.db (k w))
      → IsSafe all db (after_mark (run_query b fs db (ok tt, f db)) k)
  unfolding IsSafe
  after_query-IsSafe all f true fs db k step rest = λ within. Zip-refl _ all db.outbox
  after_query-IsSafe all f false fs db k step rest =
      λ within. Zip-trans _ all step (rest (record { db = f db; faults = fs }) within)

  failed_step :
      {all : List OutboxRow} (i : ℕ) (db : Db)
      → Zip
          (Follows config.max_dispatch_attempts all)
          db.outbox
          (mark_attempt_failed i cause config.max_dispatch_attempts db).outbox
  unfolding mark_attempt_failed
  failed_step {all} i db =
      Zip-update_where _ all i _ (λ x e. to_failed_attempt-Follows _ all db.now cause x) db.outbox

  sent_step :
      {all : List OutboxRow} (i : ℕ) (db : Db)
      → is_sent all i ≡ true
      → Zip (Follows config.max_dispatch_attempts all) db.outbox (mark_dispatched i db).outbox
  unfolding mark_dispatched
  sent_step {all} i db s =
      Zip-update_where _ all i _ (λ x e. to_dispatched-Follows _ all db.now i x s e) db.outbox

  dispatch_rows-IsSafe :
      (all rows : List OutboxRow) (n : ℕ) (w : World)
      → IsSafe all w.db (dispatch_rows refuses cause config rows n w)
  unfolding dispatch_rows IsSafe query
  dispatch_rows-IsSafe all [] n w = λ within. Zip-refl _ all w.db.outbox
  dispatch_rows-IsSafe all (r ∷ rows) n w = elim (Bool-cases (refuses r)) [
    | inl e ↦ rw e (
        after_query-IsSafe all (mark_attempt_failed r.id cause config.max_dispatch_attempts)
          (is_faulty w.faults) (later w.faults) w.db (dispatch_rows refuses cause config rows n)
          (failed_step r.id w.db) (λ w'. dispatch_rows-IsSafe all rows n w'))
    | inr e ↦ rw e λ within.
        after_query-IsSafe all (mark_dispatched r.id) (is_faulty w.faults) (later w.faults) w.db
          (dispatch_rows refuses cause config rows (suc n))
          (sent_step r.id w.db (within r.id (or_left _ (==_refl r.id))))
          (λ w'. dispatch_rows-IsSafe all rows (suc n) w')
          (λ i s. within i (or_right (r.id == i) s))
  ]

  roll_back_step :
      (all : List OutboxRow) (db d : Db) (n : ℕ) (b : Bool) (fs : List Bool)
      → Zip (Follows config.max_dispatch_attempts all) db.outbox d.outbox
      → Zip
          (Follows config.max_dispatch_attempts all)
          db.outbox
          (roll_back db (run_query {A = ℕ} b fs d (ok n, d))).1.db.outbox
  roll_back_step all db d n true fs h = Zip-refl _ all db.outbox
  roll_back_step all db d n false fs h = h

  commit-IsSafe :
      (all : List OutboxRow) (db : Db) (x : Result ℕ × World) (sent : List OutboxRow)
      → IsSafe all db (x, sent)
      → IsSafe all db (commit db (x, sent))
  unfolding IsSafe query
  commit-IsSafe all db (err e, w) sent h = λ within. Zip-refl _ all db.outbox
  commit-IsSafe all db (ok n, w) sent h =
      λ within. roll_back_step all db w.db n (is_faulty w.faults) (later w.faults) (h within)

  dispatch_claimed-IsSafe :
      (all : List OutboxRow) (db : Db) (b : Bool) (fs : List Bool) (rows : List OutboxRow)
      → IsSafe all db (dispatch_claimed refuses cause config db (run_query b fs db (ok rows, db)))
  unfolding IsSafe
  dispatch_claimed-IsSafe all db true fs rows = λ within. Zip-refl _ all db.outbox
  dispatch_claimed-IsSafe all db false fs [] = λ within. Zip-refl _ all db.outbox
  dispatch_claimed-IsSafe all db false fs (r ∷ rows) =
      commit-IsSafe all db
        (dispatch_rows refuses cause config (r ∷ rows) 0 (record { db = db; faults = fs })).0 _
        (dispatch_rows-IsSafe all (r ∷ rows) 0 (record { db = db; faults = fs }))

  after_begin-IsSafe :
      (all : List OutboxRow) (db : Db) (b : Bool) (fs : List Bool)
      → IsSafe all db (after_begin refuses cause config (run_query b fs db (ok tt, db)))
  unfolding IsSafe reads query
  after_begin-IsSafe all db true fs = λ within. Zip-refl _ all db.outbox
  after_begin-IsSafe all db false fs =
      dispatch_claimed-IsSafe all db (is_faulty fs) (later fs) (claim config.batch_size db)

  -- A batch loses no job, whichever jobs the queue refuses and whichever statement or commit fails:
  -- row for row the table keeps id, type and payload, the attempts do not go down, and a row is
  -- pending, or has the status that it had, or is dispatched and was sent to the queue in this
  -- batch, or has failed after the allowed number of attempts.
  pub dispatch_batch-Follows :
      (w : World)
      → Zip
          (Follows config.max_dispatch_attempts (dispatch_batch refuses cause config w).1)
          w.db.outbox
          (dispatch_batch refuses cause config w).0.1.db.outbox
  unfolding dispatch_batch query IsSafe
  dispatch_batch-Follows w =
      after_begin-IsSafe (dispatch_batch refuses cause config w).1 w.db (is_faulty w.faults)
        (later w.faults) (λ i s. s)
