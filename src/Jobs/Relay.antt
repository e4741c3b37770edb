-- ===== src/Jobs/Relay.antt =====
-- `DispatchBatch` of backend/internal/platform/outbox/relay.go. Whether the queue takes a job is a
-- parameter; what it took stays sent when the transaction is rolled back.
pub mod Follows
pub mod Safety
pub mod Drain
pub mod Loop
use ketapod_website.Base.{ℕ, zero, suc, Bool, true, false, List, [], ◌∷◌, if◌then◌else◌, ◌==◌}
use ketapod_website.Jobs.{claim, mark_dispatched, mark_attempt_failed}
use ketapod_website.Jobs.Model.{OutboxRow}
use ketapod_website.Schema.{Error, Db}
use ketapod_website.Store.{
  Result, ok, err, World, then_run, query, reads, roll_back, is_faulty, later,
}

-- `RelayConfig`, without the times of the tickers.
pub record RelayConfig : Type 0 where
  pub batch_size : ℕ
  pub max_dispatch_attempts : ℕ
  pub retention : ℕ

-- `withDefaults`, with the retention in hours.
unfoldable pub with_defaults : RelayConfig → RelayConfig
with_defaults c = record {
  batch_size = if c.batch_size == 0 then 100 else c.batch_size;
  max_dispatch_attempts = if c.max_dispatch_attempts == 0 then 10 else c.max_dispatch_attempts;
  retention = if c.retention == 0 then 168 else c.retention;
}

-- What a batch returns, the state after it, and the rows that the queue has taken.
abbrev pub Batch : Type 0
Batch = (Result ℕ × World) × List OutboxRow

abbrev pub after_mark : Result (Unit {0}) × World → (World → Batch) → Batch
after_mark (ok x, w) k = k w
after_mark (err e, w) k = ((err e, w), [])

abbrev pub log_sent : OutboxRow → Batch → Batch
log_sent r (x, sent) = (x, r ∷ sent)

abbrev pub commit : Db → Batch → Batch
commit db (x, sent) = (roll_back db (then_run x (λ n. query (λ d. (ok n, d)))), sent)

module _ (refuses : OutboxRow → Bool) (cause : ℕ) (config : RelayConfig) where
  -- The loop over the claimed rows; `n` are dispatched so far.
  unfoldable pub dispatch_rows : List OutboxRow → ℕ → World → Batch
  dispatch_rows [] n w = ((ok n, w), [])
  dispatch_rows (r ∷ rows) n w =
      if refuses r
      then after_mark
          (query (λ db. (ok tt, mark_attempt_failed r.id cause config.max_dispatch_attempts db)) w)
          (dispatch_rows rows n)
      else log_sent r (
          after_mark (query (λ db. (ok tt, mark_dispatched r.id db)) w)
            (dispatch_rows rows (suc n)))

  abbrev pub dispatch_claimed : Db → Result (List OutboxRow) × World → Batch
  dispatch_claimed db (err e, w) = ((err e, w), [])
  dispatch_claimed db (ok [], w) = ((ok 0, w), [])
  dispatch_claimed db (ok (r ∷ rows), w) = commit db (dispatch_rows (r ∷ rows) 0 w)

  abbrev pub after_begin : Result (Unit {0}) × World → Batch
  after_begin (err e, w) = ((err e, w), [])
  after_begin (ok x, w) = dispatch_claimed w.db (reads (claim config.batch_size) w)

  -- `DispatchBatch`
  unfoldable pub dispatch_batch : World → Batch
  unfolding dispatch_rows
  dispatch_batch w = after_begin (query (λ db. (ok tt, db)) w)
