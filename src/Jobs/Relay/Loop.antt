-- ===== src/Jobs/Relay/Loop.antt =====
-- The loop of `Run` of backend/internal/platform/outbox/relay.go that drains the outbox before the
-- relay sleeps.
use ketapod_website.Base.{
  ℕ, zero, suc, ◌+◌, ◌≤◌, ◌<◌, ◌≡◌, refl, sym, ap, ◌∙◌, inl, inr, Bool, true, false, ◌&&◌, Option,
  none, some, List, [], ◌∷◌, any, ltb, arith, Bool-cases, ==_refl, length, select, count, take,
  length-select, count-update_where-le, count-update_where-lt_any,
}
use ketapod_website.Jobs.{claim, mark_dispatched, to_dispatched, is_ready, sort_rows}
use ketapod_website.Jobs.Model.{OutboxRow}
use ketapod_website.Jobs.Relay.{RelayConfig, Batch, dispatch_rows, dispatch_claimed, dispatch_batch}
use ketapod_website.Jobs.Relay.Drain.{
  has_id, is_ready_at, any-select, any-sort_rows, length-sort_rows, dispatch_batch_drains,
}
use ketapod_website.Schema.{Db}
use ketapod_website.Store.{ok, err, World, query, reads}

abbrev pub after_batch : ℕ → Batch → (World → Option World) → Option World
after_batch size ((err e, w), sent) k = some w
after_batch size ((ok n, w), sent) k = elim (ltb n size) [ true ↦ some w | false ↦ k w ]

-- The inner loop of `Run`; `none` is running out of fuel.
unfoldable pub drain : (OutboxRow → Bool) → ℕ → RelayConfig → ℕ → World → Option World
drain refuses cause config zero w = none
drain refuses cause config (suc f) w =
    after_batch config.batch_size (dispatch_batch refuses cause config w)
      (drain refuses cause config f)

last_batch :
    (size n : ℕ) (w : World) (sent : List OutboxRow) (k : World → Option World)
    → ltb n size ≡ true
    → after_batch size ((ok n, w), sent) k ≡ some w
last_batch size n w sent k h = ground arith

full_batch :
    (size n : ℕ) (w : World) (sent : List OutboxRow) (k : World → Option World)
    → ltb n size ≡ false
    → after_batch size ((ok n, w), sent) k ≡ k w
full_batch size n w sent k h = ground arith

take-short : (n : ℕ) (xs : List OutboxRow) → length (take n xs) < n → length xs ≤ n
take-short zero xs h = absurd (omega arith)
take-short (suc n) [] h = omega arith
take-short (suc n) (x ∷ xs) h = omega (arith, take-short n xs (omega arith))

-- A batch that is not full has claimed all that is ready.
claim-short :
    (limit : ℕ) (db : Db)
    → length (claim limit db) < limit
    → count (is_ready db.now) db.outbox ≤ limit
unfolding claim
claim-short limit db h = omega (
  arith,
  take-short limit (sort_rows (select (is_ready db.now) db.outbox)) h,
  length-sort_rows (select (is_ready db.now) db.outbox),
  length-select {0} (is_ready db.now) db.outbox,
)

any-swap :
    (now i : ℕ) (xs : List OutboxRow)
    → any (is_ready_at now i) xs ≡ true
    → any (λ x. is_ready now x && has_id i x) xs ≡ true
any-swap now i [] h = h
any-swap now i (x ∷ xs) h = ground (arith, any-swap now i xs)

take-any :
    (n i : ℕ) (xs : List OutboxRow) → any (has_id i) (take n xs) ≡ true → any (has_id i) xs ≡ true
take-any zero i xs h = cc
take-any (suc n) i [] h = cc
take-any (suc n) i (x ∷ xs) h = ground (arith, take-any n i xs)

-- What is claimed is ready.
claimed_ready :
    (limit : ℕ) (db : Db) (r : OutboxRow) (rows : List OutboxRow)
    → claim limit db ≡ r ∷ rows
    → any (λ x. is_ready db.now x && has_id r.id x) db.outbox ≡ true
unfolding claim
claimed_ready limit db r rows e = any-swap db.now r.id db.outbox (
    sym (any-select db.now r.id db.outbox)
    ∙ sym (any-sort_rows r.id (select (is_ready db.now) db.outbox))
    ∙ take-any limit r.id (sort_rows (select (is_ready db.now) db.outbox))
        (ap (any (has_id r.id)) e ∙ rw (==_refl r.id)))

to_dispatched_idle : (now : ℕ) (x : OutboxRow) → is_ready now (to_dispatched now x) ≡ false
to_dispatched_idle now x = refl

idle_never :
    (now : ℕ) (x : OutboxRow) → is_ready now (to_dispatched now x) ≡ true → is_ready now x ≡ true
idle_never now x h = cc

module _ (refuses : OutboxRow → Bool) (cause : ℕ) (config : RelayConfig)
    (takes : (r : OutboxRow) → refuses r ≡ false) where
  dispatch_rows-count :
      (rows : List OutboxRow) (n : ℕ) (db : Db)
      → (d : Db) × (dispatch_rows refuses cause config rows n (record { db = db; faults = [] })
          ≡ ((ok (length rows + n), record { db = d; faults = [] }), rows))
        × (d.now ≡ db.now)
        × (count (is_ready db.now) d.outbox ≤ count (is_ready db.now) db.outbox)
  unfolding dispatch_rows query mark_dispatched
  dispatch_rows-count [] n db = (db, ground arith, refl, omega arith)
  dispatch_rows-count (r ∷ rows) n db =
      let (d, e, same, fewer) = dispatch_rows-count rows (suc n) (mark_dispatched r.id db) in
      (
        d,
        rw (takes r, e) (ground arith),
        same,
        omega (
          arith,
          fewer,
          count-update_where-le (is_ready db.now) (has_id r.id) (to_dispatched db.now)
              (idle_never db.now) db.outbox,
        ),
      )

  -- What a batch leaves when it claims these rows: fewer ready ones, if there are any.
  unfoldable Leaves : Db → List OutboxRow → Batch → Type 0
  Leaves db rows b =
      (d : Db) × (b ≡ ((ok (length rows), record { db = d; faults = [] }), rows))
      × (0 < length rows → count (is_ready d.now) d.outbox < count (is_ready db.now) db.outbox)

  dispatch_claimed-Leaves :
      (rows : List OutboxRow) (db : Db)
      → claim config.batch_size db ≡ rows
      → Leaves db rows
          (dispatch_claimed refuses cause config db (ok rows, record { db = db; faults = [] }))
  unfolding Leaves query dispatch_rows mark_dispatched
  dispatch_claimed-Leaves [] db e = (db, refl, λ h. absurd (omega arith))
  dispatch_claimed-Leaves (r ∷ rows) db e =
      let (d, run, same, fewer) = dispatch_rows-count rows 1 (mark_dispatched r.id db) in
      (
        d,
        rw (takes r, run) (ground arith),
        λ h. rw same (
            omega (
              arith,
              fewer,
              count-update_where-lt_any (is_ready db.now) (has_id r.id) (to_dispatched db.now)
                  (to_dispatched_idle db.now) db.outbox
                  (claimed_ready config.batch_size db r rows e),
            )),
      )

  dispatch_batch-Leaves :
      (db : Db)
      → Leaves db
          (claim config.batch_size db)
          (dispatch_batch refuses cause config (record { db = db; faults = [] }))
  unfolding dispatch_batch query reads
  dispatch_batch-Leaves db = dispatch_claimed-Leaves (claim config.batch_size db) db refl

  -- Where no statement and no enqueue fails, the relay's inner loop ends, and it leaves nothing that
  -- is ready, however many rows are: fuel above their number is enough. (A batch has room for a row.)
  pub drain_ends :
      (fuel : ℕ) (db : Db)
      → 0 < config.batch_size
      → count (is_ready db.now) db.outbox < fuel
      → (d : Db) × (drain refuses cause config fuel (record { db = db; faults = [] })
          ≡ some (record { db = d; faults = [] }))
        × (any (is_ready d.now) d.outbox ≡ false)
  unfolding drain Leaves
  drain_ends zero db room enough = absurd (omega arith)
  drain_ends (suc fuel) db room enough =
      let (d, run, fewer) = dispatch_batch-Leaves db in
      elim (Bool-cases (ltb (length (claim config.batch_size db)) config.batch_size)) [
        | inl last ↦ (
          d,
          rw run (
              last_batch _ _ _ (claim config.batch_size db) (drain refuses cause config fuel) last),
          rw run at
              (dispatch_batch_drains refuses cause config takes (record { db = db; faults = [] })
                refl (claim-short config.batch_size db (ground arith))).2,
        )
        | inr more ↦
            let (d', ends, idle) = drain_ends fuel d room (ground (arith, fewer)) in
            (
              d',
              rw run (
                  full_batch _ _ (record { db = d; faults = [] }) (claim config.batch_size db)
                    (drain refuses cause config fuel) more
                  ∙ ends),
              idle,
            )
      ]
