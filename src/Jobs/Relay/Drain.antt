-- ===== src/Jobs/Relay/Drain.antt =====
-- A batch of backend/internal/platform/outbox/relay.go that meets no failure.
use ketapod_website.Base.{
  ℕ, zero, suc, ◌+◌, ◌≤◌, ◌≡◌, refl, ap, ◌∙◌, inl, inr, Bool, true, false, ◌&&◌, ◌||◌, List, [],
  ◌∷◌, any, ◌==◌, arith, Bool-cases, update_where, length, select, count, take, length-select,
}
use mathlib.Core.Path.{subst}
use ketapod_website.Jobs.{claim, mark_dispatched, to_dispatched, is_ready, insert_row, sort_rows}
use ketapod_website.Jobs.Model.{OutboxRow}
use ketapod_website.Jobs.Relay.{RelayConfig, Batch, dispatch_rows, dispatch_claimed, dispatch_batch}
use ketapod_website.Schema.{Db}
use ketapod_website.Store.{ok, World, query, reads}

abbrev pub has_id : ℕ → OutboxRow → Bool
has_id i r = r.id == i

-- A ready row with this id.
abbrev pub is_ready_at : ℕ → ℕ → OutboxRow → Bool
is_ready_at now i r = r.id == i && is_ready now r

-- Every ready row is among those that the batch has still to send.
abbrev Covered : List OutboxRow → ℕ → List OutboxRow → Type 0
Covered rows now xs = (i : ℕ) → any (is_ready_at now i) xs ≡ true → any (has_id i) rows ≡ true

pub any-select :
    (now i : ℕ) (xs : List OutboxRow)
    → any (has_id i) (select (is_ready now) xs) ≡ any (is_ready_at now i) xs
any-select now i [] = refl
any-select now i (x ∷ xs) = ground (arith, any-select now i xs)

any-insert_row :
    (i : ℕ) (r : OutboxRow) (xs : List OutboxRow)
    → any (has_id i) (insert_row r xs) ≡ any (has_id i) (r ∷ xs)
any-insert_row i r [] = refl
any-insert_row i r (x ∷ xs) = ground (arith, any-insert_row i r xs)

pub any-sort_rows :
    (i : ℕ) (xs : List OutboxRow) → any (has_id i) (sort_rows xs) ≡ any (has_id i) xs
unfolding sort_rows
any-sort_rows i [] = refl
any-sort_rows i (x ∷ xs) =
    any-insert_row i x (sort_rows xs) ∙ ap (λ b. (x.id == i) || b) (any-sort_rows i xs)

length-insert_row :
    (r : OutboxRow) (xs : List OutboxRow) → length (insert_row r xs) ≡ suc (length xs)
length-insert_row r [] = refl
length-insert_row r (x ∷ xs) = ground (arith, length-insert_row r xs)

pub length-sort_rows : (xs : List OutboxRow) → length (sort_rows xs) ≡ length xs
unfolding sort_rows
length-sort_rows [] = refl
length-sort_rows (x ∷ xs) = length-insert_row x (sort_rows xs) ∙ ap suc (length-sort_rows xs)

take_all : (n : ℕ) (xs : List OutboxRow) → length xs ≤ n → take n xs ≡ xs
take_all zero [] h = refl
take_all zero (x ∷ xs) h = absurd (omega arith)
take_all (suc n) [] h = refl
take_all (suc n) (x ∷ xs) h = ap (λ t. x ∷ t) (take_all n xs (omega arith))

-- With room for all the ready rows, all of them are claimed.
claim_all :
    (limit : ℕ) (db : Db)
    → count (is_ready db.now) db.outbox ≤ limit
    → claim limit db ≡ sort_rows (select (is_ready db.now) db.outbox)
unfolding claim
claim_all limit db h = take_all limit _ (
    omega (
      arith,
      h,
      length-sort_rows (select (is_ready db.now) db.outbox),
      length-select {0} (is_ready db.now) db.outbox,
    ))

claim-Covered :
    (limit : ℕ) (db : Db)
    → count (is_ready db.now) db.outbox ≤ limit
    → Covered (claim limit db) db.now db.outbox
claim-Covered limit db h i there =
    ap (any (has_id i)) (claim_all limit db h)
    ∙ any-sort_rows i (select (is_ready db.now) db.outbox)
    ∙ any-select db.now i db.outbox
    ∙ there

-- What is ready after a row is marked was ready before, and is another row.
any-to_dispatched :
    (now i j : ℕ) (xs : List OutboxRow)
    → any (is_ready_at now i) (update_where (has_id j) (to_dispatched now) xs) ≡ true
    → ((j == i) ≡ false) × (any (is_ready_at now i) xs ≡ true)
any-to_dispatched now i j [] h = cc
any-to_dispatched now i j (x ∷ xs) h = elim (Bool-cases (x.id == j)) [
  | inl hit ↦ ground (arith, any-to_dispatched now i j xs)
  | inr miss ↦ ground (arith, any-to_dispatched now i j xs)
]

Covered-to_dispatched :
    (r : OutboxRow) (rows : List OutboxRow) (now : ℕ) (xs : List OutboxRow)
    → Covered (r ∷ rows) now xs
    → Covered rows now (update_where (has_id r.id) (to_dispatched now) xs)
Covered-to_dispatched r rows now xs h i there =
    let (other, before) = any-to_dispatched now i r.id xs there in ground (arith, h i before)

none_ready : (now : ℕ) (xs : List OutboxRow) → Covered [] now xs → any (is_ready now) xs ≡ false
none_ready now [] h = refl
none_ready now (x ∷ xs) h =
    ground (arith, h x.id, none_ready now xs (λ i there. h i (ground arith)))

module _ (refuses : OutboxRow → Bool) (cause : ℕ) (config : RelayConfig)
    (takes : (r : OutboxRow) → refuses r ≡ false) where
  dispatch_rows-Covered :
      (rows : List OutboxRow) (n : ℕ) (db : Db)
      → Covered rows db.now db.outbox
      → (d : Db) × (dispatch_rows refuses cause config rows n (record { db = db; faults = [] })
          ≡ ((ok (length rows + n), record { db = d; faults = [] }), rows))
        × (any (is_ready db.now) d.outbox ≡ false)
        × (d.now ≡ db.now)
  unfolding dispatch_rows query mark_dispatched
  dispatch_rows-Covered [] n db h = (db, ground arith, none_ready db.now db.outbox h, refl)
  dispatch_rows-Covered (r ∷ rows) n db h =
      let (d, e, idle, same) =
        dispatch_rows-Covered rows (suc n) (mark_dispatched r.id db)
          (Covered-to_dispatched r rows db.now db.outbox h) in
      (d, rw (takes r, e) (ground arith), idle, same)

  abbrev Drains : ℕ → Batch → Type 0
  Drains n b =
      (b.0.0 ≡ ok n) × (length b.1 ≡ n) × (any (is_ready b.0.1.db.now) b.0.1.db.outbox ≡ false)

  dispatch_claimed-Drains :
      (rows : List OutboxRow) (db : Db)
      → Covered rows db.now db.outbox
      → Drains
          (length rows)
          (dispatch_claimed refuses cause config db (ok rows, record { db = db; faults = [] }))
  unfolding query
  dispatch_claimed-Drains [] db h = (refl, refl, none_ready db.now db.outbox h)
  dispatch_claimed-Drains (r ∷ rows) db h =
      let (d, e, idle, same) = dispatch_rows-Covered (r ∷ rows) 0 db h in
      rw e (ground arith, refl, rw same idle)

  claim-length :
      (db : Db)
      → count (is_ready db.now) db.outbox ≤ config.batch_size
      → length (claim config.batch_size db) ≡ count (is_ready db.now) db.outbox
  claim-length db room =
      ap length (claim_all config.batch_size db room)
      ∙ length-sort_rows (select (is_ready db.now) db.outbox)
      ∙ length-select (is_ready db.now) db.outbox

  -- A batch with room for every ready row, which no statement and no enqueue fails, sends as many
  -- rows as are ready, and leaves none.
  pub dispatch_batch_drains :
      (w : World)
      → w.faults ≡ []
      → count (is_ready w.db.now) w.db.outbox ≤ config.batch_size
      → ((dispatch_batch refuses cause config w).0.0 ≡ ok (count (is_ready w.db.now) w.db.outbox))
        × (length (dispatch_batch refuses cause config w).1 ≡ count (is_ready w.db.now) w.db.outbox)
        × (any
              (is_ready (dispatch_batch refuses cause config w).0.1.db.now)
              (dispatch_batch refuses cause config w).0.1.db.outbox
            ≡ false)
  unfolding dispatch_batch query reads
  dispatch_batch_drains w calm room = rw calm (
      subst
        (λ n. Drains n (
          dispatch_claimed refuses cause config w.db
            (ok (claim config.batch_size w.db), record { db = w.db; faults = [] })))
        (claim-length w.db room)
        (dispatch_claimed-Drains (claim config.batch_size w.db) w.db
          (claim-Covered config.batch_size w.db room)))
