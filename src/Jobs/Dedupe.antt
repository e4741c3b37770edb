-- ===== src/Jobs/Dedupe.antt =====
-- The key of a job, in `Write` of backend/internal/platform/outbox/outbox.go.
use ketapod_website.Base.{
  ℕ, ◌≤◌, ◌≡◌, Bool, true, false, some, List, [], ◌∷◌, arith, ◌==◌, ◌&&◌, any, count, inl, inr,
  Bool-cases, refl,
}
use ketapod_website.Jobs.{is_keyed, new_row, write}
use ketapod_website.Jobs.Model.{OutboxRow, Task}
use ketapod_website.Schema.{Db}

any-count : (p : OutboxRow → Bool) (rows : List OutboxRow) → any p rows ≡ true → 1 ≤ count p rows
any-count p [] h = cc
any-count p (r ∷ rows) h = ground (arith, any-count p rows)

count-none : (p : OutboxRow → Bool) (rows : List OutboxRow) → any p rows ≡ false → count p rows ≡ 0
count-none p [] h = refl
count-none p (r ∷ rows) h = ground (arith, count-none p rows)

-- However often a task with a key is written, one pending row stands for it: where at most one does
-- before a write, exactly one does after it. The number of pending rows of every other pair of
-- a type and a key stays.
pub write-count :
    (clock key : ℕ) (task : Task) (db : Db)
    → task.dedupe_key ≡ some key
    → count (is_keyed task.task_type key) db.outbox ≤ 1
    → (count (is_keyed task.task_type key) (write clock task db).outbox ≡ 1)
      × ((t k : ℕ)
          → (t == task.task_type && k == key) ≡ false
          → count (is_keyed t k) (write clock task db).outbox ≡ count (is_keyed t k) db.outbox)
unfolding write new_row
write-count clock key task db named one =
    elim (Bool-cases (any (is_keyed task.task_type key) db.outbox)) [
      | inl there ↦ (
        ground (arith, any-count (is_keyed task.task_type key) db.outbox),
        λ t k other. ground arith,
      )
      | inr free ↦ (
        ground (arith, count-none (is_keyed task.task_type key) db.outbox),
        λ t k other. ground arith,
      )
    ]
