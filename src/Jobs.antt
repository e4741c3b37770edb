-- ===== src/Jobs.antt =====
-- The outbox: `Write`, `Claim`, the marks, `ReadStats` and `Purge` of
-- backend/internal/platform/outbox/outbox.go, on the table jobs.outbox of migration 00013.
pub mod Model
pub mod Dedupe
pub mod Relay
mod Tests
use ketapod_website.Base.{
  ℕ, zero, suc, ◌+◌, ◌-◌, ◌*◌, ◌^◌, Bool, true, false, not, ◌&&◌, Option, none, some, List, [], ◌∷◌,
  leb, ltb, ◌==◌, if◌then◌else◌, holds, any, count, select, update_where, take,
}
use ketapod_website.Jobs.Model.{TaskStatus, pending, dispatched, failed, OutboxRow, Task, Stats}
use ketapod_website.Schema.{Db}

abbrev pub queue_critical : ℕ
queue_critical = 0

abbrev pub queue_default : ℕ
queue_default = 1

abbrev pub or_else : Option ℕ → ℕ → ℕ
or_else none d = d
or_else (some a) d = a

abbrev pub is_pending : OutboxRow → Bool
is_pending r = elim r.status [ pending ↦ true | _ ↦ false ]

abbrev pub is_dispatched : OutboxRow → Bool
is_dispatched r = elim r.status [ dispatched ↦ true | _ ↦ false ]

abbrev pub is_failed : OutboxRow → Bool
is_failed r = elim r.status [ failed ↦ true | _ ↦ false ]

-- The rows that the unique index idx_outbox_dedupe holds under this key.
abbrev pub is_keyed : ℕ → ℕ → OutboxRow → Bool
is_keyed task_type key r = r.task_type == task_type && holds r.dedupe_key key && is_pending r

abbrev pub conflicts : Option ℕ → ℕ → List OutboxRow → Bool
conflicts none task_type rows = false
conflicts (some key) task_type rows = any (is_keyed task_type key) rows

unfoldable pub new_row : ℕ → Task → Db → OutboxRow
new_row clock task db = record {
  id = db.next_id;
  task_type = task.task_type;
  payload = task.payload;
  queue = or_else task.queue queue_default;
  max_retry = if task.max_retry == 0 then 3 else task.max_retry;
  attempts = 0;
  last_error = none;
  dedupe_key = task.dedupe_key;
  status = pending;
  available_at = or_else task.available_at clock;
  created_at = db.now;
  dispatched_at = none;
}

-- `Write`: ON CONFLICT DO NOTHING.
unfoldable pub write : ℕ → Task → Db → Db
write clock task db =
    if conflicts task.dedupe_key task.task_type db.outbox
    then db
    else record db { next_id = suc db.next_id; outbox = new_row clock task db ∷ db.outbox }

abbrev pub is_ready : ℕ → OutboxRow → Bool
is_ready now r = is_pending r && leb r.available_at now

-- A row goes before the rows that are available later.
abbrev pub insert_row : OutboxRow → List OutboxRow → List OutboxRow
insert_row r [] = r ∷ []
insert_row r (s ∷ rest) =
    if leb s.available_at r.available_at then s ∷ insert_row r rest else r ∷ s ∷ rest

-- ORDER BY available_at, created_at, of rows that stand newest first.
unfoldable pub sort_rows : List OutboxRow → List OutboxRow
sort_rows [] = []
sort_rows (r ∷ rest) = insert_row r (sort_rows rest)

-- `Claim`
unfoldable pub claim : ℕ → Db → List OutboxRow
claim limit db = take limit (sort_rows (select (is_ready db.now) db.outbox))

abbrev pub to_dispatched : ℕ → OutboxRow → OutboxRow
to_dispatched now r = record r {
  status = dispatched;
  dispatched_at = some now;
  attempts = suc r.attempts;
}

-- `MarkDispatched`
unfoldable pub mark_dispatched : ℕ → Db → Db
mark_dispatched i db = record db {
  outbox = update_where (λ r. r.id == i) (to_dispatched db.now) db.outbox;
}

-- 10 seconds, doubled for each attempt so far, six times at most.
unfoldable pub backoff : ℕ → ℕ
backoff attempts = 10 * 2 ^ (if ltb attempts 6 then attempts else 6)

abbrev pub to_failed_attempt : ℕ → ℕ → ℕ → OutboxRow → OutboxRow
to_failed_attempt now max cause r = record r {
  attempts = suc r.attempts;
  last_error = some cause;
  status = if leb max (suc r.attempts) then failed else pending;
  available_at = now + backoff r.attempts;
}

-- `MarkAttemptFailed`
unfoldable pub mark_attempt_failed : ℕ → ℕ → ℕ → Db → Db
mark_attempt_failed i cause max db = record db {
  outbox = update_where (λ r. r.id == i) (to_failed_attempt db.now max cause) db.outbox;
}

abbrev pub earlier_of : ℕ → Option ℕ → ℕ
earlier_of t none = t
earlier_of t (some u) = if ltb u t then u else t

-- min(created_at) of the pending rows
abbrev pub oldest_pending : List OutboxRow → Option ℕ
oldest_pending [] = none
oldest_pending (r ∷ rows) =
    let rest = oldest_pending rows in
    if is_pending r then some (earlier_of r.created_at rest) else rest

-- `ReadStats`
unfoldable pub read_stats : Db → Stats
read_stats db = record {
  pending = count is_pending db.outbox;
  failed = count is_failed db.outbox;
  oldest_age = elim (oldest_pending db.outbox) [ none ↦ none | some t ↦ some (db.now - t) ];
}

-- A row that `Purge` deletes.
abbrev pub is_purged : ℕ → ℕ → OutboxRow → Bool
is_purged now older_than r =
    is_dispatched r && elim r.dispatched_at [ none ↦ false | some t ↦ ltb (t + older_than) now ]

-- `Purge`: how many it deleted, and the rest.
unfoldable pub purge : ℕ → Db → ℕ × Db
purge older_than db = (
  count (is_purged db.now older_than) db.outbox,
  record db { outbox = select (λ r. not (is_purged db.now older_than r)) db.outbox },
)
