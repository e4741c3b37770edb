-- ===== src/Jobs/Tests.antt =====
-- Two ready jobs of which the queue refuses one, and a job with a key.
use ketapod_website.Base.{
  ℕ, ◌≡◌, refl, Bool, false, ◌&&◌, ◌==◌, none, some, [], ◌∷◌, any, count, arith,
}
use ketapod_website.Jobs.{
  is_keyed, is_ready, new_row, write, sort_rows, claim, mark_dispatched, mark_attempt_failed,
  backoff,
}
use ketapod_website.Jobs.Dedupe.{write-count}
use ketapod_website.Jobs.Model.{pending, dispatched, OutboxRow, Task}
use ketapod_website.Jobs.Relay.{RelayConfig, dispatch_rows, dispatch_batch}
use ketapod_website.Jobs.Relay.Follows.{Follows, Zip}
use ketapod_website.Jobs.Relay.Loop.{drain, drain_ends}
use ketapod_website.Jobs.Relay.Safety.{dispatch_batch-Follows}
use ketapod_website.Samples.{no_rows}
use ketapod_website.Schema.{Db}
use ketapod_website.Store.{World, query, reads}

abbrev job : OutboxRow
job = record {
  id = 1;
  task_type = 1;
  payload = 5 ∷ [];
  queue = 0;
  max_retry = 3;
  attempts = 0;
  last_error = none;
  dedupe_key = none;
  status = pending;
  available_at = 40;
  created_at = 40;
  dispatched_at = none;
}

abbrev job_2 : OutboxRow
job_2 = record job { id = 2; available_at = 30 }

abbrev queued : World
queued = record { db = record no_rows { outbox = job ∷ job_2 ∷ [] }; faults = [] }

abbrev config : RelayConfig
config = record { batch_size = 100; max_dispatch_attempts = 10; retention = 168 }

abbrev refuses_first : OutboxRow → Bool
refuses_first r = r.id == 1

-- The older job is sent first, and the refused one waits.
one_refused :
    (dispatch_batch refuses_first 9 config queued).0.1.db.outbox
    ≡ record job { attempts = 1; last_error = some 9; available_at = 60 }
      ∷ record job_2 { attempts = 1; status = dispatched; dispatched_at = some 50 }
      ∷ []
unfolding dispatch_batch dispatch_rows claim sort_rows mark_dispatched mark_attempt_failed backoff
    query reads
one_refused = refl

dispatch_batch-Follows_example :
    Zip
      (Follows 10 (dispatch_batch refuses_first 9 config queued).1)
      queued.db.outbox
      (dispatch_batch refuses_first 9 config queued).0.1.db.outbox
dispatch_batch-Follows_example = dispatch_batch-Follows refuses_first 9 config queued

abbrev takes_all : OutboxRow → Bool
takes_all r = false

abbrev one_by_one : RelayConfig
one_by_one = record config { batch_size = 1 }

drain_ends_example :
    (d : Db) × (drain takes_all 9 one_by_one 3 queued ≡ some (record { db = d; faults = [] }))
    × (any (is_ready d.now) d.outbox ≡ false)
drain_ends_example =
    drain_ends takes_all 9 one_by_one (λ r. refl) 3 queued.db (omega arith) (omega arith)

abbrev summary : Task
summary = record {
  task_type = 7;
  payload = 3 ∷ [];
  queue = none;
  max_retry = 0;
  dedupe_key = some 11;
  available_at = none;
}

write-count_example :
    (count (is_keyed 7 11) (write 60 summary queued.db).outbox ≡ 1)
    × ((t k : ℕ)
        → (t == 7 && k == 11) ≡ false
        → count (is_keyed t k) (write 60 summary queued.db).outbox
          ≡ count (is_keyed t k) queued.db.outbox)
write-count_example = write-count 60 11 summary queued.db refl (omega arith)

-- The second of two writes under one key is dropped.
write_twice :
    (write 61 summary (write 60 summary queued.db)).outbox ≡ (write 60 summary queued.db).outbox
unfolding write new_row
write_twice = refl
