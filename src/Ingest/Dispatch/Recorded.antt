-- ===== src/Ingest/Dispatch/Recorded.antt =====
-- What the handler of backend/internal/ingest/task.go tells the queue, beside what the submission shows.
use ketapod_website.Base.{
  ◌≢◌, ◌⊎◌, Option, none, take, ℕ, ◌≡◌, refl, ap, ◌∙◌, inl, inr, Bool, true, false, [], some, ◌==◌,
  ==_refl, any, find-update_where, find_passes, update_where, Bool-cases,
}
use ketapod_website.Base.Text.{Bytes}
use ketapod_website.Ingest.Model.{DispatchStatus, Submission}
use ketapod_website.Ingest.Submit.{
  type_dispatch, dispatch_task, enqueue_task, is_submission, submission_of, change_submission,
}
use ketapod_website.Ingest.Dispatch.{
  to_dispatched, to_failed, to_pending, mark_dispatched, mark_dispatch_failed,
  mark_dispatch_pending, get_row, redispatch, Outcome, done, skip_retry, retry_later, outcome_of,
  fail_with, start_with, dispatch, process_dispatch,
}
use ketapod_website.Jobs.{write, new_row, is_keyed}
use ketapod_website.Schema.{Error, Db}
use ketapod_website.Store.{Result, ok, err, World, reads, query, lift, caught}
use ketapod_website.Store.Rules.{Ensures}
use ketapod_website.Store.Steps.{Ensures-step, Ensures-write}
use ketapod_website.Store.Reads.{Reads, Reads-reads, Reads-or_fail, Ensures-Reads}

-- The row of a submission after a mark.
pub changed_row :
    (id : ℕ) (f : Submission → Submission) (db : Db) (s : Submission)
    → ((x : Submission) → (f x).id ≡ x.id)
    → submission_of id db ≡ some s
    → submission_of id
        (record db { submissions = update_where (is_submission id) f db.submissions })
      ≡ some (f s)
unfolding submission_of
changed_row id f db s same found =
    find-update_where (is_submission id) (is_submission id) f (λ x. ap (λ k. k == id) (same x))
      db.submissions found
    ∙ (rw (find_passes (is_submission id) db.submissions found))

-- How a job is to end: whether the AI service is configured, what it answers, what the queue is told,
-- and the status and the error that the submission shows. A missing configuration and a submission that
-- is not there are not tried again; every other failure is.
pub data Ends (text_of : Error → Bytes)
    : Bool → Result (Unit {0}) → Outcome → DispatchStatus → Option Bytes → Type 0 where
  accepted : (u : Unit {0}) → Ends text_of true (ok u) done DispatchStatus.dispatched none
  unconfigured :
      (answer : Result (Unit {0}))
      → Ends text_of false answer
          (skip_retry Error.ai_not_configured)
          DispatchStatus.failed
          (some (take 500 (text_of Error.ai_not_configured)))
  hopeless :
      (e : Error)
      → (e ≡ Error.ai_not_configured) ⊎ (e ≡ Error.not_found)
      → Ends text_of true (err e) (skip_retry e) DispatchStatus.failed (some (take 500 (text_of e)))
  passing :
      (e : Error)
      → e ≢ Error.ai_not_configured
      → e ≢ Error.not_found
      → Ends text_of true
          (err e)
          (retry_later e)
          DispatchStatus.failed
          (some (take 500 (text_of e)))

abbrev Marked : ℕ → (Db → Submission → Submission) → Db → World
Marked id f db = record {
  db = record db { submissions = update_where (is_submission id) (f db) db.submissions };
  faults = [];
}

module _ (start : Submission → Result (Unit {0})) (text_of : Error → Bytes) where
  -- How a dispatch ends, and the mark that it leaves.
  abbrev end_of : Bool → Result (Unit {0}) → Result (Unit {0})
  end_of false answer = err Error.ai_not_configured
  end_of true answer = answer

  abbrev mark_of : Bool → Result (Unit {0}) → Db → Submission → Submission
  mark_of false answer = to_failed (text_of Error.ai_not_configured)
  mark_of true (ok u) = to_dispatched
  mark_of true (err e) = to_failed (text_of e)

  start_run :
      (configured : Bool) (id : ℕ) (db : Db) (s : Submission) (answer : Result (Unit {0}))
      → start s ≡ answer
      → start_with configured start text_of id s (record { db = db; faults = [] })
        ≡ (end_of configured answer, Marked id (mark_of configured answer) db)
  unfolding start_with fail_with mark_dispatched mark_dispatch_failed change_submission query caught
  start_run false id db s answer e = refl
  start_run true id db s (ok tt) e = rw e
  start_run true id db s (err x) e = rw e

  dispatch_run :
      (configured : Bool) (id : ℕ) (db : Db) (s : Submission)
      → submission_of id db ≡ some s
      → dispatch configured start text_of id (record { db = db; faults = [] })
        ≡ (end_of configured (start s), Marked id (mark_of configured (start s)) db)
  unfolding dispatch get_row reads query lift
  dispatch_run configured id db s found = rw found (start_run configured id db s (start s) refl)

  failed-Ends :
      (e : Error)
      → Ends text_of true
          (err e)
          (outcome_of (err e))
          DispatchStatus.failed
          (some (take 500 (text_of e)))
  failed-Ends Error.ai_not_configured = hopeless Error.ai_not_configured (inl refl)
  failed-Ends Error.not_found = hopeless Error.not_found (inr refl)
  failed-Ends e = passing e (λ h. cc h) (λ h. cc h)

  run-Ends :
      (configured : Bool) (answer : Result (Unit {0})) (db : Db) (s : Submission)
      → Ends text_of configured answer
          (outcome_of (end_of configured answer))
          (mark_of configured answer db s).dispatch_status
          (mark_of configured answer db s).dispatch_error
  run-Ends false answer db s = unconfigured answer
  run-Ends true (ok tt) db s = accepted tt
  run-Ends true (err e) db s = failed-Ends e

  same_id :
      (configured : Bool) (answer : Result (Unit {0})) (db : Db) (x : Submission)
      → (mark_of configured answer db x).id ≡ x.id
  same_id false answer db x = refl
  same_id true (ok u) db x = refl
  same_id true (err e) db x = refl

  -- Where no statement fails, a job for a submission that is there ends as it is to end, by whether the AI
  -- service is configured and what it answers: it is done if the service accepts the work; it is dropped if
  -- the service is not configured or the answer is that nothing is there; it is tried again after any other
  -- failure. The submission then shows it: dispatched and without an error, or failed with the error's text,
  -- cut at 500.
  pub process_dispatch_records :
      (configured : Bool) (id : ℕ) (db : Db) (s : Submission)
      → submission_of id db ≡ some s
      → (o : Outcome) × ((process_dispatch configured start text_of id
            (record { db = db; faults = [] })).0
          ≡ ok o)
        × (s' : Submission) × (submission_of id
              (process_dispatch configured start text_of id (record { db = db; faults = [] })).1.db
            ≡ some s')
        × Ends text_of configured (start s) o s'.dispatch_status s'.dispatch_error
  unfolding process_dispatch caught
  process_dispatch_records configured id db s found = (
    outcome_of (end_of configured (start s)),
    rw (dispatch_run configured id db s found) refl,
    mark_of configured (start s) db s,
    rw (dispatch_run configured id db s found) (
        changed_row id (mark_of configured (start s) db) db s (same_id configured (start s) db)
          found),
    run-Ends configured (start s) db s,
  )

pub get_row-Reads :
    (id : ℕ) (w : World) → Reads (λ s. submission_of id w.db ≡ some s) w.db (get_row id w)
unfolding get_row
get_row-Reads id w =
    Reads-reads _ (submission_of id) _ w
      λ fs. Reads-or_fail _ (submission_of id w.db) (record { db = w.db; faults = fs })

abbrev IsQueued : ℕ → Db → Type 0
IsQueued id db =
    ((s : Submission) × (submission_of id db ≡ some s)
      × (s.dispatch_status ≡ DispatchStatus.pending))
    × (any (is_keyed type_dispatch id) db.outbox ≡ true)

write-Queued :
    (clock id : ℕ) (db : Db) (s : Submission)
    → submission_of id db ≡ some s
    → s.dispatch_status ≡ DispatchStatus.pending
    → IsQueued id (write clock (dispatch_task id) db)
unfolding write dispatch_task new_row submission_of
write-Queued clock id db s found waits =
    elim (Bool-cases (any (is_keyed type_dispatch id) db.outbox)) [
      | inl there ↦ rw there ((s, found, waits), there)
      | inr absent ↦ rw absent ((s, found, waits), rw (==_refl id))
    ]

-- A submission that is sent again is pending, and a pending job for it waits in the outbox: the one
-- that was already there, or a new one.
pub redispatch_queues :
    (clock id : ℕ) (w : World)
    → Ensures
        (λ u db.
          ((s : Submission) × (submission_of id db ≡ some s)
            × (s.dispatch_status ≡ DispatchStatus.pending))
          × (any (is_keyed type_dispatch id) db.outbox ≡ true))
        (redispatch clock id w)
unfolding redispatch enqueue_task mark_dispatch_pending change_submission
redispatch_queues clock id w =
    Ensures-Reads _ (λ u db. IsQueued id db) w.db _ _ (get_row-Reads id w)
      λ s fs found.
        Ensures-step (λ u db. IsQueued id db) _ _ _
          λ x fs' e.
            Ensures-write (λ u db. IsQueued id db) _ _
              (write-Queued clock id _ (to_pending w.db s)
                (changed_row id (to_pending w.db) w.db s (λ x. refl) found) refl)
