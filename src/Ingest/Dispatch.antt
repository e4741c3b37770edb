-- ===== src/Ingest/Dispatch.antt =====
-- Telling the AI service: `Dispatch` and `Redispatch` of backend/internal/ingest/service.go, the handler of
-- task.go, and the marks of ingest.sql. What the AI service answers to a submission, whether it is
-- configured, and the text of an error are parameters.
pub mod Recorded
use ketapod_website.Base.{
  ℕ, Bool, true, false, Option, none, some, List, ◌==◌, if◌then◌else◌, find, update_where, take,
}
use ketapod_website.Base.Text.{Bytes}
use ketapod_website.Ingest.Model.{DispatchStatus, Submission}
use ketapod_website.Ingest.Submit.{
  dispatch_task, enqueue_task, is_submission, submission_of, change_submission,
}
use ketapod_website.Schema.{Error, Db}
use ketapod_website.Store.{
  Result, ok, err, M, pure, raise, reads, lift, or_fail, caught, ◌>>=◌, ◌>>◌,
}

abbrev pub to_dispatched : Db → Submission → Submission
to_dispatched db s = record s {
  dispatch_status = DispatchStatus.dispatched;
  dispatched_at = some db.now;
  dispatch_error = none;
}

abbrev pub to_failed : Bytes → Db → Submission → Submission
to_failed reason db s = record s {
  dispatch_status = DispatchStatus.failed;
  dispatch_error = some (take 500 reason);
}

abbrev pub to_pending : Db → Submission → Submission
to_pending db s = record s { dispatch_status = DispatchStatus.pending; dispatch_error = none }

-- `MarkDispatched`
unfoldable pub mark_dispatched : ℕ → M (Unit {0})
unfolding change_submission
mark_dispatched id = change_submission id to_dispatched

-- `MarkDispatchFailed`: 500 bytes of the reason.
unfoldable pub mark_dispatch_failed : ℕ → Bytes → M (Unit {0})
unfolding change_submission
mark_dispatch_failed id reason = change_submission id (to_failed reason)

-- `MarkDispatchPending`
unfoldable pub mark_dispatch_pending : ℕ → M (Unit {0})
unfolding change_submission
mark_dispatch_pending id = change_submission id to_pending

-- `Get` of the repository
unfoldable pub get_row : ℕ → M Submission
get_row id = do found ← reads (submission_of id); lift (or_fail Error.not_found found)

-- `Redispatch`
unfoldable pub redispatch : ℕ → ℕ → M (Unit {0})
redispatch clock id = do get_row id; mark_dispatch_pending id; enqueue_task clock (dispatch_task id)

-- What becomes of a job: it is done, dropped for good, or tried again.
pub data Outcome : Type 0 where
  done : Outcome
  skip_retry retry_later : Error → Outcome

-- The switch of `ProcessTask`.
abbrev pub outcome_of : Result (Unit {0}) → Outcome
outcome_of (ok u) = done
outcome_of (err Error.ai_not_configured) = skip_retry Error.ai_not_configured
outcome_of (err Error.not_found) = skip_retry Error.not_found
outcome_of (err e) = retry_later e

module _ (configured : Bool) (start : Submission → Result (Unit {0}))
    (text_of : Error → Bytes) where
  -- A failure is recorded, and whether that worked is not looked at.
  unfoldable pub fail_with : ℕ → Error → M (Unit {0})
  fail_with id e = do caught (mark_dispatch_failed id (text_of e)); raise e

  abbrev pub after_start : ℕ → Result (Unit {0}) → M (Unit {0})
  after_start id (ok u) = mark_dispatched id
  after_start id (err e) = fail_with id e

  unfoldable pub start_with : ℕ → Submission → M (Unit {0})
  start_with id s =
      if configured then after_start id (start s) else fail_with id Error.ai_not_configured

  -- `Dispatch`
  unfoldable pub dispatch : ℕ → M (Unit {0})
  dispatch id = do s ← get_row id; start_with id s

  -- `ProcessTask` of the dispatch handler, for a payload that reads.
  unfoldable pub process_dispatch : ℕ → M Outcome
  process_dispatch id = do r ← caught (dispatch id); pure (outcome_of r)
