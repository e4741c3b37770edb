-- ===== src/Jobs/Model.antt =====
-- `Record`, with the columns of jobs.outbox, `Task` and `Stats` of
-- backend/internal/platform/outbox/outbox.go. The payload is what the task handler gets, not looked into.
use ketapod_website.Base.{ℕ, Option, List}

pub data TaskStatus : Type 0 where
  pending dispatched failed : TaskStatus

pub record OutboxRow : Type 0 where
  pub id : ℕ
  pub task_type : ℕ
  pub payload : List ℕ
  pub queue : ℕ
  pub max_retry : ℕ
  pub attempts : ℕ
  pub last_error : Option ℕ
  pub dedupe_key : Option ℕ
  pub status : TaskStatus
  pub available_at : ℕ
  pub created_at : ℕ
  pub dispatched_at : Option ℕ

-- `Task`: an empty queue or key and a zero time are `none`.
pub record Task : Type 0 where
  pub task_type : ℕ
  pub payload : List ℕ
  pub queue : Option ℕ
  pub max_retry : ℕ
  pub dedupe_key : Option ℕ
  pub available_at : Option ℕ

-- `Stats`
pub record Stats : Type 0 where
  pub pending : ℕ
  pub failed : ℕ
  pub oldest_age : Option ℕ
