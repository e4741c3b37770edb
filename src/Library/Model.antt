-- ===== src/Library/Model.antt =====
-- The rows of listening of backend/internal/library/model.go. Seconds of a position are in
-- thousandths, as they are stored.
use ketapod_website.Base.{ℕ, Option, Bool}
use ketapod_website.Base.Int.{ℤ}

pub record Position : Type 0 where
  pub id : ℕ
  pub user_id : ℕ
  pub profile_id : Option ℕ
  pub audio_edition_id : ℕ
  pub book_id : ℕ
  pub position_seconds : ℤ
  pub duration_seconds : ℤ
  pub is_finished : Bool
  pub device_updated_at : ℕ
  pub updated_at : ℕ

-- `PositionUpdate`; `none` is the zero time.
pub record PositionUpdate : Type 0 where
  pub audio_edition_id : ℕ
  pub profile_id : Option ℕ
  pub position_seconds : ℤ
  pub duration_seconds : ℤ
  pub is_finished : Bool
  pub device_updated_at : Option ℕ
  pub seconds_listened : ℤ

pub record ListeningEvent : Type 0 where
  pub user_id : ℕ
  pub profile_id : Option ℕ
  pub audio_edition_id : ℕ
  pub book_id : ℕ
  pub seconds_listened : ℕ
  pub occurred_at : ℕ
