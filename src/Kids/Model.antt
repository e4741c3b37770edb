-- ===== src/Kids/Model.antt =====
-- The rows of backend/internal/kids/model.go, with the columns of the schema `kids` that the queries
-- read. A text of people is its code points; the hash of a PIN is its bytes.
use ketapod_website.Base.{ℕ, Bool, Option, List}
use ketapod_website.Base.Int.{ℤ}
use ketapod_website.Base.Text.{Bytes}
use ketapod_website.Kids.{Controls, Decision}

pub record ChildProfile : Type 0 where
  pub id : ℕ
  pub parent_user_id : ℕ
  pub display_name : List ℕ
  pub birth_year : Option ℤ
  pub age_years : ℤ
  pub avatar_key : Option ℕ
  pub is_active : Bool
  pub created_at : ℕ

-- A row of kids.parental_controls: the rules of the policy, and the columns that it does not read.
pub record ParentalControls : Type 0 where
  pub child_profile_id : ℕ
  pub rules : Controls
  pub exit_pin_hash : Option Bytes
  pub autodownload_wifi_only : Bool
  pub updated_at : ℕ

pub record ContentApproval : Type 0 where
  pub child_profile_id : ℕ
  pub book_id : ℕ
  pub decision : Decision
  pub decided_by : ℕ
  pub decided_at : ℕ

pub record AllowedPrompt : Type 0 where
  pub id : ℕ
  pub label : ℕ
  pub prompt : List ℕ
  pub min_age : ℤ
  pub max_age : ℤ
  pub sort_order : ℤ
  pub is_active : Bool

-- `ScreenTime` of service.go
pub record ScreenTime : Type 0 where
  pub seconds_today : ℤ
  pub remaining_seconds : ℤ
  pub within_hours : Bool

pub record DayTotal : Type 0 where
  pub date : ℕ
  pub seconds_listened : ℤ

pub record BookTotal : Type 0 where
  pub book_id : ℕ
  pub title : List ℕ
  pub seconds_listened : ℤ

-- What the library answers for the week.
pub record WeeklyTotals : Type 0 where
  pub total_seconds : ℤ
  pub daily : List DayTotal
  pub top : List BookTotal

pub record WeeklyReport : Type 0 where
  pub child_profile_id : ℕ
  pub display_name : List ℕ
  pub totals : WeeklyTotals
  pub days_listened : ℕ
  pub limit_reached_days : ℕ
