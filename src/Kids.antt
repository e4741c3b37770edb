-- ===== src/Kids.antt =====
-- What a child may play: backend/internal/kids/policy.go and the defaults of model.go. A time of
-- day is its minute; the codes of modes and decisions that the code does not name are numbers.
pub mod Laws
pub mod Model
pub mod Profiles
pub mod Approvals
pub mod Guard
pub mod Requests
mod Tests
use ketapod_website.Base.{
  ℕ, Bool, true, false, not, ◌&&◌, ◌||◌, Option, none, some, ltb, leb, if◌then◌else◌,
}
use ketapod_website.Base.Int.{ℤ, pos, negsuc, ◌*ℤ◌, ◌-ℤ◌, ltb_ℤ, leb_ℤ, wrap64}

pub data Verdict : Type 0 where
  allowed kids_content_blocked kids_content_not_approved kids_daily_limit_reached : Verdict
  kids_outside_allowed_hours kids_age_limit kids_profile_inactive : Verdict

pub data ApprovalMode : Type 0 where
  allowlist_only kids_catalog : ApprovalMode
  other_mode : ℕ → ApprovalMode

-- What the parent has said of a title; `unset` is the empty text.
pub data Decision : Type 0 where
  allow block unset : Decision
  other_decision : ℕ → Decision

pub record Controls : Type 0 where
  pub daily_limit_minutes : ℤ
  pub allowed_from_minute : ℤ
  pub allowed_to_minute : ℤ
  pub max_content_age : ℤ
  pub approval_mode : ApprovalMode

pub record PlaybackInput : Type 0 where
  pub controls : Controls
  pub child_age_years : ℤ
  pub profile_active : Bool
  pub book_is_kids_friendly : Bool
  pub explicit_decision : Decision
  pub seconds_today : ℤ
  pub minute_now : ℕ

abbrev pub is_block : Decision → Bool
is_block block = true
is_block _ = false

-- The switch on the mode, for a title that the parent has not allowed: why it may not play.
abbrev pub by_mode : ApprovalMode → Bool → Option Verdict
by_mode allowlist_only friendly = some kids_content_not_approved
by_mode _ friendly = if not friendly then some kids_content_blocked else none

abbrev pub refusal : Decision → ApprovalMode → Bool → Option Verdict
refusal allow mode friendly = none
refusal _ mode friendly = by_mode mode friendly

abbrev pub too_old : Controls → ℤ → Bool
too_old c age = ltb_ℤ (pos 0) c.max_content_age && ltb_ℤ c.max_content_age age

abbrev pub limit_reached : Controls → ℤ → Bool
limit_reached c seconds =
    ltb_ℤ (pos 0) c.daily_limit_minutes && leb_ℤ (wrap64 (c.daily_limit_minutes *ℤ pos 60)) seconds

-- from == to
abbrev pub same_minute : ℤ → ℤ → Bool
same_minute a b = leb_ℤ a b && leb_ℤ b a

-- `WithinAllowedHours`
unfoldable pub within_allowed_hours : Controls → ℕ → Bool
within_allowed_hours c now =
    if same_minute c.allowed_from_minute c.allowed_to_minute
    then true
    else if ltb_ℤ c.allowed_from_minute c.allowed_to_minute
    then leb_ℤ c.allowed_from_minute (pos now) && ltb_ℤ (pos now) c.allowed_to_minute
    else leb_ℤ c.allowed_from_minute (pos now) || ltb_ℤ (pos now) c.allowed_to_minute

-- The rules that follow the ones on the title.
unfoldable pub check_limits : PlaybackInput → Bool × Verdict
check_limits i =
    if too_old i.controls i.child_age_years
    then (false, kids_age_limit)
    else if limit_reached i.controls i.seconds_today
    then (false, kids_daily_limit_reached)
    else if not (within_allowed_hours i.controls i.minute_now)
    then (false, kids_outside_allowed_hours)
    else (true, allowed)

abbrev pub refused_or : Option Verdict → Bool × Verdict → Bool × Verdict
refused_or none next = next
refused_or (some v) next = (false, v)

-- `EvaluatePlayback`
unfoldable pub evaluate_playback : PlaybackInput → Bool × Verdict
evaluate_playback i =
    if not i.profile_active
    then (false, kids_profile_inactive)
    else if is_block i.explicit_decision
    then (false, kids_content_blocked)
    else refused_or (refusal i.explicit_decision i.controls.approval_mode i.book_is_kids_friendly)
        (check_limits i)

abbrev pub max_ℤ : ℤ → ℤ → ℤ
max_ℤ a b = if ltb_ℤ a b then b else a

-- `RemainingSecondsToday`; -1 is no limit.
unfoldable pub remaining_seconds_today : Controls → ℤ → ℤ
remaining_seconds_today c seconds =
    if leb_ℤ c.daily_limit_minutes (pos 0)
    then negsuc 0
    else max_ℤ (wrap64 (wrap64 (c.daily_limit_minutes *ℤ pos 60) -ℤ seconds)) (pos 0)

-- `DefaultControls`
abbrev pub default_controls : ℤ → Controls
default_controls age = record {
  daily_limit_minutes = pos 60;
  allowed_from_minute = pos 360;
  allowed_to_minute = pos 1_260;
  max_content_age = max_ℤ age (pos 3);
  approval_mode = kids_catalog;
}
