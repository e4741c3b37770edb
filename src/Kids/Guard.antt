-- ===== src/Kids/Guard.antt =====
-- What the service reads for the policy: `CheckPlayback`, `ScreenTime`, the prompts and
-- `WeeklyReport` of backend/internal/kids/service.go. The catalog's word on a book, the listening that
-- the library reports and the minute of the local day are parameters.
pub mod LetIn
pub mod Times
pub mod Report
pub mod Birthday
use ketapod_website.Base.{
  ℕ, Bool, true, false, ◌&&◌, ◌||◌, Option, none, some, List, [], ◌∷◌, ◌==◌, if◌then◌else◌, find,
  select, length, count,
}
use ketapod_website.Base.Int.{ℤ, pos, ltb_ℤ, leb_ℤ, wrap64, ◌*ℤ◌}
use ketapod_website.Kids.{
  Verdict, kids_profile_inactive, Decision, Controls, PlaybackInput, evaluate_playback,
  remaining_seconds_today, within_allowed_hours, default_controls,
}
use ketapod_website.Kids.Model.{
  ChildProfile, ParentalControls, AllowedPrompt, ScreenTime, DayTotal, BookTotal, WeeklyTotals,
  WeeklyReport,
}
use ketapod_website.Kids.Profiles.{profile_of, get_profile, controls_of}
use ketapod_website.Kids.Approvals.{approval_decision}
use ketapod_website.Schema.{Error, Db}
use ketapod_website.Store.{
  Result, ok, err, M, pure, raise, reads, lift, or_fail, raise_if, ◌>>=◌, ◌>>◌,
}

-- No row of controls is the default.
abbrev pub rules_or_default : ℤ → Option ParentalControls → Controls
rules_or_default age none = default_controls age
rules_or_default age (some c) = c.rules

-- What the policy is asked.
unfoldable pub input_for : ChildProfile → Controls → Bool → Decision → ℤ → ℕ → PlaybackInput
input_for p c friendly d seconds minute = record {
  controls = c;
  child_age_years = p.age_years;
  profile_active = p.is_active;
  book_is_kids_friendly = friendly;
  explicit_decision = d;
  seconds_today = seconds;
  minute_now = minute;
}

-- Whether the book is for children, the seconds that the child has listened today, and the minute
-- of the day of the family.
module _ (friendly : Result Bool) (seconds : Result ℤ) (minute : ℕ) where
  unfoldable pub check_found : ℕ → ℕ → Option ChildProfile → M (Bool × Verdict)
  check_found profile book none = pure (false, kids_profile_inactive)
  check_found profile book (some p) = do
    controls ← reads (controls_of profile)
    kids_book ← lift friendly
    decision ← reads (approval_decision profile book)
    today ← lift seconds
    let rules = rules_or_default p.age_years controls
    pure (evaluate_playback (input_for p rules kids_book decision today minute))

  -- `CheckPlayback`: a profile of another parent is a refusal, not an error.
  unfoldable pub check_playback : ℕ → ℕ → ℕ → M (Bool × Verdict)
  check_playback parent profile book = do
    found ← reads (profile_of profile parent)
    check_found profile book found

module _ (seconds : Result ℤ) (minute : ℕ) where
  -- `Service.ScreenTime`
  unfoldable pub screen_time : ℕ → ℕ → M ScreenTime
  screen_time parent profile = do
    get_profile parent profile
    found ← reads (controls_of profile)
    c ← lift (or_fail Error.not_found found)
    today ← lift seconds
    pure (record {
      seconds_today = today;
      remaining_seconds = remaining_seconds_today c.rules today;
      within_hours = within_allowed_hours c.rules minute;
    })

abbrev pub suits : ℤ → AllowedPrompt → Bool
suits age p = leb_ℤ p.min_age age && leb_ℤ age p.max_age

-- `ListAllowedPrompts`, in the order of the table.
unfoldable pub list_allowed_prompts : ℕ → ℕ → M (List AllowedPrompt)
list_allowed_prompts parent profile = do
  p ← get_profile parent profile
  reads (λ db. select (λ q. q.is_active && suits p.age_years q) db.allowed_prompts)

abbrev pub is_prompt : ℕ → AllowedPrompt → Bool
is_prompt prompt p = p.id == prompt && p.is_active

-- `GetAllowedPromptByID`
unfoldable pub prompt_of : ℕ → Db → Option AllowedPrompt
prompt_of prompt db = find (is_prompt prompt) db.allowed_prompts

-- `ResolvePrompt`
unfoldable pub resolve_prompt : ℕ → ℕ → ℕ → M (List ℕ)
resolve_prompt parent profile prompt = do
  p ← get_profile parent profile
  found ← reads (prompt_of prompt)
  q ← lift (or_fail Error.not_found found)
  raise_if (ltb_ℤ p.age_years q.min_age || ltb_ℤ q.max_age p.age_years) Error.not_found
  pure q.prompt

-- The test of the loop of `WeeklyReport`.
abbrev pub is_limit_day : ℤ → DayTotal → Bool
is_limit_day limit d = ltb_ℤ (pos 0) limit && leb_ℤ limit d.seconds_listened

-- How many days reach the limit.
unfoldable pub limit_reached_days : Controls → List DayTotal → ℕ
limit_reached_days c = count (is_limit_day (wrap64 (c.daily_limit_minutes *ℤ pos 60)))

-- `Service.WeeklyReport`, with the library's answer on the last seven days.
unfoldable pub weekly_report : Result WeeklyTotals → ℕ → ℕ → M WeeklyReport
weekly_report totals parent profile = do
  p ← get_profile parent profile
  controls ← reads (controls_of profile)
  week ← lift totals
  pure (record {
    child_profile_id = profile;
    display_name = p.display_name;
    totals = week;
    days_listened = length week.daily;
    limit_reached_days = limit_reached_days (rules_or_default p.age_years controls) week.daily;
  })
