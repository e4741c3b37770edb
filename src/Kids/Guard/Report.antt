-- ===== src/Kids/Guard/Report.antt =====
-- The days of `WeeklyReport` of backend/internal/kids/service.go on which the limit was reached, beside the
-- rule that `CheckPlayback` enforces.
use ketapod_website.Base.{
  ℕ, ◌*◌, ◌≤◌, ◌<◌, ◌≡◌, ap, sym, Bool, List, [], ◌∷◌, some, arith, length, count,
}
use mathlib.Core.Path.{fun_ext, subst}
use ketapod_website.Base.Int.{pos, ◌*ℤ◌, wrap64, int64_half}
use ketapod_website.Kids.{Controls, limit_reached}
use ketapod_website.Kids.Laws.{minutes_fit}
use ketapod_website.Kids.Model.{ChildProfile, DayTotal, WeeklyTotals, WeeklyReport}
use ketapod_website.Kids.Profiles.{profile_of, controls_of}
use ketapod_website.Kids.Guard.{rules_or_default, is_limit_day, limit_reached_days, weekly_report}
use ketapod_website.Kids.Requests.{get_profile-Reads}
use ketapod_website.Store.{Result, ok, World}
use ketapod_website.Store.Reads.{Reads, Reads-reads, Reads-lift, Reads-pure, Reads-then, Reads-ok}

-- The test of the loop is that of the policy.
limit_day :
    (c : Controls) (m : ℕ) (d : DayTotal)
    → c.daily_limit_minutes ≡ pos m
    → m * 60 < int64_half
    → is_limit_day (wrap64 (c.daily_limit_minutes *ℤ pos 60)) d ≡ limit_reached c d.seconds_listened
limit_day c m d limit fits = rw (limit, minutes_fit m fits) (ground arith)

count-le-length : {A : Type 0} (p : A → Bool) (xs : List A) → count p xs ≤ length xs
count-le-length p [] = omega arith
count-le-length p (x ∷ xs) = ground (arith, count-le-length p xs)

abbrev Counted : Controls → WeeklyReport → Type 0
Counted c rep =
    (rep.limit_reached_days ≡ count (λ d. limit_reached c d.seconds_listened) rep.totals.daily)
    × (rep.limit_reached_days ≤ rep.days_listened)

report-Counted :
    (totals : Result WeeklyTotals) (parent profile m : ℕ) (w : World) (p : ChildProfile)
    → profile_of profile parent w.db ≡ some p
    → (rules_or_default p.age_years (controls_of profile w.db)).daily_limit_minutes ≡ pos m
    → m * 60 < int64_half
    → Reads
        (Counted (rules_or_default p.age_years (controls_of profile w.db)))
        w.db
        (weekly_report totals parent profile w)
unfolding weekly_report limit_reached_days
report-Counted totals parent profile m w p own limit fits =
    let rules = rules_or_default p.age_years (controls_of profile w.db) in
    let same : ◌≡◌ {A = DayTotal → Bool}
        (λ (d : DayTotal). is_limit_day (wrap64 (rules.daily_limit_minutes *ℤ pos 60)) d)
        (λ d. limit_reached rules d.seconds_listened) =
      fun_ext (λ d. limit_day rules m d limit fits) in
    Reads-then _ _ w.db _ _ (get_profile-Reads parent profile w) λ p' fs own'.
      Reads-reads _ (controls_of profile) _ _ λ fs'. Reads-lift _ totals _ _ λ week heard.
        let e : p' ≡ p = cc (own', own) in
        Reads-pure _ w.db _ _ (
          subst
            (λ x. Counted rules (record {
              child_profile_id = profile;
              display_name = x.display_name;
              totals = week;
              days_listened = length week.daily;
              limit_reached_days =
                  count
                    (is_limit_day (
                      wrap64 (
                        (rules_or_default x.age_years
                          (controls_of profile w.db)).daily_limit_minutes
                        *ℤ pos 60)))
                    week.daily;
            }))
            (sym e) (ap (λ t. count t week.daily) same, count-le-length _ week.daily))

-- The days that a weekly report counts are those on which the policy has the limit reached, by the
-- controls that it enforces: the stored ones, or the default where there are none. They are at most
-- the days with listening. The daily limit fits an int64 in seconds.
pub weekly_report-limit_reached :
    (totals : Result WeeklyTotals) (parent profile m : ℕ) (w : World) (p : ChildProfile)
    → profile_of profile parent w.db ≡ some p
    → (rules_or_default p.age_years (controls_of profile w.db)).daily_limit_minutes ≡ pos m
    → m * 60 < int64_half
    → {rep : WeeklyReport} {w' : World} → weekly_report totals parent profile w ≡ (ok rep, w')
    → (rep.limit_reached_days
        ≡ count
            (λ d.
              limit_reached
                (rules_or_default p.age_years (controls_of profile w.db))
                d.seconds_listened)
            rep.totals.daily)
      × (rep.limit_reached_days ≤ rep.days_listened)
weekly_report-limit_reached totals parent profile m w p own limit fits told =
    (Reads-ok _ w.db _ (report-Counted totals parent profile m w p own limit fits) told).0
