-- ===== src/Kids/Guard/Times.antt =====
-- The numbers of `ScreenTime` of backend/internal/kids/service.go beside the rules
-- that `CheckPlayback` enforces.
use ketapod_website.Base.{
  ℕ, zero, suc, ◌*◌, ◌<◌, ◌≡◌, ◌≢◌, ◌↔◌, refl, ap, sym, ◌∙◌, Bool, true, false, List, Option, some,
  none, arith,
}
use mathlib.Core.Path.{subst}
use ketapod_website.Base.Int.{ℤ, pos, int64_half}
use ketapod_website.Kids.{
  Verdict, kids_daily_limit_reached, kids_outside_allowed_hours, Decision, allow, block, unset,
  other_decision, ApprovalMode, allowlist_only, kids_catalog, other_mode, Controls, PlaybackInput,
  refusal, by_mode, refused_or, limit_reached, within_allowed_hours, check_limits,
  evaluate_playback, remaining_seconds_today,
}
use ketapod_website.Kids.Laws.{remaining_seconds_agrees}
use ketapod_website.Kids.Model.{ChildProfile, ParentalControls, ScreenTime}
use ketapod_website.Kids.Profiles.{profile_of, controls_of}
use ketapod_website.Kids.Approvals.{approval_decision}
use ketapod_website.Kids.Guard.{
  rules_or_default, input_for, check_found, check_playback, screen_time,
}
use ketapod_website.Kids.Requests.{get_profile-Reads}
use ketapod_website.Schema.{Error}
use ketapod_website.Store.{Result, ok, World, or_fail}
use ketapod_website.Store.Reads.{
  Reads, Reads-reads, Reads-lift, Reads-pure, Reads-then, Reads-told, Reads-map, Reads-ok,
  or_fail-ok,
}

-- The countdown is 0 exactly when the limit is reached, also where there is no limit.
countdown_iff :
    (c : Controls) (m n : ℕ)
    → c.daily_limit_minutes ≡ pos m
    → m * 60 < int64_half
    → n < int64_half
    → (remaining_seconds_today c (pos n) ≡ pos 0) ↔ (limit_reached c (pos n) ≡ true)
unfolding remaining_seconds_today
countdown_iff c zero n e fits fits' = rw e (ground arith)
countdown_iff c (suc m) n e fits fits' =
    (remaining_seconds_agrees c (suc m) n e (omega arith) fits fits').0

-- What an answer says of the time that a child has.
abbrev TimeTold : Controls → ℤ → ℕ → Bool × Verdict → Type 0
TimeTold c seconds minute r =
    (r.0 ≡ true → (limit_reached c seconds ≡ false) × (within_allowed_hours c minute ≡ true))
    × (r.1 ≡ kids_daily_limit_reached → limit_reached c seconds ≡ true)
    × (r.1 ≡ kids_outside_allowed_hours → within_allowed_hours c minute ≡ false)

abbrev SaysOfTime : PlaybackInput → Bool × Verdict → Type 0
SaysOfTime i = TimeTold i.controls i.seconds_today i.minute_now

limits-SaysOfTime : (i : PlaybackInput) → SaysOfTime i (check_limits i)
unfolding check_limits
limits-SaysOfTime i = ground arith

mode-SaysOfTime :
    (i : PlaybackInput) (m : ApprovalMode) (friendly : Bool)
    → SaysOfTime i (refused_or (by_mode m friendly) (check_limits i))
mode-SaysOfTime i allowlist_only friendly = ground arith
mode-SaysOfTime i kids_catalog friendly = ground (arith, limits-SaysOfTime i)
mode-SaysOfTime i (other_mode k) friendly = ground (arith, limits-SaysOfTime i)

title-SaysOfTime :
    (i : PlaybackInput) (d : Decision) (m : ApprovalMode) (friendly : Bool)
    → SaysOfTime i (refused_or (refusal d m friendly) (check_limits i))
title-SaysOfTime i allow m friendly = limits-SaysOfTime i
title-SaysOfTime i block m friendly = mode-SaysOfTime i m friendly
title-SaysOfTime i unset m friendly = mode-SaysOfTime i m friendly
title-SaysOfTime i (other_decision k) m friendly = mode-SaysOfTime i m friendly

policy-SaysOfTime : (i : PlaybackInput) → SaysOfTime i (evaluate_playback i)
unfolding evaluate_playback
policy-SaysOfTime i =
    ground (
      arith,
      title-SaysOfTime i i.explicit_decision i.controls.approval_mode i.book_is_kids_friendly,
    )

module _ (friendly : Result Bool) (n minute : ℕ) where
  check-TimeTold :
      (profile book : ℕ) (c : ParentalControls) (o : Option ChildProfile) (w : World)
      → controls_of profile w.db ≡ some c
      → Reads
          (λ r. (p : ChildProfile) → o ≡ some p → TimeTold c.rules (pos n) minute r)
          w.db
          (check_found friendly (ok (pos n)) minute profile book o w)
  unfolding check_found input_for
  check-TimeTold profile book c none w stored = Reads-pure _ w.db _ w.faults (λ p e. cc)
  check-TimeTold profile book c (some p) w stored = Reads-reads _ (controls_of profile) _ w λ fs.
      Reads-lift _ friendly _ _ λ b known. Reads-reads _ (approval_decision profile book) _ _ λ fs'.
        Reads-lift _ (ok (pos n)) _ _ λ s heard.
          let rules = rules_or_default p.age_years (controls_of profile w.db) in
          let i = input_for p rules b (approval_decision profile book w.db) s minute in
          Reads-pure _ w.db _ _ λ p' e.
            told (controls_of profile w.db) (evaluate_playback i) s stored (ground (arith, heard))
              (policy-SaysOfTime i)
    where
      told :
          (found : Option ParentalControls) (r : Bool × Verdict) (s : ℤ)
          → found ≡ some c
          → s ≡ pos n
          → TimeTold (rules_or_default p.age_years found) s minute r
          → TimeTold c.rules (pos n) minute r
      told found r s e h t =
          subst (λ x. TimeTold c.rules x minute r) h
            (subst (λ x. TimeTold (rules_or_default p.age_years x) s minute r) e t)

  -- What a countdown shows of these rules.
  abbrev Shows : Controls → ScreenTime → Type 0
  Shows c t =
      (t.remaining_seconds ≡ remaining_seconds_today c (pos n))
      × (t.within_hours ≡ within_allowed_hours c minute)

  screen-Shows :
      (parent profile : ℕ) (w : World)
      → Reads
          (λ t.
            (p : ChildProfile) × (c : ParentalControls) × (profile_of profile parent w.db ≡ some p)
            × (controls_of profile w.db ≡ some c)
            × Shows c.rules t)
          w.db
          (screen_time (ok (pos n)) minute parent profile w)
  unfolding screen_time
  screen-Shows parent profile w =
      Reads-then _ _ w.db _ _ (get_profile-Reads parent profile w) λ p fs own.
        Reads-reads _ (controls_of profile) _ _ λ fs'.
          Reads-lift _ (or_fail Error.not_found (controls_of profile w.db)) _ _ λ c found.
            Reads-lift _ (ok (pos n)) _ _ λ s heard.
              let same : s ≡ pos n = ground (arith, heard) in
              Reads-pure _ w.db _ _
                (p, c, own, or_fail-ok _ _ found, (ap (remaining_seconds_today c.rules) same, refl))

  check-Told :
      (parent profile book : ℕ) (p : ChildProfile) (c : ParentalControls) (w : World)
      → profile_of profile parent w.db ≡ some p
      → controls_of profile w.db ≡ some c
      → Reads
          (TimeTold c.rules (pos n) minute)
          w.db
          (check_playback friendly (ok (pos n)) minute parent profile book w)
  unfolding check_playback
  check-Told parent profile book p c w own stored =
      Reads-reads _ (profile_of profile parent) _ w λ fs.
        Reads-map _ _ w.db _
          (check-TimeTold profile book c (profile_of profile parent w.db)
            (record { db = w.db; faults = fs }) stored)
          (λ r told. told p own)

  -- The countdown that a child is shown and the check of playback agree, at the same listening and
  -- the same minute, on the tables that the countdown was read from: a child that may listen is not
  -- shown 0 seconds left, nor an hour that is not allowed; a refusal for the limit is shown as 0 seconds
  -- left; and a refusal for the hour as such an hour. The daily limit and the listening fit an int64 in
  -- seconds.
  pub screen_time-check_playback :
      (parent profile book m : ℕ) (c : ParentalControls) (w : World) {t : ScreenTime} {w' : World}
      → controls_of profile w.db ≡ some c
      → c.rules.daily_limit_minutes ≡ pos m
      → m * 60 < int64_half
      → n < int64_half
      → screen_time (ok (pos n)) minute parent profile w ≡ (ok t, w')
      → (faults : List Bool) {r : Bool × Verdict}
      → (check_playback friendly
          (ok (pos n))
          minute
          parent
          profile
          book
          (record { db = w'.db; faults = faults })).0
        ≡ ok r
      → (r.0 ≡ true → (t.remaining_seconds ≢ pos 0) × (t.within_hours ≡ true))
        × (r.1 ≡ kids_daily_limit_reached → t.remaining_seconds ≡ pos 0)
        × (r.1 ≡ kids_outside_allowed_hours → t.within_hours ≡ false)
  screen_time-check_playback parent profile book m c w {t} {w'} stored limit fits fits' shown faults
        {r} asked =
      let ((p, c', own, stored', (left, hours)), same) =
        Reads-ok _ w.db _ (screen-Shows parent profile w) shown in
      let e : c' ≡ c = cc (stored, stored') in
      let told =
        Reads-told _ _ _
          (check-Told parent profile book p c (record { db = w'.db; faults = faults })
            (ap (profile_of profile parent) same ∙ own) (ap (controls_of profile) same ∙ stored))
          asked in
      let left' = left ∙ ap (λ (x : ParentalControls). remaining_seconds_today x.rules (pos n)) e in
      let hours' = hours ∙ ap (λ (x : ParentalControls). within_allowed_hours x.rules minute) e in
      let reached = countdown_iff c.rules m n limit fits fits' in
      (
        λ plays. (
          λ none_left. cc ((told.0 plays).0, reached.0 (sym left' ∙ none_left)),
          hours' ∙ (told.0 plays).1,
        ),
        λ late. left' ∙ reached.1 (told.1 late),
        λ out. hours' ∙ told.2 out,
      )
