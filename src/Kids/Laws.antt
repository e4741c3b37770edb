-- ===== src/Kids/Laws.antt =====
-- The playback policy as a list of rules, and the countdown that a child sees.
use ketapod_website.Base.{
  ℕ, ◌*◌, ◌<◌, ◌≡◌, ◌≢◌, ◌↔◌, ◌⊎◌, ap, ◌∙◌, inl, inr, Bool, true, false, not, arith, Bool-cases,
}
use ketapod_website.Base.Int.{
  ℤ, pos, ◌*ℤ◌, ◌-ℤ◌, ◌≤ℤ◌, ◌<ℤ◌, leb_ℤ, wrap64, wrap64_fits, Int64, int64_half, mul_pos,
}
use ketapod_website.Kids.{
  Verdict, allowed, ApprovalMode, allowlist_only, kids_catalog, other_mode, Decision, allow, block,
  unset, other_decision, Controls, PlaybackInput, is_block, by_mode, refused_or, refusal, too_old,
  limit_reached, within_allowed_hours, check_limits, evaluate_playback, remaining_seconds_today,
  default_controls, max_ℤ,
}

-- The parent allows the title, or says nothing against it and the mode lets titles for children in.
abbrev pub IsApproved : PlaybackInput → Type 0
IsApproved i =
    (i.explicit_decision ≡ allow)
    ⊎ ((i.explicit_decision ≢ block)
        × (i.controls.approval_mode ≢ allowlist_only)
        × (i.book_is_kids_friendly ≡ true))

-- The child is not above the content age, where there is one.
abbrev pub IsOfAge : PlaybackInput → Type 0
IsOfAge i =
    (i.controls.max_content_age ≤ℤ pos 0) ⊎ (i.child_age_years ≤ℤ i.controls.max_content_age)

-- There is no daily limit, or it is not reached.
abbrev pub HasTime : Controls → ℤ → Type 0
HasTime c seconds =
    (c.daily_limit_minutes ≤ℤ pos 0) ⊎ (seconds <ℤ wrap64 (c.daily_limit_minutes *ℤ pos 60))

-- Every rule of the policy.
pub record IsPermitted (i : PlaybackInput) : Type 0 where
  pub active : i.profile_active ≡ true
  pub approved : IsApproved i
  pub of_age : IsOfAge i
  pub has_time : HasTime i.controls i.seconds_today
  pub in_hours : within_allowed_hours i.controls i.minute_now ≡ true

limits_iff :
    (i : PlaybackInput)
    → ((check_limits i).0 ≡ true) ↔ (
        IsOfAge i
        × HasTime i.controls i.seconds_today
        × (within_allowed_hours i.controls i.minute_now ≡ true))
unfolding check_limits
limits_iff i = ground arith

-- What the parent's word and the mode let through.
abbrev LetsIn : Decision → ApprovalMode → Bool → Type 0
LetsIn d m friendly = (d ≡ allow) ⊎ ((d ≢ block) × (m ≢ allowlist_only) × (friendly ≡ true))

by_mode_iff :
    (m : ApprovalMode) (friendly : Bool) (next : Bool × Verdict)
    → ((refused_or (by_mode m friendly) next).0 ≡ true)
      ↔ (((m ≢ allowlist_only) × (friendly ≡ true)) × (next.0 ≡ true))
by_mode_iff allowlist_only friendly next = ground arith
by_mode_iff kids_catalog friendly next = ground arith
by_mode_iff (other_mode k) friendly next = ground arith

refusal_iff :
    (d : Decision) (m : ApprovalMode) (friendly : Bool) (next : Bool × Verdict)
    → d ≢ block
    → ((refused_or (refusal d m friendly) next).0 ≡ true) ↔ (LetsIn d m friendly × (next.0 ≡ true))
refusal_iff allow m friendly next ne = ground arith
refusal_iff block m friendly next ne = ground arith
refusal_iff unset m friendly next ne = ground (arith, by_mode_iff m friendly next)
refusal_iff (other_decision k) m friendly next ne = ground (arith, by_mode_iff m friendly next)

block_iff : (d : Decision) → (is_block d ≡ true) ↔ (d ≡ block)
block_iff allow = ground arith
block_iff block = ground arith
block_iff unset = ground arith
block_iff (other_decision k) = ground arith

-- A title plays exactly when every rule of the policy is met.
pub evaluate_playback_allows :
    (i : PlaybackInput) → ((evaluate_playback i).0 ≡ true) ↔ IsPermitted i
unfolding evaluate_playback
evaluate_playback_allows i =
    let title =
      refusal_iff i.explicit_decision i.controls.approval_mode i.book_is_kids_friendly
        (check_limits i) in
    (
      λ h. record {
        active = ground (arith, h);
        approved = ground (arith, h, title, block_iff i.explicit_decision);
        of_age = ground (arith, h, title, block_iff i.explicit_decision, limits_iff i);
        has_time = ground (arith, h, title, block_iff i.explicit_decision, limits_iff i);
        in_hours = ground (arith, h, title, block_iff i.explicit_decision, limits_iff i);
      },
      λ p. ground (
        arith,
        p.active,
        p.approved,
        p.of_age,
        p.has_time,
        p.in_hours,
        title,
        block_iff i.explicit_decision,
        limits_iff i,
      ),
    )

-- The code that goes back with the answer is `allowed` exactly when the title plays.
pub evaluate_playback_reason :
    (i : PlaybackInput) → ((evaluate_playback i).0 ≡ true) ↔ ((evaluate_playback i).1 ≡ allowed)
unfolding evaluate_playback check_limits
evaluate_playback_reason i = ground arith

-- Exchanging the ends of a window that has two different ends gives its complement, also across
-- midnight.
pub within_allowed_hours_complement :
    (c : Controls) (now : ℕ)
    → c.allowed_from_minute ≢ c.allowed_to_minute
    → within_allowed_hours
        (record c {
          allowed_from_minute = c.allowed_to_minute;
          allowed_to_minute = c.allowed_from_minute;
        })
        now
      ≡ not (within_allowed_hours c now)
unfolding within_allowed_hours
within_allowed_hours_complement c now ne = ground arith

pub minutes_fit : (m : ℕ) → m * 60 < int64_half → wrap64 (pos m *ℤ pos 60) ≡ pos (m * 60)
minutes_fit m h = ap wrap64 (mul_pos m 60) ∙ wrap64_fits (pos (m * 60)) (ground arith)

difference-Int64 : (a b : ℕ) → a < int64_half → b < int64_half → Int64 (pos a -ℤ pos b)
unfolding ◌-ℤ◌
difference-Int64 a b h k = ground arith

countdown_lem :
    (m n : ℕ)
    → 0 < m
    → ((max_ℤ (pos (m * 60) -ℤ pos n) (pos 0) ≡ pos 0) ↔ (leb_ℤ (pos (m * 60)) (pos n) ≡ true))
      × (pos 0 ≤ℤ max_ℤ (pos (m * 60) -ℤ pos n) (pos 0))
unfolding ◌-ℤ◌
countdown_lem m n p = ground arith

too_old_default :
    (age child : ℤ) → pos 3 <ℤ child → age <ℤ child → too_old (default_controls age) child ≡ true
too_old_default age child h k = ground arith

too_old_refused : (i : PlaybackInput) → too_old i.controls i.child_age_years ≡ true → ¬ IsOfAge i
too_old_refused i e a = ground arith

-- With a daily limit, and times that fit an int64, the countdown is 0 exactly when the policy says
-- that the limit is reached, and never negative.
pub remaining_seconds_agrees :
    (c : Controls) (m n : ℕ)
    → c.daily_limit_minutes ≡ pos m
    → 0 < m
    → m * 60 < int64_half
    → n < int64_half
    → ((remaining_seconds_today c (pos n) ≡ pos 0) ↔ (limit_reached c (pos n) ≡ true))
      × (pos 0 ≤ℤ remaining_seconds_today c (pos n))
unfolding remaining_seconds_today
remaining_seconds_agrees c m n e p fits fits' =
    let long : wrap64 (pos m *ℤ pos 60) ≡ pos (m * 60) = minutes_fit m fits in
    let diff : wrap64 (pos (m * 60) -ℤ pos n) ≡ pos (m * 60) -ℤ pos n =
      wrap64_fits _ (difference-Int64 (m * 60) n fits fits') in
    rw (e, long, diff) (ground (arith, countdown_lem m n p))

-- The controls that a profile is created with refuse every title, one that the parent allows too,
-- once the child is older than both 3 and the age at the creation.
pub default_controls_lock_out :
    (i : PlaybackInput) (age : ℤ)
    → i.controls ≡ default_controls age
    → pos 3 <ℤ i.child_age_years
    → age <ℤ i.child_age_years
    → (evaluate_playback i).0 ≡ false
default_controls_lock_out i age e h k =
    let locked : too_old i.controls i.child_age_years ≡ true =
      rw e (too_old_default age i.child_age_years h k) in
    elim (Bool-cases (evaluate_playback i).0) [
      | inl plays ↦ absurd (too_old_refused i locked ((evaluate_playback_allows i).0 plays).of_age)
      | inr refused ↦ refused
    ]
