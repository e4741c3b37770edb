-- ===== src/Kids/Tests/Family.antt =====
-- Two households: the child of the first has controls and a blocked title, and the second parent has a
-- child that was made when the statement for the controls failed.
use ketapod_website.Base.{
  ℕ, ◌≡◌, ◌≢◌, ◌≤◌, ◌↔◌, refl, true, false, [], ◌∷◌, ◌++◌, Option, some, none, arith, count, length,
}
use ketapod_website.Base.Int.{pos, wrap64, ◌*ℤ◌, ◌-ℤ◌}
use ketapod_website.Base.Text.{Bytes}
use ketapod_website.Kids.{
  allowed, block, default_controls, within_allowed_hours, check_limits, evaluate_playback,
  remaining_seconds_today, kids_daily_limit_reached, kids_outside_allowed_hours,
}
use ketapod_website.Kids.Model.{ChildProfile, ParentalControls, WeeklyTotals}
use ketapod_website.Kids.Profiles.{is_active_of, profile_of, controls_of, get_profile}
use ketapod_website.Kids.Approvals.{
  approval_of, approval_decision, upsert_approval, set_approval, new_approval, store_pin, hash_pin,
  set_exit_pin, verify_exit_pin,
}
use ketapod_website.Kids.Approvals.Pin.{Answer, verify_exit_pin-set_exit_pin}
use ketapod_website.Kids.Guard.{
  input_for, check_found, check_playback, screen_time, limit_reached_days, weekly_report,
}
use ketapod_website.Kids.Guard.LetIn.{
  IsLetIn, check_playback-Tells, resolve_access-set_approval, heard_by_media,
}
use ketapod_website.Kids.Guard.Times.{screen_time-check_playback}
use ketapod_website.Kids.Requests.{create, rule_on, perform}
use ketapod_website.Kids.Requests.Cap.{IsCapped, perform-IsCapped}
use ketapod_website.Kids.Requests.Households.{IsApart, perform-Apart}
use ketapod_website.Media.Access.{AudioEdition, published, playable, refuse, kids, resolve_access}
use ketapod_website.Samples.{no_rows}
use ketapod_website.Schema.{Db}
use ketapod_website.Store.{ok, World, query, reads, lift, raise_if}
use ketapod_website.Store.Reads.{Reads}
use ketapod_website.Store.Rules.{Keeps}

abbrev sara : ChildProfile
sara = record {
  id = 3;
  parent_user_id = 1;
  display_name = 83 ∷ 97 ∷ [];
  birth_year = some (pos 1_398);
  age_years = pos 6;
  avatar_key = none;
  is_active = true;
  created_at = 10;
}

abbrev sara_controls : ParentalControls
sara_controls = record {
  child_profile_id = 3;
  rules = default_controls (pos 6);
  exit_pin_hash = none;
  autodownload_wifi_only = true;
  updated_at = 10;
}

-- Made by the second parent, without controls.
abbrev ali : ChildProfile
ali = record sara { id = 4; parent_user_id = 2 }

abbrev homes : Db
homes = record no_rows { child_profiles = ali ∷ sara ∷ []; parental_controls = sara_controls ∷ [] }

abbrev calm : Db → World
calm db = record { db = db; faults = [] }

-- A reader of ids by their length.
abbrev by_length : Bytes → Option ℕ
by_length t = some (length t)

abbrev marked : Bytes → Bytes
marked t = 1 ∷ t

sara_first : (p : ℕ) → count (is_active_of p) homes.child_profiles ≤ 6
sara_first p = ground arith

perform-IsCapped_example :
    Keeps IsCapped
      (perform by_length marked 1 (create (97 ∷ 98 ∷ []) (pos 6) (pos 0) none) (calm homes))
perform-IsCapped_example =
    perform-IsCapped by_length marked 1 (create (97 ∷ 98 ∷ []) (pos 6) (pos 0) none) (calm homes)
      sara_first

-- The second parent blocks a title for the child of the first.
perform-Apart_example :
    Keeps
      (IsApart 2 3 (sara ∷ []) (sara_controls ∷ []) [])
      (perform by_length marked 2 (rule_on 3 7 block) (calm homes))
unfolding profile_of
perform-Apart_example =
    perform-Apart 2 3 (sara ∷ []) (sara_controls ∷ []) [] by_length marked (rule_on 3 7 block)
      (calm homes)
      (record {
        made = omega arith;
        not_owned = refl;
        same_profiles = refl;
        same_controls = refl;
        same_approvals = refl;
      })

abbrev id_of_three : Bytes
id_of_three = 97 ∷ 98 ∷ 99 ∷ []

abbrev pin : Bytes
pin = 49 ∷ 50 ∷ 51 ∷ 52 ∷ []

abbrev pin_set : Db
pin_set = record homes {
  parental_controls =
      record sara_controls { exit_pin_hash = some (1 ∷ 97 ∷ 98 ∷ 99 ∷ b':' ∷ pin) } ∷ [];
}

pin_is_set : set_exit_pin by_length marked 1 id_of_three pin (calm homes) ≡ (ok tt, calm pin_set)
unfolding set_exit_pin hash_pin store_pin get_profile profile_of query reads lift raise_if
pin_is_set = refl

-- The PIN by another spelling of the id.
verify_exit_pin-set_exit_pin_example :
    (id : ℕ) × (by_length id_of_three ≡ some id)
    × ((verify_exit_pin by_length marked (65 ∷ 66 ∷ 67 ∷ []) pin (calm pin_set)).0
        ≡ Answer by_length marked
            (controls_of id homes)
            (marked (id_of_three ++ (b':' ∷ pin)))
            (marked (65 ∷ 66 ∷ 67 ∷ b':' ∷ pin)))
verify_exit_pin-set_exit_pin_example =
    verify_exit_pin-set_exit_pin by_length marked (λ t e. cc) 1 id_of_three pin (calm homes)
      pin_is_set (65 ∷ 66 ∷ 67 ∷ []) pin refl

check_playback-Tells_example :
    Reads
      (λ r. (r.0 ≡ true) ↔ IsLetIn (ok true) (ok (pos 100)) 600 1 3 7 homes)
      homes
      (check_playback (ok true) (ok (pos 100)) 600 1 3 7 (calm homes))
check_playback-Tells_example = check_playback-Tells (ok true) (ok (pos 100)) 600 1 3 7 (calm homes)

sara_listens :
    (check_playback (ok true) (ok (pos 3_000)) 600 1 3 7 (calm homes)).0 ≡ ok (true, allowed)
unfolding check_playback check_found input_for profile_of controls_of approval_decision
    evaluate_playback check_limits within_allowed_hours query reads lift wrap64 ◌*ℤ◌
sara_listens = refl

-- The word of the first parent on a title.
abbrev blocked : Db
blocked = record homes {
  content_approvals =
      record {
        child_profile_id = 3;
        book_id = 7;
        decision = block;
        decided_by = 1;
        decided_at = 50;
      }
      ∷ [];
}

title_is_blocked : set_approval 1 3 7 block (calm homes) ≡ (ok tt, calm blocked)
unfolding set_approval get_profile profile_of upsert_approval approval_of new_approval query reads
    lift raise_if
title_is_blocked = refl

abbrev free_edition : AudioEdition
free_edition = record { price_irr = pos 0; preview_seconds = pos 0; status = published }

media_refuses :
    resolve_access (record {
      edition = some free_edition;
      kids = some (
          heard_by_media
            (λ v. 0)
            (check_playback
              (ok true)
              (ok (pos 100))
              600
              1
              3
              7
              (record { db = blocked; faults = [] })).0);
      entitled = some (ok true);
    })
    ≡ ok (refuse (kids 0))
unfolding resolve_access check_playback check_found input_for profile_of controls_of
    approval_decision evaluate_playback query reads lift
media_refuses = refl

resolve_access-set_approval_example : playable (refuse (kids 0)) ≡ false
resolve_access-set_approval_example =
    resolve_access-set_approval 1 3 7 (calm homes) title_is_blocked (ok true) (ok (pos 100)) 600 []
      (λ v. 0) (some free_edition) (some (ok true)) (refuse (kids 0)) media_refuses

sara_sees : screen_time (ok (pos 3_000)) 600 1 3 (calm homes) ≡ (
  ok (record { seconds_today = pos 3_000; remaining_seconds = pos 600; within_hours = true }),
  calm homes,
)
unfolding screen_time get_profile profile_of controls_of remaining_seconds_today
    within_allowed_hours query reads lift wrap64 ◌*ℤ◌ ◌-ℤ◌
sara_sees = refl

controls_found : controls_of 3 homes ≡ some sara_controls
unfolding controls_of
controls_found = refl

screen_time-check_playback_example :
    (true ≡ true → (pos 600 ≢ pos 0) × (true ≡ true))
    × (allowed ≡ kids_daily_limit_reached → pos 600 ≡ pos 0)
    × (allowed ≡ kids_outside_allowed_hours → true ≡ false)
screen_time-check_playback_example =
    screen_time-check_playback (ok true) 3_000 600 1 3 7 60 sara_controls (calm homes)
      controls_found refl (omega arith) (omega arith) sara_sees [] sara_listens

abbrev week : WeeklyTotals
week = record {
  total_seconds = pos 5_000;
  daily =
      record { date = 1; seconds_listened = pos 3_600 }
      ∷ record { date = 2; seconds_listened = pos 1_400 }
      ∷ [];
  top = [];
}

sara_reported : weekly_report (ok week) 1 3 (calm homes) ≡ (
  ok (record {
    child_profile_id = 3;
    display_name = sara.display_name;
    totals = week;
    days_listened = 2;
    limit_reached_days = 1;
  }),
  calm homes,
)
unfolding weekly_report limit_reached_days get_profile profile_of controls_of query reads lift
    wrap64 ◌*ℤ◌
sara_reported = refl
