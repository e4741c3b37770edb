-- ===== src/Kids/Tests.antt =====
-- A child that has its birthday.
mod Family
use ketapod_website.Base.{
  ℕ, ◌+◌, ◌≡◌, refl, Bool, true, false, ◌&&◌, ◌||◌, List, [], ◌∷◌, Option, some, none, ◌==◌, arith,
  length, if◌then◌else◌,
}
use ketapod_website.Base.Int.{pos, to_int32}
use ketapod_website.Base.Text.{is_white, trim_space}
use ketapod_website.Kids.{allow}
use ketapod_website.Kids.Model.{ChildProfile, ContentApproval}
use ketapod_website.Kids.Profiles.{
  active_profiles, new_profile, insert_profile, profile_of, controls_of, new_controls,
  upsert_controls, create_profile, ProfileUpdate, revise_profile, update_profile,
}
use ketapod_website.Kids.Guard.{check_playback}
use ketapod_website.Kids.Guard.Birthday.{check_playback-update_profile}
use ketapod_website.Samples.{no_rows}
use ketapod_website.Store.{Result, ok, err, World, query, reads, lift, raise_if}
use ketapod_website.Store.Reads.{Reads}

abbrev start : World
start = record { db = no_rows; faults = [] }

abbrev six : ChildProfile
six = new_profile 1 (b'A' ∷ b'l' ∷ []) (pos 6) (pos 0) none no_rows

abbrev created : World
created = (create_profile 1 (b'A' ∷ b'l' ∷ []) (pos 6) (pos 0) none start).1

abbrev birthday : ProfileUpdate
birthday = record {
  display_name = none;
  age_years = some (pos 7);
  birth_year = none;
  avatar_key = none;
}

abbrev seven : ChildProfile
seven = record six { age_years = pos 7 }

abbrev grown : World
grown = (update_profile 1 six.id birthday (record { db = created.db; faults = [] })).1

-- The parent has allowed the title 4 since.
abbrev allowed : World
allowed = record {
  db = record grown.db {
    content_approvals =
        record {
          child_profile_id = six.id;
          book_id = 4;
          decision = allow;
          decided_by = 1;
          decided_at = 9;
        }
        ∷ [];
  };
  faults = [];
}

first_profile : create_profile 1 (b'A' ∷ b'l' ∷ []) (pos 6) (pos 0) none start ≡ (ok six, created)
unfolding create_profile active_profiles insert_profile new_profile upsert_controls controls_of
    new_controls query reads raise_if trim_space is_white to_int32
first_profile = refl

seven_entered :
    update_profile 1 six.id birthday (record { db = created.db; faults = [] }) ≡ (ok seven, grown)
unfolding create_profile active_profiles insert_profile new_profile upsert_controls controls_of
    new_controls query reads raise_if trim_space is_white to_int32 update_profile revise_profile
    profile_of lift
seven_entered = refl

check_playback-update_profile_example :
    Reads
      (λ r. r.0 ≡ false)
      allowed.db
      (check_playback (ok true) (ok (pos 0)) 600 1 six.id 4 allowed)
unfolding create_profile active_profiles insert_profile new_profile upsert_controls controls_of
    new_controls query reads raise_if trim_space is_white to_int32 update_profile revise_profile
    profile_of lift
check_playback-update_profile_example =
    check_playback-update_profile (ok true) (ok (pos 0)) 600 1 (b'A' ∷ b'l' ∷ []) (pos 6) (pos 0)
      none start first_profile birthday (pos 7) [] refl (omega arith) (omega arith) seven_entered
      allowed refl refl 4
