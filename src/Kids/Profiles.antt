-- ===== src/Kids/Profiles.antt =====
-- Child profiles: the operations of backend/internal/kids/service.go on profiles and controls, with
-- their statements of repo.go and profiles.sql. An id that does not parse is one that no row has.
use ketapod_website.Base.{
  ℕ, suc, Bool, true, false, ◌&&◌, ◌||◌, Option, none, some, List, [], ◌∷◌, ◌++◌, ltb, leb, ◌==◌,
  if◌then◌else◌, find, select, length, update_where,
}
use ketapod_website.Base.Int.{ℤ, pos, ltb_ℤ, leb_ℤ, to_int32}
use ketapod_website.Base.Text.{trim_space}
use ketapod_website.Kids.{Controls, ApprovalMode, allowlist_only, kids_catalog, default_controls}
use ketapod_website.Kids.Model.{ChildProfile, ParentalControls}
use ketapod_website.Schema.{Error, Db}
use ketapod_website.Store.{
  Result, ok, err, M, pure, reads, query, lift, or_fail, raise_if, ◌>>=◌, ◌>>◌,
}

abbrev pub max_child_profiles : ℕ
max_child_profiles = 6

abbrev pub is_profile_of : ℕ → ℕ → ChildProfile → Bool
is_profile_of profile parent c = c.id == profile && c.parent_user_id == parent

-- `GetChildProfileForParent`
unfoldable pub profile_of : ℕ → ℕ → Db → Option ChildProfile
profile_of profile parent db = find (is_profile_of profile parent) db.child_profiles

abbrev pub is_active_of : ℕ → ChildProfile → Bool
is_active_of parent c = c.parent_user_id == parent && c.is_active

abbrev pub oldest_first : {A : Type 0} → List A → List A
oldest_first [] = []
oldest_first (x ∷ xs) = oldest_first xs ++ (x ∷ [])

-- `ListChildProfilesForParent`
unfoldable pub active_profiles : ℕ → Db → List ChildProfile
active_profiles parent db = oldest_first (select (is_active_of parent) db.child_profiles)

-- The CHECK of the column.
abbrev pub birth_year_stands : Option ℤ → Bool
birth_year_stands none = true
birth_year_stands (some y) = leb_ℤ (pos 1_300) y && leb_ℤ y (pos 1_500)

-- `repo.CreateProfile`: a year that is not above 0 is none.
abbrev pub stored_birth_year : ℤ → Option ℤ
stored_birth_year y = if ltb_ℤ (pos 0) y then some (to_int32 y) else none

unfoldable pub new_profile : ℕ → List ℕ → ℤ → ℤ → Option ℕ → Db → ChildProfile
new_profile parent name age birth avatar db = record {
  id = db.next_id;
  parent_user_id = parent;
  display_name = name;
  birth_year = stored_birth_year birth;
  age_years = to_int32 age;
  avatar_key = avatar;
  is_active = true;
  created_at = db.now;
}

-- `CreateChildProfile`
unfoldable pub insert_profile : ℕ → List ℕ → ℤ → ℤ → Option ℕ → Db → Result ChildProfile × Db
insert_profile parent name age birth avatar db =
    if birth_year_stands (stored_birth_year birth)
    then (
      ok (new_profile parent name age birth avatar db),
      record db {
        next_id = suc db.next_id;
        child_profiles = new_profile parent name age birth avatar db ∷ db.child_profiles;
      },
    )
    else (err Error.storage, db)

abbrev pub has_controls_of : ℕ → ParentalControls → Bool
has_controls_of profile c = c.child_profile_id == profile

-- `GetParentalControls`
unfoldable pub controls_of : ℕ → Db → Option ParentalControls
controls_of profile db = find (has_controls_of profile) db.parental_controls

abbrev pub overwrite_controls : ℕ → Controls → Bool → ParentalControls → ParentalControls
overwrite_controls now rules wifi c = record c {
  rules = rules;
  autodownload_wifi_only = wifi;
  updated_at = now;
}

unfoldable pub new_controls : ℕ → Controls → Bool → Db → ParentalControls
new_controls profile rules wifi db = record {
  child_profile_id = profile;
  rules = rules;
  exit_pin_hash = none;
  autodownload_wifi_only = wifi;
  updated_at = db.now;
}

abbrev pub upsert_controls_found :
    ℕ → Controls → Bool → Db → Option ParentalControls → Result ParentalControls × Db
upsert_controls_found profile rules wifi db none = (
  ok (new_controls profile rules wifi db),
  record db { parental_controls = new_controls profile rules wifi db ∷ db.parental_controls },
)
upsert_controls_found profile rules wifi db (some c) = (
  ok (overwrite_controls db.now rules wifi c),
  record db {
    parental_controls =
        update_where (has_controls_of profile) (overwrite_controls db.now rules wifi)
          db.parental_controls;
  },
)

-- `UpsertParentalControls`
unfoldable pub upsert_controls : ℕ → Controls → Bool → Db → Result ParentalControls × Db
upsert_controls profile rules wifi db =
    upsert_controls_found profile rules wifi db (controls_of profile db)

abbrev pub outside : ℤ → ℤ → ℤ → Bool
outside lo hi a = ltb_ℤ a lo || ltb_ℤ hi a

-- `CreateProfile`. The profile and its controls are two statements, not a transaction.
unfoldable pub create_profile : ℕ → List ℕ → ℤ → ℤ → Option ℕ → M ChildProfile
create_profile parent text age birth avatar = do
  let name = trim_space text
  raise_if (ltb (length name) 2 || outside (pos 0) (pos 18) age) Error.invalid_input
  existing ← reads (active_profiles parent)
  raise_if (leb max_child_profiles (length existing)) Error.invalid_input
  profile ← query (insert_profile parent name age birth avatar)
  query (upsert_controls profile.id (default_controls age) true)
  pure profile

-- `ListProfiles`
unfoldable pub list_profiles : ℕ → M (List ChildProfile)
list_profiles parent = reads (active_profiles parent)

-- `CountProfilesForParent`
unfoldable pub count_profiles_for_parent : ℕ → M ℕ
count_profiles_for_parent parent = do
  profiles ← reads (active_profiles parent)
  pure (length profiles)

-- `GetProfile`: the check of ownership that every operation below starts with.
unfoldable pub get_profile : ℕ → ℕ → M ChildProfile
get_profile parent profile = do
  found ← reads (profile_of profile parent)
  lift (or_fail Error.not_found found)

-- `coalesce(sqlc.narg(…), column)`
abbrev pub coalesce : {A : Type 0} → Option A → A → A
coalesce none a = a
coalesce (some b) a = b

abbrev pub coalesce_year : Option ℤ → Option ℤ → Option ℤ
coalesce_year none y = y
coalesce_year (some b) y = some (to_int32 b)

abbrev pub coalesce_age : Option ℤ → ℤ → ℤ
coalesce_age none a = a
coalesce_age (some b) a = to_int32 b

abbrev pub coalesce_key : Option ℕ → Option ℕ → Option ℕ
coalesce_key none k = k
coalesce_key (some b) k = some b

pub record ProfileUpdate : Type 0 where
  pub display_name : Option (List ℕ)
  pub age_years : Option ℤ
  pub birth_year : Option ℤ
  pub avatar_key : Option ℕ

abbrev pub revise : ProfileUpdate → ChildProfile → ChildProfile
revise u c = record c {
  display_name = coalesce u.display_name c.display_name;
  age_years = coalesce_age u.age_years c.age_years;
  birth_year = coalesce_year u.birth_year c.birth_year;
  avatar_key = coalesce_key u.avatar_key c.avatar_key;
}

abbrev pub revise_found :
    ℕ → ℕ → ProfileUpdate → Db → Option ChildProfile → Result (Option ChildProfile) × Db
revise_found profile parent u db none = (ok none, db)
revise_found profile parent u db (some c) =
    if birth_year_stands (revise u c).birth_year
    then (
      ok (some (revise u c)),
      record db {
        child_profiles = update_where (is_profile_of profile parent) (revise u) db.child_profiles;
      },
    )
    else (err Error.storage, db)

-- `UpdateChildProfile`
unfoldable pub revise_profile : ℕ → ℕ → ProfileUpdate → Db → Result (Option ChildProfile) × Db
revise_profile profile parent u db = revise_found profile parent u db (profile_of profile parent db)

abbrev pub age_refused : Option ℤ → Bool
age_refused none = false
age_refused (some a) = outside (pos 0) (pos 18) a

-- `UpdateProfile`
unfoldable pub update_profile : ℕ → ℕ → ProfileUpdate → M ChildProfile
update_profile parent profile u = do
  raise_if (age_refused u.age_years) Error.invalid_input
  written ← query (revise_profile profile parent u)
  lift (or_fail Error.not_found written)

abbrev pub deactivate : ChildProfile → ChildProfile
deactivate c = record c { is_active = false }

-- `DeactivateChildProfile`
unfoldable pub deactivate_profile : ℕ → ℕ → Db → Result (Unit {0}) × Db
deactivate_profile profile parent db = (
  ok tt,
  record db {
    child_profiles = update_where (is_profile_of profile parent) deactivate db.child_profiles;
  },
)

-- `DeleteProfile`: no row is no error.
unfoldable pub delete_profile : ℕ → ℕ → M (Unit {0})
delete_profile parent profile = query (deactivate_profile profile parent)

-- `GetControls`
unfoldable pub get_controls : ℕ → ℕ → M ParentalControls
get_controls parent profile = do
  get_profile parent profile
  found ← reads (controls_of profile)
  lift (or_fail Error.not_found found)

abbrev pub is_other_mode : ApprovalMode → Bool
is_other_mode allowlist_only = false
is_other_mode kids_catalog = false
is_other_mode _ = true

-- The switch of `UpdateControls`.
unfoldable pub controls_refused : Controls → Bool
controls_refused c =
    outside (pos 0) (pos 1_440) c.daily_limit_minutes
    || outside (pos 0) (pos 1_439) c.allowed_from_minute
    || outside (pos 0) (pos 1_439) c.allowed_to_minute
    || outside (pos 0) (pos 18) c.max_content_age
    || is_other_mode c.approval_mode

-- `UpdateControls`. Within the bounds the conversions to int32 change nothing.
unfoldable pub update_controls : ℕ → ℕ → Controls → Bool → M ParentalControls
update_controls parent profile rules wifi = do
  get_profile parent profile
  raise_if (controls_refused rules) Error.invalid_input
  query (upsert_controls profile rules wifi)
