-- ===== src/Identity.antt =====
-- Users, devices and their statements: backend/internal/identity/repo.go and service.go with the
-- queries of users.sql and devices.sql.
pub mod Model
pub mod Sessions
pub mod Otp
pub mod DeviceCap
mod Tests
use ketapod_website.Base.{
  ℕ, zero, suc, ◌-◌, Bool, true, false, not, ◌&&◌, ◌||◌, Option, none, some, List, [], ◌∷◌, map,
  ltb, leb, ◌==◌, if◌then◌else◌, holds, length, find, any, select, update_where, count,
}
use ketapod_website.Identity.Model.{
  UserStatus, active, User, RoleGrant, DeviceInfo, Device, RefreshToken, is_active,
  is_active_status,
}
use ketapod_website.Schema.{Error, Db}
use ketapod_website.Store.{
  Result, ok, err, M, pure, raise, raise_if, reads, query, lift, or_fail, caught, ◌>>=◌, ◌>>◌,
}

-- `GetUserByPhoneNumber` and `GetUserByID` of the queries.
unfoldable pub user_by_phone : ℕ → Db → Option User
user_by_phone phone db = find (λ u. u.phone_number == phone) db.users

unfoldable pub user_by_id : ℕ → Db → Option User
user_by_id i db = find (λ u. u.id == i) db.users

-- `ListUserRoles`, in an order on which nothing depends.
unfoldable pub roles_of : ℕ → Db → List ℕ
roles_of i db = map (λ (g : RoleGrant). g.role) (select (λ g. g.user_id == i) db.role_grants)

-- `hydrateRoles`
unfoldable pub hydrate_roles : User → M User
hydrate_roles u = reads (roles_of u.id) >>= λ rs. pure (record u { roles = rs })

-- The row, or pgx's error for no row.
unfoldable pub get_user_by_phone : ℕ → M User
get_user_by_phone phone = do
  found ← reads (user_by_phone phone)
  u ← lift (or_fail Error.storage found)
  hydrate_roles u

unfoldable pub get_user_by_id : ℕ → M User
get_user_by_id i = do
  found ← reads (user_by_id i)
  u ← lift (or_fail Error.storage found)
  hydrate_roles u

abbrev pub role_user : ℕ
role_user = 0

-- `CreateUser`: the phone number is unique.
unfoldable pub insert_user : ℕ → Db → Result User × Db
insert_user phone db =
    if any (λ u. u.phone_number == phone) db.users
    then (err Error.storage, db)
    else (ok row, record db { next_id = suc db.next_id; users = row ∷ db.users })
  where
    row : User
    row = record {
      id = db.next_id;
      phone_number = phone;
      full_name = none;
      email = none;
      role = role_user;
      status = active;
      kids_mode_enabled = false;
      roles = [];
    }

-- `GetUser` and `EnsureActive` of the service: an error of the repository is ErrNotFound.
unfoldable pub refuse_inactive : User → M User
refuse_inactive u = if is_active u then pure u else raise Error.suspended

abbrev pub not_found_of : Result User → Result User
not_found_of (ok u) = ok u
not_found_of (err e) = err Error.not_found

unfoldable pub get_user : ℕ → M User
get_user i = caught (get_user_by_id i) >>= λ r. lift (not_found_of r)

unfoldable pub ensure_active : ℕ → M User
ensure_active i = get_user i >>= refuse_inactive

-- An UPDATE of one user, which returns the row.
unfoldable pub update_user : ℕ → (User → User) → Db → Result User × Db
update_user i f db = elim (find (λ u. u.id == i) db.users) [
  | none ↦ (err Error.storage, db)
  | some u ↦ (ok (f u), record db { users = update_where (λ u. u.id == i) f db.users })
]

-- coalesce(a, b)
abbrev pub coalesce : Option ℕ → Option ℕ → Option ℕ
coalesce none b = b
coalesce (some a) b = some a

abbrev pub with_profile : Option ℕ → Option ℕ → User → User
with_profile name email u = record u {
  full_name = coalesce name u.full_name;
  email = coalesce email u.email;
}

-- `UpdateProfile`
unfoldable pub update_profile : ℕ → Option ℕ → Option ℕ → M User
update_profile i name email = query (update_user i (with_profile name email))

-- `SetKidsModePreference`
unfoldable pub set_kids_mode_preference : ℕ → Bool → M User
set_kids_mode_preference i b = query (update_user i (λ u. record u { kids_mode_enabled = b }))

-- `GrantUserRole`: a role that is there already stays.
unfoldable pub grant_role : ℕ → ℕ → M (Unit {0})
grant_role i role = query λ db.
    if any (λ g. g.user_id == i && g.role == role) db.role_grants
    then (ok tt, db)
    else (ok tt, record db { role_grants = record { user_id = i; role = role } ∷ db.role_grants })

abbrev pub revoke_token : ℕ → RefreshToken → RefreshToken
revoke_token now t = record t { revoked_at = some now }

abbrev pub is_unrevoked : Option ℕ → Bool
is_unrevoked none = true
is_unrevoked (some t) = false

-- `RevokeAllRefreshTokensForUser`
unfoldable pub revoke_tokens_of_user : ℕ → Db → Db
revoke_tokens_of_user user db = record db {
  refresh_tokens =
      update_where (λ t. t.user_id == user && is_unrevoked t.revoked_at) (revoke_token db.now)
        db.refresh_tokens;
}

-- `RevokeRefreshTokensForDevice`
unfoldable pub revoke_tokens_of_device : ℕ → Db → Db
revoke_tokens_of_device device db = record db {
  refresh_tokens =
      update_where (λ t. holds t.device_id device && is_unrevoked t.revoked_at)
        (revoke_token db.now) db.refresh_tokens;
}

-- `SetStatus`
unfoldable pub set_status : ℕ → UserStatus → M User
set_status i status = do
  u ← query (update_user i (λ u. record u { status = status }))
  (if is_active_status status then pure tt else query (λ db. (ok tt, revoke_tokens_of_user i db)))
  pure u

abbrev pub is_live_device : ℕ → Device → Bool
is_live_device user d = d.user_id == user && is_unrevoked d.revoked_at

-- `CountActiveDevicesForUser`
unfoldable pub count_active_devices : ℕ → Db → ℕ
count_active_devices user db = count (is_live_device user) db.devices

abbrev pub default_platform : ℕ
default_platform = 0

abbrev pub platform_of : DeviceInfo → ℕ
platform_of info = elim info.platform [ none ↦ default_platform | some p ↦ p ]

unfoldable pub new_device : ℕ → DeviceInfo → Db → Device
new_device user info db = record {
  id = db.next_id;
  user_id = user;
  platform = platform_of info;
  name = info.name;
  push_token = info.push_token;
  app_version = info.app_version;
  fingerprint = info.fingerprint;
  last_active_at = db.now;
  revoked_at = none;
}

abbrev pub same_device : ℕ → ℕ → Device → Bool
same_device user fingerprint d = d.user_id == user && holds d.fingerprint fingerprint

-- What ON CONFLICT writes.
abbrev pub refresh_device : DeviceInfo → ℕ → Device → Device
refresh_device info now d = record d {
  platform = platform_of info;
  push_token = coalesce info.push_token d.push_token;
  app_version = info.app_version;
  name = coalesce info.name d.name;
  revoked_at = none;
  last_active_at = now;
}

abbrev pub add_device : ℕ → DeviceInfo → Db → Result Device × Db
add_device user info db = (
  ok (new_device user info db),
  record db { next_id = suc db.next_id; devices = new_device user info db ∷ db.devices },
)

-- `UpsertDevice`: without a fingerprint the row is a new one, which has no name.
unfoldable pub upsert_by : Option ℕ → ℕ → DeviceInfo → Db → Result Device × Db
upsert_by none user info db = add_device user (record info { name = none }) db
upsert_by (some f) user info db = elim (find (same_device user f) db.devices) [
  | none ↦ add_device user info db
  | some d ↦ (
    ok (refresh_device info db.now d),
    record db {
      devices = update_where (same_device user f) (refresh_device info db.now) db.devices;
    },
  )
]

unfoldable pub upsert_device : ℕ → DeviceInfo → Db → Result Device × Db
upsert_device user info db = upsert_by info.fingerprint user info db

abbrev pub older_of : Device → Option Device → Device
older_of d none = d
older_of d (some e) = if ltb e.last_active_at d.last_active_at then e else d

-- ORDER BY last_active_at LIMIT 1, among those that pass.
abbrev pub oldest : (Device → Bool) → List Device → Option Device
oldest p [] = none
oldest p (d ∷ ds) = let rest = oldest p ds in if p d then some (older_of d rest) else rest

abbrev pub retire_device : ℕ → Device → Device
retire_device now d = record d { revoked_at = some now }

-- `RevokeOldestActiveDevice` of the queries: no active device is an error.
unfoldable pub update_oldest : ℕ → Db → Result Device × Db
update_oldest user db = elim (oldest (is_live_device user) db.devices) [
  | none ↦ (err Error.storage, db)
  | some d ↦ (
    ok (retire_device db.now d),
    record db { devices = update_where (λ e. e.id == d.id) (retire_device db.now) db.devices },
  )
]

unfoldable pub revoke_oldest_active_device : ℕ → M Device
revoke_oldest_active_device user = do
  d ← query (update_oldest user)
  query (λ db. (ok tt, revoke_tokens_of_device d.id db))
  pure d

-- `for count > max { … count-- }`, by how much the count is above.
unfoldable pub revoke_excess : ℕ → ℕ → M (Unit {0})
revoke_excess user zero = pure tt
revoke_excess user (suc n) = do revoke_oldest_active_device user; revoke_excess user n

-- `registerDevice`; no cap is a cap of 0.
unfoldable pub register_device : ℕ → ℕ → DeviceInfo → M Device
register_device cap user info = do
  d ← query (upsert_device user info)
  (if cap == 0
      then pure tt
      else (reads (count_active_devices user) >>= λ n. revoke_excess user (n - cap)))
  pure d

-- `RevokeDevice`
unfoldable pub revoke_device : ℕ → ℕ → M (Unit {0})
revoke_device user device = do
  query (λ db. (
    ok tt,
    record db {
      devices =
          update_where (λ d. d.id == device && d.user_id == user) (retire_device db.now) db.devices;
    },
  ))
  query (λ db. (ok tt, revoke_tokens_of_device device db))
