-- ===== src/Identity/Model.antt =====
-- The records of backend/internal/identity/model.go. Hashes of codes and tokens are numbers, as are
-- texts that are only compared.
use ketapod_website.Base.{ℕ, Option, Bool, true, false, List, ◌||◌, ◌==◌, any}

pub data UserStatus : Type 0 where
  active suspended deleted : UserStatus

pub record User : Type 0 where
  pub id : ℕ
  pub phone_number : ℕ
  pub full_name : Option ℕ
  pub email : Option ℕ
  pub role : ℕ
  pub status : UserStatus
  pub kids_mode_enabled : Bool
  -- from the table of additional roles
  pub roles : List ℕ

-- `User.IsActive`
abbrev pub is_active_status : UserStatus → Bool
is_active_status active = true
is_active_status _ = false

abbrev pub is_active : User → Bool
is_active u = is_active_status u.status

-- `User.HasRole`
unfoldable pub has_role : User → ℕ → Bool
has_role u role = u.role == role || any (λ r. r == role) u.roles

pub record RoleGrant : Type 0 where
  pub user_id : ℕ
  pub role : ℕ

pub record DeviceInfo : Type 0 where
  pub platform : Option ℕ
  pub name : Option ℕ
  pub push_token : Option ℕ
  pub app_version : Option ℕ
  pub fingerprint : Option ℕ

pub record Device : Type 0 where
  pub id : ℕ
  pub user_id : ℕ
  pub platform : ℕ
  pub name : Option ℕ
  pub push_token : Option ℕ
  pub app_version : Option ℕ
  pub fingerprint : Option ℕ
  pub last_active_at : ℕ
  pub revoked_at : Option ℕ

pub record OtpCode : Type 0 where
  pub id : ℕ
  pub phone_number : ℕ
  pub code_hash : ℕ
  pub purpose : ℕ
  pub attempt_count : ℕ
  pub max_attempts : ℕ
  pub expires_at : ℕ
  pub consumed_at : Option ℕ

pub record RefreshToken : Type 0 where
  pub id : ℕ
  pub user_id : ℕ
  pub device_id : Option ℕ
  pub family_id : ℕ
  pub token_hash : ℕ
  pub expires_at : ℕ
  pub revoked_at : Option ℕ
  pub used_at : Option ℕ
  pub replaced_by : Option ℕ

-- AccessClaims, which the token signs.
pub record AccessClaims : Type 0 where
  pub user_id : ℕ
  pub role : ℕ
  pub issued_at : ℕ
  pub expires_at : ℕ

pub record TokenPair : Type 0 where
  pub access_token : AccessClaims
  pub refresh_token : ℕ
  pub expires_in : ℕ
  pub user : User
