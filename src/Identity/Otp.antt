-- ===== src/Identity/Otp.antt =====
-- Login by code: `RequestOTP` and `VerifyOTP` of backend/internal/identity/service.go with otp.sql.
-- The answers of the rate limiter, the hash and the random texts are parameters.
pub mod Lockout
use ketapod_website.Base.{
  ℕ, suc, ◌+◌, Bool, true, false, not, ◌&&◌, ◌||◌, Option, none, some, List, [], ◌∷◌, leb, ltb,
  ◌==◌, if◌then◌else◌, find, update_where,
}
use ketapod_website.Identity.Model.{User, DeviceInfo, Device, OtpCode, TokenPair, is_active}
use ketapod_website.Identity.{is_unrevoked, get_user_by_phone, insert_user, register_device}
use ketapod_website.Identity.Sessions.{Keys, issue_token_pair}
use ketapod_website.Jobs.Model.{Task}
use ketapod_website.Jobs.{write, queue_critical}
use ketapod_website.Schema.{Error, Db}
use ketapod_website.Store.{
  Result, ok, err, M, pure, raise, raise_if, reads, query, lift, or_fail, recast, caught, in_tx,
  ◌>>=◌, ◌>>◌,
}

-- The part of Config that login uses, with the hash of a code.
pub record Login : Type 0 where
  pub code_hash : ℕ → ℕ
  pub code_ttl : ℕ
  pub max_attempts : ℕ
  pub max_devices : ℕ

abbrev pub purpose_login : ℕ
purpose_login = 0

-- TaskTypeSendOTP
abbrev pub task_send_otp : ℕ
task_send_otp = 1

abbrev pub is_open : ℕ → ℕ → ℕ → OtpCode → Bool
is_open now phone purpose c =
    c.phone_number == phone
    && c.purpose == purpose
    && is_unrevoked c.consumed_at
    && ltb now c.expires_at

-- `GetLatestActiveOTP`: rows are newest first.
unfoldable pub latest_active : ℕ → ℕ → Db → Option OtpCode
latest_active phone purpose db = find (is_open db.now phone purpose) db.otp_codes

unfoldable pub new_code : ℕ → ℕ → ℕ → ℕ → ℕ → Db → OtpCode
new_code phone hash purpose expires attempts db = record {
  id = db.next_id;
  phone_number = phone;
  code_hash = hash;
  purpose = purpose;
  attempt_count = 0;
  max_attempts = attempts;
  expires_at = expires;
  consumed_at = none;
}

-- `CreateOTPCode`
unfoldable pub insert_code : ℕ → ℕ → ℕ → ℕ → ℕ → Db → Result OtpCode × Db
insert_code phone hash purpose expires attempts db =
    let row = new_code phone hash purpose expires attempts db in
    (ok row, record db { next_id = suc db.next_id; otp_codes = row ∷ db.otp_codes })

abbrev pub add_attempt : OtpCode → OtpCode
add_attempt c = record c { attempt_count = suc c.attempt_count }

-- `IncrementOTPAttempt`: no row is an error.
unfoldable pub increment_attempt : ℕ → Db → Result OtpCode × Db
increment_attempt i db = elim (find (λ c. c.id == i) db.otp_codes) [
  | none ↦ (err Error.storage, db)
  | some c ↦ (
    ok (add_attempt c),
    record db { otp_codes = update_where (λ c'. c'.id == i) add_attempt db.otp_codes },
  )
]

abbrev pub consumed : ℕ → OtpCode → OtpCode
consumed now c = record c { consumed_at = some now }

-- `ConsumeOTPCode`
unfoldable pub consume_code : ℕ → Db → Db
consume_code i db = record db {
  otp_codes = update_where (λ c. c.id == i) (consumed db.now) db.otp_codes;
}

-- An answer of the rate limiter, `none` being its failure.
unfoldable pub check_rate : Option Bool → M (Unit {0})
check_rate none = raise Error.upstream
check_rate (some allowed) = if allowed then pure tt else raise Error.rate_limited

-- A user found and not active stops the request; an error of the lookup does not.
abbrev pub is_suspended_user : Result User → Bool
is_suspended_user (ok u) = not (is_active u)
is_suspended_user (err e) = false

abbrev pub the_user : ℕ → Result User → M User
the_user phone (ok u) = pure u
the_user phone (err e) = query (insert_user phone)

abbrev pub device_id_of : Option Device → Option ℕ
device_id_of none = none
device_id_of (some d) = some d.id

module _ (login : Login) (clock : ℕ) where
  abbrev pub send_task : ℕ → ℕ → Task
  send_task phone code = record {
    task_type = task_send_otp;
    payload = phone ∷ code ∷ [];
    queue = some queue_critical;
    max_retry = 3;
    dedupe_key = none;
    available_at = none;
  }

  -- `RequestOTP`. `by_ip` is `none` where the client has no address.
  unfoldable pub request_otp : Option Bool → Option (Option Bool) → ℕ → ℕ → M (Unit {0})
  request_otp by_phone by_ip code phone = do
    check_rate by_phone
    check_ip by_ip
    user ← caught (get_user_by_phone phone)
    raise_if (is_suspended_user user) Error.suspended
    in_tx (do
      query (
          insert_code phone (login.code_hash code) purpose_login (clock + login.code_ttl)
            login.max_attempts)
      query (λ db. (ok tt, write clock (send_task phone code) db)))
    where
      check_ip : Option (Option Bool) → M (Unit {0})
      check_ip none = pure tt
      check_ip (some answer) = check_rate answer

  -- The device of the login, if the client names one.
  unfoldable pub login_device : ℕ → Option DeviceInfo → M (Option ℕ)
  login_device user none = pure none
  login_device user (some info) = do
    d ← register_device login.max_devices user info
    pure (some d.id)

  -- What follows a right code.
  unfoldable pub log_in : Keys → ℕ → ℕ → Option DeviceInfo → OtpCode → M TokenPair
  log_in keys secret phone device otp = do
    query (λ db. (ok tt, consume_code otp.id db))
    found ← caught (get_user_by_phone phone)
    user ← the_user phone found
    raise_if (not (is_active user)) Error.suspended
    d ← login_device user.id device
    made ← issue_token_pair keys clock secret user d none
    pure made.0

  unfoldable pub check_code : Keys → ℕ → ℕ → ℕ → Option DeviceInfo → OtpCode → M TokenPair
  check_code keys secret phone code device otp =
      if leb otp.max_attempts otp.attempt_count
      then raise Error.otp_attempts
      else if not (otp.code_hash == login.code_hash code)
      then (query (increment_attempt otp.id) >> raise Error.invalid_otp)
      else log_in keys secret phone device otp

  -- `VerifyOTP`
  unfoldable pub verify_otp : Keys → ℕ → ℕ → ℕ → Option DeviceInfo → M TokenPair
  verify_otp keys secret phone code device = do
    found ← recast Error.invalid_otp (reads (latest_active phone purpose_login))
    otp ← lift (or_fail Error.invalid_otp found)
    check_code keys secret phone code device otp
