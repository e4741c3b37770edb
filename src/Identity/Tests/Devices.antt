-- ===== src/Identity/Tests/Devices.antt =====
-- A code that was sent, a second device, and what other users may revoke.
use ketapod_website.Base.{◌+◌, ◌≡◌, ◌≤◌, refl, none, some, [], ◌∷◌, ◌==◌, find, arith}
use ketapod_website.Identity.Model.{DeviceInfo, Device, OtpCode}
use ketapod_website.Identity.{
  count_active_devices, new_device, upsert_by, upsert_device, update_oldest,
  revoke_tokens_of_device, revoke_oldest_active_device, revoke_excess, register_device,
  revoke_device,
}
use ketapod_website.Identity.DeviceCap.{register_device-le}
use ketapod_website.Identity.Otp.{Login, latest_active, consume_code, verify_otp}
use ketapod_website.Identity.Otp.Lockout.{guesses, guesses-lock}
use ketapod_website.Samples.{no_rows}
use ketapod_website.Schema.{Error, Db}
use ketapod_website.Store.{ok, err, World, query, reads}
use ketapod_website.Identity.Tests.{keys, reader, session, signed_in}

abbrev login : Login
login = record { code_hash = λ n. n + 500; code_ttl = 120; max_attempts = 2; max_devices = 1 }

abbrev sent : OtpCode
sent = record {
  id = 6;
  phone_number = 912;
  code_hash = 623;
  purpose = 0;
  attempt_count = 0;
  max_attempts = 2;
  expires_at = 100;
  consumed_at = none;
}

abbrev waiting : Db
waiting = record no_rows { users = reader ∷ []; otp_codes = sent ∷ [] }

is_waiting : latest_active 912 0 waiting ≡ some sent
unfolding latest_active
is_waiting = refl

guesses-lock_example :
    (verify_otp login 60 keys 8 912 123 none
      (guesses login 60 keys 8 912 none (7 ∷ 8 ∷ []) (record { db = waiting; faults = [] }))).0
    ≡ err Error.otp_attempts
guesses-lock_example =
    guesses-lock login 60 keys 8 912 none (7 ∷ 8 ∷ []) sent waiting is_waiting (refl, (refl, tt))
      (omega arith) 123

abbrev phone : DeviceInfo
phone = record {
  platform = none;
  name = none;
  push_token = none;
  app_version = none;
  fingerprint = none;
}

abbrev tablet : Device
tablet = record {
  id = 2;
  user_id = 1;
  platform = 0;
  name = none;
  push_token = none;
  app_version = none;
  fingerprint = none;
  last_active_at = 20;
  revoked_at = none;
}

abbrev with_tablet : World
with_tablet = record { db = record no_rows { devices = tablet ∷ [] }; faults = [] }

abbrev the_phone : Device
the_phone = record {
  id = 10;
  user_id = 1;
  platform = 0;
  name = none;
  push_token = none;
  app_version = none;
  fingerprint = none;
  last_active_at = 50;
  revoked_at = none;
}

abbrev with_phone : World
with_phone = record {
  db = record no_rows {
    next_id = 11;
    devices = the_phone ∷ record tablet { revoked_at = some 50 } ∷ [];
  };
  faults = [];
}

register_runs : register_device 1 1 phone with_tablet ≡ (ok the_phone, with_phone)
unfolding register_device upsert_device upsert_by new_device count_active_devices revoke_excess
    revoke_oldest_active_device update_oldest revoke_tokens_of_device reads query
register_runs = refl

register_device-le_example : count_active_devices 1 with_phone.db ≤ 1
register_device-le_example = register_device-le 1 1 phone with_tablet (omega arith) register_runs

-- Another user revokes the device: it stays, and its owner's session ends.
foreign_revocation :
    (find (λ t. t.id == 4) (revoke_device 9 2 signed_in).1.db.refresh_tokens
      ≡ some (record session { revoked_at = some 50 }))
    × ((revoke_device 9 2
          (record { db = record signed_in.db { devices = tablet ∷ [] }; faults = [] })).1.db.devices
        ≡ tablet ∷ [])
unfolding revoke_device revoke_tokens_of_device query
foreign_revocation = (refl, refl)

-- Of two codes that were sent, the older one serves again once the newer one is used up.
older_code :
    latest_active 912 0 (
      consume_code 7
        (record waiting { otp_codes = record sent { id = 7; code_hash = 999 } ∷ sent ∷ [] }))
    ≡ some sent
unfolding latest_active consume_code
older_code = refl
