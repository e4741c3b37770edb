-- ===== src/Identity/Tests.antt =====
-- A user with one session, and a token of the same family that is spent.
mod Devices
use ketapod_website.Base.{◌+◌, ◌≡◌, ◌≢◌, ◌≤◌, refl, true, false, none, some, [], ◌∷◌, count, arith}
use ketapod_website.Identity.Model.{User, active, suspended, RefreshToken, TokenPair}
use ketapod_website.Identity.{
  user_by_id, roles_of, hydrate_roles, get_user_by_id, set_status, update_user,
  revoke_tokens_of_user,
}
use ketapod_website.Identity.Sessions.{
  Keys, token_by_hash, new_token, insert_token, mark_token_used, issue_token_pair, rotate,
  refresh_user, refresh_found, refresh,
}
use ketapod_website.Identity.Sessions.Replay.{is_live, refresh_once, replay_revokes}
use ketapod_website.Identity.Sessions.Family.{Replaces, refresh-count, refresh-Replaces}
use ketapod_website.Identity.Sessions.Suspension.{set_status_ends_sessions}
use ketapod_website.Samples.{no_rows}
use ketapod_website.Schema.{Error}
use ketapod_website.Store.{ok, err, World, query, reads, lift, recast}

abbrev reader : User
reader = record {
  id = 1;
  phone_number = 912;
  full_name = none;
  email = none;
  role = 0;
  status = active;
  kids_mode_enabled = false;
  roles = [];
}

abbrev keys : Keys
keys = record { hash = λ n. n + 1_000; access_ttl = 900; refresh_ttl = 5_000 }

abbrev session : RefreshToken
session = record {
  id = 4;
  user_id = 1;
  device_id = some 2;
  family_id = 3;
  token_hash = 1_007;
  expires_at = 90;
  revoked_at = none;
  used_at = none;
  replaced_by = none;
}

abbrev old_session : RefreshToken
old_session = record {
  id = 5;
  user_id = 1;
  device_id = some 2;
  family_id = 3;
  token_hash = 1_006;
  expires_at = 90;
  revoked_at = some 40;
  used_at = some 40;
  replaced_by = some 4;
}

abbrev signed_in : World
signed_in = record {
  db = record no_rows { users = reader ∷ []; refresh_tokens = session ∷ old_session ∷ [] };
  faults = [];
}

abbrev the_pair : TokenPair
the_pair = record {
  access_token = record { user_id = 1; role = 0; issued_at = 60; expires_at = 960 };
  refresh_token = 8;
  expires_in = 900;
  user = reader;
}

abbrev refreshed : World
refreshed = record {
  db = record no_rows {
    next_id = 12;
    users = reader ∷ [];
    refresh_tokens =
        record {
          id = 10;
          user_id = 1;
          device_id = some 2;
          family_id = 3;
          token_hash = 1_008;
          expires_at = 5_060;
          revoked_at = none;
          used_at = none;
          replaced_by = none;
        }
        ∷ record session { used_at = some 50; revoked_at = some 50; replaced_by = some 10 }
        ∷ old_session
        ∷ [];
  };
  faults = [];
}

refresh_runs : refresh keys 60 8 7 signed_in ≡ (ok the_pair, refreshed)
unfolding refresh refresh_found refresh_user rotate issue_token_pair insert_token new_token
    mark_token_used token_by_hash get_user_by_id hydrate_roles user_by_id roles_of recast reads
    query lift
refresh_runs = refl

refresh_once_example :
    refresh keys 61 9 7 (record refreshed { faults = false ∷ true ∷ [] }) ≢ (ok the_pair, refreshed)
refresh_once_example = refresh_once keys 60 8 7 signed_in refresh_runs 61 9 (false ∷ true ∷ [])

is_kept : token_by_hash 1_006 signed_in.db ≡ some old_session
unfolding token_by_hash
is_kept = refl

replay_revokes_example :
    ((refresh keys 60 8 6 signed_in).0 ≡ err Error.token_replayed)
    × (count (is_live 3) (refresh keys 60 8 6 signed_in).1.db.refresh_tokens ≡ 0)
replay_revokes_example = replay_revokes keys 60 8 6 signed_in old_session refl is_kept refl

abbrev stopped : World
stopped = record {
  db = record signed_in.db {
    users = record reader { status = suspended } ∷ [];
    refresh_tokens = record session { revoked_at = some 50 } ∷ old_session ∷ [];
  };
  faults = [];
}

suspension_runs :
    set_status 1 suspended signed_in ≡ (ok (record reader { status = suspended }), stopped)
unfolding set_status update_user revoke_tokens_of_user query
suspension_runs = refl

session_is_kept : token_by_hash 1_007 stopped.db ≡ some (record session { revoked_at = some 50 })
unfolding token_by_hash
session_is_kept = refl

set_status_ends_sessions_example :
    refresh keys 60 8 7 (record stopped { faults = true ∷ [] }) ≢ (ok the_pair, refreshed)
set_status_ends_sessions_example =
    set_status_ends_sessions keys 1 suspended signed_in refl suspension_runs 60 8 7 (true ∷ [])
      (record session { revoked_at = some 50 }) session_is_kept refl

-- Two refreshes of one token that both read its row before either writes: both succeed, and two
-- tokens of the family are live.
concurrent_refresh :
    count
      (is_live 3)
      (refresh_found keys 60 9 session
        (refresh_found keys 60 8 session signed_in).1).1.db.refresh_tokens
    ≡ 2
unfolding refresh_found refresh_user rotate issue_token_pair insert_token new_token mark_token_used
    token_by_hash get_user_by_id hydrate_roles user_by_id roles_of reads query lift
concurrent_refresh = refl
