-- ===== src/Identity/Sessions.antt =====
-- Refresh tokens: `RefreshToken`, `Logout`, `LogoutAll` and `issueTokenPair` of
-- backend/internal/identity/service.go with refresh_tokens.sql. The hash, the clock of the server
-- and the random text of a new token are parameters; the signature of an access token is left out.
pub mod Rotation
pub mod Replay
pub mod Family
pub mod Suspension
use ketapod_website.Base.{
  ℕ, suc, ◌+◌, Bool, true, false, not, ◌&&◌, ◌||◌, Option, none, some, List, [], ◌∷◌, ltb, ◌==◌,
  if◌then◌else◌, find, any, update_where,
}
use ketapod_website.Identity.Model.{User, RefreshToken, AccessClaims, TokenPair, is_active}
use ketapod_website.Identity.{is_unrevoked, revoke_token, revoke_tokens_of_user, get_user_by_id}
use ketapod_website.Schema.{Error, Db}
use ketapod_website.Store.{
  Result, ok, err, M, pure, raise, raise_if, reads, query, lift, or_fail, recast, ◌>>=◌, ◌>>◌,
}

-- The part of Config that sessions use, with the hash of a token.
pub record Keys : Type 0 where
  pub hash : ℕ → ℕ
  pub access_ttl : ℕ
  pub refresh_ttl : ℕ

-- `GetRefreshTokenByHash` of the queries.
unfoldable pub token_by_hash : ℕ → Db → Option RefreshToken
token_by_hash h db = find (λ t. t.token_hash == h) db.refresh_tokens

-- The family is the one given, or a new uuid.
abbrev pub family_of : Option ℕ → ℕ → ℕ
family_of none fresh = fresh
family_of (some f) fresh = f

unfoldable pub new_token : ℕ → Option ℕ → Option ℕ → ℕ → ℕ → Db → RefreshToken
new_token user device family hash expires db = record {
  id = db.next_id;
  user_id = user;
  device_id = device;
  family_id = family_of family (suc db.next_id);
  token_hash = hash;
  expires_at = expires;
  revoked_at = none;
  used_at = none;
  replaced_by = none;
}

-- `CreateRefreshToken`: the hash is unique.
unfoldable pub insert_token : ℕ → Option ℕ → Option ℕ → ℕ → ℕ → Db → Result RefreshToken × Db
unfolding new_token
insert_token user device family hash expires db =
    let row = new_token user device family hash expires db in
    if any (λ t. t.token_hash == hash) db.refresh_tokens then (err Error.storage, db) else (
      ok row,
      record db { next_id = suc (suc db.next_id); refresh_tokens = row ∷ db.refresh_tokens },
    )

abbrev pub use_token : ℕ → ℕ → RefreshToken → RefreshToken
use_token now by t = record t { used_at = some now; revoked_at = some now; replaced_by = some by }

-- `MarkRefreshTokenUsed`
unfoldable pub mark_token_used : ℕ → ℕ → Db → Db
mark_token_used i by db = record db {
  refresh_tokens = update_where (λ t. t.id == i) (use_token db.now by) db.refresh_tokens;
}

-- `RevokeRefreshTokenFamily`
unfoldable pub revoke_family : ℕ → Db → Db
revoke_family family db = record db {
  refresh_tokens =
      update_where (λ t. t.family_id == family && is_unrevoked t.revoked_at) (revoke_token db.now)
        db.refresh_tokens;
}

-- Neither used nor revoked.
abbrev pub is_unspent : RefreshToken → Bool
is_unspent t = is_unrevoked t.used_at && is_unrevoked t.revoked_at

module _ (keys : Keys) (clock : ℕ) where
  -- `issueTokenPair`: the pair, and the id of the new row. `secret` is the random text.
  unfoldable pub issue_token_pair : ℕ → User → Option ℕ → Option ℕ → M (TokenPair × ℕ)
  issue_token_pair secret user device family = do
    row ← query (insert_token user.id device family (keys.hash secret) (clock + keys.refresh_ttl))
    pure (
      record {
        access_token = record {
          user_id = user.id;
          role = user.role;
          issued_at = clock;
          expires_at = clock + keys.access_ttl;
        };
        refresh_token = secret;
        expires_in = keys.access_ttl;
        user = user;
      },
      row.id,
    )

  -- The new pair of an active user, and the mark on the old token.
  unfoldable pub rotate : ℕ → RefreshToken → User → M TokenPair
  rotate secret existing user = do
    made ← issue_token_pair secret user existing.device_id (some existing.family_id)
    query (λ db. (ok tt, mark_token_used existing.id made.1 db))
    pure made.0

  unfoldable pub refresh_user : ℕ → RefreshToken → User → M TokenPair
  refresh_user secret existing user =
      if is_active user
      then rotate secret existing user
      else (query (λ db. (ok tt, revoke_tokens_of_user user.id db)) >> raise Error.suspended)

  -- What follows once the row is read.
  unfoldable pub refresh_found : ℕ → RefreshToken → M TokenPair
  refresh_found secret existing =
      if not (is_unspent existing)
      then (query (λ db. (ok tt, revoke_family existing.family_id db))
          >> raise Error.token_replayed)
      else if ltb existing.expires_at clock
      then raise Error.token_invalid
      else (get_user_by_id existing.user_id >>= refresh_user secret existing)

  -- `RefreshToken`
  unfoldable pub refresh : ℕ → ℕ → M TokenPair
  refresh secret plaintext = do
    found ← recast Error.token_invalid (reads (token_by_hash (keys.hash plaintext)))
    existing ← lift (or_fail Error.token_invalid found)
    refresh_found secret existing

  -- `Logout`
  unfoldable pub logout : ℕ → M (Unit {0})
  logout plaintext = query λ db. (
    ok tt,
    record db {
      refresh_tokens =
          update_where (λ t. t.token_hash == keys.hash plaintext) (revoke_token db.now)
            db.refresh_tokens;
    },
  )

-- `LogoutAll`
unfoldable pub logout_all : ℕ → M (Unit {0})
logout_all user = query (λ db. (ok tt, revoke_tokens_of_user user db))
