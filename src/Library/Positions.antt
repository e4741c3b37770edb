-- ===== src/Library/Positions.antt =====
-- Playback positions: `SyncPosition` of backend/internal/library/service.go with positions.sql. The
-- book of an edition and the answer of the popularity counter are parameters, and so is the clock
-- of the server.
pub mod Reports
pub mod Untouched
pub mod Newest
pub mod Latest
mod Tests
use ketapod_website.Base.{
  ℕ, suc, ◌+◌, ◌*◌, Bool, true, false, not, ◌&&◌, Option, none, some, List, [], ◌∷◌, ltb, leb, ◌==◌,
  if◌then◌else◌, find, update_where,
}
use ketapod_website.Base.Int.{ℤ, pos, negsuc, ltb_ℤ, leb_ℤ, min_ℤ, pos_part, quot}
use ketapod_website.Commerce.Subscriptions.{record_usage}
use ketapod_website.Library.Model.{Position, PositionUpdate, ListeningEvent}
use ketapod_website.Schema.{Error, Db}
use ketapod_website.Store.{
  Result, ok, err, M, pure, raise, reads, query, lift, or_fail, ◌>>=◌, ◌>>◌,
}

abbrev pub max_sync_seconds : ℤ
max_sync_seconds = pos 3_600

-- In seconds: five minutes.
abbrev pub clock_skew : ℕ
clock_skew = 300

abbrev pub same_profile : Option ℕ → Option ℕ → Bool
same_profile none none = true
same_profile none (some b) = false
same_profile (some a) none = false
same_profile (some a) (some b) = a == b

-- The unique index of the table.
abbrev pub is_position_of : ℕ → Option ℕ → ℕ → Position → Bool
is_position_of user profile edition p =
    p.user_id == user && same_profile p.profile_id profile && p.audio_edition_id == edition

-- `GetListeningPosition`
unfoldable pub position_of : ℕ → Option ℕ → ℕ → Db → Option Position
position_of user profile edition db = find (is_position_of user profile edition) db.positions

abbrev pub device_time : ℕ → Option ℕ → ℕ
device_time clock none = clock
device_time clock (some t) = if ltb (clock + clock_skew) t then clock else t

-- The first part of `SyncPosition`: the time of the device and a position that is not negative.
unfoldable pub adjust : ℕ → PositionUpdate → PositionUpdate
adjust clock u = record u {
  device_updated_at = some (device_time clock u.device_updated_at);
  position_seconds = if ltb_ℤ u.position_seconds (pos 0) then pos 0 else u.position_seconds;
}

abbrev pub time_of : Option ℕ → ℕ
time_of none = 0
time_of (some t) = t

unfoldable pub new_position : ℕ → ℕ → PositionUpdate → Db → Position
new_position user book u db = record {
  id = db.next_id;
  user_id = user;
  profile_id = u.profile_id;
  audio_edition_id = u.audio_edition_id;
  book_id = book;
  position_seconds = u.position_seconds;
  duration_seconds = u.duration_seconds;
  is_finished = u.is_finished;
  device_updated_at = time_of u.device_updated_at;
  updated_at = db.now;
}

-- What ON CONFLICT writes.
abbrev pub overwrite : ℕ → PositionUpdate → Position → Position
overwrite now u p = record p {
  position_seconds = u.position_seconds;
  duration_seconds = u.duration_seconds;
  is_finished = u.is_finished;
  device_updated_at = time_of u.device_updated_at;
  updated_at = now;
}

abbrev pub upsert_found :
    ℕ → ℕ → PositionUpdate → Db → Option Position → Result (Option Position) × Db
upsert_found user book u db none = (
  ok (some (new_position user book u db)),
  record db { next_id = suc db.next_id; positions = new_position user book u db ∷ db.positions },
)
upsert_found user book u db (some p) =
    if leb p.device_updated_at (time_of u.device_updated_at)
    then (
      ok (some (overwrite db.now u p)),
      record db {
        positions =
            update_where (is_position_of user u.profile_id u.audio_edition_id) (overwrite db.now u)
              db.positions;
      },
    )
    else (ok none, db)

-- `UpsertListeningPosition`: `none` is no row, since the row that is there is newer.
unfoldable pub upsert_position : ℕ → ℕ → PositionUpdate → Db → Result (Option Position) × Db
upsert_position user book u db =
    upsert_found user book u db (position_of user u.profile_id u.audio_edition_id db)

-- `CreateListeningEvent`
unfoldable pub insert_event : ℕ → ℕ → ℕ → PositionUpdate → ℕ → Db → Db
insert_event clock user book u seconds db = record db {
  listening_events =
      record {
        user_id = user;
        profile_id = u.profile_id;
        audio_edition_id = u.audio_edition_id;
        book_id = book;
        seconds_listened = seconds;
        occurred_at = clock;
      }
      ∷ db.listening_events;
}

module _ (popularity : Result (Unit {0})) (clock : ℕ) where
  unfoldable pub record_seconds : ℕ → ℕ → PositionUpdate → ℕ → M (Unit {0})
  record_seconds user book u seconds = do
    query (λ db. (ok tt, insert_event clock user book u seconds db))
    record_usage user seconds
    lift popularity

  -- `recordListening`
  unfoldable pub record_listening : ℕ → ℕ → PositionUpdate → M (Unit {0})
  record_listening user book u =
      let seconds = min_ℤ u.seconds_listened max_sync_seconds in
      if leb_ℤ seconds (pos 0) then pure tt else record_seconds user book u (pos_part seconds)

  -- The position that stands, with whether the write lost (ErrStaleWrite).
  unfoldable pub answer : ℕ → PositionUpdate → Option Position → M (Position × Bool)
  answer user u (some p) = pure (p, false)
  answer user u none = do
    current ← reads (position_of user u.profile_id u.audio_edition_id)
    p ← lift (or_fail Error.not_found current)
    pure (p, true)

  unfoldable pub sync_adjusted : ℕ → ℕ → PositionUpdate → M (Position × Bool)
  sync_adjusted user book u = do
    written ← query (upsert_position user book u)
    record_listening user book u
    answer user u written

  -- `SyncPosition`
  unfoldable pub sync_position : (ℕ → Option ℕ) → ℕ → PositionUpdate → M (Position × Bool)
  sync_position books user u = do
    book ← lift (or_fail Error.upstream (books u.audio_edition_id))
    sync_adjusted user book (adjust clock u)

-- `SecondsListenedForEdition`: no position is 0.
abbrev pub seconds_of : Option Position → ℤ
seconds_of none = pos 0
seconds_of (some p) = quot p.position_seconds 1_000

unfoldable pub seconds_listened_for_edition : ℕ → ℕ → M ℤ
seconds_listened_for_edition user edition = do
  found ← reads (position_of user none edition)
  pure (seconds_of found)
