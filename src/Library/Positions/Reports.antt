-- ===== src/Library/Positions/Reports.antt =====
-- What the upsert of a position, in positions.sql of backend/internal/library, keeps of what a device
-- reports.
use ketapod_website.Base.{
  ℕ, ◌≡◌, refl, ap, ◌∙◌, inl, inr, Bool, true, Option, none, some, leb, if◌then◌else◌, Bool-cases,
  ==_refl, find-update_where, find_passes,
}
use ketapod_website.Base.Int.{ℤ}
use ketapod_website.Library.Model.{Position, PositionUpdate}
use ketapod_website.Library.Positions.{
  same_profile, is_position_of, position_of, time_of, new_position, overwrite, upsert_found,
  upsert_position,
}
use ketapod_website.Schema.{Db}

-- What a device reports, and what a row holds of it.
pub record Progress : Type 0 where
  pub seconds : ℤ
  pub duration : ℤ
  pub finished : Bool
  pub time : ℕ

abbrev pub progress : Position → Progress
progress p = record {
  seconds = p.position_seconds;
  duration = p.duration_seconds;
  finished = p.is_finished;
  time = p.device_updated_at;
}

abbrev pub reported : PositionUpdate → Progress
reported u = record {
  seconds = u.position_seconds;
  duration = u.duration_seconds;
  finished = u.is_finished;
  time = time_of u.device_updated_at;
}

abbrev pub held : Option Position → Option Progress
held none = none
held (some p) = some (progress p)

abbrev pub newer : Progress → Progress → Progress
newer a b = if leb a.time b.time then b else a

abbrev pub newer_of : Option Progress → Progress → Progress
newer_of none b = b
newer_of (some a) b = newer a b

same_profile_refl : (o : Option ℕ) → same_profile o o ≡ true
same_profile_refl none = refl
same_profile_refl (some a) = ==_refl a

module _ (user book : ℕ) (u : PositionUpdate) where
  is_position_of_new :
      (db : Db)
      → is_position_of user u.profile_id u.audio_edition_id (new_position user book u db) ≡ true
  unfolding new_position
  is_position_of_new db =
      rw (==_refl user, same_profile_refl u.profile_id, ==_refl u.audio_edition_id)

  is_position_of_found :
      (db : Db) {p : Position}
      → position_of user u.profile_id u.audio_edition_id db ≡ some p
      → is_position_of user u.profile_id u.audio_edition_id p ≡ true
  unfolding position_of
  is_position_of_found db e =
      find_passes (is_position_of user u.profile_id u.audio_edition_id) db.positions e

  upsert_found-held :
      (db : Db) (o : Option Position)
      → position_of user u.profile_id u.audio_edition_id db ≡ o
      → held (position_of user u.profile_id u.audio_edition_id (upsert_found user book u db o).1)
        ≡ some (newer_of (held o) (reported u))
  unfolding position_of new_position
  upsert_found-held db none e = rw (is_position_of_new db)
  upsert_found-held db (some p) e =
      elim (Bool-cases (leb p.device_updated_at (time_of u.device_updated_at))) [
        | inl wins ↦ rw wins (
            ap held {y = some (overwrite db.now u p)} (
              find-update_where (is_position_of user u.profile_id u.audio_edition_id)
                (is_position_of user u.profile_id u.audio_edition_id) (overwrite db.now u)
                (λ x. refl) db.positions {a = p} e
              ∙ rw (is_position_of_found db e)))
        | inr loses ↦ rw (loses, e)
      ]

  pub upsert_position-held :
      (db : Db)
      → held (position_of user u.profile_id u.audio_edition_id (upsert_position user book u db).1)
        ≡ some (newer_of (held (position_of user u.profile_id u.audio_edition_id db)) (reported u))
  unfolding upsert_position
  upsert_position-held db = upsert_found-held db _ refl
