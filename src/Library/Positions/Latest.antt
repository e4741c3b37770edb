-- ===== src/Library/Positions/Latest.antt =====
-- Several devices that report positions, to `SyncPosition` of backend/internal/library/service.go.
use ketapod_website.Base.{
  ℕ, ◌≡◌, ◌↔◌, refl, sym, ap, ◌∙◌, Bool, false, Option, none, some, List, [], ◌∷◌, map, find, All,
}
use mathlib.Core.Path.{subst}
use ketapod_website.Library.Model.{PositionUpdate}
use ketapod_website.Library.Positions.{
  same_profile, is_position_of, position_of, adjust, upsert_position, sync_adjusted, sync_position,
}
use ketapod_website.Schema.{Db}
use ketapod_website.Store.{Result, query, lift}
use ketapod_website.Store.Rules.{Keeps-db, Keeps-then}
use ketapod_website.Library.Positions.Reports.{
  Progress, reported, held, newer_of, upsert_position-held,
}
use ketapod_website.Library.Positions.Untouched.{
  Same, record_listening-Same, answer-Same, after_query-Keeps,
}
use ketapod_website.Library.Positions.Newest.{folded, In, AreTimed, folded-same}

-- A report as it reaches the server: the clock, the answer of the popularity counter, the update,
-- and which statements fail after the one that writes the position.
pub record Arrival : Type 0 where
  pub clock : ℕ
  pub popularity : Result (Unit {0})
  pub update : PositionUpdate
  pub faults : List Bool

module _ (books : ℕ → Option ℕ) (user : ℕ) where
  unfoldable pub arrive : Arrival → Db → Db
  arrive a db =
      (sync_position a.popularity a.clock books user a.update
        (record { db = db; faults = false ∷ a.faults })).1.db

  unfoldable pub arrive_all : List Arrival → Db → Db
  unfolding arrive
  arrive_all [] db = db
  arrive_all (a ∷ rest) db = arrive_all rest (arrive a db)

  -- Whatever else fails, the positions are those that the upsert writes.
  arrive-Same :
      (a : Arrival) (book : ℕ) (db : Db)
      → books a.update.audio_edition_id ≡ some book
      → (arrive a db).positions
        ≡ (upsert_position user book (adjust a.clock a.update) db).1.positions
  unfolding arrive sync_position sync_adjusted query lift
  arrive-Same a book db known =
      rw (known, arrive, sync_position)
        (Keeps-db (Same _) _ (
          after_query-Keeps (Same _) a.faults db
            (upsert_position user book (adjust a.clock a.update) db) _ refl
            λ o w h.
              Keeps-then (Same _) _ _
                (record_listening-Same a.popularity a.clock user book (adjust a.clock a.update) _ w
                  h)
                λ x w' h'.
                  answer-Same a.popularity a.clock user (adjust a.clock a.update) o _ w' h'))

abbrev pub report : Arrival → Progress
report a = reported (adjust a.clock a.update)

-- A report about this edition, for this profile.
abbrev pub IsAbout : Option ℕ → ℕ → Arrival → Type 0
IsAbout profile edition a = (a.update.profile_id ≡ profile) × (a.update.audio_edition_id ≡ edition)

module _ (books : ℕ → Option ℕ) (user : ℕ) (profile : Option ℕ) (edition book : ℕ)
    (known : books edition ≡ some book) where
  arrive-held_own :
      (a : Arrival) (db : Db)
      → books a.update.audio_edition_id ≡ some book
      → held
          (position_of user a.update.profile_id a.update.audio_edition_id (arrive books user a db))
        ≡ some (
            newer_of
              (held (position_of user a.update.profile_id a.update.audio_edition_id db))
              (report a))
  unfolding position_of adjust
  arrive-held_own a db here =
      ap (λ ps. held (find (is_position_of user a.update.profile_id a.update.audio_edition_id) ps))
        (arrive-Same books user a book db here)
      ∙ upsert_position-held user book (adjust a.clock a.update) db

  arrive-held :
      (a : Arrival) (db : Db)
      → IsAbout profile edition a
      → held (position_of user profile edition (arrive books user a db))
        ≡ some (newer_of (held (position_of user profile edition db)) (report a))
  arrive-held a db (same_profile, same_edition) =
      subst
        (λ e.
          held (position_of user profile e (arrive books user a db))
          ≡ some (newer_of (held (position_of user profile e db)) (report a)))
        same_edition
        (subst
          (λ q.
            held (position_of user q a.update.audio_edition_id (arrive books user a db))
            ≡ some (newer_of (held (position_of user q a.update.audio_edition_id db)) (report a)))
          same_profile (arrive-held_own a db (ap books same_edition ∙ known)))

  arrive_all-held :
      (arrivals : List Arrival) (db : Db)
      → All (IsAbout profile edition) arrivals
      → held (position_of user profile edition (arrive_all books user arrivals db))
        ≡ folded (held (position_of user profile edition db)) (map report arrivals)
  unfolding arrive_all
  arrive_all-held [] db h = refl
  arrive_all-held (a ∷ rest) db h =
      arrive_all-held rest (arrive books user a db) h.1
      ∙ ap (λ o. folded o (map report rest)) (arrive-held a db h.0)

-- Devices that report the position of one edition, which the catalog knows, for one profile leave the
-- same position whatever the order in which their reports arrive, how often one is sent again and
-- what fails after a position is written: two sequences with the same reports, as the server clamps
-- them, end with the same position. (Nothing was stored before, and reports with one device time
-- are equal.)
pub arrive_all-same :
    (books : ℕ → Option ℕ) (user : ℕ) (profile : Option ℕ) (edition book : ℕ) (db : Db)
    (first second : List Arrival)
    → books edition ≡ some book
    → position_of user profile edition db ≡ none
    → All (IsAbout profile edition) first
    → All (IsAbout profile edition) second
    → AreTimed (map report first)
    → ((p : Progress) → In p (map report first) ↔ In p (map report second))
    → held (position_of user profile edition (arrive_all books user first db))
      ≡ held (position_of user profile edition (arrive_all books user second db))
arrive_all-same books user profile edition book db first second known empty about_first about_second
      timed same =
    arrive_all-held books user profile edition book known first db about_first
    ∙ rw empty (folded-same (map report first) (map report second) timed same)
    ∙ sym (arrive_all-held books user profile edition book known second db about_second)
