-- ===== src/Ingest/Narration/Sync.antt =====
-- `SyncAudio` and `SyncAudioSweep` of backend/internal/ingest/audio.go, with the statements of repo.go and
-- ingest.sql and `UpsertEditionAsset` of backend/internal/media/write.go. What the AI service has in its
-- tables is a parameter.
use ketapod_website.Base.{
  ℕ, suc, ◌+◌, ◌/◌, Bool, true, false, ◌&&◌, Option, none, some, List, [], ◌∷◌, ◌++◌, ◌==◌,
  if◌then◌else◌, any, select, update_where, take, map,
}
use ketapod_website.Base.Text.{Bytes, Runes, bytes_eq}
use ketapod_website.Catalog.Write.{Words, upsert_narrated_edition, set_book_description_if_empty}
use ketapod_website.Ingest.Model.{
  AudioStatus, awaited, synced, broken, AudioPart, EditionAsset, Submission,
}
use ketapod_website.Ingest.Submit.{change_submission, get}
use ketapod_website.Ingest.Dispatch.{get_row}
use ketapod_website.Schema.{Error, Db}
use ketapod_website.Store.{
  Result, ok, err, M, pure, raise, reads, query, lift, caught, in_tx, ◌>>=◌, ◌>>◌,
}
use ketapod_website.Ingest.Narration.{Studio, ready_parts, Joined, materialise}

abbrev pub is_asset : ℕ → Runes → EditionAsset → Bool
is_asset edition format a = a.audio_edition_id == edition && bytes_eq a.format format

-- `UpsertEditionAsset`
unfoldable pub upsert_asset : ℕ → Runes → Runes → ℕ → Db → Db
upsert_asset edition key format seconds db =
    if any (is_asset edition format) db.edition_assets
    then record db {
      edition_assets =
          update_where (is_asset edition format)
            (λ a. record a { storage_key = key; duration_seconds = seconds }) db.edition_assets;
    }
    else record db {
      edition_assets =
          record {
            audio_edition_id = edition;
            storage_key = key;
            format = format;
            duration_seconds = seconds;
          }
          ∷ db.edition_assets;
    }

abbrev pub to_synced : ℕ → Bytes → Db → Submission → Submission
to_synced edition signature db s = record s {
  catalog_edition_id = some edition;
  audio_status = synced;
  audio_error = none;
  audio_signature = some signature;
}

abbrev pub to_broken : Bytes → Db → Submission → Submission
to_broken reason db s = record s { audio_status = broken; audio_error = some (take 500 reason) }

-- `MarkAudioSynced`
unfoldable pub mark_audio_synced : ℕ → ℕ → Bytes → M (Unit {0})
unfolding change_submission
mark_audio_synced id edition signature = change_submission id (to_synced edition signature)

-- `MarkAudioFailed`
unfoldable pub mark_audio_failed : ℕ → Bytes → M (Unit {0})
unfolding change_submission
mark_audio_failed id reason = change_submission id (to_broken reason)

-- int(duration + 0.5)
abbrev pub whole_seconds : ℕ → ℕ
whole_seconds d = (d + 500) / 1_000

abbrev pub is_synced : AudioStatus → Bool
is_synced synced = true
is_synced _ = false

abbrev pub holds_signature : Option Bytes → Bytes → Bool
holds_signature none t = bytes_eq [] t
holds_signature (some s) t = bytes_eq s t

-- Nothing has changed on the side of the AI service.
unfoldable pub is_current : Studio → List AudioPart → Submission → Bool
is_current studio ready s =
    is_synced s.audio_status && holds_signature s.audio_signature (studio.digest ready)

abbrev pub fill_summary : ℕ → Result Runes → M (Unit {0})
fill_summary book (ok (c ∷ cs)) = set_book_description_if_empty book (c ∷ cs)
fill_summary book _ = pure tt

-- The book of a submission: an id that does not parse fails.
abbrev pub book_of : Option ℕ → Result ℕ
book_of none = err Error.storage
book_of (some b) = ok b

module _ (words : Words) (studio : Studio) (summary : ℕ → Result Runes) where
  -- The function that `SyncAudio` runs in its transaction.
  unfoldable pub sync_tx : Submission → Joined → Bytes → M (Unit {0})
  sync_tx s j signature = do
    book ← lift (book_of s.catalog_book_id)
    edition ← upsert_narrated_edition words (record {
      book_id = book;
      voice_id = studio.config.voice_id;
      voice_name = studio.config.voice_name;
      voice_style = studio.config.voice_style;
      language = words.fa;
      is_kids_friendly = false;
      price_irr = studio.config.price_irr;
      preview_seconds = studio.config.preview_seconds;
      duration_seconds = whole_seconds j.duration;
      chapters = j.chapters;
    })
    query (λ db. (ok tt, upsert_asset edition j.key j.format (whole_seconds j.duration) db))
    fill_summary book (summary s.ai_book_id)
    mark_audio_synced s.id edition signature

  -- A failure is recorded, and whether that worked is not looked at.
  unfoldable pub broken_with : ℕ → Error → M Submission
  broken_with id e = do caught (mark_audio_failed id (studio.text_of e)); raise e

  abbrev pub after_sync : ℕ → Result (Unit {0}) → M Submission
  after_sync id (ok u) = get studio.job id
  after_sync id (err e) = broken_with id e

  abbrev pub after_join : Submission → Bytes → Result Joined → M Submission
  after_join s signature (err e) = broken_with s.id e
  after_join s signature (ok j) = do r ← caught (in_tx (sync_tx s j signature)); after_sync s.id r

  abbrev pub sync_ready : Submission → List AudioPart → M Submission
  sync_ready s [] = raise Error.no_audio_yet
  sync_ready s (p ∷ ps) =
      if is_current studio (p ∷ ps) s
      then pure s
      else after_join s (studio.digest (p ∷ ps)) (materialise studio s.ai_book_id (p ∷ ps))

  -- `SyncAudio`, with the files that the AI service has made for a book.
  unfoldable pub sync_audio : (ℕ → Result (List AudioPart)) → ℕ → M Submission
  sync_audio parts id = do
    s ← get_row id
    all_parts ← lift (parts s.ai_book_id)
    sync_ready s (ready_parts studio all_parts)

abbrev pub waits_for_audio : AudioStatus → Bool
waits_for_audio awaited = true
waits_for_audio broken = true
waits_for_audio _ = false

abbrev pub is_candidate : (ℕ → Bool) → Submission → Bool
is_candidate has_audio s = s.want_tts && waits_for_audio s.audio_status && has_audio s.ai_book_id

abbrev pub oldest_first : List Submission → List Submission
oldest_first [] = []
oldest_first (s ∷ ss) = oldest_first ss ++ (s ∷ [])

-- `ListAudioSyncCandidates`, with the books that have some file.
unfoldable pub sync_candidates : (ℕ → Bool) → ℕ → Db → List ℕ
sync_candidates has_audio limit db =
    take limit (map (λ s. s.id) (oldest_first (select (is_candidate has_audio) db.submissions)))

-- How many were synced and how many failed.
abbrev pub tally : Result Submission → ℕ × ℕ → ℕ × ℕ
tally (ok s) (a, b) = (suc a, b)
tally (err Error.no_audio_yet) (a, b) = (a, b)
tally (err e) (a, b) = (a, suc b)

module _ (words : Words) (studio : Studio) (summary : ℕ → Result Runes)
    (parts : ℕ → Result (List AudioPart)) where
  unfoldable pub sync_each : List ℕ → ℕ × ℕ → M (ℕ × ℕ)
  sync_each [] counts = pure counts
  sync_each (id ∷ ids) counts = do
    r ← caught (sync_audio words studio summary parts id)
    sync_each ids (tally r counts)

  -- `SyncAudioSweep`
  unfoldable pub sync_audio_sweep : (ℕ → Bool) → ℕ → M (ℕ × ℕ)
  sync_audio_sweep has_audio limit = do
    ids ← reads (sync_candidates has_audio limit)
    sync_each ids (0, 0)
