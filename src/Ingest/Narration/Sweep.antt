-- ===== src/Ingest/Narration/Sweep.antt =====
-- What `SyncAudio` of backend/internal/ingest/audio.go leaves, for the next call and for the sweep.
use ketapod_website.Base.{◌+◌, ◌/◌, ◌⊎◌, ℕ, ◌≡◌, true, false, List, ◌∷◌, some}
use ketapod_website.Base.Text.{Bytes, Runes}
use ketapod_website.Catalog.Model.{NarratedEdition}
use ketapod_website.Catalog.Write.{Words}
use ketapod_website.Ingest.Model.{synced, AudioPart, Submission}
use ketapod_website.Ingest.Narration.{Studio, ready_parts, Joined, materialise}
use ketapod_website.Ingest.Narration.Sync.{is_current}
use ketapod_website.Schema.{Db}
use ketapod_website.Store.{Result, ok}
use ketapod_website.Ingest.Narration.Stored.{HasRow, IsListed, HasChapters, HasAsset}

-- A narration of this submission is in the catalogue: its edition is that of the book by the voice of the
-- studio, published and as long as the file in whole seconds, with these chapters and no other, and it
-- plays the file.
pub record IsNarrated (studio : Studio) (j : Joined) (s : Submission) (db : Db) : Type 0 where
  pub book : ℕ
  pub edition : ℕ
  pub of_book : s.catalog_book_id ≡ some book
  pub refers : s.catalog_edition_id ≡ some edition
  pub listed : IsListed book studio.config.voice_id ((j.duration + 500) / 1_000) edition db
  pub chapters : HasChapters edition j.chapters db
  pub asset : HasAsset edition j.key j.format db

-- The row is that of a narration with this signature, of the same book of the AI service, and the
-- narration is in the catalogue.
abbrev IsSettled : Studio → Submission → Joined → Bytes → Submission → Db → Type 0
IsSettled studio s j signature s' db =
    HasRow s.id s' db
    × (s'.audio_status ≡ synced)
    × (s'.audio_signature ≡ some signature)
    × (s'.ai_book_id ≡ s.ai_book_id)
    × IsNarrated studio j s' db

module _ (words : Words) (studio : Studio) (summary : ℕ → Result Runes) where
  -- What `sync_tx` tells the catalogue.
  abbrev narration_of : ℕ → Joined → NarratedEdition
  narration_of book j = record {
    book_id = book;
    voice_id = studio.config.voice_id;
    voice_name = studio.config.voice_name;
    voice_style = studio.config.voice_style;
    language = words.fa;
    is_kids_friendly = false;
    price_irr = studio.config.price_irr;
    preview_seconds = studio.config.preview_seconds;
    duration_seconds = (j.duration + 500) / 1_000;
    chapters = j.chapters;
  }

  -- The narration that was made is the one that is settled.
  abbrev IsMade : Submission → Bytes → Result Joined → Submission → Db → Type 0
  IsMade s signature r s' db = (j : Joined) × (r ≡ ok j) × IsSettled studio s j signature s' db

  -- Either the row was current and nothing has changed, or a narration was made and is in the catalogue.
  abbrev HasNarration : List AudioPart → Submission → Db → Db → Type 0
  HasNarration ready s before db =
      (db ≡ before)
      ⊎ ((j : Joined) × (materialise studio s.ai_book_id ready ≡ ok j) × IsNarrated studio j s db)

  -- The files of the book are there, and the row is current with them.
  abbrev IsDone : (ℕ → Result (List AudioPart)) → ℕ → Db → Submission → Db → Type 0
  IsDone parts id before s db =
      (p : AudioPart) × (ps : List AudioPart) × (all : List AudioPart) × HasRow id s db
      × (parts s.ai_book_id ≡ ok all)
      × (ready_parts studio all ≡ p ∷ ps)
      × (is_current studio (p ∷ ps) s ≡ true)
      × HasNarration (p ∷ ps) s before db
