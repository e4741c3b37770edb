-- ===== src/Ingest/Narration.antt =====
-- The parts of a narration: `readyParts`, `chaptersFrom`, `firstFormat` and `materialise` of
-- backend/internal/ingest/audio.go. The digest of the parts, the joining of files, the title of a part that
-- has none and lower case are parameters. A duration is in thousandths of a second.
pub mod Chapters
pub mod Sync
pub mod Stored
pub mod Sweep
use ketapod_website.Base.{
  ℕ, suc, ◌+◌, ◌/◌, Bool, true, false, not, ◌&&◌, ◌||◌, Option, none, some, List, [], ◌∷◌, ◌++◌,
  ◌==◌, if◌then◌else◌, find, any, select, update_where, take, map,
}
use ketapod_website.Base.Int.{ℤ}
use ketapod_website.Base.Text.{Bytes, Runes, bytes_eq, trim_space}
use ketapod_website.Catalog.Model.{ChapterRange, NarratedEdition}
use ketapod_website.Catalog.Write.{Words, upsert_narrated_edition, set_book_description_if_empty}
use ketapod_website.Ingest.Model.{
  AudioStatus, awaited, synced, broken, AudioPart, EditionAsset, Submission,
}
use ketapod_website.Ingest.Submit.{submission_of, change_submission, get}
use ketapod_website.Ingest.Dispatch.{get_row}
use ketapod_website.Schema.{Error, Db}
use ketapod_website.Store.{
  Result, ok, err, M, pure, raise, reads, query, lift, or_fail, caught, in_tx, ◌>>=◌, ◌>>◌,
}

-- `AudioConfig`, with its defaults in place.
pub record AudioConfig : Type 0 where
  pub voice_id : Runes
  pub voice_name : Runes
  pub voice_style : Runes
  pub price_irr : ℤ
  pub preview_seconds : ℤ

-- What the code asks of others: the statuses that are not finished, in lower case, the digest, the join of
-- several files, the titles and keys that it spells, and what the read of the AI service's own job answers.
pub record Studio : Type 0 where
  pub config : AudioConfig
  pub to_lower : Runes → Runes
  pub unfinished : List Runes
  pub digest : List AudioPart → Bytes
  pub join : List AudioPart → Result (Unit {0})
  pub part_title : ℕ → Runes
  pub joined_key : ℕ → Runes → Runes
  pub mp3 : Runes
  pub text_of : Error → Bytes
  pub job : Result (Unit {0})

abbrev pub is_blank : Runes → Bool
is_blank t = elim (trim_space t) [ [] ↦ true | c ∷ cs ↦ false ]

unfoldable pub is_ready : Studio → AudioPart → Bool
is_ready s p =
    not (any (λ t. bytes_eq t (s.to_lower p.status)) s.unfinished) && not (is_blank p.storage_key)

-- `readyParts`
unfoldable pub ready_parts : Studio → List AudioPart → List AudioPart
ready_parts s = select (is_ready s)

abbrev pub title_or : Runes → Runes → Runes
title_or other [] = other
title_or other (c ∷ cs) = c ∷ cs

-- The loop of `chaptersFrom`, from the part of this number and the time so far.
unfoldable pub lay_out : (ℕ → Runes) → ℕ → ℕ → List AudioPart → List ChapterRange
lay_out title i cursor [] = []
lay_out title i cursor (p ∷ ps) =
    record {
      title = title_or (title (suc i)) p.chapter_title;
      start_seconds = cursor;
      end_seconds = cursor + p.duration;
    }
    ∷ lay_out title (suc i) (cursor + p.duration) ps

abbrev pub is_untitled : Runes → Bool
is_untitled [] = true
is_untitled (c ∷ cs) = false

-- `chaptersFrom`: a single part without a title has none.
unfoldable pub chapters_from : (ℕ → Runes) → List AudioPart → List ChapterRange
chapters_from title [] = []
chapters_from title (p ∷ []) =
    if is_untitled p.chapter_title then [] else lay_out title 0 0 (p ∷ [])
chapters_from title (p ∷ q ∷ ps) = lay_out title 0 0 (p ∷ q ∷ ps)

-- The sum that `concatenate` returns.
unfoldable pub total_duration : List AudioPart → ℕ
total_duration [] = 0
total_duration (p ∷ ps) = p.duration + total_duration ps

-- `firstFormat`
unfoldable pub first_format : Studio → List AudioPart → Runes
first_format s [] = s.mp3
first_format s (p ∷ ps) =
    let rest = first_format s ps in
    elim (trim_space p.format) [ [] ↦ rest | c ∷ cs ↦ s.to_lower (c ∷ cs) ]

-- What `materialise` returns.
pub record Joined : Type 0 where
  pub key : Runes
  pub format : Runes
  pub duration : ℕ
  pub chapters : List ChapterRange

unfoldable pub join_all : Studio → ℕ → List AudioPart → Result (Unit {0}) → Result Joined
join_all s book ps (err e) = err e
join_all s book ps (ok u) = ok (record {
  key = s.joined_key book (first_format s ps);
  format = first_format s ps;
  duration = total_duration ps;
  chapters = chapters_from s.part_title ps;
})

-- `materialise`: one part is used where it lies.
unfoldable pub materialise : Studio → ℕ → List AudioPart → Result Joined
materialise s book (p ∷ []) =
    if p.duration == 0
    then err Error.invalid_input
    else ok (record {
      key = p.storage_key;
      format = p.format;
      duration = p.duration;
      chapters = chapters_from s.part_title (p ∷ []);
    })
materialise s book ps = join_all s book ps (s.join ps)
