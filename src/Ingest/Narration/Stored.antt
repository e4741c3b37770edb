-- ===== src/Ingest/Narration/Stored.antt =====
-- The edition that `SyncAudio` of backend/internal/ingest/audio.go writes to the catalogue: the row, the
-- chapters and the asset, through the statements of its transaction.
use ketapod_website.Base.{
  find, find-update_where, any-update_where_some, select, select-select-not, ==_refl, ℕ, suc, ◌≡◌,
  refl, ap, ◌∙◌, inl, inr, true, ◌&&◌, List, [], ◌∷◌, Option, some, none, arith, any, find_passes,
  Bool-cases,
}
use ketapod_website.Base.Text.{Runes, bytes_eq, bytes_eq_refl}
use ketapod_website.Catalog.Model.{Chapter, ChapterRange, NarratedEdition, NarratedRow}
use ketapod_website.Catalog.Write.{
  Words, is_narration, refresh_narration, is_chapter_of, or_default, upsert_voice, has_voice,
  upsert_narration, upsert_narration_found, delete_chapters, create_chapters, insert_chapter,
  upsert_narrated_edition, set_book_description_if_empty,
}
use ketapod_website.Ingest.Model.{Submission}
use ketapod_website.Ingest.Submit.{submission_of}
use ketapod_website.Ingest.Narration.Sync.{is_asset, upsert_asset, fill_summary}
use ketapod_website.Schema.{Db}
use ketapod_website.Store.{Result, ok, err, World}
use ketapod_website.Store.Rules.{Ensures, Ensures-then, Ensures-pure, Ensures-map}
use ketapod_website.Store.Steps.{Ensures-step, Ensures-write}

-- The row of this submission is that one.
abbrev pub HasRow : ℕ → Submission → Db → Type 0
HasRow id s db = submission_of id db ≡ some s

voice-HasRow :
    (id : ℕ) (s : Submission) (voice name style : Runes) (db : Db)
    → HasRow id s db
    → HasRow id s (upsert_voice voice name style db)
unfolding upsert_voice submission_of
voice-HasRow id s voice name style db h = elim (Bool-cases (any (has_voice voice) db.voices)) [
  | inl there ↦ rw there h
  | inr absent ↦ rw absent h
]

narration-HasRow :
    (id : ℕ) (s : Submission) (n : NarratedEdition) (db : Db) (o : Option NarratedRow)
    → HasRow id s db
    → HasRow id s (upsert_narration_found n db o).1
unfolding submission_of
narration-HasRow id s n db none h = h
narration-HasRow id s n db (some e) h = h

-- The edition of this id is the narration of a book by a voice, published and this long.
abbrev pub IsListed : ℕ → Runes → ℕ → ℕ → Db → Type 0
IsListed book voice seconds edition db =
    (e : NarratedRow) × (find (is_narration book voice) db.narrations ≡ some e)
    × (e.id ≡ edition)
    × (e.is_published ≡ true)
    × (e.duration_seconds ≡ seconds)

-- The rows of these chapters, newest first, on top of others.
abbrev pub chapter_rows : ℕ → ℕ → List ChapterRange → List Chapter → List Chapter
chapter_rows edition i [] table = table
chapter_rows edition i (c ∷ cs) table = chapter_rows edition (suc i) cs (
    record {
      audio_edition_id = edition;
      title = c.title;
      sort_order = i;
      start_seconds = c.start_seconds;
      end_seconds = c.end_seconds;
    }
    ∷ table)

-- The chapters of an edition are these.
abbrev pub HasChapters : ℕ → List ChapterRange → Db → Type 0
HasChapters edition cs db =
    select (is_chapter_of edition) db.chapters ≡ chapter_rows edition 0 cs []

-- An edition plays the file of this key.
abbrev pub HasAsset : ℕ → Runes → Runes → Db → Type 0
HasAsset edition key format db =
    any (λ a. is_asset edition format a && bytes_eq a.storage_key key) db.edition_assets ≡ true

narration-Listed :
    (n : NarratedEdition) (db : Db) (o : Option NarratedRow) (edition : ℕ)
    → find (is_narration n.book_id n.voice_id) db.narrations ≡ o
    → (upsert_narration_found n db o).0 ≡ ok edition
    → IsListed n.book_id n.voice_id n.duration_seconds edition (upsert_narration_found n db o).1
narration-Listed n db none edition found e = (
  record {
    id = db.next_id;
    book_id = n.book_id;
    voice_id = n.voice_id;
    language = n.language;
    is_kids_friendly = n.is_kids_friendly;
    price_irr = n.price_irr;
    preview_seconds = n.preview_seconds;
    duration_seconds = n.duration_seconds;
    is_published = true;
  },
  rw (==_refl n.book_id, bytes_eq_refl n.voice_id) refl,
  ground (arith, e),
  refl,
  refl,
)
narration-Listed n db (some old) edition found e =
    let hit = find_passes (is_narration n.book_id n.voice_id) db.narrations found in
    (
      refresh_narration n.duration_seconds old,
      find-update_where (is_narration n.book_id n.voice_id) (is_narration n.book_id n.voice_id)
            (refresh_narration n.duration_seconds) (λ x. refl) db.narrations found
          ∙ rw hit refl,
      ground (arith, e),
      refl,
      refl,
    )

pub asset-HasAsset :
    (edition : ℕ) (key format : Runes) (seconds : ℕ) (db : Db)
    → HasAsset edition key format (upsert_asset edition key format seconds db)
unfolding upsert_asset
asset-HasAsset edition key format seconds db =
    elim (Bool-cases (any (is_asset edition format) db.edition_assets)) [
      | inl there ↦ rw there (
          any-update_where_some (λ a. is_asset edition format a && bytes_eq a.storage_key key)
            (is_asset edition format)
            (λ a. record a { storage_key = key; duration_seconds = seconds })
            (λ a own. rw (own, bytes_eq_refl key) refl) db.edition_assets there)
      | inr absent ↦ rw absent (rw (==_refl edition, bytes_eq_refl format, bytes_eq_refl key) refl)
    ]

-- What the catalogue has of an edition so far.
abbrev Staged : ℕ → Submission → ℕ → Runes → ℕ → ℕ → Db → Type 0
Staged id s book voice seconds edition db = HasRow id s db × IsListed book voice seconds edition db

chapters-Staged :
    (id : ℕ) (s : Submission) (book : ℕ) (voice : Runes) (seconds edition i : ℕ)
    (cs : List ChapterRange) (w : World)
    → Staged id s book voice seconds edition w.db
    → Ensures
        (λ x db.
          Staged id s book voice seconds edition db
          × (select (is_chapter_of edition) db.chapters
              ≡ chapter_rows edition i cs (select (is_chapter_of edition) w.db.chapters)))
        (create_chapters edition i cs w)
unfolding create_chapters insert_chapter submission_of
chapters-Staged id s book voice seconds edition i [] w h = Ensures-pure _ tt w (h, refl)
chapters-Staged id s book voice seconds edition i (c ∷ cs) w h = Ensures-step _ _ _ w λ x fs e.
    Ensures-map _ _ _ (chapters-Staged id s book voice seconds edition (suc i) cs _ h)
      λ y db more. (more.0, more.1 ∙ rw (==_refl edition) refl)

-- What the transaction has stored of a narration, but for its asset.
abbrev pub IsFiled : ℕ → Submission → NarratedEdition → ℕ → Db → Type 0
IsFiled id s n edition db =
    HasRow id s db
    × IsListed n.book_id n.voice_id n.duration_seconds edition db
    × HasChapters edition n.chapters db

pub edition-Filed :
    (id : ℕ) (s : Submission) (words : Words) (n : NarratedEdition) (w : World)
    → HasRow id s w.db
    → Ensures (λ edition db. IsFiled id s n edition db) (upsert_narrated_edition words n w)
unfolding upsert_narrated_edition upsert_narration delete_chapters submission_of
edition-Filed id s words n w h =
    let voiced =
      voice-HasRow id s n.voice_id (or_default words.ai_narrator n.voice_name)
        (or_default words.calm n.voice_style) w.db h in
    let named : NarratedEdition = record n { language = or_default words.fa n.language } in
    let there = narration-HasRow id s named _ _ voiced in
    Ensures-step (λ edition db. IsFiled id s n edition db) _ _ w
      λ x fs e.
        Ensures-step (λ edition db. IsFiled id s n edition db) _ _ _
          λ edition fs' e'.
            Ensures-step (λ edition db. IsFiled id s n edition db) _ _ _
              λ y fs'' e''.
                Ensures-then _ (λ edition db. IsFiled id s n edition db) _ _
                  (chapters-Staged id s n.book_id n.voice_id n.duration_seconds edition 0 n.chapters
                    _ (there, narration-Listed named _ _ edition refl e'))
                  λ z w' made.
                    Ensures-pure (λ edition db. IsFiled id s n edition db) edition w'
                      (
                        made.0.0,
                        made.0.1,
                        made.1
                            ∙ ap (chapter_rows edition 0 n.chapters)
                                (select-select-not (is_chapter_of edition) _),
                      )

pub asset-Filed :
    (id : ℕ) (s : Submission) (n : NarratedEdition) (edition : ℕ) (key format : Runes) (seconds : ℕ)
    (db : Db)
    → IsFiled id s n edition db
    → IsFiled id s n edition (upsert_asset edition key format seconds db)
unfolding upsert_asset submission_of
asset-Filed id s n edition key format seconds db h =
    elim (Bool-cases (any (is_asset edition format) db.edition_assets)) [
      | inl there ↦ rw there h
      | inr absent ↦ rw absent h
    ]

pub summary-Filed :
    (id : ℕ) (s : Submission) (n : NarratedEdition) (edition : ℕ) (key format : Runes) (book : ℕ)
    (r : Result Runes) (w : World)
    → IsFiled id s n edition w.db × HasAsset edition key format w.db
    → Ensures
        (λ x db. IsFiled id s n edition db × HasAsset edition key format db)
        (fill_summary book r w)
unfolding set_book_description_if_empty submission_of
summary-Filed id s n edition key format book (ok (c ∷ cs)) w h = Ensures-write _ _ w h
summary-Filed id s n edition key format book (ok []) w h = Ensures-pure _ tt w h
summary-Filed id s n edition key format book (err e) w h = Ensures-pure _ tt w h
