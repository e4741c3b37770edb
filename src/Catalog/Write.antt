-- ===== src/Catalog/Write.antt =====
-- The seam by which the ingest panel writes the catalogue in its own transaction:
-- backend/internal/catalog/write.go with its statements of books.sql. The random suffixes of a slug and
-- the texts that the code spells are parameters.
use ketapod_website.Base.{
  ℕ, zero, suc, Bool, true, not, ◌&&◌, Option, none, some, List, [], ◌∷◌, ◌++◌, ◌==◌, if◌then◌else◌,
  find, any, select, update_where,
}
use ketapod_website.Base.Text.{Runes, bytes_eq, trim_space}
use ketapod_website.Catalog.Model.{
  Author, Book, RightsGrant, Voice, NarratedRow, Chapter, NewBook, ChapterRange, NarratedEdition,
}
use ketapod_website.Catalog.Slugs.{Unicode, slugify}
use ketapod_website.Schema.{Error, Db}
use ketapod_website.Store.{Result, ok, M, pure, raise, query, ◌>>=◌, ◌>>◌}

-- The constants of the code.
pub record Words : Type 0 where
  pub fa : Runes
  pub published : Runes
  pub book : Runes
  pub panel_upload : Runes
  pub ai_narrator : Runes
  pub calm : Runes

abbrev pub or_default : Runes → Runes → Runes
or_default d [] = d
or_default d (c ∷ cs) = c ∷ cs

-- `optional`: a text of white space is none.
abbrev pub optional_from : Runes → Runes → Option Runes
optional_from s [] = none
optional_from s (c ∷ cs) = some s

unfoldable pub optional : Runes → Option Runes
optional s = optional_from s (trim_space s)

abbrev pub has_author_slug : Runes → Author → Bool
has_author_slug slug a = bytes_eq a.slug slug

abbrev pub upsert_author_found : Runes → Runes → Db → Option Author → Result ℕ × Db
upsert_author_found name slug db none = (
  ok db.next_id,
  record db {
    next_id = suc db.next_id;
    authors = record { id = db.next_id; name = name; slug = slug } ∷ db.authors;
  },
)
upsert_author_found name slug db (some a) = (
  ok a.id,
  record db {
    authors = update_where (has_author_slug slug) (λ x. record x { name = name }) db.authors;
  },
)

-- `UpsertAuthorByName`
unfoldable pub upsert_author : Runes → Runes → Db → Result ℕ × Db
upsert_author name slug db =
    upsert_author_found name slug db (find (has_author_slug slug) db.authors)

abbrev pub has_slug : Runes → Book → Bool
has_slug slug b = bytes_eq b.slug slug

unfoldable pub new_book : NewBook → Option ℕ → Runes → Db → Book
new_book b author slug db = record {
  id = db.next_id;
  slug = slug;
  title = b.title;
  author_id = author;
  description = optional b.description;
  cover_url = optional b.cover_url;
  language = b.language;
  is_kids_friendly = b.is_kids_friendly;
  status = b.status;
}

-- `CreateBookIfSlugFree`: `none` is no row, since the slug is taken.
unfoldable pub insert_book : NewBook → Option ℕ → Runes → Db → Result (Option ℕ) × Db
insert_book b author slug db = if any (has_slug slug) db.catalog_books then (ok none, db) else (
  ok (some db.next_id),
  record db {
    next_id = suc db.next_id;
    catalog_books = new_book b author slug db ∷ db.catalog_books;
  },
)

abbrev pub is_grant_of : ℕ → RightsGrant → Bool
is_grant_of book g = g.book_id == book

-- `EnsureIngestRightsGrant`
unfoldable pub ensure_grant : Runes → ℕ → Db → Db
ensure_grant source book db = if any (is_grant_of book) db.rights_grants then db else record db {
  rights_grants =
      record { book_id = book; revenue_share_percent = 0; contract_ref = source }
      ∷ db.rights_grants;
}

abbrev pub has_book_id : ℕ → Book → Bool
has_book_id book b = b.id == book

-- `SetBookCoverURL`
unfoldable pub set_book_cover_url : ℕ → Runes → M (Unit {0})
set_book_cover_url book url = query (λ db. (
  ok tt,
  record db {
    catalog_books =
        update_where (has_book_id book) (λ b. record b { cover_url = optional url })
          db.catalog_books;
  },
))

-- A description that a person wrote stays.
abbrev pub fill_description : Runes → Book → Book
fill_description text b = record b {
  description = elim b.description [ none ↦ some text | some t ↦ some (or_default text t) ];
}

-- `SetBookDescriptionIfEmptyInTx`
unfoldable pub set_book_description_if_empty : ℕ → Runes → M (Unit {0})
set_book_description_if_empty book text = query (λ db. (
  ok tt,
  record db {
    catalog_books = update_where (has_book_id book) (fill_description text) db.catalog_books;
  },
))

module _ (u : Unicode) (words : Words) (suffix : ℕ → Runes) where
  -- The author of a book that names one.
  abbrev pub author_named : Runes → M (Option ℕ)
  author_named [] = pure none
  author_named (c ∷ cs) = do a ← query (upsert_author (c ∷ cs) (slugify u (c ∷ cs))); pure (some a)

  abbrev pub candidate : Runes → ℕ → Runes
  candidate base zero = base
  candidate base (suc k) = base ++ (b'-' ∷ suffix (suc k))

  abbrev pub with_grant : M (ℕ × Runes) → Runes → Option ℕ → M (ℕ × Runes)
  with_grant again slug none = again
  with_grant again slug (some book) = do
    query (λ db. (ok tt, ensure_grant words.panel_upload book db))
    pure (book, slug)

  -- The loop over the attempts that are left, from this one.
  unfoldable pub try_slugs : NewBook → Option ℕ → Runes → ℕ → ℕ → M (ℕ × Runes)
  try_slugs b author base zero k = raise Error.storage
  try_slugs b author base (suc n) k = do
    created ← query (insert_book b author (candidate base k))
    with_grant (try_slugs b author base n (suc k)) (candidate base k) created

  abbrev pub with_defaults : NewBook → NewBook
  with_defaults b = record b {
    language = or_default words.fa b.language;
    status = or_default words.published b.status;
  }

  -- `CreateBookInTx`
  unfoldable pub create_book : NewBook → M (ℕ × Runes)
  create_book b = do
    author ← author_named (trim_space b.author_name)
    try_slugs (with_defaults b) author (or_default words.book (slugify u b.title)) 6 0

abbrev pub has_voice : Runes → Voice → Bool
has_voice voice v = bytes_eq v.id voice

-- `UpsertVoice`
unfoldable pub upsert_voice : Runes → Runes → Runes → Db → Db
upsert_voice voice name style db =
    if any (has_voice voice) db.voices
    then record db {
      voices = update_where (has_voice voice) (λ v. record v { name = name }) db.voices;
    }
    else record db { voices = record { id = voice; name = name; style = style } ∷ db.voices }

abbrev pub is_narration : ℕ → Runes → NarratedRow → Bool
is_narration book voice e = e.book_id == book && bytes_eq e.voice_id voice

abbrev pub refresh_narration : ℕ → NarratedRow → NarratedRow
refresh_narration seconds e = record e { duration_seconds = seconds; is_published = true }

abbrev pub upsert_narration_found : NarratedEdition → Db → Option NarratedRow → Result ℕ × Db
upsert_narration_found n db none = (
  ok db.next_id,
  record db {
    next_id = suc db.next_id;
    narrations =
        record {
          id = db.next_id;
          book_id = n.book_id;
          voice_id = n.voice_id;
          language = n.language;
          is_kids_friendly = n.is_kids_friendly;
          price_irr = n.price_irr;
          preview_seconds = n.preview_seconds;
          duration_seconds = n.duration_seconds;
          is_published = true;
        }
        ∷ db.narrations;
  },
)
upsert_narration_found n db (some e) = (
  ok e.id,
  record db {
    narrations =
        update_where (is_narration n.book_id n.voice_id) (refresh_narration n.duration_seconds)
          db.narrations;
  },
)

-- `UpsertAIEdition`
unfoldable pub upsert_narration : NarratedEdition → Db → Result ℕ × Db
upsert_narration n db =
    upsert_narration_found n db (find (is_narration n.book_id n.voice_id) db.narrations)

abbrev pub is_chapter_of : ℕ → Chapter → Bool
is_chapter_of edition c = c.audio_edition_id == edition

-- `DeleteChaptersForEdition`
unfoldable pub delete_chapters : ℕ → Db → Db
delete_chapters edition db = record db {
  chapters = select (λ c. not (is_chapter_of edition c)) db.chapters;
}

-- `CreateChapter`
unfoldable pub insert_chapter : ℕ → ℕ → ChapterRange → Db → Db
insert_chapter edition i c db = record db {
  chapters =
      record {
        audio_edition_id = edition;
        title = c.title;
        sort_order = i;
        start_seconds = c.start_seconds;
        end_seconds = c.end_seconds;
      }
      ∷ db.chapters;
}

-- The loop over the chapters, from this number.
unfoldable pub create_chapters : ℕ → ℕ → List ChapterRange → M (Unit {0})
create_chapters edition i [] = pure tt
create_chapters edition i (c ∷ cs) = do
  query (λ db. (ok tt, insert_chapter edition i c db))
  create_chapters edition (suc i) cs

-- `UpsertNarratedEditionInTx`
unfoldable pub upsert_narrated_edition : Words → NarratedEdition → M ℕ
upsert_narrated_edition words n = do
  query (λ db. (
    ok tt,
    upsert_voice n.voice_id (or_default words.ai_narrator n.voice_name)
        (or_default words.calm n.voice_style) db,
  ))
  edition ← query (upsert_narration (record n { language = or_default words.fa n.language }))
  query (λ db. (ok tt, delete_chapters edition db))
  create_chapters edition 0 n.chapters
  pure edition
