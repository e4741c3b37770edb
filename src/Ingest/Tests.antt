-- ===== src/Ingest/Tests.antt =====
-- An upload of a small book, its job and its narration.
use ketapod_website.Base.{
  ℕ, ◌+◌, ◌≡◌, ◌⊎◌, refl, true, false, ◌&&◌, ◌||◌, List, [], ◌∷◌, some, none, leb, arith, length,
  if◌then◌else◌,
}
use ketapod_website.Base.Int.{pos}
use ketapod_website.Base.Text.{Bytes, Runes, is_white, trim_space}
use ketapod_website.Catalog.Slugs.{Unicode, slugify, slug_from}
use ketapod_website.Catalog.Write.{Words}
use ketapod_website.Ingest.Dispatch.{Outcome, process_dispatch}
use ketapod_website.Ingest.Dispatch.Recorded.{Ends, process_dispatch_records}
use ketapod_website.Ingest.Model.{
  DispatchStatus, awaited, synced, AudioPart, Submission, SubmitInput,
}
use ketapod_website.Ingest.Narration.{
  Studio, chapters_from, lay_out, total_duration, first_format, Joined, join_all, materialise,
}
use ketapod_website.Ingest.Narration.Sync.{sync_audio}
use ketapod_website.Ingest.Narration.Chapters.{IsTiling, IsWhole, materialise-IsDivided}
use ketapod_website.Ingest.Submit.{PanelWords, submission_of, submit}
use ketapod_website.Ingest.Submit.Accepted.{submit_is_all_or_nothing}
use ketapod_website.Ingest.Submit.Built.{IsAccepted}
use ketapod_website.Ingest.Uploads.{
  cover_not_image, validate, pdf_complaints, cover_complaints, looks_like_pdf, encode, last_120,
  safe_file_name,
}
use ketapod_website.Ingest.Uploads.Names.{IsPart, safe_file_name-IsPart}
use ketapod_website.Samples.{no_rows}
use ketapod_website.Schema.{Error, Db}
use ketapod_website.Store.{ok, err, World, Result}
use ketapod_website.Store.Rules.{Keeps}

-- Latin letters and digits only.
abbrev ascii : Unicode
ascii = record {
  is_letter = λ r. (leb b'a' r && leb r b'z') || (leb b'A' r && leb r b'Z');
  is_digit = λ r. leb b'0' r && leb r b'9';
  to_lower = λ r. if leb b'A' r && leb r b'Z' then r + 32 else r;
}

abbrev texts : Words
texts = record {
  fa = b'f' ∷ b'a' ∷ [];
  published = b'p' ∷ [];
  book = b'b' ∷ b'o' ∷ b'o' ∷ b'k' ∷ [];
  panel_upload = b'u' ∷ [];
  ai_narrator = b'n' ∷ [];
  calm = b'c' ∷ [];
}

abbrev book_pdf : Bytes
book_pdf = b'b' ∷ b'.' ∷ b'p' ∷ b'd' ∷ b'f' ∷ []

abbrev panel : PanelWords
panel = record {
  catalog = texts;
  application_pdf = b'p' ∷ [];
  image_jpeg = b'j' ∷ [];
  pdf = b'p' ∷ b'd' ∷ b'f' ∷ [];
  book_pdf = book_pdf;
  cover_jpg = b'c' ∷ b'.' ∷ b'j' ∷ [];
  books_of = λ id. b'k' ∷ id ∷ b'/' ∷ [];
  original = b'o' ∷ b'/' ∷ [];
  cover = b'c' ∷ b'/' ∷ [];
}

-- ../x/My book.pdf
abbrev path : Runes
path = b'.' ∷ b'.' ∷ b'/' ∷ b'x' ∷ b'/' ∷ b'M' ∷ b'y' ∷ 32 ∷ b'b' ∷ b'.' ∷ b'p' ∷ b'd' ∷ b'f' ∷ []

abbrev upload : SubmitInput
upload = record {
  title = b'M' ∷ b'y' ∷ [];
  author = b'A' ∷ [];
  description = [];
  pdf = record { file_name = path; content_type = []; bytes = 37 ∷ 80 ∷ 68 ∷ 70 ∷ 45 ∷ 1 ∷ [] };
  cover = none;
  want_tts = true;
  want_assistant = false;
  created_by = [];
}

abbrev calm : Db → World
calm db = record { db = db; faults = [] }

-- A text of one letter of two bytes passes for a title, and a picture is told by its declared type.
one_letter :
    validate (record upload {
      title = 0x628 ∷ [];
      cover = some (record { file_name = []; content_type = []; bytes = [] });
    })
    ≡ cover_not_image ∷ []
unfolding validate pdf_complaints cover_complaints looks_like_pdf trim_space encode
one_letter = refl

stored_name :
    safe_file_name ascii path book_pdf ≡ b'M' ∷ b'y' ∷ b'-' ∷ b'b' ∷ b'.' ∷ b'p' ∷ b'd' ∷ b'f' ∷ []
unfolding safe_file_name is_white last_120 encode
stored_name = refl

slug_of_title :
    slugify ascii (32 ∷ b'M' ∷ b'y' ∷ b'_' ∷ 32 ∷ b'B' ∷ b'.' ∷ []) ≡ b'm' ∷ b'y' ∷ b'-' ∷ b'b' ∷ []
unfolding slugify slug_from trim_space is_white
slug_of_title = refl

book_pdf-IsPart : IsPart book_pdf
book_pdf-IsPart = record {
  no_slash = ground arith;
  not_empty = λ e. cc;
  not_dot = λ e. cc;
  not_parent = λ e. cc;
  short = omega arith;
}

safe_file_name-IsPart_example : IsPart (safe_file_name ascii path book_pdf)
safe_file_name-IsPart_example = safe_file_name-IsPart ascii refl refl path book_pdf book_pdf-IsPart

-- The statement for the document fails.
submit_is_all_or_nothing_example :
    Keeps
      (λ d. (d ≡ no_rows) ⊎ ((id : ℕ) × IsAccepted upload id d))
      (submit ascii panel
        (λ k. [])
        (λ k. [])
        40
        (λ k. ok tt)
        (ok tt)
        70
        71
        upload
        (record { db = no_rows; faults = false ∷ true ∷ [] }))
submit_is_all_or_nothing_example =
    submit_is_all_or_nothing ascii panel (λ k. []) (λ k. []) 40 (λ k. ok tt) (ok tt) 70 71 upload
      (record { db = no_rows; faults = false ∷ true ∷ [] })

abbrev row : Submission
row = record {
  id = 3;
  ai_book_id = 70;
  ai_document_id = 71;
  catalog_book_id = some 2;
  title = b'M' ∷ b'y' ∷ [];
  author = none;
  description = none;
  pdf_file_name = path;
  pdf_storage_key = [];
  pdf_size_bytes = 6;
  cover_storage_key = none;
  want_tts = true;
  want_assistant = false;
  dispatch_status = DispatchStatus.pending;
  dispatch_error = none;
  dispatched_at = none;
  created_by = none;
  created_at = 30;
  catalog_edition_id = none;
  audio_status = awaited;
  audio_error = none;
  audio_signature = none;
}

abbrev submitted : Db
submitted = record no_rows { submissions = row ∷ [] }

row_found : submission_of 3 submitted ≡ some row
unfolding submission_of
row_found = refl

-- The AI service is away.
process_dispatch_records_example :
    (o : Outcome) × ((process_dispatch true
        (λ s. err Error.upstream)
        (λ e. 1 ∷ [])
        3
        (calm submitted)).0
      ≡ ok o)
    × (s : Submission) × (submission_of 3
          (process_dispatch true (λ s. err Error.upstream) (λ e. 1 ∷ []) 3 (calm submitted)).1.db
        ≡ some s)
    × Ends (λ e. 1 ∷ []) true (err Error.upstream) o s.dispatch_status s.dispatch_error
process_dispatch_records_example =
    process_dispatch_records (λ s. err Error.upstream) (λ e. 1 ∷ []) true 3 submitted row row_found

abbrev part_1 : AudioPart
part_1 = record {
  storage_key = b'1' ∷ [];
  format = b'm' ∷ [];
  duration = 61_400;
  status = b'r' ∷ [];
  chapter_title = [];
}

abbrev part_2 : AudioPart
part_2 = record part_1 { storage_key = b'2' ∷ []; duration = 30_100; chapter_title = b't' ∷ [] }

abbrev studio : Studio
studio = record {
  config = record {
    voice_id = b'v' ∷ [];
    voice_name = [];
    voice_style = [];
    price_irr = pos 0;
    preview_seconds = pos 60;
  };
  to_lower = λ t. t;
  unfinished = (b'w' ∷ []) ∷ [];
  digest = λ ps. length ps ∷ [];
  join = λ ps. ok tt;
  part_title = λ k. k ∷ [];
  joined_key = λ book format. book ∷ format;
  mp3 = b'm' ∷ b'p' ∷ b'3' ∷ [];
  text_of = λ e. [];
  job = ok tt;
}

abbrev joined : Joined
joined = record {
  key = 70 ∷ b'm' ∷ [];
  format = b'm' ∷ [];
  duration = 91_500;
  chapters =
      record { title = 1 ∷ []; start_seconds = 0; end_seconds = 61_400 }
      ∷ record { title = b't' ∷ []; start_seconds = 61_400; end_seconds = 91_500 }
      ∷ [];
}

joined_up : materialise studio 70 (part_1 ∷ part_2 ∷ []) ≡ ok joined
unfolding materialise join_all first_format total_duration chapters_from lay_out trim_space is_white
joined_up = refl

materialise-IsDivided_example :
    (joined.duration ≡ total_duration (part_1 ∷ part_2 ∷ []))
    × ((IsWhole (part_1 ∷ part_2 ∷ []) × (joined.chapters ≡ []))
        ⊎ (¬ (IsWhole (part_1 ∷ part_2 ∷ []))
            × IsTiling 0 (part_1 ∷ part_2 ∷ []) joined.chapters joined.duration))
materialise-IsDivided_example = materialise-IsDivided studio 70 (part_1 ∷ part_2 ∷ []) joined_up

abbrev synced_row : Submission
synced_row = record row {
  catalog_edition_id = some 10;
  audio_status = synced;
  audio_signature = some (2 ∷ []);
}

abbrev made : ℕ → Result (List AudioPart)
made book = ok (part_1 ∷ part_2 ∷ [])

abbrev narrated : World
narrated = (sync_audio texts studio (λ b. ok []) made 3 (calm submitted)).1
