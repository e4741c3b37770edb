-- ===== src/Ingest/Submit.antt =====
-- `Submit` and `Get` of backend/internal/ingest/service.go, with the statements of repo.go and
-- ingest.sql. The object store, the uuids that the code draws, their spelling, the clock of the process and
-- the AI service's own job are parameters.
pub mod Entered
pub mod Built
pub mod Accepted
use ketapod_website.Base.{
  ℕ, suc, Bool, true, false, not, ◌&&◌, Option, none, some, List, [], ◌∷◌, ◌++◌, ◌==◌,
  if◌then◌else◌, find, update_where, length,
}
use ketapod_website.Base.Text.{Bytes, Runes}
use ketapod_website.Catalog.Model.{NewBook}
use ketapod_website.Catalog.Slugs.{Unicode}
use ketapod_website.Catalog.Write.{Words, create_book, set_book_cover_url}
use ketapod_website.Ingest.Model.{
  DispatchStatus, AudioStatus, none_wanted, awaited, AiBook, AiDocument, Submission, Upload,
  SubmitInput,
}
use ketapod_website.Ingest.Uploads.{validate, safe_file_name, content_type_or, encode_all}
use ketapod_website.Jobs.{write, queue_default}
use ketapod_website.Jobs.Model.{Task}
use ketapod_website.Schema.{Error, Db}
use ketapod_website.Store.{
  Result, ok, err, M, pure, raise, reads, query, lift, or_fail, raise_if, when, in_tx, ◌>>=◌, ◌>>◌,
}

-- `optional` of repo.go: only the empty text is none.
abbrev pub or_null : Runes → Option Runes
or_null [] = none
or_null (c ∷ cs) = some (c ∷ cs)

-- ingest:dispatch
abbrev pub type_dispatch : ℕ
type_dispatch = 1

unfoldable pub dispatch_task : ℕ → Task
dispatch_task id = record {
  task_type = type_dispatch;
  payload = id ∷ [];
  queue = some queue_default;
  max_retry = 5;
  dedupe_key = some id;
  available_at = none;
}

-- `EnqueueTask`
unfoldable pub enqueue_task : ℕ → Task → M (Unit {0})
enqueue_task clock task = query (λ db. (ok tt, write clock task db))

abbrev pub is_submission : ℕ → Submission → Bool
is_submission id s = s.id == id

-- The row of `Get`
unfoldable pub submission_of : ℕ → Db → Option Submission
submission_of id db = find (is_submission id) db.submissions

unfoldable pub change_submission : ℕ → (Db → Submission → Submission) → M (Unit {0})
change_submission id f = query (λ db.
    (ok tt, record db { submissions = update_where (is_submission id) (f db) db.submissions }))

abbrev pub to_awaited : Db → Submission → Submission
to_awaited db s = record s { audio_status = awaited; audio_error = none }

-- `MarkAudioPending`
unfoldable pub mark_audio_pending : ℕ → M (Unit {0})
unfolding change_submission
mark_audio_pending id = change_submission id to_awaited

-- What the transaction of `Submit` closes over.
pub record Draft : Type 0 where
  pub ai_book : ℕ
  pub document : ℕ
  pub pdf_key : Bytes
  pub cover_key : Bytes

abbrev pub cover_url_text : Bytes → (ℕ → Runes) → ℕ → Option Runes
cover_url_text [] url id = none
cover_url_text (c ∷ cs) url id = some (url id)

-- The texts of this module, beside those of the catalogue.
pub record PanelWords : Type 0 where
  pub catalog : Words
  pub application_pdf : Runes
  pub image_jpeg : Runes
  pub pdf : Runes
  pub book_pdf : Bytes
  pub cover_jpg : Bytes
  pub books_of : ℕ → Bytes
  pub original : Bytes
  pub cover : Bytes

-- `CreateAIBook`
unfoldable pub create_ai_book : PanelWords → Draft → SubmitInput → M (Unit {0})
create_ai_book words d i = query (λ db. (
  ok tt,
  record db {
    ai_books =
        record {
          id = d.ai_book;
          title = i.title;
          author = or_null i.author;
          description = or_null i.description;
          language = words.catalog.fa;
          cover = or_null d.cover_key;
        }
        ∷ db.ai_books;
  },
))

-- `CreateAIDocument`
unfoldable pub create_ai_document : PanelWords → Draft → SubmitInput → M (Unit {0})
create_ai_document words d i = query (λ db. (
  ok tt,
  record db {
    ai_documents =
        record {
          id = d.document;
          book_id = d.ai_book;
          file_name = i.pdf.file_name;
          storage_key = d.pdf_key;
          mime_type = content_type_or i.pdf.content_type words.application_pdf;
          size = length i.pdf.bytes;
          document_type = words.pdf;
        }
        ∷ db.ai_documents;
  },
))

unfoldable pub new_submission : Draft → SubmitInput → ℕ → Db → Submission
new_submission d i book db = record {
  id = db.next_id;
  ai_book_id = d.ai_book;
  ai_document_id = d.document;
  catalog_book_id = some book;
  title = i.title;
  author = or_null i.author;
  description = or_null i.description;
  pdf_file_name = i.pdf.file_name;
  pdf_storage_key = d.pdf_key;
  pdf_size_bytes = length i.pdf.bytes;
  cover_storage_key = or_null d.cover_key;
  want_tts = i.want_tts;
  want_assistant = i.want_assistant;
  dispatch_status = DispatchStatus.pending;
  dispatch_error = none;
  dispatched_at = none;
  created_by = or_null i.created_by;
  created_at = db.now;
  catalog_edition_id = none;
  audio_status = none_wanted;
  audio_error = none;
  audio_signature = none;
}

-- `CreateSubmission`
unfoldable pub create_submission : Draft → SubmitInput → ℕ → M ℕ
create_submission d i book = query (λ db. (
  ok db.next_id,
  record db { next_id = suc db.next_id; submissions = new_submission d i book db ∷ db.submissions },
))

abbrev pub set_cover_url : ℕ → Option Runes → M (Unit {0})
set_cover_url book none = pure tt
set_cover_url book (some url) = set_book_cover_url book url

abbrev pub catalog_entry : PanelWords → SubmitInput → NewBook
catalog_entry words i = record {
  title = i.title;
  author_name = i.author;
  description = i.description;
  cover_url = [];
  language = words.catalog.fa;
  is_kids_friendly = false;
  status = words.catalog.published;
}

-- `Get`, with what the read of the AI service's job answers.
unfoldable pub get : Result (Unit {0}) → ℕ → M Submission
get job id = do
  found ← reads (submission_of id)
  s ← lift (or_fail Error.not_found found)
  lift job
  pure s

module _ (u : Unicode) (words : PanelWords) (suffix : ℕ → Runes) (url : ℕ → Runes) (clock : ℕ) where
  -- The part that follows the row of the submission.
  unfoldable pub queue_submission : Draft → SubmitInput → ℕ → ℕ → M ℕ
  queue_submission d i book id = do
    set_cover_url book (cover_url_text d.cover_key url id)
    when i.want_tts (mark_audio_pending id)
    enqueue_task clock (dispatch_task id)
    pure id

  -- The function that `Submit` runs in its transaction.
  unfoldable pub submit_tx : Draft → SubmitInput → M ℕ
  submit_tx d i = do
    create_ai_book words d i
    create_ai_document words d i
    created ← create_book u words.catalog suffix (catalog_entry words i)
    id ← create_submission d i created.0
    queue_submission d i created.0 id

  abbrev pub key_of : Bytes → ℕ → Bytes → Bytes
  key_of folder ai_book name = words.books_of ai_book ++ (folder ++ name)

  abbrev pub cover_key_of : ℕ → Option Upload → Bytes
  cover_key_of ai_book none = []
  cover_key_of ai_book (some c) =
      key_of words.cover ai_book (safe_file_name u c.file_name words.cover_jpg)

  abbrev pub put_cover : (Bytes → Result (Unit {0})) → Bytes → Option Upload → M (Unit {0})
  put_cover put key none = pure tt
  put_cover put key (some c) = lift (put key)

  unfoldable pub draft_for : ℕ → ℕ → SubmitInput → Draft
  draft_for ai_book document i = record {
    ai_book = ai_book;
    document = document;
    pdf_key = key_of words.original ai_book (safe_file_name u i.pdf.file_name words.book_pdf);
    cover_key = cover_key_of ai_book i.cover;
  }

  abbrev pub is_refused : SubmitInput → Bool
  is_refused i = elim (validate i) [ [] ↦ false | c ∷ cs ↦ true ]

  -- `Submit`: the files go to the store before the transaction.
  unfoldable pub submit :
      (Bytes → Result (Unit {0})) → Result (Unit {0}) → ℕ → ℕ → SubmitInput → M Submission
  submit put job ai_book document i = do
    raise_if (is_refused i) Error.invalid_input
    lift (put (draft_for ai_book document i).pdf_key)
    put_cover put (draft_for ai_book document i).cover_key i.cover
    id ← in_tx (submit_tx (draft_for ai_book document i) i)
    get job id
