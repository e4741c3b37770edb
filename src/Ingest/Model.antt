-- ===== src/Ingest/Model.antt =====
-- The rows that backend/internal/ingest writes: ingest.submissions, and public.books and
-- public.book_documents for the AI service; with the inputs of model.go. A text is its code points, and
-- a file its bytes.
use ketapod_website.Base.{ℕ, Bool, Option}
use ketapod_website.Base.Text.{Bytes, Runes}

pub data DispatchStatus : Type 0 where
  pending dispatched failed : DispatchStatus

pub data AudioStatus : Type 0 where
  none_wanted awaited synced broken : AudioStatus

-- public.books
pub record AiBook : Type 0 where
  pub id : ℕ
  pub title : Runes
  pub author : Option Runes
  pub description : Option Runes
  pub language : Runes
  pub cover : Option Runes

-- public.book_documents
pub record AiDocument : Type 0 where
  pub id : ℕ
  pub book_id : ℕ
  pub file_name : Runes
  pub storage_key : Runes
  pub mime_type : Runes
  pub size : ℕ
  pub document_type : Runes

-- A file that the AI service has made: public.audio_assets with its chapter.
pub record AudioPart : Type 0 where
  pub storage_key : Runes
  pub format : Runes
  pub duration : ℕ
  pub status : Runes
  pub chapter_title : Runes

-- media.audio_assets
pub record EditionAsset : Type 0 where
  pub audio_edition_id : ℕ
  pub storage_key : Runes
  pub format : Runes
  pub duration_seconds : ℕ

-- ingest.submissions
pub record Submission : Type 0 where
  pub id : ℕ
  pub ai_book_id : ℕ
  pub ai_document_id : ℕ
  pub catalog_book_id : Option ℕ
  pub title : Runes
  pub author : Option Runes
  pub description : Option Runes
  pub pdf_file_name : Runes
  pub pdf_storage_key : Runes
  pub pdf_size_bytes : ℕ
  pub cover_storage_key : Option Runes
  pub want_tts : Bool
  pub want_assistant : Bool
  pub dispatch_status : DispatchStatus
  pub dispatch_error : Option Runes
  pub dispatched_at : Option ℕ
  pub created_by : Option Runes
  pub created_at : ℕ
  pub catalog_edition_id : Option ℕ
  pub audio_status : AudioStatus
  pub audio_error : Option Runes
  pub audio_signature : Option Bytes

-- `Upload`
pub record Upload : Type 0 where
  pub file_name : Runes
  pub content_type : Runes
  pub bytes : Bytes

-- `SubmitInput`
pub record SubmitInput : Type 0 where
  pub title : Runes
  pub author : Runes
  pub description : Runes
  pub pdf : Upload
  pub cover : Option Upload
  pub want_tts : Bool
  pub want_assistant : Bool
  pub created_by : Runes
