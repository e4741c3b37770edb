-- ===== src/Ingest/Submit/Built.antt =====
-- The row that `Submit` of backend/internal/ingest/service.go writes, through its steps: the cover, the
-- wait for a narration, the job.
use ketapod_website.Base.{
  ℕ, suc, ◌≡◌, refl, ◌∙◌, inl, inr, Bool, true, false, ◌&&◌, ◌∷◌, Option, some, none, ◌==◌, ==_refl,
  any, any-update_where, find-update_where, find_passes, update_where, if◌then◌else◌, Bool-cases,
}
use ketapod_website.Base.Text.{Runes}
use ketapod_website.Catalog.Write.{is_grant_of, has_book_id, set_book_cover_url, optional}
use ketapod_website.Ingest.Model.{
  DispatchStatus, AudioStatus, none_wanted, awaited, Submission, SubmitInput,
}
use ketapod_website.Ingest.Submit.{
  type_dispatch, dispatch_task, is_submission, submission_of, to_awaited, mark_audio_pending, Draft,
  new_submission, create_submission, set_cover_url,
}
use ketapod_website.Jobs.{write, new_row, is_keyed}
use ketapod_website.Schema.{Db}
use ketapod_website.Store.{World, when}
use ketapod_website.Store.Rules.{Ensures, Ensures-pure}
use ketapod_website.Store.Steps.{Ensures-write}
use ketapod_website.Ingest.Submit.Entered.{IsHanded, IsListed}

-- The row of the submission, with what it refers to. Its audio status is given.
pub record IsBuilt (i : SubmitInput) (id : ℕ) (audio : AudioStatus) (db : Db) : Type 0 where
  pub row : Submission
  pub book : ℕ
  pub found : submission_of id db ≡ some row
  pub is_pending : row.dispatch_status ≡ DispatchStatus.pending
  pub has_audio : row.audio_status ≡ audio
  pub same_choice : (row.want_tts ≡ i.want_tts) × (row.want_assistant ≡ i.want_assistant)
  pub refers : row.catalog_book_id ≡ some book
  pub listed : any (has_book_id book) db.catalog_books ≡ true
  pub licensed : any (is_grant_of book) db.rights_grants ≡ true
  pub handed_book : any (λ b. b.id == row.ai_book_id) db.ai_books ≡ true
  pub handed_document :
      any (λ x. x.id == row.ai_document_id && x.book_id == row.ai_book_id) db.ai_documents ≡ true

abbrev pub audio_for : Bool → AudioStatus
audio_for b = if b then awaited else none_wanted

-- An accepted submission: its row, the book on the site with a licence, the work item of the AI service,
-- and the job that tells the AI service.
pub record IsAccepted (i : SubmitInput) (id : ℕ) (db : Db) : Type 0 where
  pub built : IsBuilt i id (audio_for i.want_tts) db
  pub job : any (is_keyed type_dispatch id) db.outbox ≡ true

IsBuilt-row :
    (d : Draft) (i : SubmitInput) (book : ℕ) (db : Db)
    → IsListed book db
    → IsHanded d db
    → IsBuilt i db.next_id none_wanted (record db {
      next_id = suc db.next_id;
      submissions = new_submission d i book db ∷ db.submissions;
    })
unfolding new_submission submission_of
IsBuilt-row d i book db listed handed = record {
  row = new_submission d i book db;
  book = book;
  found = rw (==_refl db.next_id);
  is_pending = refl;
  has_audio = refl;
  same_choice = (refl, refl);
  refers = refl;
  listed = listed.0;
  licensed = listed.1;
  handed_book = handed.0;
  handed_document = handed.1;
}

pub create-Built :
    (d : Draft) (i : SubmitInput) (book : ℕ) (w : World)
    → IsListed book w.db
    → IsHanded d w.db
    → Ensures (λ id db. IsBuilt i id none_wanted db) (create_submission d i book w)
unfolding create_submission
create-Built d i book w listed handed =
    Ensures-write (λ id db. IsBuilt i id none_wanted db) _ w
      (IsBuilt-row d i book w.db listed handed)

pub cover-Built :
    (i : SubmitInput) (id book : ℕ) (o : Option Runes) (w : World)
    → IsBuilt i id none_wanted w.db
    → Ensures (λ x db. IsBuilt i id none_wanted db) (set_cover_url book o w)
unfolding set_book_cover_url submission_of
cover-Built i id book none w b = Ensures-pure (λ x db. IsBuilt i id none_wanted db) tt w b
cover-Built i id book (some url) w b =
    Ensures-write (λ x db. IsBuilt i id none_wanted db) _ w
      (record {
        row = b.row;
        book = b.book;
        found = b.found;
        is_pending = b.is_pending;
        has_audio = b.has_audio;
        same_choice = b.same_choice;
        refers = b.refers;
        listed =
            any-update_where (has_book_id b.book) (has_book_id book)
              (λ x. record x { cover_url = optional url }) (λ x e. e) w.db.catalog_books b.listed;
        licensed = b.licensed;
        handed_book = b.handed_book;
        handed_document = b.handed_document;
      })

awaited_row :
    (i : SubmitInput) (id : ℕ) (db : Db)
    → IsBuilt i id none_wanted db
    → IsBuilt i id awaited
        (record db { submissions = update_where (is_submission id) (to_awaited db) db.submissions })
unfolding submission_of
awaited_row i id db b = record {
  row = to_awaited db b.row;
  book = b.book;
  found =
      find-update_where (is_submission id) (is_submission id) (to_awaited db) (λ x. refl)
        db.submissions b.found
      ∙ (rw (find_passes (is_submission id) db.submissions b.found));
  is_pending = b.is_pending;
  has_audio = refl;
  same_choice = b.same_choice;
  refers = b.refers;
  listed = b.listed;
  licensed = b.licensed;
  handed_book = b.handed_book;
  handed_document = b.handed_document;
}

pub audio-Built :
    (i : SubmitInput) (id : ℕ) (wanted : Bool) (w : World)
    → IsBuilt i id none_wanted w.db
    → Ensures (λ x db. IsBuilt i id (audio_for wanted) db) (when wanted (mark_audio_pending id) w)
unfolding when mark_audio_pending
audio-Built i id true w b =
    Ensures-write (λ x db. IsBuilt i id awaited db) _ w (awaited_row i id w.db b)
audio-Built i id false w b = Ensures-pure (λ x db. IsBuilt i id none_wanted db) tt w b

pub job-Accepted :
    (i : SubmitInput) (id clock : ℕ) (db : Db)
    → IsBuilt i id (audio_for i.want_tts) db
    → IsAccepted i id (write clock (dispatch_task id) db)
unfolding write dispatch_task new_row submission_of
job-Accepted i id clock db b = elim (Bool-cases (any (is_keyed type_dispatch id) db.outbox)) [
  | inl there ↦ rw there (record { built = b; job = there })
  | inr absent ↦ rw absent (record {
    built = record {
      row = b.row;
      book = b.book;
      found = b.found;
      is_pending = b.is_pending;
      has_audio = b.has_audio;
      same_choice = b.same_choice;
      refers = b.refers;
      listed = b.listed;
      licensed = b.licensed;
      handed_book = b.handed_book;
      handed_document = b.handed_document;
    };
    job = rw (==_refl id);
  })
]
