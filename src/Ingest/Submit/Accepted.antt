-- ===== src/Ingest/Submit/Accepted.antt =====
-- What `Submit` of backend/internal/ingest/service.go leaves in the tables.
use ketapod_website.Base.{ℕ, ◌≡◌, ◌⊎◌, refl, inl, inr, Option, some, none}
use ketapod_website.Base.Text.{Bytes, Runes}
use ketapod_website.Catalog.Slugs.{Unicode}
use ketapod_website.Ingest.Model.{none_wanted, Upload, SubmitInput}
use ketapod_website.Ingest.Submit.{
  dispatch_task, enqueue_task, submission_of, mark_audio_pending, Draft, PanelWords, cover_url_text,
  catalog_entry, get, queue_submission, submit_tx, draft_for, put_cover, submit,
}
use ketapod_website.Jobs.{write}
use ketapod_website.Schema.{Db}
use ketapod_website.Store.{Result, ok, M, World, pure, when, in_tx, then_run, ◌>>=◌, ◌>>◌}
use ketapod_website.Store.Rules.{
  Ensures, Ensures-then, Ensures-pure, Ensures-map, in_tx-Ensures, in_tx-IsAtomic, Keeps,
  Keeps-then, Keeps-same, Keeps-reads, Keeps-lift, Keeps-raise_if, Ensures-IsAtomic,
}
use ketapod_website.Store.Steps.{Ensures-step}
use ketapod_website.Ingest.Submit.Entered.{handed-Ensures, IsEntered, create_book-Entered}
use ketapod_website.Ingest.Submit.Built.{
  IsBuilt, audio_for, IsAccepted, create-Built, cover-Built, audio-Built, job-Accepted,
}

module _ (u : Unicode) (words : PanelWords) (suffix : ℕ → Runes) (url : ℕ → Runes) (clock : ℕ) where
  job-Ensures :
      (d : Draft) (i : SubmitInput) (id : ℕ) (w : World)
      → IsBuilt i id (audio_for i.want_tts) w.db
      → Ensures
          (λ id' db. IsAccepted i id' db)
          ((enqueue_task clock (dispatch_task id) >> pure id) w)
  unfolding enqueue_task
  job-Ensures d i id w b =
      Ensures-step (λ id' db. IsAccepted i id' db)
        (λ db. (ok tt, write clock (dispatch_task id) db)) (λ x. pure id) w
        λ x fs e.
          Ensures-pure (λ id' db. IsAccepted i id' db) id
            (record { db = write clock (dispatch_task id) w.db; faults = fs })
            (job-Accepted i id clock w.db b)

  queue-Accepted :
      (d : Draft) (i : SubmitInput) (book id : ℕ) (w : World)
      → IsBuilt i id none_wanted w.db
      → Ensures
          (λ id' db. IsAccepted i id' db)
          (queue_submission u words suffix url clock d i book id w)
  unfolding queue_submission enqueue_task
  queue-Accepted d i book id w b =
      let job = λ (x : Unit {0}). enqueue_task clock (dispatch_task id) >> pure id in
      let audio = λ (x : Unit {0}). when i.want_tts (mark_audio_pending id) >>= job in
      Ensures-then (λ x db. IsBuilt i id none_wanted db) (λ id' db. IsAccepted i id' db) _ audio
        (cover-Built i id book (cover_url_text d.cover_key url id) w b)
        λ x w' b'.
          Ensures-then (λ x db. IsBuilt i id (audio_for i.want_tts) db)
            (λ id' db. IsAccepted i id' db) _ job (audio-Built i id i.want_tts w' b')
            λ y w'' b''. job-Ensures d i id w'' b''

  tx-Accepted :
      (d : Draft) (i : SubmitInput) (w : World)
      → Ensures (λ id db. IsAccepted i id db) (submit_tx u words suffix url clock d i w)
  unfolding submit_tx
  tx-Accepted d i w = handed-Ensures words d i w _ _ λ w' handed.
      Ensures-then (IsEntered u words.catalog suffix d) _ _ _
        (create_book-Entered u words.catalog suffix d (catalog_entry words i) w' handed)
        λ r w'' entered.
          Ensures-then (λ id db. IsBuilt i id none_wanted db) _ _ _
            (create-Built d i r.0 w'' entered.0 entered.1)
            λ id w3 built. queue-Accepted d i r.0 id w3 built

  -- Before the transaction nothing is written; after it, nothing is either.
  abbrev Left : SubmitInput → Db → Db → Type 0
  Left i db d = (d ≡ db) ⊎ ((id : ℕ) × IsAccepted i id d)

  tx-Left :
      (d : Draft) (i : SubmitInput) (w : World)
      → Keeps (Left i w.db) (in_tx (submit_tx u words suffix url clock d i) w)
  tx-Left d i w =
      Ensures-IsAtomic (Left i w.db) w.db _
        (Ensures-map _ (λ a db. Left i w.db db) _
          (in_tx-Ensures _ (submit_tx u words suffix url clock d i) w (tx-Accepted d i w))
          (λ id db a. inr (id, a)))
        (in_tx-IsAtomic (submit_tx u words suffix url clock d i) w) (inl refl)

  after_cover :
      {B : Type 0} (I : Db → Type 0) (put : Bytes → Result (Unit {0})) (key : Bytes)
      (o : Option Upload) (k : Unit {0} → M B) (w : World)
      → I w.db
      → ((x : Unit {0}) → Keeps I (k x w))
      → Keeps I (then_run (put_cover u words suffix url clock put key o w) k)
  after_cover I put key none k w h next = next tt
  after_cover I put key (some c) k w h next = Keeps-lift I (put key) k w h (λ x e. next x)

  get-Left :
      (job : Result (Unit {0})) (id : ℕ) (I : Db → Type 0) (w : World)
      → I w.db
      → Keeps I (get job id w)
  unfolding get
  get-Left job id I w h =
      Keeps-reads I (submission_of id) _ w h
        λ fs. Keeps-lift I _ _ _ h λ s e. Keeps-lift I job _ _ h λ x e'. Keeps-same I _ _ h

  -- A submission leaves the tables as they were, or it leaves everything that an accepted one has: its
  -- row, pending, with the choices of the editor and waiting for a narration exactly if one was asked
  -- for; the book on the site, with a licence; the book and the document for the AI service; and the
  -- pending job that tells the AI service. That holds however the call ends: at any refusal of a file or
  -- of the object store, and at any statement that fails, also one after the commit.
  pub submit_is_all_or_nothing :
      (put : Bytes → Result (Unit {0})) (job : Result (Unit {0})) (ai_book document : ℕ)
      (i : SubmitInput) (w : World)
      → Keeps
          (λ d. (d ≡ w.db) ⊎ ((id : ℕ) × IsAccepted i id d))
          (submit u words suffix url clock put job ai_book document i w)
  unfolding submit
  submit_is_all_or_nothing put job ai_book document i w =
      Keeps-raise_if (Left i w.db) _ _ _ w (inl refl) λ fit.
        Keeps-lift (Left i w.db) _ _ w (inl refl) λ x put_pdf.
          after_cover (Left i w.db) put
            (draft_for u words suffix url clock ai_book document i).cover_key i.cover _ w (inl refl)
            λ y.
              Keeps-then (Left i w.db) _ (get job)
                (tx-Left (draft_for u words suffix url clock ai_book document i) i w)
                λ id w' left. get-Left job id (Left i w.db) w' left
