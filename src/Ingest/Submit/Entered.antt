-- ===== src/Ingest/Submit/Entered.antt =====
-- The first statements of the transaction of `Submit`, backend/internal/ingest/service.go: the rows for the
-- AI service, and `CreateBookInTx` of backend/internal/catalog/write.go.
use ketapod_website.Base.{
  ℕ, zero, suc, ◌≡◌, inl, inr, true, ◌&&◌, [], ◌∷◌, Option, some, none, ◌==◌, ==_refl, arith, any,
  Bool-cases,
}
use mathlib.Core.Path.{subst}
use ketapod_website.Base.Text.{Runes, trim_space}
use ketapod_website.Catalog.Model.{Author, NewBook}
use ketapod_website.Catalog.Slugs.{Unicode, slugify}
use ketapod_website.Catalog.Write.{
  Words, upsert_author, upsert_author_found, has_slug, new_book, insert_book, is_grant_of,
  ensure_grant, has_book_id, author_named, with_grant, try_slugs, create_book, or_default,
  with_defaults,
}
use ketapod_website.Ingest.Model.{SubmitInput}
use ketapod_website.Ingest.Submit.{Draft, PanelWords, create_ai_book, create_ai_document}
use ketapod_website.Schema.{Error, Db}
use ketapod_website.Store.{ok, M, World, ◌>>◌}
use ketapod_website.Store.Rules.{Ensures, Ensures-then, Ensures-pure, Ensures-err}
use ketapod_website.Store.Steps.{Ensures-step}

-- The AI service has the book and its document.
abbrev pub IsHanded : Draft → Db → Type 0
IsHanded d db =
    (any (λ b. b.id == d.ai_book) db.ai_books ≡ true)
    × (any (λ x. x.id == d.document && x.book_id == d.ai_book) db.ai_documents ≡ true)

abbrev pub IsListed : ℕ → Db → Type 0
IsListed book db =
    (any (has_book_id book) db.catalog_books ≡ true)
    × (any (is_grant_of book) db.rights_grants ≡ true)

pub handed-Ensures :
    (words : PanelWords) (d : Draft) (i : SubmitInput) (w : World) {B : Type 0}
    (Q : B → Db → Type 0) (k : M B)
    → ((w' : World) → IsHanded d w'.db → Ensures Q (k w'))
    → Ensures Q ((create_ai_book words d i >> (create_ai_document words d i >> k)) w)
unfolding create_ai_book create_ai_document
handed-Ensures words d i w Q k next = Ensures-step Q _ _ w λ x fs e.
    Ensures-step Q _ _ _
      λ y fs' e'. next _ (rw (==_refl d.ai_book), rw (==_refl d.document, ==_refl d.ai_book))

author_found :
    (d : Draft) (name slug : Runes) (db : Db) (o : Option Author)
    → IsHanded d db
    → IsHanded d (upsert_author_found name slug db o).1
author_found d name slug db none h = h
author_found d name slug db (some a) h = h

module _ (u : Unicode) (words : Words) (suffix : ℕ → Runes) (d : Draft) where
  author-Handed :
      (name : Runes) (w : World)
      → IsHanded d w.db
      → Ensures (λ a db. IsHanded d db) (author_named u words suffix name w)
  unfolding upsert_author
  author-Handed [] w h = Ensures-pure (λ a db. IsHanded d db) none w h
  author-Handed (c ∷ cs) w h =
      Ensures-step (λ a db. IsHanded d db) _ _ w
        λ a fs e.
          Ensures-pure (λ b db. IsHanded d db) (some a) _
            (author_found d (c ∷ cs) (slugify u (c ∷ cs)) w.db _ h)

  abbrev pub IsEntered : ℕ × Runes → Db → Type 0
  IsEntered r db = IsListed r.0 db × IsHanded d db

  -- The book that an insert made is there.
  abbrev IsInserted : Option ℕ → Db → Type 0
  IsInserted none db = IsHanded d db
  IsInserted (some book) db = (any (has_book_id book) db.catalog_books ≡ true) × IsHanded d db

  insert-Inserted :
      (b : NewBook) (author : Option ℕ) (slug : Runes) (db : Db) (o : Option ℕ)
      → IsHanded d db
      → (insert_book b author slug db).0 ≡ ok o
      → IsInserted o (insert_book b author slug db).1
  unfolding insert_book new_book
  insert-Inserted b author slug db o h e =
      elim (Bool-cases (any (has_slug slug) db.catalog_books)) [
        | inl taken ↦
            let same : none ≡ o = ground (arith, rw taken at e) in
            rw taken (subst (λ x. IsInserted x db) same h)
        | inr free ↦
            let same : some db.next_id ≡ o = ground (arith, rw free at e) in
            rw free (
              subst
                (λ x. IsInserted x (record db {
                  next_id = suc db.next_id;
                  catalog_books = new_book b author slug db ∷ db.catalog_books;
                }))
                same (rw (==_refl db.next_id), h))
      ]

  grant-Entered :
      (source : Runes) (book : ℕ) (slug : Runes) (db : Db)
      → IsInserted (some book) db
      → IsEntered (book, slug) (ensure_grant source book db)
  unfolding ensure_grant
  grant-Entered source book slug db h =
      elim (Bool-cases (any (is_grant_of book) db.rights_grants)) [
        | inl there ↦ rw there ((h.0, there), h.1)
        | inr absent ↦ rw absent ((h.0, rw (==_refl book)), h.1)
      ]

  with_grant-Entered :
      (again : M (ℕ × Runes)) (slug : Runes) (o : Option ℕ) (w : World)
      → IsInserted o w.db
      → ((w' : World) → IsHanded d w'.db → Ensures IsEntered (again w'))
      → Ensures IsEntered (with_grant u words suffix again slug o w)
  with_grant-Entered again slug none w h next = next w h
  with_grant-Entered again slug (some book) w h next = Ensures-step IsEntered _ _ w λ x fs e.
      Ensures-pure IsEntered (book, slug) _ (grant-Entered words.panel_upload book slug w.db h)

  try_slugs-Entered :
      (b : NewBook) (author : Option ℕ) (base : Runes) (n k : ℕ) (w : World)
      → IsHanded d w.db
      → Ensures IsEntered (try_slugs u words suffix b author base n k w)
  unfolding try_slugs
  try_slugs-Entered b author base zero k w h = Ensures-err IsEntered Error.storage w
  try_slugs-Entered b author base (suc n) k w h = Ensures-step IsEntered _ _ w λ o fs e.
      with_grant-Entered _ _ o _ (insert-Inserted b author _ w.db o h e)
        λ w' h'. try_slugs-Entered b author base n (suc k) w' h'

  pub create_book-Entered :
      (b : NewBook) (w : World)
      → IsHanded d w.db
      → Ensures IsEntered (create_book u words suffix b w)
  unfolding create_book
  create_book-Entered b w h =
      Ensures-then (λ a db. IsHanded d db) IsEntered _
        (λ a.
          try_slugs u words suffix (with_defaults u words suffix b) a
            (or_default words.book (slugify u b.title)) 6 0)
        (author-Handed (trim_space b.author_name) w h)
        λ a w' h'.
          try_slugs-Entered (with_defaults u words suffix b) a
            (or_default words.book (slugify u b.title)) 6 0 w' h'
