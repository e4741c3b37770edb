-- ===== src/Kids/Approvals/Pin.antt =====
-- The PIN of a child: `SetExitPin`, then `VerifyExitPin`, of backend/internal/kids/service.go.
use ketapod_website.Base.{
  ℕ, ◌≡◌, ◌≢◌, refl, ◌∙◌, Bool, List, [], ◌∷◌, ◌++◌, Option, some, none, arith, find,
  find-update_where, find_passes, update_where, if◌then◌else◌,
}
use ketapod_website.Base.Text.{Bytes, bytes_eq}
use ketapod_website.Kids.Model.{ParentalControls}
use ketapod_website.Kids.Profiles.{has_controls_of, controls_of}
use ketapod_website.Kids.Approvals.{
  nullable, text_or_empty, put_pin, store_pin, hash_pin, compare_pin, set_exit_pin, verify_exit_pin,
}
use ketapod_website.Kids.Requests.{get_profile-Reads}
use ketapod_website.Schema.{Error, Db}
use ketapod_website.Store.{Result, ok, err, World, or_fail, reads, query, lift}
use ketapod_website.Store.Rules.{Ensures, Ensures-ok, Ensures-lift, Ensures-query, Ensures-raise_if}
use ketapod_website.Store.Reads.{Ensures-Reads, or_fail-ok}

-- What an update leaves to a search that finds nothing.
find-update_none :
    {A : Type 0} (p : A → Bool) (f : A → A)
    → ((x : A) → p (f x) ≡ p x)
    → (xs : List A) → find p xs ≡ none
    → find p (update_where p f xs) ≡ none
find-update_none p f h [] e = refl
find-update_none p f h (x ∷ xs) e = ground (arith, h x, find-update_none p f h xs)

module _ (parse_uuid : Bytes → Option ℕ) (sha256_hex : Bytes → Bytes) where
  abbrev IsStored : Bytes → Bytes → Db → Db → Type 0
  IsStored profile pin db d =
      (id : ℕ) × (parse_uuid profile ≡ some id)
      × (d.parental_controls
          ≡ update_where (has_controls_of id) (put_pin (hash_pin parse_uuid sha256_hex profile pin))
              db.parental_controls)

  set_exit_pin-Stored :
      (parent : ℕ) (profile pin : Bytes) (w : World)
      → Ensures
          (λ u d. IsStored profile pin w.db d)
          (set_exit_pin parse_uuid sha256_hex parent profile pin w)
  unfolding set_exit_pin store_pin
  set_exit_pin-Stored parent profile pin w =
      Ensures-lift _ (or_fail Error.not_found (parse_uuid profile)) _ w λ id parsed.
        Ensures-Reads _ _ w.db _ _ (get_profile-Reads parent id w) λ c fs own.
          Ensures-raise_if _ _ _ _ _ λ fit.
            Ensures-query (λ u d. IsStored profile pin w.db d) _ _
              λ u d e. (id, or_fail-ok _ _ parsed, ground (arith, e))

  -- What is answered to a guess, where there is a row of controls and where there is none.
  abbrev pub Answer : Option ParentalControls → Bytes → Bytes → Result (Unit {0})
  Answer none stored guess = err Error.not_found
  Answer (some c) stored guess = if bytes_eq stored guess then ok tt else err Error.wrong_pin

  compare_stored :
      (stored guess : Bytes)
      → stored ≢ []
      → compare_pin parse_uuid sha256_hex (text_or_empty (nullable stored)) guess
        ≡ (if bytes_eq stored guess then ok tt else err Error.wrong_pin)
  compare_stored [] guess h = absurd (h refl)
  compare_stored (c ∷ cs) guess h = refl

  verify_stored :
      (id : ℕ) (spelled guess stored : Bytes) (o : Option ParentalControls) (db d : Db)
      → stored ≢ []
      → parse_uuid spelled ≡ some id
      → d.parental_controls
        ≡ update_where (has_controls_of id) (put_pin stored) db.parental_controls
      → controls_of id db ≡ o
      → (verify_exit_pin parse_uuid sha256_hex spelled guess (record { db = d; faults = [] })).0
        ≡ Answer o stored (hash_pin parse_uuid sha256_hex spelled guess)
  unfolding verify_exit_pin controls_of reads query lift
  verify_stored id spelled guess stored none db d hex parsed rows found = rw (
    parsed,
    rows,
    find-update_none (has_controls_of id) (put_pin stored) (λ x. refl) db.parental_controls found,
  )
  verify_stored id spelled guess stored (some c) db d hex parsed rows found =
      rw
        (
          parsed,
          rows,
          find-update_where (has_controls_of id) (has_controls_of id) (put_pin stored) (λ x. refl)
              db.parental_controls found,
          find_passes (has_controls_of id) db.parental_controls found,
        )
        (compare_stored stored _ hex)

  -- Where a parent has set a PIN, a guess at it, by any spelling of the id of the same child, is
  -- answered by the tables and no statement that fails: if the child has a row of controls the guess
  -- is right exactly when its hash, salted with the id as it is spelled there, is that of the PIN;
  -- if the child has none there is no PIN to check against. A hash is not the empty text.
  pub verify_exit_pin-set_exit_pin :
      ((t : Bytes) → sha256_hex t ≢ [])
      → (parent : ℕ) (profile pin : Bytes) (w : World) {w' : World}
      → set_exit_pin parse_uuid sha256_hex parent profile pin w ≡ (ok tt, w')
      → (spelled guess : Bytes) → parse_uuid spelled ≡ parse_uuid profile
      → (id : ℕ) × (parse_uuid profile ≡ some id)
        × ((verify_exit_pin parse_uuid sha256_hex spelled guess
              (record { db = w'.db; faults = [] })).0
            ≡ Answer
                (controls_of id w.db)
                (sha256_hex (profile ++ (b':' ∷ pin)))
                (sha256_hex (spelled ++ (b':' ∷ guess))))
  unfolding hash_pin
  verify_exit_pin-set_exit_pin hex parent profile pin w {w'} set spelled guess same =
      let (id, parsed, rows) = Ensures-ok _ _ (set_exit_pin-Stored parent profile pin w) set in
      (id, parsed, verify_stored id spelled guess _ _ w.db w'.db (hex _) (same ∙ parsed) rows refl)
