-- ===== src/Identity/Otp/Lockout.antt =====
-- Wrong guesses, in `VerifyOTP` of backend/internal/identity/service.go.
use ketapod_website.Base.{
  ℕ, ◌+◌, ◌≤◌, ◌≡◌, refl, ap, ◌∙◌, inl, inr, true, false, Option, some, List, [], ◌∷◌, All, length,
  ◌==◌, leb, arith, Bool-cases, ==_refl, find-some, find-update_where, update_where,
}
use ketapod_website.Identity.Model.{DeviceInfo, OtpCode}
use ketapod_website.Identity.Otp.{
  Login, purpose_login, is_open, latest_active, add_attempt, increment_attempt, check_code,
  verify_otp,
}
use ketapod_website.Identity.Sessions.{Keys}
use ketapod_website.Schema.{Error, Db}
use ketapod_website.Store.{err, World, query, reads, lift, recast}

module _ (login : Login) (clock : ℕ) (keys : Keys) (secret phone : ℕ)
    (device : Option DeviceInfo) where
  -- One call of `VerifyOTP` for each code.
  unfoldable pub guesses : List ℕ → World → World
  guesses [] w = w
  guesses (c ∷ cs) w = guesses cs (verify_otp login clock keys secret phone c device w).1

  abbrev Armed : OtpCode → Db → Type 0
  Armed otp db = latest_active phone purpose_login db ≡ some otp

  -- A code that has no attempts left is refused, right or wrong, and nothing changes.
  locked :
      (otp : OtpCode) (db : Db) (code : ℕ)
      → Armed otp db
      → leb otp.max_attempts otp.attempt_count ≡ true
      → verify_otp login clock keys secret phone code device (record { db = db; faults = [] })
        ≡ (err Error.otp_attempts, record { db = db; faults = [] })
  unfolding verify_otp check_code recast reads query lift
  locked otp db code e full = rw (e, full)

  -- A wrong code on one that has attempts left is counted.
  counted :
      (otp : OtpCode) (db : Db) (code : ℕ)
      → Armed otp db
      → leb otp.max_attempts otp.attempt_count ≡ false
      → (otp.code_hash == login.code_hash code) ≡ false
      → (d : Db) × (verify_otp login clock keys secret phone code device
            (record { db = db; faults = [] })
          ≡ (err Error.invalid_otp, record { db = d; faults = [] }))
        × Armed (add_attempt otp) d
  unfolding verify_otp check_code recast reads query lift increment_attempt latest_active
  counted otp db code e left wrong =
      let (c, found) =
        find-some (is_open db.now phone purpose_login) (λ (c : OtpCode). c.id == otp.id)
          db.otp_codes e (==_refl otp.id) in
      (
        record db { otp_codes = update_where (λ c'. c'.id == otp.id) add_attempt db.otp_codes },
        rw (e, left, wrong, found),
        find-update_where (is_open db.now phone purpose_login) (λ (c' : OtpCode). c'.id == otp.id)
              add_attempt (λ c'. refl) db.otp_codes {a = otp} e
            ∙ rw (==_refl otp.id),
      )

  -- Once as many wrong codes have been tried as the latest code allows, no code is accepted, not
  -- even the right one. (No statement fails, and the code does not expire meanwhile.)
  pub guesses-lock :
      (codes : List ℕ) (otp : OtpCode) (db : Db)
      → latest_active phone purpose_login db ≡ some otp
      → All (λ c. (otp.code_hash == login.code_hash c) ≡ false) codes
      → otp.max_attempts ≤ otp.attempt_count + length codes
      → (code : ℕ)
      → (verify_otp login clock keys secret phone code device
          (guesses codes (record { db = db; faults = [] }))).0
        ≡ err Error.otp_attempts
  unfolding guesses
  guesses-lock [] otp db e wrong enough code = ap (λ x. x.0) (locked otp db code e (ground arith))
  guesses-lock (c ∷ cs) otp db e wrong enough code =
      elim (Bool-cases (leb otp.max_attempts otp.attempt_count)) [
        | inl full ↦
            rw (locked otp db c e full) (guesses-lock cs otp db e wrong.1 (ground arith) code)
        | inr left ↦
            let (d, run, armed) = counted otp db c e left wrong.0 in
            rw run (guesses-lock cs (add_attempt otp) d armed wrong.1 (omega arith) code)
      ]
