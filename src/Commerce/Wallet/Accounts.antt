-- ===== src/Commerce/Wallet/Accounts.antt =====
-- The wallets as accounts: what `Credit` and `Debit` of backend/internal/commerce/service.go promise, with
-- no ledger in sight, beside what the service does.
use ketapod_website.Base.{
  ℕ, ◌≡◌, refl, ap, ◌∙◌, inl, inr, Bool, true, false, List, [], ◌∷◌, Option, ◌==◌, arith,
  if◌then◌else◌, Bool-cases,
}
use mathlib.Core.Path.{fun_ext}
use ketapod_website.Base.Int.{ℤ, pos, ◌+ℤ◌, ◌-ℤ◌, ltb_ℤ, leb_ℤ, +ℤ_parts, -ℤ_parts, eq_of_parts}
use ketapod_website.Commerce.Model.{EntryType, credit, debit, Reason, ReferenceType, LedgerEntry}
use ketapod_website.Commerce.Wallet.{
  balance, signed, get_wallet_balance, lock_wallet, with_entry, insert_entry,
  create_wallet_ledger_entry, debit_locked, add_credit, take_debit,
}
use ketapod_website.Schema.{Db}
use ketapod_website.Store.{Result, ok, err, World, query, reads, in_tx, raise_if}

-- What every user has.
abbrev pub Funds : Type 0
Funds = ℕ → ℤ

pub data Call : Type 0 where
  deposit : ℕ → ℤ → Call
  withdraw : ℕ → ℤ → Call

abbrev pub change : ℕ → (ℤ → ℤ) → Funds → Funds
change u f funds v = if u == v then f (funds v) else funds v

-- An account: a deposit is accepted if it is positive, a withdrawal if the account covers it too.
abbrev pub answer : Call → Funds → Bool × Funds
answer (deposit u a) funds =
    if leb_ℤ a (pos 0) then (false, funds) else (true, change u (λ b. b +ℤ a) funds)
answer (withdraw u a) funds =
    if leb_ℤ a (pos 0)
    then (false, funds)
    else if ltb_ℤ (funds u) a
    then (false, funds)
    else (true, change u (λ b. b -ℤ a) funds)

abbrev pub answer_all : List Call → Funds → List Bool × Funds
answer_all [] funds = ([], funds)
answer_all (c ∷ cs) funds =
    let (b, funds') = answer c funds in
    let (bs, funds'') = answer_all cs funds' in (b ∷ bs, funds'')

-- The accounts that a ledger stands for.
abbrev pub funds_of : Db → Funds
funds_of db u = balance u db.ledger

abbrev pub is_ok : {A : Type 0} → Result A → Bool
is_ok (ok a) = true
is_ok (err e) = false

module _ (r : Reason) (t : ReferenceType) (i : Option ℕ) where
  -- The service on one call, where no statement fails.
  unfoldable pub serve : Call → Db → Result LedgerEntry × World
  serve (deposit u a) db = add_credit u a r t i (record { db = db; faults = [] })
  serve (withdraw u a) db = take_debit u a r t i (record { db = db; faults = [] })

  unfoldable pub serve_all : List Call → Db → List Bool × Db
  serve_all [] db = ([], db)
  serve_all (c ∷ cs) db =
      let rest = serve_all cs (serve c db).1.db in (is_ok (serve c db).0 ∷ rest.0, rest.1)

  entry-funds :
      (u : ℕ) (k : EntryType) (a : ℤ) (db : Db)
      → funds_of (with_entry u k a r t i db).1 ≡ change u (λ b. signed k a +ℤ b) (funds_of db)
  unfolding with_entry balance
  entry-funds u k a db = refl

  plus_first : (a b : ℤ) → a +ℤ b ≡ b +ℤ a
  plus_first a b = eq_of_parts _ _ (omega (arith, +ℤ_parts a b, +ℤ_parts b a))

  minus_first : (a b : ℤ) → (pos 0 -ℤ a) +ℤ b ≡ b -ℤ a
  minus_first a b =
      eq_of_parts _ _ (omega (arith, +ℤ_parts (pos 0 -ℤ a) b, -ℤ_parts b a, -ℤ_parts (pos 0) a))

  credit-funds :
      (u : ℕ) (a : ℤ) (db : Db)
      → funds_of (with_entry u credit a r t i db).1 ≡ change u (λ b. b +ℤ a) (funds_of db)
  credit-funds u a db =
      entry-funds u credit a db ∙ ap (λ f. change u f (funds_of db)) (fun_ext (plus_first a))

  debit-funds :
      (u : ℕ) (a : ℤ) (db : Db)
      → funds_of (with_entry u debit a r t i db).1 ≡ change u (λ b. b -ℤ a) (funds_of db)
  debit-funds u a db =
      entry-funds u debit a db ∙ ap (λ f. change u f (funds_of db)) (fun_ext (minus_first a))

  -- What the service does to a call is what the account does.
  abbrev Agrees : Call → Db → Type 0
  Agrees c db =
      (is_ok (serve c db).0 ≡ (answer c (funds_of db)).0)
      × (funds_of (serve c db).1.db ≡ (answer c (funds_of db)).1)

  positive : (a : ℤ) → leb_ℤ a (pos 0) ≡ false → ltb_ℤ (pos 0) a ≡ true
  positive a h = ground arith

  serve-Agrees : (c : Call) (db : Db) → Agrees c db
  unfolding serve add_credit take_debit debit_locked lock_wallet get_wallet_balance
      create_wallet_ledger_entry insert_entry in_tx query reads raise_if
  serve-Agrees (deposit u a) db = elim (Bool-cases (leb_ℤ a (pos 0))) [
    | inl none_of_it ↦ rw none_of_it (refl, refl)
    | inr some_of_it ↦ rw (some_of_it, positive a some_of_it) (refl, credit-funds u a db)
  ]
  serve-Agrees (withdraw u a) db = elim (Bool-cases (leb_ℤ a (pos 0))) [
    | inl none_of_it ↦ rw none_of_it (refl, refl)
    | inr some_of_it ↦ elim (Bool-cases (ltb_ℤ (balance u db.ledger) a)) [
      | inl short ↦ rw (some_of_it, short) (refl, refl)
      | inr covered ↦ rw (some_of_it, covered, positive a some_of_it) (refl, debit-funds u a db)
    ]
  ]

  -- The wallet service implements the accounts: on any sequence of credits and debits, from any ledger,
  -- where no statement fails, it accepts and refuses as the accounts do that the ledger stands for, and the
  -- ledger that it leaves stands for the accounts that they leave.
  pub serve_all-Refines :
      (cs : List Call) (db : Db)
      → ((serve_all cs db).0 ≡ (answer_all cs (funds_of db)).0)
        × (funds_of (serve_all cs db).1 ≡ (answer_all cs (funds_of db)).1)
  unfolding serve_all
  serve_all-Refines [] db = (refl, refl)
  serve_all-Refines (c ∷ cs) db =
      let (first, left) = serve-Agrees c db in
      let (rest, end) = serve_all-Refines cs (serve c db).1.db in
      let rest' = rest ∙ ap (λ (f : Funds). (answer_all cs f).0) left in
      (cc (first, rest'), end ∙ ap (λ (f : Funds). (answer_all cs f).1) left)
