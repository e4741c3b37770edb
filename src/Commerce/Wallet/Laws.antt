-- ===== src/Commerce/Wallet/Laws.antt =====
-- What the wallet's operations do to the ledger and to the balances.
use ketapod_website.Base.{
  ℕ, ◌≡◌, ◌≢◌, refl, sym, inl, inr, Option, arith, Bool-cases, ◌==◌, if◌then◌else◌,
}
use ketapod_website.Base.Int.{ℤ, pos, ◌+ℤ◌, ◌≤ℤ◌, ◌<ℤ◌, int_laws}
use mathlib.Core.Path.{subst}
use ketapod_website.Commerce.Model.{EntryType, credit, debit, Reason, ReferenceType, LedgerEntry}
use ketapod_website.Schema.{Db}
use ketapod_website.Store.{ok, World, query}
use ketapod_website.Store.Rules.{
  Ensures, IsAtomic, Ensures-query, Ensures-ok, in_tx-IsAtomic, in_tx-Ensures, Ensures-map,
  Ensures-reads, Ensures-raise_if, IsAtomic-reads, IsAtomic-raise_if,
}
use ketapod_website.Commerce.Wallet
use ketapod_website.Commerce.Wallet.{
  balance, with_entry, insert_entry, create_wallet_ledger_entry, debit_locked, add_credit,
  take_debit,
}

-- Nobody's wallet is below zero.
abbrev pub IsSolvent : Db → Type 0
IsSolvent db = (u : ℕ) → pos 0 ≤ℤ balance u db.ledger

module _ (u : ℕ) (a : ℤ) (r : Reason) (t : ReferenceType) (i : Option ℕ) where
  -- What a successful insert has done.
  abbrev pub Appended : EntryType → Db → LedgerEntry → Db → Type 0
  Appended k db e d =
      (pos 0 <ℤ a) × (e ≡ (with_entry u k a r t i db).0) × (d ≡ (with_entry u k a r t i db).1)

  pub insert_entry-Appended :
      (k : EntryType) (db : Db) (e : LedgerEntry) (d : Db)
      → insert_entry u k a r t i db ≡ (ok e, d)
      → Appended k db e d
  unfolding insert_entry
  insert_entry-Appended k db e d h = ground arith

  pub insert_entry-IsAtomic :
      (k : EntryType) (w : World) → IsAtomic w.db (create_wallet_ledger_entry u k a r t i w)
  unfolding create_wallet_ledger_entry insert_entry query IsAtomic
  insert_entry-IsAtomic k w = ground arith

  pub create_entry-Appended :
      (k : EntryType) (w : World)
      → Ensures (Appended k w.db) (create_wallet_ledger_entry u k a r t i w)
  unfolding create_wallet_ledger_entry
  create_entry-Appended k w =
      Ensures-query (Appended k w.db) (insert_entry u k a r t i) w (insert_entry-Appended k w.db)

  -- A debit goes through only when the balance covers it.
  pub debit_locked-Ensures :
      (w : World)
      → Ensures
          (λ e d. (a ≤ℤ balance u w.db.ledger) × Appended debit w.db e d)
          (debit_locked u a r t i w)
  unfolding debit_locked
  debit_locked-Ensures w = Ensures-reads _ _ _ w λ fs. Ensures-reads _ _ _ _ λ fs'.
      Ensures-raise_if _ _ _ _ _ λ enough.
        Ensures-map (Appended debit w.db) _ _ (create_entry-Appended debit _)
          λ e d p. (ground arith, p)

  pub debit_locked-IsAtomic : (w : World) → IsAtomic w.db (debit_locked u a r t i w)
  unfolding debit_locked
  debit_locked-IsAtomic w = IsAtomic-reads _ _ w λ fs.
      IsAtomic-reads _ _ _ λ fs'. IsAtomic-raise_if _ _ _ _ λ enough. insert_entry-IsAtomic debit _

-- A new entry moves the balance of its user by its signed amount, and no other balance.
pub with_entry-balance :
    (u : ℕ) (k : EntryType) (a : ℤ) (r : Reason) (t : ReferenceType) (i : Option ℕ) (db : Db)
    (v : ℕ)
    → balance v (with_entry u k a r t i db).1.ledger
      ≡ (if u == v then Wallet.signed k a +ℤ balance v db.ledger else balance v db.ledger)
unfolding balance with_entry
with_entry-balance u k a r t i db v = refl

pub credit-IsSolvent :
    (u : ℕ) (a : ℤ) (r : Reason) (t : ReferenceType) (i : Option ℕ) (db : Db)
    → pos 0 <ℤ a
    → IsSolvent db
    → IsSolvent (with_entry u credit a r t i db).1
credit-IsSolvent u a r t i db p h v =
    grind (int_laws, h v, with_entry-balance u credit a r t i db v)

pub debit-IsSolvent :
    (u : ℕ) (a : ℤ) (r : Reason) (t : ReferenceType) (i : Option ℕ) (db : Db)
    → a ≤ℤ balance u db.ledger
    → IsSolvent db
    → IsSolvent (with_entry u debit a r t i db).1
debit-IsSolvent u a r t i db p h v = elim (Bool-cases (u == v)) [
  | inl same ↦ grind (int_laws, h v, with_entry-balance u debit a r t i db v)
  | inr other ↦ grind (int_laws, h v, with_entry-balance u debit a r t i db v)
]

-- What a successful debit has done to the balances: the amount was positive and covered, the user
-- has that much less, and every other balance is the same.
pub record Charged (u : ℕ) (a : ℤ) (before after : Db) : Type 0 where
  pub positive : pos 0 <ℤ a
  pub covered : a ≤ℤ balance u before.ledger
  pub charged : balance u after.ledger +ℤ a ≡ balance u before.ledger
  pub others : (v : ℕ) → v ≢ u → balance v after.ledger ≡ balance v before.ledger

pub with_entry-Charged :
    (u : ℕ) (a : ℤ) (r : Reason) (t : ReferenceType) (i : Option ℕ) (db : Db)
    → pos 0 <ℤ a
    → a ≤ℤ balance u db.ledger
    → Charged u a db (with_entry u debit a r t i db).1
with_entry-Charged u a r t i db p c = record {
  positive = p;
  covered = c;
  charged = grind (int_laws, with_entry-balance u debit a r t i db u);
  others = λ v ne. ground (arith, with_entry-balance u debit a r t i db v);
}

take_debit-Ensures :
    (u : ℕ) (a : ℤ) (r : Reason) (t : ReferenceType) (i : Option ℕ) (w : World)
    → Ensures (λ e d. Charged u a w.db d) (take_debit u a r t i w)
unfolding take_debit
take_debit-Ensures u a r t i w = Ensures-raise_if _ _ _ _ w λ given.
    in_tx-Ensures _ (debit_locked u a r t i) w (
      Ensures-map _ _ _ (debit_locked-Ensures u a r t i w)
        λ e d h. subst (Charged u a w.db) (sym h.1.2) (with_entry-Charged u a r t i w.db h.1.0 h.0))

-- A debit that succeeds was positive and covered by the balance; it lowers the balance of its
-- user by the amount and leaves every other balance alone.
pub take_debit_charges :
    (u : ℕ) (a : ℤ) (r : Reason) (t : ReferenceType) (i : Option ℕ) (w w' : World) (e : LedgerEntry)
    → take_debit u a r t i w ≡ (ok e, w')
    → Charged u a w.db w'.db
take_debit_charges u a r t i w w' e h =
    Ensures-ok (λ e d. Charged u a w.db d) _ (take_debit-Ensures u a r t i w) h

pub take_debit-IsAtomic :
    (u : ℕ) (a : ℤ) (r : Reason) (t : ReferenceType) (i : Option ℕ) (w : World)
    → IsAtomic w.db (take_debit u a r t i w)
unfolding take_debit
take_debit-IsAtomic u a r t i w =
    IsAtomic-raise_if _ _ _ w λ given. in_tx-IsAtomic (debit_locked u a r t i) w

pub add_credit-IsAtomic :
    (u : ℕ) (a : ℤ) (r : Reason) (t : ReferenceType) (i : Option ℕ) (w : World)
    → IsAtomic w.db (add_credit u a r t i w)
unfolding add_credit
add_credit-IsAtomic u a r t i w =
    IsAtomic-raise_if _ _ _ w λ given. insert_entry-IsAtomic u a r t i credit w

pub add_credit-Appended :
    (u : ℕ) (a : ℤ) (r : Reason) (t : ReferenceType) (i : Option ℕ) (w : World)
    → Ensures (Appended u a r t i credit w.db) (add_credit u a r t i w)
unfolding add_credit
add_credit-Appended u a r t i w =
    Ensures-raise_if _ _ _ _ w λ given. create_entry-Appended u a r t i credit w
