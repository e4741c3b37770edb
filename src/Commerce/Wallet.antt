-- ===== src/Commerce/Wallet.antt =====
-- The wallet: backend/internal/commerce/service.go, "wallet", with the statements of
-- queries/wallet.sql. The balance is a sum over a ledger that is only appended to.
pub mod Laws
pub mod Lock
pub mod Accounts
use ketapod_website.Base.{ℕ, suc, Option, List, [], ◌∷◌, ◌==◌, if◌then◌else◌}
use ketapod_website.Base.Int.{ℤ, pos, ◌+ℤ◌, ◌-ℤ◌, ltb_ℤ, leb_ℤ}
use ketapod_website.Commerce.Model.{EntryType, credit, debit, Reason, ReferenceType, LedgerEntry}
use ketapod_website.Schema.{Error, Db}
use ketapod_website.Store.{Result, ok, err, M, raise_if, query, reads, in_tx, ◌>>=◌, ◌>>◌}

abbrev pub signed : EntryType → ℤ → ℤ
signed credit a = a
signed debit a = pos 0 -ℤ a

-- `GetWalletBalance`: SUM(CASE WHEN entry_type = 'credit' THEN amount_irr ELSE -amount_irr END).
unfoldable pub balance : ℕ → List LedgerEntry → ℤ
balance u [] = pos 0
balance u (e ∷ es) =
    if e.user_id == u then signed e.entry_type e.amount +ℤ balance u es else balance u es

pub get_wallet_balance : ℕ → M ℤ
get_wallet_balance u = reads (λ db. balance u db.ledger)

-- The advisory lock is held to the end of the transaction; Wallet/Lock is about what it excludes.
pub lock_wallet : ℕ → M (Unit {0})
lock_wallet u = reads (λ db. tt)

-- The tables after a new row of the ledger.
unfoldable pub with_entry :
    ℕ → EntryType → ℤ → Reason → ReferenceType → Option ℕ → Db → LedgerEntry × Db
with_entry u k a r t i db =
    (entry, record db { next_id = suc db.next_id; ledger = entry ∷ db.ledger })
  where
    entry : LedgerEntry
    entry = record {
      id = db.next_id;
      user_id = u;
      entry_type = k;
      amount = a;
      reason = r;
      reference_type = t;
      reference_id = i;
    }

-- `CreateWalletLedgerEntry`, with the table's CHECK (amount_irr > 0).
unfoldable pub insert_entry :
    ℕ → EntryType → ℤ → Reason → ReferenceType → Option ℕ → Db → Result LedgerEntry × Db
insert_entry u k a r t i db =
    if ltb_ℤ (pos 0) a
    then (ok (with_entry u k a r t i db).0, (with_entry u k a r t i db).1)
    else (err Error.storage, db)

unfoldable pub create_wallet_ledger_entry :
    ℕ → EntryType → ℤ → Reason → ReferenceType → Option ℕ → M LedgerEntry
create_wallet_ledger_entry u k a r t i = query (insert_entry u k a r t i)

-- `debitLocked`
unfoldable pub debit_locked : ℕ → ℤ → Reason → ReferenceType → Option ℕ → M LedgerEntry
unfolding get_wallet_balance lock_wallet
debit_locked u a r t i = do
  lock_wallet u
  funds ← get_wallet_balance u
  raise_if (ltb_ℤ funds a) Error.insufficient_funds
  create_wallet_ledger_entry u debit a r t i

-- `Service.Balance`
pub current_balance : ℕ → M ℤ
unfolding get_wallet_balance
current_balance u = get_wallet_balance u

-- `Service.Credit`
unfoldable pub add_credit : ℕ → ℤ → Reason → ReferenceType → Option ℕ → M LedgerEntry
add_credit u a r t i = do
  raise_if (leb_ℤ a (pos 0)) Error.amount_invalid
  create_wallet_ledger_entry u credit a r t i

-- `Service.Debit`
unfoldable pub take_debit : ℕ → ℤ → Reason → ReferenceType → Option ℕ → M LedgerEntry
take_debit u a r t i = do
  raise_if (leb_ℤ a (pos 0)) Error.amount_invalid
  in_tx (debit_locked u a r t i)
