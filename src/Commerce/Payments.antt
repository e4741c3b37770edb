-- ===== src/Commerce/Payments.antt =====
-- Top-ups of the wallet through a gateway: backend/internal/commerce/service.go, "top-up", with the
-- statements of queries/wallet.sql. The gateway is a parameter.
pub mod Entries
pub mod Once
pub mod Failed
use ketapod_website.Base.{
  ℕ, suc, Bool, true, false, not, ◌&&◌, ◌||◌, Option, none, some, ◌∷◌, ◌==◌, if◌then◌else◌, holds,
  find, update_where,
}
use ketapod_website.Base.Int.{ℤ, pos, ltb_ℤ}
use ketapod_website.Commerce.Model.{credit, Reason, ReferenceType, PaymentStatus, Payment}
use ketapod_website.Schema.{Error, Db}
use ketapod_website.Store.{
  Result, ok, err, M, pure, raise, raise_if, reads, query, lift, or_fail, in_tx, ◌>>=◌, ◌>>◌,
}
use ketapod_website.Commerce.Wallet.{create_wallet_ledger_entry}

-- What `Verify` returns: whether it failed, and the fields of VerifyPaymentResult.
pub record Verified : Type 0 where
  pub failed : Bool
  pub succeeded : Bool
  pub reference_code : Option ℕ
  pub failure_reason : Option ℕ

-- PaymentProvider: the gateway. `start` gives the authority token, if the gateway answers.
pub record Provider : Type 0 where
  pub name : ℕ
  pub start : ℕ → ℤ → Option (Option ℕ)
  pub verify : Option ℕ → ℤ → Verified

abbrev pub is_succeeded : PaymentStatus → Bool
is_succeeded PaymentStatus.succeeded = true
is_succeeded _ = false

abbrev pub is_pending : PaymentStatus → Bool
is_pending PaymentStatus.pending = true
is_pending _ = false

-- An empty authority is NULL, which equals nothing.
abbrev pub same_text : Option ℕ → Option ℕ → Bool
same_text none t = false
same_text (some a) t = holds t a

-- `GetPaymentByAuthority` and `LockPaymentForSettlement`
unfoldable pub payment_by_authority : ℕ → Option ℕ → Db → Option Payment
payment_by_authority provider authority db =
    find (λ p. p.provider == provider && same_text authority p.authority) db.payments

unfoldable pub payment_by_id : ℕ → Db → Option Payment
payment_by_id i db = find (λ p. p.id == i) db.payments

abbrev pub is_pending_row : ℕ → Payment → Bool
is_pending_row i p = p.id == i && is_pending p.status

-- `CreatePayment`, with the table's CHECK (amount_irr > 0).
unfoldable pub insert_payment : ℕ → ℕ → ℤ → Option ℕ → Db → Result Payment × Db
insert_payment user provider amount authority db =
    if ltb_ℤ (pos 0) amount
    then (ok row, record db { next_id = suc db.next_id; payments = row ∷ db.payments })
    else (err Error.storage, db)
  where
    row : Payment
    row = record {
      id = db.next_id;
      user_id = user;
      provider = provider;
      amount = amount;
      status = PaymentStatus.pending;
      authority = authority;
      reference_code = none;
      failure_reason = none;
      ledger_entry_id = none;
      settled_at = none;
    }

abbrev pub succeed : Option ℕ → ℕ → ℕ → Payment → Payment
succeed code entry now p = record p {
  status = PaymentStatus.succeeded;
  reference_code = code;
  ledger_entry_id = some entry;
  settled_at = some now;
}

abbrev pub fail : Option ℕ → ℕ → Payment → Payment
fail reason now p = record p {
  status = PaymentStatus.failed;
  failure_reason = reason;
  settled_at = some now;
}

-- An UPDATE of the pending row with this id: the row that it returns, if there is one.
abbrev pub update_pending : ℕ → (Payment → Payment) → Db → Db
update_pending i f db = record db { payments = update_where (is_pending_row i) f db.payments }

-- `MarkPaymentSucceeded`
unfoldable pub update_succeeded : ℕ → Option ℕ → ℕ → Db → Result Payment × Db
update_succeeded i code entry db = elim (find (is_pending_row i) db.payments) [
  | none ↦ (err Error.payment_already_settled, db)
  | some p ↦ (ok (succeed code entry db.now p), update_pending i (succeed code entry db.now) db)
]

unfoldable pub mark_payment_succeeded : ℕ → Option ℕ → ℕ → M Payment
mark_payment_succeeded i code entry = query (update_succeeded i code entry)

-- `MarkPaymentFailed`: that no row is pending is no error.
unfoldable pub mark_payment_failed : ℕ → Option ℕ → M (Unit {0})
mark_payment_failed i reason = query (λ db. (ok tt, update_pending i (fail reason db.now) db))

-- What the transaction of `SettleTopUp` does with the row that it has locked.
unfoldable pub credit_payment : Payment → Option ℕ → M Payment
credit_payment locked code =
    if is_succeeded locked.status
    then pure locked
    else (create_wallet_ledger_entry locked.user_id credit locked.amount Reason.top_up
          ReferenceType.payment (some locked.id)
        >>= λ entry. mark_payment_succeeded locked.id code entry.id)

unfoldable pub settle_locked : ℕ → Option ℕ → M Payment
settle_locked i code = do
  found ← reads (payment_by_id i)
  locked ← lift (or_fail Error.not_found found)
  credit_payment locked code

-- "verification_failed", unless the gateway gives a reason.
abbrev pub reason_of : ℕ → Verified → Option ℕ
reason_of standard v = elim v.failure_reason [ none ↦ some standard | some r ↦ some r ]

abbrev pub verification_failed : ℕ
verification_failed = 0

unfoldable pub settle_unsettled : Provider → Option ℕ → Payment → M Payment
settle_unsettled g authority payment =
    let v = g.verify authority payment.amount in
    if v.failed || not v.succeeded
    then (mark_payment_failed payment.id (reason_of verification_failed v)
        >> raise Error.payment_verification_failed)
    else in_tx (settle_locked payment.id v.reference_code)

-- `SettleTopUp`
unfoldable pub settle_top_up : Provider → ℕ → Option ℕ → M Payment
settle_top_up g provider authority = do
  found ← reads (payment_by_authority provider authority)
  payment ← lift (or_fail Error.not_found found)
  if is_succeeded payment.status then pure payment else settle_unsettled g authority payment

abbrev pub min_top_up : ℤ
min_top_up = pos 10_000

abbrev pub max_top_up : ℤ
max_top_up = pos 50_000_000

-- `StartTopUp`
unfoldable pub start_top_up : Provider → ℕ → ℤ → M Payment
start_top_up g user amount = do
  raise_if (ltb_ℤ amount min_top_up || ltb_ℤ max_top_up amount) Error.amount_invalid
  authority ← lift (or_fail Error.upstream (g.start user amount))
  query (insert_payment user g.name amount authority)
