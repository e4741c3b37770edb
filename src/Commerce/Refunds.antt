-- ===== src/Commerce/Refunds.antt =====
-- Refunds: backend/internal/commerce/service_access.go, "refunds", with the statements of
-- queries/orders.sql. The catalog and the reader of listening times are parameters; so is the
-- clock of the server, which the code compares with the time of the order.
pub mod Laws
pub mod Request
use ketapod_website.Base.{
  ℕ, suc, ◌+◌, ◌*◌, Bool, true, false, not, ◌&&◌, ◌||◌, Option, none, some, List, [], ◌∷◌, ltb,
  ◌==◌, if◌then◌else◌, find, any, update_where,
}
use ketapod_website.Base.Int.{ℤ, pos, ◌*ℤ◌, ltb_ℤ, leb_ℤ}
use ketapod_website.Commerce.Model.{
  credit, Reason, ReferenceType, OrderStatus, Order, OrderItem, RefundStatus, Refund, Edition,
}
use ketapod_website.Schema.{Error, Db}
use ketapod_website.Store.{
  Result, ok, err, M, pure, raise_if, reads, query, lift, or_fail, in_tx, ◌>>=◌, ◌>>◌,
}
use ketapod_website.Commerce.Wallet.{create_wallet_ledger_entry}
use ketapod_website.Commerce.Entitlements.{revoke_for_order}
use ketapod_website.Commerce.Purchase.{get_order}

-- Seven days.
abbrev pub refund_window : ℕ
refund_window = 7 * 24 * 3600

-- More than a fifth of an edition of known length: float64(seconds)/float64(duration) > 0.20, as
-- the exact fraction.
abbrev pub heard_too_much : ℤ → ℤ → Bool
heard_too_much seconds duration = ltb_ℤ (pos 0) duration && ltb_ℤ duration (pos 5 *ℤ seconds)

abbrev pub is_paid : OrderStatus → Bool
is_paid OrderStatus.paid = true
is_paid _ = false

abbrev pub is_requested : ℕ → Refund → Bool
is_requested i r = r.id == i && elim r.status [ RefundStatus.requested ↦ true | _ ↦ false ]

-- `CreateRefund`, with the table's CHECK (amount_irr > 0).
unfoldable pub insert_refund : ℕ → ℕ → ℤ → Option ℕ → Db → Result Refund × Db
insert_refund order user amount reason db =
    if ltb_ℤ (pos 0) amount
    then (ok row, record db { next_id = suc db.next_id; refunds = row ∷ db.refunds })
    else (err Error.storage, db)
  where
    row : Refund
    row = record {
      id = db.next_id;
      order_id = order;
      user_id = user;
      amount = amount;
      reason = reason;
      status = RefundStatus.requested;
      resolved_by = none;
    }

-- `GetRefundByID`
unfoldable pub refund_by_id : ℕ → Db → Option Refund
refund_by_id i db = find (λ r. r.id == i) db.refunds

abbrev pub resolve : RefundStatus → ℕ → Refund → Refund
resolve status admin r = record r { status = status; resolved_by = some admin }

-- `ResolveRefund`: only a row that is still requested.
unfoldable pub update_resolved : ℕ → RefundStatus → ℕ → Db → Result Refund × Db
update_resolved i status admin db = elim (find (is_requested i) db.refunds) [
  | none ↦ (err Error.refund_already_resolved, db)
  | some r ↦ (
    ok (resolve status admin r),
    record db { refunds = update_where (is_requested i) (resolve status admin) db.refunds },
  )
]

unfoldable pub resolve_refund : ℕ → RefundStatus → ℕ → M Refund
resolve_refund i status admin = query (update_resolved i status admin)

abbrev pub refund_order : Order → Order
refund_order o = record o { status = OrderStatus.refunded }

-- `MarkOrderRefunded`
unfoldable pub update_refunded : ℕ → Db → Db
update_refunded i db = record db { orders = update_where (λ o. o.id == i) refund_order db.orders }

module _ (editions : ℕ → Option Edition) where
  -- The loop over the items of the order.
  unfoldable pub check_listened : (ℕ → ℕ → Option ℤ) → ℕ → List OrderItem → M (Unit {0})
  check_listened heard user [] = pure tt
  check_listened heard user (i ∷ is) = do
    seconds ← lift (or_fail Error.upstream (heard user i.edition_id))
    e ← lift (or_fail Error.upstream (editions i.edition_id))
    raise_if (heard_too_much seconds e.duration) Error.refund_not_eligible
    check_listened heard user is

  -- Without a reader of listening times nothing is checked.
  unfoldable pub check_listening : Option (ℕ → ℕ → Option ℤ) → ℕ → List OrderItem → M (Unit {0})
  check_listening none user items = pure tt
  check_listening (some heard) user items = check_listened heard user items

  -- `RequestRefund`
  unfoldable pub request_refund : Option (ℕ → ℕ → Option ℤ) → ℕ → ℕ → ℕ → Option ℕ → M Refund
  request_refund listening now user order_id reason = do
    found ← get_order order_id
    raise_if (not (found.0.user_id == user)) Error.not_found
    raise_if (not (is_paid found.0.status)) Error.refund_not_eligible
    raise_if (ltb (found.0.created_at + refund_window) now) Error.refund_not_eligible
    check_listening listening user found.1
    query (insert_refund found.0.id user found.0.total reason)

-- The credit of a refund that is worth something.
unfoldable pub credit_refund : Refund → M (Unit {0})
credit_refund r =
    if ltb_ℤ (pos 0) r.amount
    then (create_wallet_ledger_entry r.user_id credit r.amount Reason.refund ReferenceType.refund
          (some r.id)
        >>= λ entry. pure tt)
    else pure tt

-- The transaction of `ApproveRefund`.
unfoldable pub settle_refund : ℕ → ℕ → M Refund
settle_refund admin i = do
  found ← reads (refund_by_id i)
  refund ← lift (or_fail Error.not_found found)
  resolved ← resolve_refund i RefundStatus.approved admin
  credit_refund refund
  query (λ db. (ok tt, revoke_for_order refund.order_id db))
  query (λ db. (ok tt, update_refunded refund.order_id db))
  pure resolved

-- `ApproveRefund`
unfoldable pub approve_refund : ℕ → ℕ → M Refund
approve_refund admin i = in_tx (settle_refund admin i)

-- `RejectRefund`
unfoldable pub reject_refund : ℕ → ℕ → M Refund
reject_refund admin i = resolve_refund i RefundStatus.rejected admin
