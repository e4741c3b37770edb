-- ===== src/Commerce/Tests/Refunds.antt =====
-- Refunds of one order.
use ketapod_website.Base.{ℕ, ◌≡◌, refl, Option, some, none, [], ◌∷◌}
use ketapod_website.Base.Int.{ℤ, pos, ◌+ℤ◌, ◌*ℤ◌}
use ketapod_website.Commerce.Model.{OrderStatus, Order, RefundStatus, Refund}
use ketapod_website.Store.{Result, World, query, reads, lift, raise_if, in_tx}
use ketapod_website.Commerce.Wallet.{balance, with_entry, insert_entry, create_wallet_ledger_entry}
use ketapod_website.Commerce.Entitlements.{revoke_for_order}
use ketapod_website.Commerce.Purchase.{order_by_id, items_of, get_order}
use ketapod_website.Commerce.Refunds.{
  insert_refund, refund_by_id, update_resolved, resolve_refund, update_refunded, check_listened,
  check_listening, request_refund, credit_refund, settle_refund, approve_refund,
}
use ketapod_website.Commerce.Refunds.Laws.{Refunded, approve_refund_settles}
use ketapod_website.Commerce.Refunds.Request.{Requested, request_refund_eligible}
use ketapod_website.Commerce.Tests.{shop, value, editions}

abbrev paid_order : Order
paid_order = record {
  id = 4;
  user_id = 7;
  status = OrderStatus.paid;
  subtotal = pos 300;
  discount = pos 0;
  total = pos 300;
  coupon_id = none;
  idempotency_key = none;
  created_at = 40;
  paid_at = some 40;
}

abbrev after_sale : World
after_sale = record {
  db = record shop {
    orders = paid_order ∷ [];
    items =
        record {
          order_id = 4;
          edition_id = 5;
          book_id = 6;
          unit_price = pos 300;
          recipient = none;
          gift_message = none;
        }
        ∷ [];
  };
  faults = [];
}

abbrev no_refund : Refund
no_refund = record {
  id = 0;
  order_id = 0;
  user_id = 0;
  amount = pos 0;
  reason = none;
  status = RefundStatus.rejected;
  resolved_by = none;
}

-- A listener who heard 12 of the 60 seconds, exactly a fifth.
abbrev heard : Option (ℕ → ℕ → Option ℤ)
heard = some λ u e. some (pos 12)

abbrev asked : Result Refund × World
asked = request_refund editions heard 50 7 4 none after_sale

request_refund_eligible_example :
    Requested editions heard 50 7 4 after_sale.db (value no_refund asked.0) asked.1.db
unfolding request_refund get_order order_by_id items_of reads query lift raise_if check_listening
    check_listened insert_refund ◌*ℤ◌
request_refund_eligible_example =
    request_refund_eligible editions heard 50 7 4 none after_sale asked.1 (value no_refund asked.0)
      refl

abbrev open_refund : ℕ → Refund
open_refund i = record no_refund {
  id = i;
  order_id = 4;
  user_id = 7;
  amount = pos 300;
  status = RefundStatus.requested;
}

-- Two requests for the same order.
abbrev requested_twice : World
requested_twice = record {
  db = record after_sale.db { refunds = open_refund 11 ∷ open_refund 10 ∷ [] };
  faults = [];
}

abbrev approved : Result Refund × World
approved = approve_refund 1 10 requested_twice

approve_refund_settles_example : (r : Refund) × Refunded 10 r requested_twice.db approved.1.db
unfolding approve_refund settle_refund in_tx refund_by_id reads query lift resolve_refund
    update_resolved credit_refund create_wallet_ledger_entry insert_entry with_entry
    revoke_for_order update_refunded
approve_refund_settles_example =
    approve_refund_settles 1 10 requested_twice approved.1 (value no_refund approved.0) refl

abbrev approved_again : Result Refund × World
approved_again = approve_refund 1 11 approved.1

-- Both refunds of one order go through: the wallet had 1,000 and gets twice the price of 300.
approve_both : balance 7 approved_again.1.db.ledger ≡ pos 1_600
unfolding approve_refund settle_refund in_tx refund_by_id reads query lift resolve_refund
    update_resolved credit_refund create_wallet_ledger_entry insert_entry with_entry
    revoke_for_order update_refunded balance ◌+ℤ◌
approve_both = refl
