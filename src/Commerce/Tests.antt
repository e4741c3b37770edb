-- ===== src/Commerce/Tests.antt =====
-- A small shop, and what its operations do there.
pub mod Refunds
pub mod Subscriptions
use ketapod_website.Base.{
  length, ◌≢◌, ℕ, ◌≡◌, ◌⊎◌, refl, true, false, Option, none, some, List, [], ◌∷◌, ◌==◌,
  if◌then◌else◌, arith,
}
use ketapod_website.Base.Int.{ℤ, pos, ◌≤ℤ◌, ◌-ℤ◌, ◌+ℤ◌, ◌*ℤ◌, wrap64, min_ℤ, quot}
use ketapod_website.Commerce.Model.{
  credit, Reason, ReferenceType, LedgerEntry, PaymentStatus, Payment, Coupon, percent, OrderStatus,
  Order, PurchaseLine, Edition,
}
use ketapod_website.Schema.{Error, Db}
use ketapod_website.Store.{Result, ok, err, World, query, in_tx, lift, raise_if, reads}
use ketapod_website.Store.Reads.{Reads}
use ketapod_website.Commerce.Wallet.{
  balance, with_entry, insert_entry, create_wallet_ledger_entry, debit_locked, take_debit,
}
use ketapod_website.Commerce.Wallet.Accounts.{
  Call, deposit, withdraw, serve_all, funds_of, answer_all, serve_all-Refines,
}
use ketapod_website.Commerce.Wallet.Laws.{Charged, take_debit_charges}
use ketapod_website.Commerce.Wallet.Lock.{
  waiting, locked, checked, Wallet, at_phase, take_lock, read_balance, Reach, here, next, IsFresh,
  interleaved_debits_covered, one_checked,
}
use ketapod_website.Commerce.Coupons.{
  discount_of, discount, normalize_code, usable_coupon, count_redemptions,
  count_redemptions_for_user, check_limit, evaluate_coupon,
}
use ketapod_website.Base.Text.{is_space, trim_left, trim_right, to_upper}
use ketapod_website.Commerce.Coupons.Discount.{discount_bounds, percent_rounds_down}
use ketapod_website.Commerce.Coupons.Rules.{IsRedeemable, evaluate_coupon_accepts}
use ketapod_website.Commerce.Payments.Failed.{IsFailed, failed_payment_stays}
use ketapod_website.Commerce.Payments.{
  payment_by_authority, payment_by_id, mark_payment_failed, settle_unsettled, Provider,
  settle_top_up,
}
use ketapod_website.Commerce.Payments.Once.{IsCreditedOnce, settle_top_up-IsCreditedOnce}
use ketapod_website.Commerce.Entitlements.{
  entitled_to_edition, new_entitlement, upsert_entitlement, grant_entitlement,
}
use ketapod_website.Commerce.Purchase.{
  PurchaseResult, order_by_key, order_by_id, items_of, load_order, earlier_order, refuse_owned,
  price_lines, apply_coupon, new_order, insert_order, charge, insert_item, deliver, redeem,
  update_paid, place_order, purchase_anew, reuse_or_purchase, purchase,
}
use ketapod_website.Commerce.Purchase.Claims.{purchase_is_atomic}
use ketapod_website.Commerce.Purchase.Retry.{purchase_retry}

abbrev pub top_up : LedgerEntry
top_up = record {
  id = 1;
  user_id = 7;
  entry_type = credit;
  amount = pos 1_000;
  reason = Reason.top_up;
  reference_type = ReferenceType.other 0;
  reference_id = none;
}

abbrev pending_payment : Payment
pending_payment = record {
  id = 2;
  user_id = 7;
  provider = 1;
  amount = pos 500;
  status = PaymentStatus.pending;
  authority = some 9;
  reference_code = none;
  failure_reason = none;
  ledger_entry_id = none;
  settled_at = none;
}

-- A tenth off, up to two uses in all.
abbrev tenth : Coupon
tenth = record {
  id = 3;
  code = b'T' ∷ b'X' ∷ [];
  kind = percent;
  value = pos 10;
  max_discount = pos 0;
  min_subtotal = pos 100;
  max_redemptions = pos 2;
  per_user_limit = pos 1;
  starts_at = 0;
  expires_at = some 1_000;
  is_active = true;
}

abbrev pub shop : Db
shop = record {
  next_id = 10;
  now = 50;
  ledger = top_up ∷ [];
  payments = pending_payment ∷ [];
  orders = [];
  items = [];
  coupons = tenth ∷ [];
  redemptions = [];
  entitlements = [];
  refunds = [];
  plans = [];
  subscriptions = [];
  users = [];
  role_grants = [];
  devices = [];
  otp_codes = [];
  refresh_tokens = [];
  outbox = [];
  positions = [];
  listening_events = [];
  child_profiles = [];
  parental_controls = [];
  content_approvals = [];
  allowed_prompts = [];
  authors = [];
  catalog_books = [];
  rights_grants = [];
  voices = [];
  narrations = [];
  chapters = [];
  edition_assets = [];
  ai_books = [];
  ai_documents = [];
  submissions = [];
}

abbrev pub calm : World
calm = record { db = shop; faults = [] }

-- The commit of the transaction fails.
abbrev stormy : World
stormy = record {
  db = shop;
  faults = false ∷ false ∷ false ∷ false ∷ false ∷ false ∷ false ∷ false ∷ true ∷ [];
}

abbrev pub editions : ℕ → Option Edition
editions i =
    if i == 5
    then some (record { edition_id = 5; book_id = 6; price = pos 300; duration = pos 60 })
    else none

abbrev one_line : List PurchaseLine
one_line = record { edition_id = 5; recipient = none; gift_message = none } ∷ []

abbrev pub value : {A : Type 0} → A → Result A → A
value a (ok b) = b
value a (err e) = a

abbrev no_order : Order
no_order = record {
  id = 0;
  user_id = 0;
  status = OrderStatus.failed;
  subtotal = pos 0;
  discount = pos 0;
  total = pos 0;
  coupon_id = none;
  idempotency_key = none;
  created_at = 0;
  paid_at = none;
}

abbrev nothing_bought : PurchaseResult
nothing_bought = record { order = no_order; items = []; entitlements = []; reused = true }

abbrev bought : Result PurchaseResult × World
bought = purchase editions 7 one_line (b't' ∷ b'x' ∷ b' ' ∷ []) (some 4) calm

abbrev rolled_back : Result PurchaseResult × World
rolled_back = purchase editions 7 one_line [] none stormy

purchase_is_atomic_example : rolled_back.1.db ≡ shop
unfolding purchase earlier_order reads query load_order reuse_or_purchase purchase_anew price_lines
    lift refuse_owned entitled_to_edition raise_if apply_coupon evaluate_coupon normalize_code
    trim_left trim_right is_space to_upper usable_coupon check_limit count_redemptions
    count_redemptions_for_user discount discount_of in_tx place_order insert_order new_order charge
    debit_locked balance create_wallet_ledger_entry insert_entry with_entry deliver insert_item
    grant_entitlement upsert_entitlement new_entitlement redeem update_paid order_by_key wrap64 ◌+ℤ◌
    min_ℤ quot ◌*ℤ◌ ◌-ℤ◌
purchase_is_atomic_example =
    purchase_is_atomic editions 7 one_line [] none stormy rolled_back.1 Error.storage refl

purchase_retry_example :
    Reads
      (λ r. (r.reused ≡ true) × (r.order.id ≡ (value nothing_bought bought.0).order.id))
      bought.1.db
      (purchase (λ i. none) 7 one_line [] (some 4) bought.1)
    × ((o : Order) × (o.id ≡ (value nothing_bought bought.0).order.id)
        × (order_by_id o.id bought.1.db ≡ some o)
        × (purchase (λ i. none) 7 one_line [] (some 4) (record { db = bought.1.db; faults = [] })
            ≡ (
              ok (record {
                order = o;
                items = items_of o.id bought.1.db;
                entitlements = [];
                reused = true;
              }),
              record { db = bought.1.db; faults = [] },
            )))
unfolding purchase earlier_order reads query load_order reuse_or_purchase purchase_anew price_lines
    lift refuse_owned entitled_to_edition raise_if apply_coupon evaluate_coupon normalize_code
    trim_left trim_right is_space to_upper usable_coupon check_limit count_redemptions
    count_redemptions_for_user discount discount_of in_tx place_order insert_order new_order charge
    debit_locked balance create_wallet_ledger_entry insert_entry with_entry deliver insert_item
    grant_entitlement upsert_entitlement new_entitlement redeem update_paid order_by_key wrap64 ◌+ℤ◌
    min_ℤ quot ◌*ℤ◌ ◌-ℤ◌
purchase_retry_example =
    purchase_retry editions (λ i. none) 7 4 one_line []
      (record { edition_id = 5; recipient = none; gift_message = none }) (b't' ∷ b'x' ∷ b' ' ∷ [])
      [] calm bought.1 bought.1 (value nothing_bought bought.0) refl refl

abbrev debited : Result LedgerEntry × World
debited = take_debit 7 (pos 600) Reason.subscription ReferenceType.subscription none calm

take_debit_charges_example : Charged 7 (pos 600) shop debited.1.db
unfolding take_debit raise_if in_tx query reads debit_locked balance create_wallet_ledger_entry
    insert_entry with_entry ◌-ℤ◌ ◌+ℤ◌
take_debit_charges_example =
    take_debit_charges 7 (pos 600) Reason.subscription ReferenceType.subscription none calm
      debited.1 (value top_up debited.0) refl

-- Two debits of 60 that wait for a wallet of 100.
abbrev idle : Wallet
idle = record { funds = pos 100; holder = none; phase = λ t. waiting (pos 60) }

abbrev held : Wallet
held = record {
  funds = pos 100;
  holder = some 0;
  phase = at_phase (λ t. waiting (pos 60)) 0 (locked (pos 60));
}

abbrev seen : Wallet
seen = record held { phase = at_phase held.phase 0 (checked (pos 60) (pos 100)) }

idle-IsFresh : IsFresh idle
idle-IsFresh = record { covered = omega arith; unlocked = refl; starting = λ t. (pos 60, refl) }

idle-seen : Reach idle seen
idle-seen =
    next (next here (take_lock 0 (pos 60) refl (omega arith) refl refl))
      (read_balance 0 (pos 60) refl refl)

interleaved_debits_covered_example : pos 0 ≤ℤ seen.funds
interleaved_debits_covered_example = interleaved_debits_covered idle-IsFresh idle-seen

-- A deposit, a withdrawal that is covered, one that is not and a deposit of nothing.
abbrev four_calls : List Call
four_calls =
    deposit 7 (pos 500) ∷ withdraw 7 (pos 1_200) ∷ withdraw 7 (pos 301) ∷ deposit 8 (pos 0) ∷ []

serve_all-Refines_example :
    ((serve_all Reason.subscription ReferenceType.subscription none four_calls shop).0
      ≡ true ∷ true ∷ false ∷ false ∷ [])
    × (funds_of (serve_all Reason.subscription ReferenceType.subscription none four_calls shop).1
        ≡ (answer_all four_calls (funds_of shop)).1)
unfolding balance ◌+ℤ◌ ◌-ℤ◌
serve_all-Refines_example =
    serve_all-Refines Reason.subscription ReferenceType.subscription none four_calls shop

discount_bounds_example :
    (discount tenth (pos 300) ≤ℤ pos 300)
    × ((tenth.max_discount ≤ℤ pos 0) ⊎ (discount tenth (pos 300) ≤ℤ tenth.max_discount))
discount_bounds_example = discount_bounds tenth (pos 300) (omega arith)

abbrev accepted : Result (Coupon × ℤ) × World
accepted = evaluate_coupon 7 (b't' ∷ b'X' ∷ []) (pos 300) calm

evaluate_coupon_accepts_example :
    IsRedeemable 7 (b't' ∷ b'X' ∷ []) (pos 300) shop (tenth, pos 30) × (accepted.1.db ≡ shop)
unfolding purchase earlier_order reads query load_order reuse_or_purchase purchase_anew price_lines
    lift refuse_owned entitled_to_edition raise_if apply_coupon evaluate_coupon normalize_code
    trim_left trim_right is_space to_upper usable_coupon check_limit count_redemptions
    count_redemptions_for_user discount discount_of in_tx place_order insert_order new_order charge
    debit_locked balance create_wallet_ledger_entry insert_entry with_entry deliver insert_item
    grant_entitlement upsert_entitlement new_entitlement redeem update_paid order_by_key wrap64 ◌+ℤ◌
    min_ℤ quot ◌*ℤ◌ ◌-ℤ◌
evaluate_coupon_accepts_example =
    evaluate_coupon_accepts 7 (b't' ∷ b'X' ∷ []) (pos 300) calm accepted.1 tenth (pos 30) refl

-- A gateway that says yes to everything.
abbrev generous : Provider
generous = record {
  name = 1;
  start = λ user amount. some (some 9);
  verify = λ authority amount. record {
    failed = false;
    succeeded = true;
    reference_code = some 8;
    failure_reason = none;
  };
}

shop-IsCreditedOnce : IsCreditedOnce shop
shop-IsCreditedOnce = record {
  unique = λ i. ground arith;
  once = λ i. ground arith;
  exact = ((λ mine. absurd (cc mine), tt), tt);
}

settle_top_up-IsCreditedOnce_example : IsCreditedOnce (settle_top_up generous 1 (some 9) calm).1.db
settle_top_up-IsCreditedOnce_example =
    settle_top_up-IsCreditedOnce generous 1 (some 9) calm shop-IsCreditedOnce

-- A gateway that does not answer.
abbrev silent : Provider
silent = record generous {
  verify = λ authority amount. record {
    failed = true;
    succeeded = false;
    reference_code = none;
    failure_reason = none;
  };
}

abbrev missed : World
missed = (settle_top_up silent 1 (some 9) calm).1

abbrev failed_payment : Payment
failed_payment = record pending_payment {
  status = PaymentStatus.failed;
  failure_reason = some 0;
  settled_at = some 50;
}

-- After one callback without an answer, a gateway that says yes comes too late.
failed_payment_stays_example :
    settle_top_up generous 1 (some 9) missed ≢ (ok pending_payment, missed)
unfolding settle_top_up settle_unsettled payment_by_authority payment_by_id mark_payment_failed
    reads query lift
failed_payment_stays_example =
    failed_payment_stays generous 1 (some 9) failed_payment pending_payment missed missed refl
      (record { known = refl; failed = refl; none_pending = refl })

-- Two lines for the same edition are charged twice and give one entitlement.
abbrev doubled : Result PurchaseResult × World
doubled =
    purchase editions 7
      (record { edition_id = 5; recipient = none; gift_message = none }
        ∷ record { edition_id = 5; recipient = none; gift_message = none }
        ∷ [])
      [] none calm

buy_twice : (balance 7 doubled.1.db.ledger ≡ pos 400) × (length doubled.1.db.entitlements ≡ 1)
unfolding purchase earlier_order reads query load_order reuse_or_purchase purchase_anew price_lines
    lift refuse_owned entitled_to_edition raise_if apply_coupon in_tx place_order insert_order
    new_order charge debit_locked balance create_wallet_ledger_entry insert_entry with_entry deliver
    insert_item grant_entitlement upsert_entitlement new_entitlement redeem update_paid wrap64 ◌+ℤ◌
    ◌-ℤ◌
buy_twice = (refl, refl)
