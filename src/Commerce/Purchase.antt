-- ===== src/Commerce/Purchase.antt =====
-- A purchase: `Service.Purchase` of backend/internal/commerce/service.go with the statements of
-- queries/orders.sql. The catalog is a parameter: it prices an edition, or fails.
pub mod Pricing
pub mod Placing
pub mod Outcome
pub mod Claims
pub mod Retry
use ketapod_website.Base.{
  ℕ, suc, Bool, true, false, not, ◌&&◌, ◌||◌, Option, none, some, List, [], ◌∷◌, ◌++◌, ◌==◌,
  if◌then◌else◌, holds, find, any, select, update_where,
}
use ketapod_website.Base.Int.{ℤ, pos, ◌+ℤ◌, ◌-ℤ◌, ltb_ℤ, wrap64}
use ketapod_website.Commerce.Model.{
  Reason, ReferenceType, Origin, OrderStatus, Order, OrderItem, PurchaseLine, Edition, Entitlement,
  Redemption, Bytes,
}
use ketapod_website.Schema.{Error, Db}
use ketapod_website.Store.{
  Result, ok, err, M, pure, raise, raise_if, reads, query, lift, or_fail, in_tx, ◌>>=◌, ◌>>◌,
}
use ketapod_website.Commerce.Wallet.{debit_locked}
use ketapod_website.Commerce.Coupons.{evaluate_coupon}
use ketapod_website.Commerce.Entitlements.{entitled_to_edition, grant_entitlement, is_none}

-- PurchaseResult; the order's items stand beside it.
pub record PurchaseResult : Type 0 where
  pub order : Order
  pub items : List OrderItem
  pub entitlements : List Entitlement
  pub reused : Bool

-- `GetOrderByIdempotencyKey`
unfoldable pub order_by_key : ℕ → ℕ → Db → Option Order
order_by_key user key db = find (λ o. o.user_id == user && holds o.idempotency_key key) db.orders

unfoldable pub order_by_id : ℕ → Db → Option Order
order_by_id i db = find (λ o. o.id == i) db.orders

unfoldable pub items_of : ℕ → Db → List OrderItem
items_of order db = select (λ i. i.order_id == order) db.items

-- `GetOrderByID`, with the items that it loads.
unfoldable pub get_order : ℕ → M (Order × List OrderItem)
get_order i = do
  found ← reads (order_by_id i)
  order ← lift (or_fail Error.not_found found)
  items ← reads (items_of order.id)
  pure (order, items)

unfoldable pub load_order : Option Order → M (Option (Order × List OrderItem))
load_order none = pure none
load_order (some o) = get_order o.id >>= λ full. pure (some full)

-- The order that this key has already made; an empty key makes none.
unfoldable pub earlier_order : ℕ → Option ℕ → M (Option (Order × List OrderItem))
earlier_order user none = pure none
earlier_order user (some key) = reads (order_by_key user key) >>= load_order

-- The line is for the buyer: no recipient, or the buyer again.
abbrev pub is_own : ℕ → Option ℕ → Bool
is_own user none = true
is_own user (some r) = r == user

unfoldable pub refuse_owned : ℕ → Option ℕ → Edition → M (Unit {0})
refuse_owned user recipient e =
    if is_own user recipient
    then (reads (entitled_to_edition user e.edition_id e.book_id) >>= λ owned.
        raise_if owned Error.already_owned)
    else pure tt

-- The item of a line; the order's id is written when the item is created.
abbrev pub item_of : PurchaseLine → Edition → OrderItem
item_of l e = record {
  order_id = 0;
  edition_id = e.edition_id;
  book_id = e.book_id;
  unit_price = e.price;
  recipient = l.recipient;
  gift_message = l.gift_message;
}

module _ (editions : ℕ → Option Edition) where
  -- The loop over the lines: the subtotal so far, and the items still to come.
  unfoldable pub price_lines : ℕ → List PurchaseLine → ℤ → M (ℤ × List OrderItem)
  price_lines user [] subtotal = pure (subtotal, [])
  price_lines user (l ∷ ls) subtotal = do
    e ← lift (or_fail Error.upstream (editions l.edition_id))
    refuse_owned user l.recipient e
    rest ← price_lines user ls (wrap64 (subtotal +ℤ e.price))
    pure (rest.0, item_of l e ∷ rest.1)

-- The coupon's id and the discount.
unfoldable pub apply_coupon : ℕ → Bytes → ℤ → M (Option ℕ × ℤ)
apply_coupon user [] subtotal = pure (none, pos 0)
apply_coupon user (c ∷ cs) subtotal = do
  found ← evaluate_coupon user (c ∷ cs) subtotal
  pure (some found.0.id, found.1)

abbrev pub clashes : ℕ → Option ℕ → Order → Bool
clashes user none o = false
clashes user (some key) o = o.user_id == user && holds o.idempotency_key key

unfoldable pub new_order : ℕ → ℤ → ℤ → ℤ → Option ℕ → Option ℕ → Db → Order
new_order user subtotal discount total coupon key db = record {
  id = db.next_id;
  user_id = user;
  status = OrderStatus.pending;
  subtotal = subtotal;
  discount = discount;
  total = total;
  coupon_id = coupon;
  idempotency_key = key;
  created_at = db.now;
  paid_at = none;
}

abbrev pub is_negative : ℤ → Bool
is_negative a = ltb_ℤ a (pos 0)

-- `CreateOrder`, with the table's checks on the amounts and its unique index on the key.
unfoldable pub insert_order : ℕ → ℤ → ℤ → ℤ → Option ℕ → Option ℕ → Db → Result Order × Db
insert_order user subtotal discount total coupon key db =
    let row = new_order user subtotal discount total coupon key db in
    if any (clashes user key) db.orders
      || (is_negative subtotal || (is_negative discount || is_negative total))
    then (err Error.storage, db)
    else (ok row, record db { next_id = suc db.next_id; orders = row ∷ db.orders })

-- The debit of an order that is not free.
unfoldable pub charge : ℕ → ℤ → ℕ → M (Unit {0})
charge user total order =
    if ltb_ℤ (pos 0) total
    then (debit_locked user total Reason.purchase ReferenceType.order (some order) >>= λ entry.
        pure tt)
    else pure tt

-- `CreateOrderItem`, with the table's CHECK (unit_price_irr >= 0).
unfoldable pub insert_item : ℕ → OrderItem → Db → Result OrderItem × Db
insert_item order item db = if is_negative item.unit_price then (err Error.storage, db) else (
  ok (record item { order_id = order }),
  record db { items = record item { order_id = order } ∷ db.items },
)

abbrev pub owner_of : ℕ → Option ℕ → ℕ
owner_of user none = user
owner_of user (some r) = r

abbrev pub origin_of : ℕ → Option ℕ → Origin
origin_of user recipient = if is_own user recipient then Origin.purchase else Origin.gift

-- The loop that writes the items and grants what was bought.
unfoldable pub deliver : ℕ → ℕ → List OrderItem → M (List OrderItem × List Entitlement)
deliver user order [] = pure ([], [])
deliver user order (i ∷ is) = do
  item ← query (insert_item order i)
  e ←
      grant_entitlement (owner_of user i.recipient) (some i.book_id) (some i.edition_id)
        (origin_of user i.recipient) (some order) none
  rest ← deliver user order is
  pure (item ∷ rest.0, e ∷ rest.1)

-- `CreateCouponRedemption`, for a coupon that was worth something.
unfoldable pub redeem : Option ℕ → ℕ → ℕ → ℤ → M (Unit {0})
redeem none user order discount = pure tt
redeem (some coupon) user order discount =
    if ltb_ℤ (pos 0) discount
    then query (λ db. (
      ok tt,
      record db {
        redemptions =
            record { coupon_id = coupon; user_id = user; order_id = order; discount = discount }
            ∷ db.redemptions;
      },
    ))
    else pure tt

abbrev pub is_pending_order : ℕ → Order → Bool
is_pending_order i o = o.id == i && elim o.status [ OrderStatus.pending ↦ true | _ ↦ false ]

abbrev pub pay : ℕ → Order → Order
pay now o = record o { status = OrderStatus.paid; paid_at = some now }

-- `MarkOrderPaid`: no pending row is an error.
unfoldable pub update_paid : ℕ → Db → Result (Unit {0}) × Db
update_paid i db =
    if any (is_pending_order i) db.orders
    then (ok tt, record db { orders = update_where (is_pending_order i) (pay db.now) db.orders })
    else (err Error.storage, db)

-- The transaction of `Purchase`.
unfoldable pub place_order : ℕ → List OrderItem → ℤ → ℤ → ℤ → Option ℕ → Option ℕ → M PurchaseResult
place_order user items subtotal discount total coupon key = do
  order ← query (insert_order user subtotal discount total coupon key)
  charge user total order.id
  made ← deliver user order.id items
  redeem coupon user order.id discount
  query (update_paid order.id)
  pure (record {
    order = record order { status = OrderStatus.paid };
    items = made.0;
    entitlements = made.1;
    reused = false;
  })

module _ (editions : ℕ → Option Edition) where
  -- What follows when the key has made no order yet.
  unfoldable pub purchase_anew : ℕ → List PurchaseLine → Bytes → Option ℕ → M PurchaseResult
  purchase_anew user lines code key = do
    priced ← price_lines editions user lines (pos 0)
    cut ← apply_coupon user code priced.0
    in_tx (place_order user priced.1 priced.0 cut.1 (wrap64 (priced.0 -ℤ cut.1)) cut.0 key)

  unfoldable pub reuse_or_purchase :
      ℕ → List PurchaseLine → Bytes → Option ℕ → Option (Order × List OrderItem) → M PurchaseResult
  reuse_or_purchase user lines code key none = purchase_anew user lines code key
  reuse_or_purchase user lines code key (some (order, items)) =
      pure (record { order = order; items = items; entitlements = []; reused = true })

  -- `Service.Purchase`
  unfoldable pub purchase : ℕ → List PurchaseLine → Bytes → Option ℕ → M PurchaseResult
  purchase user [] code key = raise Error.empty_purchase
  purchase user (l ∷ ls) code key =
      earlier_order user key >>= reuse_or_purchase user (l ∷ ls) code key
