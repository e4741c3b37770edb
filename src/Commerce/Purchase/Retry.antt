-- ===== src/Commerce/Purchase/Retry.antt =====
-- The idempotency key of `Service.Purchase`: a request that is sent again.
use ketapod_website.Base.{
  ℕ, ◌≡◌, refl, sym, ap, ◌∙◌, ◌==◌, ==_iff, find, find_passes, true, Option, none, some, List, [],
  ◌∷◌, arith,
}
use mathlib.Core.Path.{subst}
use ketapod_website.Commerce.Model.{Order, OrderItem, PurchaseLine, Edition, Bytes}
use ketapod_website.Schema.{Db}
use ketapod_website.Store.{ok, World, reads, query, lift}
use ketapod_website.Store.Rules.{Ensures, Ensures-ok, Ensures-pure, Ensures-map, Ensures-err}
use ketapod_website.Store.Reads.{Reads, Reads-pure, Reads-then, Reads-map, Ensures-Reads}
use ketapod_website.Commerce.Purchase.{
  PurchaseResult, purchase, earlier_order, load_order, get_order, reuse_or_purchase, order_by_id,
  items_of,
}
use ketapod_website.Commerce.Purchase.Pricing.{IsEarlier, Leads, earlier_order-Reads}
use ketapod_website.Commerce.Purchase.Claims.{IsPurchase, purchase_anew-Ensures}

-- The key leads to the order of this result.
abbrev LeadsTo : ℕ → ℕ → PurchaseResult → Db → Type 0
LeadsTo user key r d = (o : Order) × Leads user key d o × (o.id ≡ r.order.id)

Bought-LeadsTo :
    (editions : ℕ → Option Edition) (user key : ℕ) (lines : List PurchaseLine) (code : Bytes)
    (db : Db) (r : PurchaseResult) (d : Db)
    → IsPurchase editions user lines code (some key) db r d
    → LeadsTo user key r d
Bought-LeadsTo editions user key lines code db r d p =
    let b = p.bought in
    (
      b.stored,
      record {
        by_key = b.stored;
        keyed = b.keyed;
        loaded = subst (λ i. order_by_id i d ≡ some b.stored) (sym b.same_id) b.found;
      },
      b.same_id,
    )

module _ (editions : ℕ → Option Edition) (user : ℕ) (lines : List PurchaseLine) (code : Bytes)
    (key : ℕ) where
  reuse-LeadsTo :
      (o : Option (Order × List OrderItem)) (w : World)
      → IsEarlier user (some key) w.db o
      → Ensures (LeadsTo user key) (reuse_or_purchase editions user lines code (some key) o w)
  unfolding reuse_or_purchase
  reuse-LeadsTo none w e =
      Ensures-map _ _ _ (purchase_anew-Ensures editions user lines code (some key) w)
        λ r d p. Bought-LeadsTo editions user key lines code w.db r d p
  reuse-LeadsTo (some (o, items)) w e = Ensures-pure _ _ w (o, e, refl)

  Leads-unique : (db : Db) (o o' : Order) → Leads user key db o → Leads user key db o' → o ≡ o'
  Leads-unique db o o' a b =
      let e : a.by_key ≡ b.by_key = ground (arith, a.keyed, b.keyed) in
      let found : order_by_id a.by_key.id db ≡ some o' =
        subst (λ (x : Order). order_by_id x.id db ≡ some o') (sym e) b.loaded in
      ground (arith, a.loaded, found)

  reuse-Reads :
      (o : Option (Order × List OrderItem)) (first : Order) (w : World)
      → Leads user key w.db first
      → IsEarlier user (some key) w.db o
      → Reads
          (λ r. (r.reused ≡ true) × (r.order ≡ first))
          w.db
          (reuse_or_purchase editions user lines code (some key) o w)
  unfolding reuse_or_purchase
  reuse-Reads none first w a e = absurd (ground (arith, a.keyed))
  reuse-Reads (some (o, items)) first w a e =
      Reads-pure _ _ _ _ (refl, Leads-unique w.db o first e a)

purchase-LeadsTo :
    (editions : ℕ → Option Edition) (user key : ℕ) (lines : List PurchaseLine) (code : Bytes)
    (w : World)
    → Ensures (LeadsTo user key) (purchase editions user lines code (some key) w)
unfolding purchase
purchase-LeadsTo editions user key [] code w = Ensures-err _ _ w
purchase-LeadsTo editions user key (l ∷ ls) code w =
    Ensures-Reads _ _ w.db _ (reuse_or_purchase editions user (l ∷ ls) code (some key))
      (earlier_order-Reads user (some key) w)
      λ o fs e.
        reuse-LeadsTo editions user (l ∷ ls) code key o (record { db = w.db; faults = fs }) e

purchase-Reads :
    (editions : ℕ → Option Edition) (user key : ℕ) (l : PurchaseLine) (ls : List PurchaseLine)
    (code : Bytes) (first : Order) (w : World)
    → Leads user key w.db first
    → Reads
        (λ r. (r.reused ≡ true) × (r.order ≡ first))
        w.db
        (purchase editions user (l ∷ ls) code (some key) w)
unfolding purchase
purchase-Reads editions user key l ls code first w a =
    Reads-then _ _ w.db _ (reuse_or_purchase editions user (l ∷ ls) code (some key))
      (earlier_order-Reads user (some key) w)
      λ o fs e.
        reuse-Reads editions user (l ∷ ls) code key o first (record { db = w.db; faults = fs }) a e

-- The order that a key leads to is stored under its own id.
loaded_by_id :
    (user key : ℕ) (d : Db) (o : Order) → Leads user key d o → order_by_id o.id d ≡ some o
unfolding order_by_id
loaded_by_id user key d o leads =
    let same : o.id ≡ leads.by_key.id =
      (==_iff o.id leads.by_key.id).0
        (find_passes (λ (x : Order). x.id == leads.by_key.id) d.orders leads.loaded) in
    subst (λ i. find (λ (x : Order). x.id == i) d.orders ≡ some o) (sym same) leads.loaded

-- What a repeat returns: the order that the key leads to, with its items.
abbrev pub repeat_of : Order → Db → PurchaseResult
repeat_of o d = record { order = o; items = items_of o.id d; entitlements = []; reused = true }

-- Where no statement fails, the key is followed.
repeat_run :
    (editions : ℕ → Option Edition) (user key : ℕ) (l : PurchaseLine) (ls : List PurchaseLine)
    (code : Bytes) (o : Order) (d : Db)
    → Leads user key d o
    → purchase editions user (l ∷ ls) code (some key) (record { db = d; faults = [] })
      ≡ (ok (repeat_of o d), record { db = d; faults = [] })
unfolding purchase earlier_order reuse_or_purchase load_order get_order reads query lift
repeat_run editions user key l ls code o d leads = rw (leads.keyed, leads.loaded) refl

-- After a purchase with a key has succeeded, a further one of the same user with the same key at
-- the tables that it left, for whatever lines but none and at whatever prices, changes nothing;
-- if it succeeds it says that it is a repeat, and returns the order of the first. It does succeed if
-- no statement fails, with the stored order of the first and the items that are stored for it.
pub purchase_retry :
    (editions editions' : ℕ → Option Edition) (user key : ℕ) (lines ls : List PurchaseLine)
    (l : PurchaseLine) (code code' : Bytes) (w w' w2 : World) (r : PurchaseResult)
    → purchase editions user lines code (some key) w ≡ (ok r, w')
    → w2.db ≡ w'.db
    → Reads
        (λ r2. (r2.reused ≡ true) × (r2.order.id ≡ r.order.id))
        w2.db
        (purchase editions' user (l ∷ ls) code' (some key) w2)
      × ((o : Order) × (o.id ≡ r.order.id)
          × (order_by_id o.id w2.db ≡ some o)
          × (purchase editions' user (l ∷ ls) code' (some key) (record { db = w2.db; faults = [] })
              ≡ (
                ok (record {
                  order = o;
                  items = items_of o.id w2.db;
                  entitlements = [];
                  reused = true;
                }),
                record { db = w2.db; faults = [] },
              )))
purchase_retry editions editions' user key lines ls l code code' w w' w2 r h e =
    let (o, first, same) = Ensures-ok _ _ (purchase-LeadsTo editions user key lines code w) h in
    let leads : Leads user key w2.db o = subst (λ d. Leads user key d o) (sym e) first in
    (
      Reads-map _ _ w2.db _ (purchase-Reads editions' user key l ls code' o w2 leads)
          (λ r2 p. (p.0, ap (λ (q : Order). q.id) p.1 ∙ same)),
      (
        o,
        same,
        loaded_by_id user key w2.db o leads,
        repeat_run editions' user key l ls code' o w2.db leads,
      ),
    )
