-- ===== src/Commerce/Purchase/Outcome.antt =====
-- The transaction of a purchase as a whole.
use ketapod_website.Base.{
  ℕ, suc, ◌≡◌, refl, sym, ap, ◌∙◌, true, false, Option, none, some, List, ◌∷◌, map, arith, find,
  holds, update_where, ◌&&◌, ◌==◌, ==_refl,
}
use mathlib.Core.Path.{subst}
use ketapod_website.Base.Int.{ℤ, pos, ◌+ℤ◌, ◌≤ℤ◌}
use ketapod_website.Commerce.Model.{OrderStatus, Order, OrderItem, Entitlement}
use ketapod_website.Schema.{Db}
use ketapod_website.Store.{World}
use ketapod_website.Store.Rules.{Ensures, Ensures-query, Ensures-then, Ensures-pure}
use ketapod_website.Commerce.Wallet.{balance}
use ketapod_website.Commerce.Entitlements.{entitled_to_edition}
use ketapod_website.Commerce.Purchase.{
  PurchaseResult, new_order, is_pending_order, pay, place_order, order_by_id, order_by_key,
}
use ketapod_website.Commerce.Purchase.Placing.{
  AllGiven, KeepsAccess, AllGiven-mono, filed, with_items, Delivered, Billed, SameShop,
  deliver-Delivered, charge-Billed, redeem-SameShop, insert_order-ok, update_paid-ok,
}

-- The row that an order leaves: found by its id, and by its key if it has one.
find_placed :
    (o : Order) (now : ℕ) (rest : List Order)
    → o.status ≡ OrderStatus.pending
    → find (λ x. x.id == o.id) (update_where (is_pending_order o.id) (pay now) (o ∷ rest))
      ≡ some (pay now o)
find_placed o now rest e = ground (arith, ==_refl o.id)

find_keyed :
    (o : Order) (now user key : ℕ) (rest : List Order)
    → o.status ≡ OrderStatus.pending
    → o.user_id ≡ user
    → o.idempotency_key ≡ some key
    → find
        (λ x. x.user_id == user && holds x.idempotency_key key)
        (update_where (is_pending_order o.id) (pay now) (o ∷ rest))
      ≡ some (pay now o)
find_keyed o now user key rest e u k = ground (arith, ==_refl o.id, ==_refl user, ==_refl key)

-- Where a key leads after its order was placed.
abbrev pub KeyLeads : ℕ → Option ℕ → Db → Order → Type 0
KeyLeads user none d o = Unit {0}
KeyLeads user (some key) d o = order_by_key user key d ≡ some o

keyed_row :
    (user : ℕ) (key : Option ℕ) (d : Db) (o : Order) (now : ℕ) (rest : List Order)
    → d.orders ≡ update_where (is_pending_order o.id) (pay now) (o ∷ rest)
    → o.status ≡ OrderStatus.pending
    → o.user_id ≡ user
    → o.idempotency_key ≡ key
    → KeyLeads user key d (pay now o)
unfolding order_by_key
keyed_row user none d o now rest e s u k = tt
keyed_row user (some key) d o now rest e s u k =
    subst (λ os. find (λ x. x.user_id == user && holds x.idempotency_key key) os ≡ some (pay now o))
      (sym e) (find_keyed o now user key rest s u k)

Billed-frame :
    (user : ℕ) (total : ℤ) (db db' d d' : Db)
    → db.ledger ≡ db'.ledger
    → d'.ledger ≡ d.ledger
    → Billed user total db d
    → Billed user total db' d'
Billed-frame user total db db' d d' e f b = record {
  charged =
      subst (λ l. balance user l +ℤ total ≡ balance user db'.ledger) (sym f)
        (subst (λ l. balance user d.ledger +ℤ total ≡ balance user l) e b.charged);
  others = λ v ne. cc (b.others v ne);
}

-- What a purchase has done: the order stands as paid with these amounts, none of which is negative;
-- the buyer is charged the total and nobody else anything; every item is filed under the order, stored
-- in the table of items, to which nothing else is added, and open to who gets it; nobody has lost access.
pub record Bought (user : ℕ) (items : List OrderItem) (subtotal discount total : ℤ) (key : Option ℕ)
    (db : Db) (r : PurchaseResult) (d : Db) : Type 0 where
  pub is_new : r.reused ≡ false
  pub stored : Order
  pub found : order_by_id r.order.id d ≡ some stored
  pub keyed : KeyLeads user key d stored
  pub same_id : stored.id ≡ r.order.id
  pub paid : stored.status ≡ OrderStatus.paid
  pub total_kept : (stored.total ≡ total) × (r.order.total ≡ total)
  pub nonneg : (pos 0 ≤ℤ subtotal) × (pos 0 ≤ℤ discount) × (pos 0 ≤ℤ total)
  pub billed : Billed user total db d
  pub made : r.items ≡ map (filed r.order.id) items
  pub table : d.items ≡ with_items r.items db.items
  pub given : AllGiven user items d
  pub kept : KeepsAccess db d

module _ (user : ℕ) (items : List OrderItem) (subtotal discount total : ℤ)
    (coupon key : Option ℕ) where
  join :
      (d0 d1 d2 d3 d4 d5 : Db) (o : Order) (r : List OrderItem × List Entitlement)
      → (o ≡ new_order user subtotal discount total coupon key d0)
        × (d1 ≡ record d0 { next_id = suc d0.next_id; orders = o ∷ d0.orders })
        × (pos 0 ≤ℤ subtotal)
        × (pos 0 ≤ℤ discount)
        × (pos 0 ≤ℤ total)
      → Billed user total d1 d2 × SameShop d1 d2
      → Delivered user o.id items d2 r d3
      → (d4.ledger ≡ d3.ledger) × SameShop d3 d4
      → d5 ≡ record d4 { orders = update_where (is_pending_order o.id) (pay d4.now) d4.orders }
      → Bought user items subtotal discount total key d0
          (record {
            order = record o { status = OrderStatus.paid };
            items = r.0;
            entitlements = r.1;
            reused = false;
          })
          d5
  unfolding entitled_to_edition order_by_id order_by_key new_order
  join d0 d1 d2 d3 d4 d5 o r h1 h2 h3 h4 h5 =
      let rows : d5.orders ≡ update_where (is_pending_order o.id) (pay d4.now) (o ∷ d0.orders) =
        ap (λ (q : Db). q.orders) h5
        ∙ ap (update_where (is_pending_order o.id) (pay d4.now))
            (h4.1.orders ∙ h3.orders ∙ h2.1.orders ∙ ap (λ (q : Db). q.orders) h1.1) in
      let money : d5.ledger ≡ d2.ledger = ap (λ (q : Db). q.ledger) h5 ∙ h4.0 ∙ h3.ledger in
      let pending : o.status ≡ OrderStatus.pending = ap (λ (q : Order). q.status) h1.0 in
      let last : KeepsAccess d3 d5 =
        λ u e b h. subst (λ q. entitled_to_edition u e b q ≡ true) (sym h5) (h4.1.access u e b h) in
      record {
        is_new = refl;
        stored = pay d4.now o;
        found =
            subst (λ os. find (λ x. x.id == o.id) os ≡ some (pay d4.now o)) (sym rows)
              (find_placed o d4.now d0.orders pending);
        keyed =
            keyed_row user key d5 o d4.now d0.orders rows pending
              (ap (λ (q : Order). q.user_id) h1.0) (ap (λ (q : Order). q.idempotency_key) h1.0);
        same_id = refl;
        paid = refl;
        total_kept = (ap (λ (q : Order). q.total) h1.0, ap (λ (q : Order). q.total) h1.0);
        nonneg = (h1.2, h1.3, h1.4);
        billed = Billed-frame user total d1 d0 d2 d5 (ap (λ (q : Db). q.ledger) h1.1) money h2.0;
        made = h3.made;
        table =
            ap (λ (q : Db). q.items) h5
            ∙ h4.1.items
            ∙ h3.stored
            ∙ ap (λ xs. with_items xs d2.items) (sym h3.made)
            ∙ ap (with_items r.0) (h2.1.items ∙ ap (λ (q : Db). q.items) h1.1);
        given = AllGiven-mono user items d3 d5 last h3.given;
        kept = λ u e b h. last u e b (
            h3.kept u e b
              (h2.1.access u e b (subst (λ q. entitled_to_edition u e b q ≡ true) (sym h1.1) h)));
      }

  pub place_order-Bought :
      (w : World)
      → Ensures
          (Bought user items subtotal discount total key w.db)
          (place_order user items subtotal discount total coupon key w)
  unfolding place_order
  place_order-Bought w =
      Ensures-then _ _ _ _
        (Ensures-query _ _ w
          λ o d e. insert_order-ok user subtotal discount total coupon key w.db d o e)
        λ o w1 h1. Ensures-then _ _ _ _ (charge-Billed user total o.id w1 h1.4) λ _ w2 h2.
          Ensures-then _ _ _ _ (deliver-Delivered user o.id items w2) λ made w3 h3.
            Ensures-then _ _ _ _ (redeem-SameShop coupon user o.id discount w3) λ _ w4 h4.
              Ensures-then _ _ _ _ (Ensures-query _ _ w4 λ t d e. update_paid-ok o.id w4.db d t e)
                λ t w5 h5.
                  Ensures-pure _ _ w5
                    (join w.db w1.db w2.db w3.db w4.db w5.db o made h1 h2 h3 h4 h5)
