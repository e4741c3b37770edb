-- ===== src/Commerce/Purchase/Placing.antt =====
-- What the transaction of a purchase does to the balances, the entitlements and the orders.
use ketapod_website.Base.{
  ℕ, suc, ◌≡◌, ◌≢◌, refl, sym, ap, ◌∙◌, inl, inr, true, false, Option, none, some, List, [], ◌∷◌,
  map, All, arith, update_where, Bool-cases,
}
use mathlib.Core.Path.{subst}
use ketapod_website.Base.Int.{ℤ, pos, ◌+ℤ◌, ◌≤ℤ◌, ltb_ℤ}
use ketapod_website.Commerce.Model.{Reason, ReferenceType, debit, Order, OrderItem, Entitlement}
use ketapod_website.Schema.{Db}
use ketapod_website.Store.{Result, ok, World}
use ketapod_website.Store.Rules.{Ensures, Ensures-query, Ensures-then, Ensures-pure}
use ketapod_website.Commerce.Wallet.{balance, with_entry}
use ketapod_website.Commerce.Wallet.Laws.{Charged, with_entry-Charged, debit_locked-Ensures}
use ketapod_website.Commerce.Entitlements.{entitled_to_edition, grant_entitlement}
use ketapod_website.Commerce.Entitlements.Laws.{Grants, upsert_entitlement-Grants}
use ketapod_website.Commerce.Purchase.{
  insert_order, new_order, charge, insert_item, owner_of, origin_of, deliver, redeem, update_paid,
  is_pending_order, pay,
}

-- What was bought is open to who gets it.
abbrev pub AllGiven : ℕ → List OrderItem → Db → Type 0
AllGiven user items d =
    All (λ i. entitled_to_edition (owner_of user i.recipient) i.edition_id i.book_id d ≡ true) items

-- Nobody loses access.
abbrev pub KeepsAccess : Db → Db → Type 0
KeepsAccess db d =
    (u e b : ℕ) → entitled_to_edition u e b db ≡ true → entitled_to_edition u e b d ≡ true

pub AllGiven-mono :
    (user : ℕ) (items : List OrderItem) (db d : Db)
    → KeepsAccess db d
    → AllGiven user items db
    → AllGiven user items d
AllGiven-mono user [] db d k h = tt
AllGiven-mono user (i ∷ is) db d k h = (k _ _ _ h.0, AllGiven-mono user is db d k h.1)

abbrev pub filed : ℕ → OrderItem → OrderItem
filed order i = record i { order_id = order }

-- A table of items after these have been added to it, one after the other.
abbrev pub with_items : List OrderItem → List OrderItem → List OrderItem
with_items [] table = table
with_items (i ∷ is) table = with_items is (i ∷ table)

pub record Delivered (user order : ℕ) (items : List OrderItem) (db : Db)
    (r : List OrderItem × List Entitlement) (d : Db) : Type 0 where
  pub made : r.0 ≡ map (filed order) items
  pub stored : d.items ≡ with_items (map (filed order) items) db.items
  pub given : AllGiven user items d
  pub kept : KeepsAccess db d
  pub ledger : d.ledger ≡ db.ledger
  pub orders : d.orders ≡ db.orders

insert_item-ok :
    (order : ℕ) (i x : OrderItem) (db d : Db)
    → insert_item order i db ≡ (ok x, d)
    → (x ≡ filed order i) × (d ≡ record db { items = filed order i ∷ db.items })
unfolding insert_item
insert_item-ok order i x db d h = ground arith

Delivered-cons :
    (user order : ℕ) (i : OrderItem) (is : List OrderItem) (d0 d1 d2 d3 : Db) (x : OrderItem)
    (e : Entitlement) (rest : List OrderItem × List Entitlement)
    → (x ≡ filed order i) × (d1 ≡ record d0 { items = filed order i ∷ d0.items })
    → Grants (owner_of user i.recipient) i.edition_id (origin_of user i.recipient) i.book_id d1 d2
    → Delivered user order is d2 rest d3
    → Delivered user order (i ∷ is) d0 (x ∷ rest.0, e ∷ rest.1) d3
unfolding entitled_to_edition
Delivered-cons user order i is d0 d1 d2 d3 x e rest put grant more = record {
  made = ground (arith, more.made);
  stored =
      more.stored
      ∙ ap (with_items (map (filed order) is)) (grant.items ∙ ap (λ (q : Db). q.items) put.1);
  given = (more.kept _ _ _ grant.given, more.given);
  kept = λ u f b h.
      more.kept u f b
        (grant.kept u f b (subst (λ q. entitled_to_edition u f b q ≡ true) (sym put.1) h));
  ledger = more.ledger ∙ grant.ledger ∙ ap (λ (q : Db). q.ledger) put.1;
  orders = more.orders ∙ grant.orders ∙ ap (λ (q : Db). q.orders) put.1;
}

pub deliver-Delivered :
    (user order : ℕ) (items : List OrderItem) (w : World)
    → Ensures (Delivered user order items w.db) (deliver user order items w)
unfolding deliver grant_entitlement
deliver-Delivered user order [] w = Ensures-pure _ _ w (record {
  made = refl;
  stored = refl;
  given = tt;
  kept = λ u e b h. h;
  ledger = refl;
  orders = refl;
})
deliver-Delivered user order (i ∷ is) w =
    Ensures-then
      (λ x d. (x ≡ filed order i) × (d ≡ record w.db { items = filed order i ∷ w.db.items })) _ _ _
      (Ensures-query _ _ w λ x d e. insert_item-ok order i x w.db d e)
      λ x w1 put.
        Ensures-then
          (λ e d.
            Grants (owner_of user i.recipient) i.edition_id (origin_of user i.recipient) i.book_id
              w1.db d)
          _ _ _
          (Ensures-query _ _ w1 λ e d h.
            upsert_entitlement-Grants (owner_of user i.recipient) i.edition_id
              (origin_of user i.recipient) i.book_id (some order) w1.db d e h)
          λ e w2 grant. Ensures-then _ _ _ _ (deliver-Delivered user order is w2) λ rest w3 more.
            Ensures-pure _ _ w3
              (Delivered-cons user order i is w.db w1.db w2.db w3.db x e rest put grant more)

-- What the debit of an order does: the buyer has that much less, and nobody else is touched.
pub record Billed (user : ℕ) (total : ℤ) (db d : Db) : Type 0 where
  pub charged : balance user d.ledger +ℤ total ≡ balance user db.ledger
  pub others : (v : ℕ) → v ≢ user → balance v d.ledger ≡ balance v db.ledger

-- The tables of orders and of their items are as they were, and nobody has lost access.
pub record SameShop (db d : Db) : Type 0 where
  pub orders : d.orders ≡ db.orders
  pub items : d.items ≡ db.items
  pub access : KeepsAccess db d

charged-SameShop :
    (user : ℕ) (total : ℤ) (order : ℕ) (db : Db)
    → SameShop db
        (with_entry user debit total Reason.purchase ReferenceType.order (some order) db).1
unfolding with_entry entitled_to_edition
charged-SameShop user total order db = record { orders = refl; items = refl; access = λ u e b h. h }

plus_nothing : (b t : ℤ) → pos 0 ≤ℤ t → ltb_ℤ (pos 0) t ≡ false → b +ℤ t ≡ b
unfolding ◌+ℤ◌
plus_nothing b t h e = ground arith

Charged-Billed :
    {user : ℕ} {total : ℤ} {db d : Db} → Charged user total db d → Billed user total db d
Charged-Billed c = record { charged = c.charged; others = c.others }

pub charge-Billed :
    (user : ℕ) (total : ℤ) (order : ℕ) (w : World)
    → pos 0 ≤ℤ total
    → Ensures (λ _ d. Billed user total w.db d × SameShop w.db d) (charge user total order w)
unfolding charge
charge-Billed user total order w nonneg = elim (Bool-cases (ltb_ℤ (pos 0) total)) [
  | inl due ↦ rw due (
      Ensures-then _ _ _ _
        (debit_locked-Ensures user total Reason.purchase ReferenceType.order (some order) w)
        λ e w' h. Ensures-pure _ _ w' (
          subst (λ d. Billed user total w.db d × SameShop w.db d) (sym h.1.2)
            (
              Charged-Billed (with_entry-Charged user total _ _ _ w.db h.1.0 h.0),
              charged-SameShop user total order w.db,
            )))
  | inr free ↦ rw free (
      Ensures-pure _ _ w (
        record { charged = plus_nothing _ total nonneg free; others = λ v ne. refl },
        record { orders = refl; items = refl; access = λ u e b h. h },
      ))
]

-- A coupon's redemption touches neither the ledger, nor the orders and items, nor the entitlements.
pub redeem-SameShop :
    (coupon : Option ℕ) (user order : ℕ) (discount : ℤ) (w : World)
    → Ensures
        (λ _ d. (d.ledger ≡ w.db.ledger) × SameShop w.db d)
        (redeem coupon user order discount w)
unfolding redeem entitled_to_edition
redeem-SameShop none user order discount w =
    Ensures-pure _ _ w (refl, record { orders = refl; items = refl; access = λ u e b h. h })
redeem-SameShop (some c) user order discount w = elim (Bool-cases (ltb_ℤ (pos 0) discount)) [
  | inl worth ↦ rw worth (
      Ensures-query _ _ w λ a d e.
        subst (λ q. (q.ledger ≡ w.db.ledger) × SameShop w.db q)
          (ap (λ (x : Result (Unit {0}) × Db). x.1) e)
          (refl, record { orders = refl; items = refl; access = λ u e' b h. h }))
  | inr nothing ↦
      rw nothing
        (Ensures-pure _ _ w (refl, record { orders = refl; items = refl; access = λ u e b h. h }))
]

pub insert_order-ok :
    (user : ℕ) (subtotal discount total : ℤ) (coupon key : Option ℕ) (db d : Db) (o : Order)
    → insert_order user subtotal discount total coupon key db ≡ (ok o, d)
    → (o ≡ new_order user subtotal discount total coupon key db)
      × (d ≡ record db { next_id = suc db.next_id; orders = o ∷ db.orders })
      × (pos 0 ≤ℤ subtotal)
      × (pos 0 ≤ℤ discount)
      × (pos 0 ≤ℤ total)
unfolding insert_order
insert_order-ok user subtotal discount total coupon key db d o e = ground arith

pub update_paid-ok :
    (i : ℕ) (db d : Db) (t : Unit {0})
    → update_paid i db ≡ (ok t, d)
    → d ≡ record db { orders = update_where (is_pending_order i) (pay db.now) db.orders }
unfolding update_paid
update_paid-ok i db d t e = ground arith
