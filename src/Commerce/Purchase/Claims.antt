-- ===== src/Commerce/Purchase/Claims.antt =====
-- What `Service.Purchase` does as a whole.
use ketapod_website.Base.{
  ℕ, ◌≡◌, ◌⊎◌, refl, sym, inl, inr, true, Option, none, some, List, [], ◌∷◌, arith,
}
use mathlib.Core.Path.{subst}
use ketapod_website.Base.Int.{
  ℤ, pos, ◌+ℤ◌, ◌-ℤ◌, ◌≤ℤ◌, wrap64, Int64, wrap64-Int64, wrap64_fits, int_laws,
}
use ketapod_website.Commerce.Model.{Order, OrderItem, PurchaseLine, Edition, Bytes}
use ketapod_website.Schema.{Error, Db}
use ketapod_website.Store.{err, World}
use ketapod_website.Store.Rules.{
  Ensures, IsAtomic, Ensures-err, Ensures-pure, Ensures-map, IsAtomic-err, in_tx-IsAtomic,
  in_tx-Ensures,
}
use ketapod_website.Store.Reads.{Ensures-Reads, IsAtomic-Reads}
use ketapod_website.Commerce.Purchase.{PurchaseResult, purchase, purchase_anew, reuse_or_purchase}
use ketapod_website.Commerce.Purchase.Pricing.{
  Quotes, sum_from, IsCut, price_lines-Reads, apply_coupon-Reads, earlier_order-Reads,
}
use ketapod_website.Commerce.Purchase.Outcome.{Bought, place_order-Bought}

-- A purchase that was not a repeat: the items quote the catalog line by line, the subtotal is the
-- sum of their prices, the coupon was redeemable, and the transaction did what `Bought` says with
-- the exact difference for its total.
pub record IsPurchase (editions : ℕ → Option Edition) (user : ℕ) (lines : List PurchaseLine)
    (code : Bytes) (key : Option ℕ) (db : Db) (r : PurchaseResult) (d : Db) : Type 0 where
  pub items : List OrderItem
  pub subtotal : ℤ
  pub coupon : Option ℕ
  pub discount : ℤ
  pub total : ℤ
  pub quoted : Quotes editions user db lines items
  pub summed : subtotal ≡ sum_from (pos 0) items
  pub cut : IsCut user code subtotal db (coupon, discount)
  pub exact : total ≡ subtotal -ℤ discount
  pub at_most : total ≤ℤ subtotal
  pub bought : Bought user items subtotal discount total key db r d

sum_from-Int64 : (a : ℤ) (items : List OrderItem) → Int64 a → Int64 (sum_from a items)
sum_from-Int64 a [] h = h
sum_from-Int64 a (i ∷ is) h =
    sum_from-Int64 (wrap64 (a +ℤ i.unit_price)) is (wrap64-Int64 (a +ℤ i.unit_price))

difference-Int64 : (s d : ℤ) → Int64 s → pos 0 ≤ℤ s → pos 0 ≤ℤ d → d ≤ℤ s → Int64 (s -ℤ d)
unfolding ◌-ℤ◌
difference-Int64 s d h p q le = ground arith

difference-le : (s d : ℤ) → pos 0 ≤ℤ d → s -ℤ d ≤ℤ s
difference-le s d h = omega int_laws

difference_fits : (s d : ℤ) → Int64 s → pos 0 ≤ℤ s → pos 0 ≤ℤ d → d ≤ℤ s → wrap64 (s -ℤ d) ≡ s -ℤ d
difference_fits s d h p q le = wrap64_fits (s -ℤ d) (difference-Int64 s d h p q le)

cut_covered :
    (user : ℕ) (code : Bytes) (s : ℤ) (db : Db) (c : Option ℕ) (d : ℤ)
    → pos 0 ≤ℤ s
    → IsCut user code s db (c, d)
    → d ≤ℤ s
cut_covered user code s db c d h (inl (e, e')) = ground arith
cut_covered user code s db c d h (inr (coupon, e, r)) = elim r.covered [
  | inl bad ↦ absurd (omega arith)
  | inr le ↦ le
]

module _ (editions : ℕ → Option Edition) (user : ℕ) (lines : List PurchaseLine) (code : Bytes)
    (key : Option ℕ) where
  assemble :
      (items : List OrderItem) (s : ℤ) (c : Option ℕ) (d : ℤ) (db db' : Db) (r : PurchaseResult)
      → Quotes editions user db lines items
      → s ≡ sum_from (pos 0) items
      → IsCut user code s db (c, d)
      → Bought user items s d (wrap64 (s -ℤ d)) key db r db'
      → IsPurchase editions user lines code key db r db'
  assemble items s c d db db' r q e cut b =
      let le : d ≤ℤ s = cut_covered user code s db c d b.nonneg.0 cut in
      let fits : Int64 s = subst Int64 (sym e) (sum_from-Int64 (pos 0) items (omega arith)) in
      let exact : wrap64 (s -ℤ d) ≡ s -ℤ d = difference_fits s d fits b.nonneg.0 b.nonneg.1 le in
      record {
        items = items;
        subtotal = s;
        coupon = c;
        discount = d;
        total = wrap64 (s -ℤ d);
        quoted = q;
        summed = e;
        cut = cut;
        exact = exact;
        at_most = subst (λ t. t ≤ℤ s) (sym exact) (difference-le s d b.nonneg.1);
        bought = b;
      }

  pub purchase_anew-Ensures :
      (w : World)
      → Ensures
          (λ r d. IsPurchase editions user lines code key w.db r d)
          (purchase_anew editions user lines code key w)
  unfolding purchase_anew
  purchase_anew-Ensures w =
      Ensures-Reads _ _ w.db _ _ (price_lines-Reads editions user lines (pos 0) w) λ priced fs p.
        Ensures-Reads _ _ w.db _ _ (apply_coupon-Reads user code priced.0 _) λ cut fs' c.
          in_tx-Ensures _ _ _ (
            Ensures-map _ _ _
              (place_order-Bought user priced.1 priced.0 cut.1 (wrap64 (priced.0 -ℤ cut.1)) cut.0
                key _)
              λ r d b. assemble priced.1 priced.0 cut.0 cut.1 w.db d r p.0 p.1 c b)

  purchase_anew-IsAtomic :
      (w : World) → IsAtomic w.db (purchase_anew editions user lines code key w)
  unfolding purchase_anew
  purchase_anew-IsAtomic w =
      IsAtomic-Reads _ w.db _ _ (price_lines-Reads editions user lines (pos 0) w) λ priced fs p.
        IsAtomic-Reads _ w.db _ _ (apply_coupon-Reads user code priced.0 _)
          λ cut fs' c. in_tx-IsAtomic _ _

  reuse-IsAtomic :
      (o : Option (Order × List OrderItem)) (w : World)
      → IsAtomic w.db (reuse_or_purchase editions user lines code key o w)
  unfolding reuse_or_purchase IsAtomic
  reuse-IsAtomic none w = purchase_anew-IsAtomic w
  reuse-IsAtomic (some (o, items)) w = tt

  reuse-Ensures :
      (o : Option (Order × List OrderItem)) (w : World)
      → Ensures
          (λ r d. (r.reused ≡ true) ⊎ IsPurchase editions user lines code key w.db r d)
          (reuse_or_purchase editions user lines code key o w)
  unfolding reuse_or_purchase
  reuse-Ensures none w = Ensures-map _ _ _ (purchase_anew-Ensures w) λ r d h. inr h
  reuse-Ensures (some (o, items)) w = Ensures-pure _ _ w (inl refl)

purchase-IsAtomic :
    (editions : ℕ → Option Edition) (user : ℕ) (lines : List PurchaseLine) (code : Bytes)
    (key : Option ℕ) (w : World)
    → IsAtomic w.db (purchase editions user lines code key w)
unfolding purchase IsAtomic
purchase-IsAtomic editions user [] code key w = refl
purchase-IsAtomic editions user (l ∷ ls) code key w =
    IsAtomic-Reads _ w.db _ (reuse_or_purchase editions user (l ∷ ls) code key)
      (earlier_order-Reads user key w)
      λ o fs e. reuse-IsAtomic editions user (l ∷ ls) code key o (record { db = w.db; faults = fs })

pub purchase-Ensures :
    (editions : ℕ → Option Edition) (user : ℕ) (lines : List PurchaseLine) (code : Bytes)
    (key : Option ℕ) (w : World)
    → Ensures
        (λ r d. (r.reused ≡ true) ⊎ IsPurchase editions user lines code key w.db r d)
        (purchase editions user lines code key w)
unfolding purchase
purchase-Ensures editions user [] code key w = Ensures-err _ Error.empty_purchase w
purchase-Ensures editions user (l ∷ ls) code key w =
    Ensures-Reads _ _ w.db _ (reuse_or_purchase editions user (l ∷ ls) code key)
      (earlier_order-Reads user key w)
      λ o fs e. reuse-Ensures editions user (l ∷ ls) code key o (record { db = w.db; faults = fs })

-- A purchase that fails, for whatever reason and at whichever statement, has changed nothing.
pub purchase_is_atomic :
    (editions : ℕ → Option Edition) (user : ℕ) (lines : List PurchaseLine) (code : Bytes)
    (key : Option ℕ) (w w' : World) (e : Error)
    → purchase editions user lines code key w ≡ (err e, w')
    → w'.db ≡ w.db
purchase_is_atomic editions user lines code key w w' e h =
    IsAtomic-err w.db _ (purchase-IsAtomic editions user lines code key w) h
