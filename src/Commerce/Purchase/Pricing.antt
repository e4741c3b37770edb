-- ===== src/Commerce/Purchase/Pricing.antt =====
-- What pricing the lines gives: items that quote the catalog, their sum, and no write.
use ketapod_website.Base.{
  ℕ, ◌≡◌, ◌⊎◌, refl, inl, inr, false, Option, none, some, List, [], ◌∷◌, Bool-cases,
}
use ketapod_website.Base.Int.{ℤ, pos, ◌+ℤ◌, wrap64}
use ketapod_website.Commerce.Model.{Coupon, Order, OrderItem, PurchaseLine, Edition, Bytes}
use ketapod_website.Schema.{Db}
use ketapod_website.Store.{World}
use ketapod_website.Store.Reads.{
  or_fail-ok, Reads, Reads-pure, Reads-then, Reads-reads, Reads-lift, Reads-raise_if_last,
}
use ketapod_website.Commerce.Entitlements.{entitled_to_edition}
use ketapod_website.Commerce.Coupons.Rules.{evaluate_coupon-Reads, IsRedeemable}
use ketapod_website.Commerce.Purchase.{
  price_lines, refuse_owned, is_own, apply_coupon, item_of, earlier_order, get_order, load_order,
  order_by_key, order_by_id,
}

-- What the buyer may order: a gift, or an edition that the buyer has no access to.
abbrev pub IsNew : ℕ → Db → Option ℕ → Edition → Type 0
IsNew user db recipient e =
    (is_own user recipient ≡ false) ⊎ (entitled_to_edition user e.edition_id e.book_id db ≡ false)

-- The items of an order, line by line as the catalog has them. A line for the buyer is for an
-- edition that the buyer has no access to.
abbrev pub Quotes : (ℕ → Option Edition) → ℕ → Db → List PurchaseLine → List OrderItem → Type 0
Quotes editions user db [] [] = Unit {0}
Quotes editions user db [] (i ∷ is) = ⊥
Quotes editions user db (l ∷ ls) [] = ⊥
Quotes editions user db (l ∷ ls) (i ∷ is) =
    ((e : Edition) × (editions l.edition_id ≡ some e)
      × (i ≡ item_of l e)
      × IsNew user db l.recipient e)
    × Quotes editions user db ls is

-- The sum of the prices as int64 addition gives it, from a running subtotal.
abbrev pub sum_from : ℤ → List OrderItem → ℤ
sum_from a [] = a
sum_from a (i ∷ is) = sum_from (wrap64 (a +ℤ i.unit_price)) is

refuse_owned-Reads :
    (user : ℕ) (recipient : Option ℕ) (e : Edition) (w : World)
    → Reads (λ _. IsNew user w.db recipient e) w.db (refuse_owned user recipient e w)
unfolding refuse_owned
refuse_owned-Reads user recipient e w = elim (Bool-cases (is_own user recipient)) [
  | inl own ↦ rw own (Reads-reads _ _ _ w λ fs. Reads-raise_if_last _ _ _ _ λ free. inr free)
  | inr other ↦ rw other (Reads-pure _ _ _ _ (inl refl))
]

abbrev pub IsPriced :
    (ℕ → Option Edition) → ℕ → Db → List PurchaseLine → ℤ → ℤ × List OrderItem → Type 0
IsPriced editions user db lines start r =
    Quotes editions user db lines r.1 × (r.0 ≡ sum_from start r.1)

pub price_lines-Reads :
    (editions : ℕ → Option Edition) (user : ℕ) (lines : List PurchaseLine) (start : ℤ) (w : World)
    → Reads (IsPriced editions user w.db lines start) w.db (price_lines editions user lines start w)
unfolding price_lines
price_lines-Reads editions user [] start w = Reads-pure _ _ _ _ (tt, refl)
price_lines-Reads editions user (l ∷ ls) start w = Reads-lift _ _ _ w λ e found.
    Reads-then _ _ w.db _ _ (refuse_owned-Reads user l.recipient e w) λ _ fs new.
      Reads-then _ _ w.db _ _ (price_lines-Reads editions user ls (wrap64 (start +ℤ e.price)) _)
        λ rest fs' r. Reads-pure _ _ _ _ (((e, or_fail-ok _ _ found, refl, new), r.0), r.1)

-- The discount is none, or that of a coupon that the buyer may redeem.
abbrev pub IsCut : ℕ → Bytes → ℤ → Db → Option ℕ × ℤ → Type 0
IsCut user code subtotal db r =
    ((r.0 ≡ none) × (r.1 ≡ pos 0))
    ⊎ ((c : Coupon) × (r.0 ≡ some c.id) × IsRedeemable user code subtotal db (c, r.1))

pub apply_coupon-Reads :
    (user : ℕ) (code : Bytes) (subtotal : ℤ) (w : World)
    → Reads (IsCut user code subtotal w.db) w.db (apply_coupon user code subtotal w)
unfolding apply_coupon
apply_coupon-Reads user [] subtotal w = Reads-pure _ _ _ _ (inl (refl, refl))
apply_coupon-Reads user (c ∷ cs) subtotal w =
    Reads-then _ _ w.db _ _ (evaluate_coupon-Reads user (c ∷ cs) subtotal w)
      λ found fs r. Reads-pure _ _ _ _ (inr (found.0, refl, r))

-- The order that a key leads to, in two steps.
pub record Leads (user key : ℕ) (db : Db) (found : Order) : Type 0 where
  pub by_key : Order
  pub keyed : order_by_key user key db ≡ some by_key
  pub loaded : order_by_id by_key.id db ≡ some found

get_order-Reads :
    (i : ℕ) (w : World) → Reads (λ r. order_by_id i w.db ≡ some r.0) w.db (get_order i w)
unfolding get_order
get_order-Reads i w =
    Reads-reads _ _ _ w λ fs.
      Reads-lift _ _ _ _ λ o e. Reads-reads _ _ _ _ λ fs'. Reads-pure _ _ _ _ (or_fail-ok _ _ e)

-- What looking for an earlier order tells.
abbrev pub IsEarlier : ℕ → Option ℕ → Db → Option (Order × List OrderItem) → Type 0
IsEarlier user none db r = r ≡ none
IsEarlier user (some key) db none = order_by_key user key db ≡ none
IsEarlier user (some key) db (some (o, items)) = Leads user key db o

load_order-Reads :
    (user key : ℕ) (found : Option Order) (w : World)
    → order_by_key user key w.db ≡ found
    → Reads (IsEarlier user (some key) w.db) w.db (load_order found w)
unfolding load_order
load_order-Reads user key none w e = Reads-pure _ _ _ _ e
load_order-Reads user key (some o) w e =
    Reads-then _ _ w.db _ _ (get_order-Reads o.id w)
      λ full fs loaded. Reads-pure _ _ _ _ (record { by_key = o; keyed = e; loaded = loaded })

pub earlier_order-Reads :
    (user : ℕ) (key : Option ℕ) (w : World)
    → Reads (IsEarlier user key w.db) w.db (earlier_order user key w)
unfolding earlier_order
earlier_order-Reads user none w = Reads-pure _ _ _ _ refl
earlier_order-Reads user (some key) w = Reads-reads _ _ _ w λ fs. load_order-Reads user key _ _ refl
