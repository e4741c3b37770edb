-- ===== src/Commerce/Coupons.antt =====
-- Coupons: `Coupon.Discount` of backend/internal/commerce/model.go, and `evaluateCoupon` of
-- service.go with the statements of queries/orders.sql. Amounts are int64 and wrap.
pub mod Discount
pub mod Rules
use ketapod_website.Base.{
  ℕ, ◌-◌, Bool, true, false, ◌&&◌, ◌||◌, Option, none, some, List, [], ◌∷◌, map, ltb, leb, ◌==◌,
  if◌then◌else◌, length, find, select,
}
use ketapod_website.Base.Text.{trim_left, trim_right, to_upper}
use ketapod_website.Base.Int.{ℤ, pos, ◌*ℤ◌, ltb_ℤ, leb_ℤ, quot, min_ℤ, wrap64}
use ketapod_website.Commerce.Model.{
  Coupon, CouponKind, percent, fixed, unknown, Redemption, Bytes, bytes_eq,
}
use ketapod_website.Schema.{Error, Db}
use ketapod_website.Store.{M, reads, lift, or_fail, pure, raise_if, ◌>>=◌, ◌>>◌}

abbrev pub cap : Coupon → ℤ → ℤ
cap c d = if ltb_ℤ (pos 0) c.max_discount && ltb_ℤ c.max_discount d then c.max_discount else d

-- The switch on the kind, and what follows it.
unfoldable pub discount_of : CouponKind → Coupon → ℤ → ℤ
discount_of percent c subtotal = min_ℤ (cap c (quot (wrap64 (subtotal *ℤ c.value)) 100)) subtotal
discount_of fixed c subtotal = min_ℤ (cap c c.value) subtotal
discount_of (unknown k) c subtotal = pos 0

-- `Coupon.Discount`
unfoldable pub discount : Coupon → ℤ → ℤ
unfolding discount_of
discount c subtotal = if ltb_ℤ subtotal c.min_subtotal then pos 0 else discount_of c.kind c subtotal

-- strings.ToUpper(strings.TrimSpace(code)), on ASCII.
unfoldable pub normalize_code : Bytes → Bytes
unfolding trim_left trim_right to_upper
normalize_code s = map to_upper (trim_right (trim_left s))

-- A time that has not come, where there is one.
abbrev pub is_open : Option ℕ → ℕ → Bool
is_open none now = true
is_open (some t) now = ltb now t

-- `GetUsableCouponByCode`
unfoldable pub usable_coupon : Bytes → Db → Option Coupon
usable_coupon code db =
    find
      (λ c.
        bytes_eq c.code code
        && (c.is_active && (leb c.starts_at db.now && is_open c.expires_at db.now)))
      db.coupons

-- `CountCouponRedemptions` and `CountCouponRedemptionsForUser`
unfoldable pub count_redemptions : ℕ → Db → ℕ
count_redemptions coupon db = length (select (λ r. r.coupon_id == coupon) db.redemptions)

unfoldable pub count_redemptions_for_user : ℕ → ℕ → Db → ℕ
count_redemptions_for_user coupon user db =
    length (select (λ r. r.coupon_id == coupon && r.user_id == user) db.redemptions)

-- `if limit > 0 { used, err := …; if used >= int64(limit) { … } }`
unfoldable pub check_limit : ℤ → (Db → ℕ) → M (Unit {0})
check_limit limit count =
    if ltb_ℤ (pos 0) limit
    then (reads count >>= λ used. raise_if (leb_ℤ limit (pos used)) Error.coupon_not_usable)
    else pure tt

-- `evaluateCoupon`
unfoldable pub evaluate_coupon : ℕ → Bytes → ℤ → M (Coupon × ℤ)
evaluate_coupon user code subtotal = do
  found ← reads (usable_coupon (normalize_code code))
  coupon ← lift (or_fail Error.coupon_not_found found)
  raise_if (ltb_ℤ subtotal coupon.min_subtotal) Error.coupon_not_usable
  check_limit coupon.max_redemptions (count_redemptions coupon.id)
  check_limit coupon.per_user_limit (count_redemptions_for_user coupon.id user)
  let amount = discount coupon subtotal
  raise_if (leb_ℤ amount (pos 0)) Error.coupon_not_usable
  pure (coupon, amount)

-- `PreviewCoupon`
unfoldable pub preview_coupon : ℕ → Bytes → ℤ → M ℤ
preview_coupon user code subtotal = do found ← evaluate_coupon user code subtotal; pure found.1
