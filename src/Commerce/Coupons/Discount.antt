-- ===== src/Commerce/Coupons/Discount.antt =====
-- The arithmetic of a discount.
use ketapod_website.Base.{ℕ, ◌*◌, ◌/◌, ◌≤◌, ◌<◌, ◌≡◌, ◌⊎◌, ap, arith}
use ketapod_website.Base.Int.{
  mul_pos, ℤ, pos, ◌≤ℤ◌, quot, min_ℤ, min_ℤ-le_right, min_ℤ-le_left, wrap64_fits, int64_half,
}
use ketapod_website.Commerce.Model.{Coupon, CouponKind, percent, fixed, unknown}
use ketapod_website.Commerce.Coupons.{cap, discount_of, discount}

cap_bound : (c : Coupon) (d : ℤ) → (c.max_discount ≤ℤ pos 0) ⊎ (cap c d ≤ℤ c.max_discount)
cap_bound c d = ground arith

discount_of_bounds :
    (k : CouponKind) (c : Coupon) (s : ℤ)
    → pos 0 ≤ℤ s
    → (discount_of k c s ≤ℤ s) × ((c.max_discount ≤ℤ pos 0) ⊎ (discount_of k c s ≤ℤ c.max_discount))
unfolding discount_of
discount_of_bounds percent c s h = grind (arith, min_ℤ-le_right, min_ℤ-le_left, cap_bound)
discount_of_bounds fixed c s h = grind (arith, min_ℤ-le_right, min_ℤ-le_left, cap_bound)
discount_of_bounds (unknown k) c s h = ground arith

-- A discount on a subtotal that is not negative never exceeds it, whatever the coupon says and
-- also where the product overflows; nor does it exceed a positive cap.
pub discount_bounds :
    (c : Coupon) (s : ℤ)
    → pos 0 ≤ℤ s
    → (discount c s ≤ℤ s) × ((c.max_discount ≤ℤ pos 0) ⊎ (discount c s ≤ℤ c.max_discount))
unfolding discount
discount_bounds c s h = ground (arith, discount_of_bounds c.kind c s h)

mul-le-hundred : (n m : ℕ) → m ≤ 100 → n * m ≤ n * 100
mul-le-hundred n m h = grind arith

min_quot : (p n : ℕ) → p ≤ n * 100 → min_ℤ (quot (pos p) 100) (pos n) ≡ pos (p / 100)
unfolding min_ℤ quot
min_quot p n h = ground arith

cap_none : (c : Coupon) (d : ℤ) → c.max_discount ≤ℤ pos 0 → cap c d ≡ d
cap_none c d h = ground arith

percent_of_pos :
    (c : Coupon) (n m : ℕ)
    → c.value ≡ pos m
    → c.max_discount ≤ℤ pos 0
    → m ≤ 100
    → n * m < int64_half
    → discount_of percent c (pos n) ≡ pos (n * m / 100)
unfolding discount_of
percent_of_pos c n m e uncapped h fits =
    rw (e, mul_pos n m, wrap64_fits (pos (n * m)) (omega arith), cap_none c _ uncapped)
      (min_quot (n * m) n (mul-le-hundred n m h))

-- An uncapped coupon of m percent, at most 100, takes n * m / 100, rounded down, off a subtotal n
-- that reaches the coupon's floor, if the product fits an int64.
pub percent_rounds_down :
    (c : Coupon) (n m : ℕ)
    → c.kind ≡ percent
    → c.value ≡ pos m
    → c.min_subtotal ≤ℤ pos n
    → c.max_discount ≤ℤ pos 0
    → m ≤ 100
    → n * m < int64_half
    → discount c (pos n) ≡ pos (n * m / 100)
unfolding discount
percent_rounds_down c n m k e floor uncapped h fits =
    ground (arith, percent_of_pos c n m e uncapped h fits, ap (λ x. discount_of x c (pos n)) k)
