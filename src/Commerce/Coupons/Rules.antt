-- ===== src/Commerce/Coupons/Rules.antt =====
-- Which coupons `evaluateCoupon` accepts.
use ketapod_website.Base.{ℕ, ◌≡◌, ◌⊎◌, refl, inl, inr, some, arith, Bool-cases}
use ketapod_website.Base.Int.{ℤ, pos, ◌≤ℤ◌, ◌<ℤ◌, ltb_ℤ}
use ketapod_website.Commerce.Model.{Bytes, Coupon}
use ketapod_website.Schema.{Db}
use ketapod_website.Store.{ok, World}
use ketapod_website.Store.Reads.{
  or_fail-ok, Reads, Reads-pure, Reads-then, Reads-reads, Reads-lift, Reads-raise_if,
  Reads-raise_if_last, Reads-ok,
}
use ketapod_website.Commerce.Coupons.{
  discount, normalize_code, usable_coupon, count_redemptions, count_redemptions_for_user,
  check_limit, evaluate_coupon,
}
use ketapod_website.Commerce.Coupons.Discount.{discount_bounds}

-- No limit is set, or it is not reached.
abbrev pub IsBelow : ℤ → ℕ → Type 0
IsBelow limit used = (limit ≤ℤ pos 0) ⊎ (pos used <ℤ limit)

-- The coupon is open under this code, the order reaches its floor, neither limit on redemptions is
-- reached, and the discount is its own, positive and, unless the subtotal is negative, no more
-- than that.
pub record IsRedeemable (user : ℕ) (code : Bytes) (subtotal : ℤ) (db : Db) (r : Coupon × ℤ)
    : Type 0 where
  pub open_now : usable_coupon (normalize_code code) db ≡ some r.0
  pub floor_met : r.0.min_subtotal ≤ℤ subtotal
  pub below_total : IsBelow r.0.max_redemptions (count_redemptions r.0.id db)
  pub below_user : IsBelow r.0.per_user_limit (count_redemptions_for_user r.0.id user db)
  pub amount : r.1 ≡ discount r.0 subtotal
  pub positive : pos 0 <ℤ r.1
  pub covered : (subtotal <ℤ pos 0) ⊎ (r.1 ≤ℤ subtotal)

check_limit-Reads :
    (limit : ℤ) (count : Db → ℕ) (w : World)
    → Reads (λ _. IsBelow limit (count w.db)) w.db (check_limit limit count w)
unfolding check_limit
check_limit-Reads limit count w = elim (Bool-cases (ltb_ℤ (pos 0) limit)) [
  | inl set ↦
      rw set (Reads-reads _ _ _ w λ fs. Reads-raise_if_last _ _ _ _ λ free. inr (ground arith))
  | inr unset ↦ rw unset (Reads-pure _ _ _ _ (inl (ground arith)))
]

covered_or_negative : (c : Coupon) (s : ℤ) → (s <ℤ pos 0) ⊎ (discount c s ≤ℤ s)
covered_or_negative c s = elim (Bool-cases (ltb_ℤ s (pos 0))) [
  | inl negative ↦ inl (ground arith)
  | inr fine ↦ inr (discount_bounds c s (ground arith)).0
]

pub evaluate_coupon-Reads :
    (user : ℕ) (code : Bytes) (subtotal : ℤ) (w : World)
    → Reads (IsRedeemable user code subtotal w.db) w.db (evaluate_coupon user code subtotal w)
unfolding evaluate_coupon
evaluate_coupon-Reads user code subtotal w = Reads-reads _ _ _ w λ fs. Reads-lift _ _ _ _ λ c e.
    Reads-raise_if _ _ _ _ _ λ floor.
      Reads-then _ _ w.db _ _ (check_limit-Reads c.max_redemptions (count_redemptions c.id) _)
        λ _ fs1 total.
          Reads-then _ _ w.db _ _
            (check_limit-Reads c.per_user_limit (count_redemptions_for_user c.id user) _)
            λ _ fs2 own. Reads-raise_if _ _ _ _ _ λ positive. Reads-pure _ _ _ _ (record {
              open_now = or_fail-ok _ _ e;
              floor_met = ground arith;
              below_total = total;
              below_user = own;
              amount = refl;
              positive = ground arith;
              covered = covered_or_negative c subtotal;
            })

-- A code that is accepted was redeemable, and checking it has written nothing.
pub evaluate_coupon_accepts :
    (user : ℕ) (code : Bytes) (subtotal : ℤ) (w w' : World) (c : Coupon) (d : ℤ)
    → evaluate_coupon user code subtotal w ≡ (ok (c, d), w')
    → IsRedeemable user code subtotal w.db (c, d) × (w'.db ≡ w.db)
evaluate_coupon_accepts user code subtotal w w' c d e =
    Reads-ok (IsRedeemable user code subtotal w.db) w.db _
      (evaluate_coupon-Reads user code subtotal w) e
