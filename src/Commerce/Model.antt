-- ===== src/Commerce/Model.antt =====
-- The records of backend/internal/commerce/model.go and the tables that hold them. Identifiers are
-- uuids, written as numbers, and `none` is the empty one; texts that the code only compares are
-- numbers too; times are seconds.
use ketapod_website.Base.{ℕ, Option, Bool}
use ketapod_website.Base.Int.{ℤ}
pub use ketapod_website.Base.Text.{Bytes, bytes_eq}

pub data EntryType : Type 0 where
  credit debit : EntryType

pub data Reason : Type 0 where
  top_up purchase subscription refund gift_card promotional_grant : Reason

pub data ReferenceType : Type 0 where
  payment order subscription refund : ReferenceType
  other : ℕ → ReferenceType

pub record LedgerEntry : Type 0 where
  pub id : ℕ
  pub user_id : ℕ
  pub entry_type : EntryType
  pub amount : ℤ
  pub reason : Reason
  pub reference_type : ReferenceType
  pub reference_id : Option ℕ

pub data Origin : Type 0 where
  purchase gift subscription org : Origin

pub record Entitlement : Type 0 where
  pub id : ℕ
  pub user_id : ℕ
  pub book_id : Option ℕ
  pub edition_id : Option ℕ
  pub origin : Origin
  pub source_id : Option ℕ
  pub expires_at : Option ℕ
  pub revoked_at : Option ℕ

pub data OrderStatus : Type 0 where
  pending paid failed refunded canceled : OrderStatus

pub record Order : Type 0 where
  pub id : ℕ
  pub user_id : ℕ
  pub status : OrderStatus
  pub subtotal : ℤ
  pub discount : ℤ
  pub total : ℤ
  pub coupon_id : Option ℕ
  pub idempotency_key : Option ℕ
  pub created_at : ℕ
  pub paid_at : Option ℕ

pub record OrderItem : Type 0 where
  pub order_id : ℕ
  pub edition_id : ℕ
  pub book_id : ℕ
  pub unit_price : ℤ
  pub recipient : Option ℕ
  pub gift_message : Option ℕ

pub record PurchaseLine : Type 0 where
  pub edition_id : ℕ
  pub recipient : Option ℕ
  pub gift_message : Option ℕ

pub data PaymentStatus : Type 0 where
  pending succeeded failed canceled : PaymentStatus

pub record Payment : Type 0 where
  pub id : ℕ
  pub user_id : ℕ
  pub provider : ℕ
  pub amount : ℤ
  pub status : PaymentStatus
  pub authority : Option ℕ
  pub reference_code : Option ℕ
  pub failure_reason : Option ℕ
  pub ledger_entry_id : Option ℕ
  pub settled_at : Option ℕ

pub data CouponKind : Type 0 where
  percent fixed : CouponKind
  unknown : ℕ → CouponKind

pub record Coupon : Type 0 where
  pub id : ℕ
  pub code : Bytes
  pub kind : CouponKind
  pub value : ℤ
  pub max_discount : ℤ
  pub min_subtotal : ℤ
  pub max_redemptions : ℤ
  pub per_user_limit : ℤ
  pub starts_at : ℕ
  pub expires_at : Option ℕ
  pub is_active : Bool

pub record Redemption : Type 0 where
  pub coupon_id : ℕ
  pub user_id : ℕ
  pub order_id : ℕ
  pub discount : ℤ

pub data RefundStatus : Type 0 where
  requested approved rejected settled : RefundStatus

pub record Refund : Type 0 where
  pub id : ℕ
  pub order_id : ℕ
  pub user_id : ℕ
  pub amount : ℤ
  pub reason : Option ℕ
  pub status : RefundStatus
  pub resolved_by : Option ℕ

-- A plan; the code is a text that is only compared.
pub record SubscriptionPlan : Type 0 where
  pub id : ℕ
  pub code : ℕ
  pub price : ℤ
  pub period_days : ℕ
  pub monthly_hour_cap : ℕ
  pub is_active : Bool

pub data SubscriptionStatus : Type 0 where
  active expired canceled : SubscriptionStatus

-- The hours consumed are counted in millionths, the scale at which they are stored.
pub record Subscription : Type 0 where
  pub id : ℕ
  pub user_id : ℕ
  pub plan_id : ℕ
  pub status : SubscriptionStatus
  pub auto_renew : Bool
  pub expires_at : ℕ
  pub hours_consumed : ℕ
  pub last_attempt : Option ℕ
  pub failures : ℕ

-- The slice of a catalog edition that commerce reads.
pub record Edition : Type 0 where
  pub edition_id : ℕ
  pub book_id : ℕ
  pub price : ℤ
  pub duration : ℤ
