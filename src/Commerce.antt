-- ===== src/Commerce.antt =====
-- Wallet, top-ups, coupons, purchases and refunds: backend/internal/commerce. Each child is about
-- one part of commerce/service.go and service_access.go; `Model` and `Store` are shared by them.
pub mod Model
pub mod Wallet
pub mod Coupons
pub mod Payments
pub mod Entitlements
pub mod Purchase
pub mod Tests
pub mod Refunds
pub mod Subscriptions
