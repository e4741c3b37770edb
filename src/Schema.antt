-- ===== src/Schema.antt =====
-- The database of the backend: the tables that the modelled modules keep, and the errors that
-- their operations return.
use ketapod_website.Base.{ℕ, List}
use ketapod_website.Catalog.Model.{Author, Book, RightsGrant, Voice, NarratedRow, Chapter}
use ketapod_website.Commerce.Model.{
  LedgerEntry, Payment, Order, OrderItem, Coupon, Redemption, Entitlement, Refund, SubscriptionPlan,
  Subscription,
}
use ketapod_website.Identity.Model.{User, RoleGrant, Device, OtpCode, RefreshToken}
use ketapod_website.Ingest.Model.{AiBook, AiDocument, EditionAsset, Submission}
use ketapod_website.Jobs.Model.{OutboxRow}
use ketapod_website.Kids.Model.{ChildProfile, ParentalControls, ContentApproval, AllowedPrompt}
use ketapod_website.Library.Model.{Position, ListeningEvent}

pub data Error : Type 0 where
  not_found insufficient_funds already_owned coupon_not_found coupon_not_usable : Error
  payment_already_settled refund_already_resolved refund_not_eligible empty_purchase : Error
  amount_invalid payment_verification_failed : Error
  forbidden invalid_stream_token range_outside_preview : Error
  invalid_otp otp_attempts token_invalid token_replayed rate_limited suspended : Error
  invalid_input wrong_pin no_pin_set : Error
  ai_not_configured no_audio_yet : Error
  -- a failure of the database, and one of a service that is called
  storage upstream : Error

-- The tables of the schemas `catalog`, `commerce`, `identity`, `ingest`, `jobs`, `kids` and `library` with the
-- AI service's, newest row first, with the clock of
-- the database and the next uuid that it will make up.
pub record Db : Type 0 where
  pub next_id : ℕ
  pub now : ℕ
  pub ledger : List LedgerEntry
  pub payments : List Payment
  pub orders : List Order
  pub items : List OrderItem
  pub coupons : List Coupon
  pub redemptions : List Redemption
  pub entitlements : List Entitlement
  pub refunds : List Refund
  pub plans : List SubscriptionPlan
  pub subscriptions : List Subscription
  pub users : List User
  pub role_grants : List RoleGrant
  pub devices : List Device
  pub otp_codes : List OtpCode
  pub refresh_tokens : List RefreshToken
  pub outbox : List OutboxRow
  pub positions : List Position
  pub listening_events : List ListeningEvent
  pub child_profiles : List ChildProfile
  pub parental_controls : List ParentalControls
  pub content_approvals : List ContentApproval
  pub allowed_prompts : List AllowedPrompt
  pub authors : List Author
  pub catalog_books : List Book
  pub rights_grants : List RightsGrant
  pub voices : List Voice
  pub narrations : List NarratedRow
  pub chapters : List Chapter
  pub edition_assets : List EditionAsset
  pub ai_books : List AiBook
  pub ai_documents : List AiDocument
  pub submissions : List Submission
