-- ===== src/Samples.antt =====
-- A database without rows, for the examples of the parts of backend/internal.
use ketapod_website.Base.{[]}
use ketapod_website.Schema.{Db}

abbrev pub no_rows : Db
no_rows = record {
  next_id = 10;
  now = 50;
  ledger = [];
  payments = [];
  orders = [];
  items = [];
  coupons = [];
  redemptions = [];
  entitlements = [];
  refunds = [];
  plans = [];
  subscriptions = [];
  users = [];
  role_grants = [];
  devices = [];
  otp_codes = [];
  refresh_tokens = [];
  outbox = [];
  positions = [];
  listening_events = [];
  child_profiles = [];
  parental_controls = [];
  content_approvals = [];
  allowed_prompts = [];
  authors = [];
  catalog_books = [];
  rights_grants = [];
  voices = [];
  narrations = [];
  chapters = [];
  edition_assets = [];
  ai_books = [];
  ai_documents = [];
  submissions = [];
}
