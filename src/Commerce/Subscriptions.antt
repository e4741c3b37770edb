-- ===== src/Commerce/Subscriptions.antt =====
-- Subscriptions paid from the wallet, and the access they give: backend/internal/commerce/
-- service_access.go and repo_subscriptions.go with the statements of queries/subscriptions.sql.
-- The clock of the server, which sets the first expiry, is a parameter.
pub mod Renewal
pub mod Backlog
pub mod Sweep
pub mod Terms
pub mod Subscribe
use ketapod_website.Base.{
  ℕ, suc, ◌+◌, ◌*◌, ◌/◌, ◌<◌, Bool, true, false, not, ◌&&◌, ◌||◌, Option, none, some, List, [], ◌∷◌,
  ltb, leb, ◌==◌, if◌then◌else◌, length, find, any, select, update_where,
}
use ketapod_website.Base.Int.{ℤ, pos, ltb_ℤ}
use ketapod_website.Commerce.Model.{
  Reason, ReferenceType, SubscriptionPlan, SubscriptionStatus, active, expired, canceled,
  Subscription,
}
use ketapod_website.Schema.{Error, Db}
use ketapod_website.Store.{
  Result, ok, err, M, pure, raise, raise_if, reads, query, lift, or_fail, in_tx, caught, ◌>>=◌,
  ◌>>◌,
}
use ketapod_website.Commerce.Wallet.{debit_locked}
use ketapod_website.Commerce.Entitlements.{entitled_to_edition, entitled_to_book}

abbrev pub is_active : SubscriptionStatus → Bool
is_active active = true
is_active _ = false

abbrev pub is_expired : SubscriptionStatus → Bool
is_expired expired = true
is_expired _ = false

-- Active and not run out.
abbrev pub is_current : ℕ → ℕ → Subscription → Bool
is_current user now s = s.user_id == user && (is_active s.status && ltb now s.expires_at)

abbrev pub later_of : Subscription → Option Subscription → Subscription
later_of s none = s
later_of s (some t) = if ltb s.expires_at t.expires_at then t else s

-- ORDER BY expires_at DESC LIMIT 1, among those that pass.
abbrev pub latest : (Subscription → Bool) → List Subscription → Option Subscription
latest p [] = none
latest p (s ∷ ss) = if p s then some (later_of s (latest p ss)) else latest p ss

-- `GetActiveSubscriptionForUser`
unfoldable pub current_of : ℕ → Db → Option Subscription
current_of user db = latest (is_current user db.now) db.subscriptions

unfoldable pub plan_by_id : ℕ → Db → Option SubscriptionPlan
plan_by_id i db = find (λ p. p.id == i) db.plans

-- `GetSubscriptionPlanByCode`
unfoldable pub plan_by_code : ℕ → Db → Option SubscriptionPlan
plan_by_code code db = find (λ p. p.code == code && p.is_active) db.plans

abbrev pub plan_found : Result (Option SubscriptionPlan) → Option SubscriptionPlan
plan_found (ok p) = p
plan_found (err e) = none

-- The plan beside its subscription; a failure to read it leaves the plan out.
unfoldable pub with_plan : Option Subscription → M (Option (Subscription × Option SubscriptionPlan))
with_plan none = pure none
with_plan (some s) = caught (reads (plan_by_id s.plan_id)) >>= λ r. pure (some (s, plan_found r))

-- `GetActiveSubscription`; `none` is ErrNotFound.
unfoldable pub get_active : ℕ → M (Option (Subscription × Option SubscriptionPlan))
get_active user = reads (current_of user) >>= with_plan

-- `GetSubscriptionByID`
unfoldable pub get_subscription : ℕ → M (Option (Subscription × Option SubscriptionPlan))
get_subscription i = reads (λ db. find (λ s. s.id == i) db.subscriptions) >>= with_plan

abbrev pub days : ℕ → ℕ
days n = n * 86_400

-- `CreateSubscription`
unfoldable pub insert_subscription : ℕ → ℕ → ℕ → Bool → Db → Result Subscription × Db
insert_subscription user plan expires auto_renew db =
    (ok row, record db { next_id = suc db.next_id; subscriptions = row ∷ db.subscriptions })
  where
    row : Subscription
    row = record {
      id = db.next_id;
      user_id = user;
      plan_id = plan;
      status = active;
      auto_renew = auto_renew;
      expires_at = expires;
      hours_consumed = 0;
      last_attempt = none;
      failures = 0;
    }

abbrev pub has_id : ℕ → Subscription → Bool
has_id i s = s.id == i

abbrev pub extend : ℕ → Subscription → Subscription
extend n s = record s { expires_at = s.expires_at + days n; hours_consumed = 0 }

-- `ExtendSubscription`: no such row is an error.
unfoldable pub update_extended : ℕ → ℕ → Db → Result (Unit {0}) × Db
update_extended i n db =
    if any (has_id i) db.subscriptions
    then (ok tt, record db { subscriptions = update_where (has_id i) (extend n) db.subscriptions })
    else (err Error.storage, db)

-- A debit of a price, unless it is free.
unfoldable pub charge_plan : ℕ → ℤ → ℕ → M (Unit {0})
charge_plan user price subscription =
    if ltb_ℤ (pos 0) price
    then (debit_locked user price Reason.subscription ReferenceType.subscription (some subscription)
        >>= λ entry. pure tt)
    else pure tt

-- The two branches of the transaction of `Subscribe`.
unfoldable pub subscribe_with :
    ℕ
    → ℕ
    → SubscriptionPlan
    → Bool
    → Option (Subscription × Option SubscriptionPlan)
    → M Subscription
subscribe_with clock user plan auto_renew (some (existing, its_plan)) = do
  charge_plan user plan.price existing.id
  query (update_extended existing.id plan.period_days)
  again ← get_active user
  found ← lift (or_fail Error.not_found again)
  pure found.0
subscribe_with clock user plan auto_renew none = do
  created ← query (insert_subscription user plan.id (clock + days plan.period_days) auto_renew)
  charge_plan user plan.price created.id
  pure created

-- `Subscribe`
unfoldable pub subscribe : ℕ → ℕ → ℕ → Bool → M Subscription
subscribe clock user code auto_renew = do
  known ← reads (plan_by_code code)
  plan ← lift (or_fail Error.not_found known)
  in_tx (get_active user >>= subscribe_with clock user plan auto_renew)

abbrev pub cancel : Subscription → Subscription
cancel s = record s { status = canceled; auto_renew = false }

abbrev pub is_cancelable : ℕ → ℕ → Subscription → Bool
is_cancelable i user s = has_id i s && (s.user_id == user && is_active s.status)

-- `CancelSubscription`
unfoldable pub cancel_subscription : ℕ → ℕ → M (Unit {0})
cancel_subscription user i = query λ db.
    if any (is_cancelable i user) db.subscriptions
    then (
      ok tt,
      record db { subscriptions = update_where (is_cancelable i user) cancel db.subscriptions },
    )
    else (err Error.not_found, db)

-- float64(seconds)/3600, to the nearest millionth.
abbrev pub millionths : ℕ → ℕ
millionths seconds = (5_000 * seconds + 9) / 18

abbrev pub consume : ℕ → Subscription → Subscription
consume h s = record s { hours_consumed = s.hours_consumed + h }

unfoldable pub use_hours : ℕ → Option (Subscription × Option SubscriptionPlan) → M (Unit {0})
use_hours seconds none = pure tt
use_hours seconds (some (s, p)) = query λ db.
    if any (has_id s.id) db.subscriptions
    then (
      ok tt,
      record db {
        subscriptions = update_where (has_id s.id) (consume (millionths seconds)) db.subscriptions;
      },
    )
    else (err Error.storage, db)

-- `RecordSubscriptionUsage`; nothing happens for 0 seconds or fewer.
unfoldable pub record_usage : ℕ → ℕ → M (Unit {0})
record_usage user seconds =
    if seconds == 0 then pure tt else (get_active user >>= use_hours seconds)

-- `HasCapacity`
abbrev pub has_capacity : Subscription × Option SubscriptionPlan → Bool
has_capacity (s, none) = false
has_capacity (s, some p) = ltb s.hours_consumed (p.monthly_hour_cap * 1_000_000)

abbrev pub grants_access : Option (Subscription × Option SubscriptionPlan) → Bool
grants_access none = false
grants_access (some s) = has_capacity s

unfoldable pub or_subscribed : ℕ → Bool → M Bool
or_subscribed user true = pure true
or_subscribed user false = get_active user >>= λ found. pure (grants_access found)

-- `IsEntitledToEdition`; the empty user has access to nothing.
unfoldable pub is_entitled_to_edition : Option ℕ → ℕ → ℕ → M Bool
is_entitled_to_edition none edition book = pure false
is_entitled_to_edition (some user) edition book =
    reads (entitled_to_edition user edition book) >>= or_subscribed user

-- `IsEntitledToBook`
unfoldable pub is_entitled_to_book : Option ℕ → ℕ → M Bool
is_entitled_to_book none book = pure false
is_entitled_to_book (some user) book = reads (entitled_to_book user book) >>= or_subscribed user
