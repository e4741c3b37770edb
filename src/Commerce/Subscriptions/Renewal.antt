-- ===== src/Commerce/Subscriptions/Renewal.antt =====
-- The sweep that renews subscriptions and then expires what is over: `ReconcileSubscriptions` and
-- `renewOne` of backend/internal/commerce/service_access.go.
use ketapod_website.Base.{
  ℕ, suc, ◌+◌, ◌*◌, Bool, true, false, ◌&&◌, ◌||◌, Option, none, some, List, [], ◌∷◌, ltb, leb,
  if◌then◌else◌, length, select, update_where,
}
use ketapod_website.Commerce.Model.{SubscriptionPlan, active, expired, Subscription}
use ketapod_website.Schema.{Error, Db}
use ketapod_website.Store.{
  Result, ok, err, M, pure, raise, reads, query, in_tx, caught, ◌>>=◌, ◌>>◌,
}
use ketapod_website.Commerce.Subscriptions.{
  is_active, is_expired, has_id, charge_plan, update_extended, get_subscription,
}

-- RenewalWindow, in hours.
pub record RenewalWindow : Type 0 where
  pub lookahead : ℕ
  pub grace : ℕ
  pub retry_after : ℕ

abbrev pub default_renewal_window : RenewalWindow
default_renewal_window = record { lookahead = 1; grace = 72; retry_after = 6 }

abbrev pub hours : ℕ → ℕ
hours n = n * 3_600

-- No attempt yet, or none for long enough.
abbrev pub may_retry : ℕ → ℕ → Option ℕ → Bool
may_retry retry now none = true
may_retry retry now (some t) = ltb (t + retry) now

-- The condition of `ListSubscriptionsDueForRenewal`.
abbrev pub is_due : RenewalWindow → ℕ → Subscription → Bool
is_due v now s =
    s.auto_renew
    && ((is_active s.status || is_expired s.status)
        && (leb s.expires_at (now + hours v.lookahead)
            && (ltb now (s.expires_at + hours v.grace)
                && may_retry (hours v.retry_after) now s.last_attempt)))

-- ORDER BY expires_at.
abbrev pub insert_due : Subscription → List Subscription → List Subscription
insert_due s [] = s ∷ []
insert_due s (t ∷ ts) = if leb s.expires_at t.expires_at then s ∷ t ∷ ts else t ∷ insert_due s ts

abbrev pub sort_due : List Subscription → List Subscription
sort_due [] = []
sort_due (s ∷ ss) = insert_due s (sort_due ss)

unfoldable pub due : RenewalWindow → Db → List Subscription
due v db = sort_due (select (is_due v db.now) db.subscriptions)

abbrev pub reactivate : Subscription → Subscription
reactivate s = record s { status = active }

abbrev pub is_lapsed : ℕ → Subscription → Bool
is_lapsed i s = has_id i s && is_expired s.status

-- `ReactivateSubscription`
unfoldable pub update_reactivated : ℕ → Db → Db
update_reactivated i db = record db {
  subscriptions = update_where (is_lapsed i) reactivate db.subscriptions;
}

unfoldable pub renew_with : Subscription → SubscriptionPlan → M (Unit {0})
renew_with current plan = do
  charge_plan current.user_id plan.price current.id
  query (update_extended current.id plan.period_days)
  query (λ db. (ok tt, update_reactivated current.id db))

-- The transaction of `renewOne`.
unfoldable pub renew_found : Option (Subscription × Option SubscriptionPlan) → M (Unit {0})
renew_found none = raise Error.not_found
renew_found (some (current, none)) = raise Error.not_found
renew_found (some (current, some plan)) = renew_with current plan

-- `renewOne`
unfoldable pub renew_one : ℕ → M (Unit {0})
renew_one i = in_tx (get_subscription i >>= renew_found)

abbrev pub succeeded : Result (Unit {0}) → Bool
succeeded (ok a) = true
succeeded (err e) = false

abbrev pub attempted : ℕ → Bool → Subscription → Subscription
attempted now b s = record s { last_attempt = some now; failures = if b then 0 else suc s.failures }

-- `MarkRenewalAttempt`
unfoldable pub update_attempted : ℕ → Bool → Db → Db
update_attempted i b db = record db {
  subscriptions = update_where (has_id i) (attempted db.now b) db.subscriptions;
}

-- ReconcileResult
pub record ReconcileResult : Type 0 where
  pub renewed : ℕ
  pub insufficient_funds : ℕ
  pub failed : ℕ
  pub expired : ℕ
  pub last_error : Option Error

-- The switch on the outcome of one renewal.
abbrev pub tally : Result (Unit {0}) → ReconcileResult → ReconcileResult
tally (ok a) r = record r { renewed = suc r.renewed }
tally (err Error.insufficient_funds) r = record r { insufficient_funds = suc r.insufficient_funds }
tally (err e) r = record r { failed = suc r.failed; last_error = some e }

-- The loop over what is due.
unfoldable pub renew_all : List Subscription → ReconcileResult → M ReconcileResult
renew_all [] result = pure result
renew_all (s ∷ ss) result = do
  outcome ← caught (renew_one s.id)
  query (λ db. (ok tt, update_attempted s.id (succeeded outcome) db))
  renew_all ss (tally outcome result)

abbrev pub is_over : ℕ → Subscription → Bool
is_over now s = is_active s.status && leb s.expires_at now

abbrev pub lapse : Subscription → Subscription
lapse s = record s { status = expired }

-- `ExpireDueSubscriptions`: how many rows.
unfoldable pub expire_due : M ℕ
expire_due = query λ db. (
  ok (length (select (is_over db.now) db.subscriptions)),
  record db { subscriptions = update_where (is_over db.now) lapse db.subscriptions },
)

abbrev pub nothing_done : ReconcileResult
nothing_done = record {
  renewed = 0;
  insufficient_funds = 0;
  failed = 0;
  expired = 0;
  last_error = none;
}

-- `ReconcileSubscriptions`
unfoldable pub reconcile : RenewalWindow → M ReconcileResult
reconcile v = do
  list ← reads (due v)
  result ← renew_all list nothing_done
  n ← expire_due
  pure (record result { expired = n })
