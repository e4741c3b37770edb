-- ===== src/Commerce/Tests/Subscriptions.antt =====
-- Subscriptions of one listener.
use ketapod_website.Base.{◌≡◌, refl, true, some, none, List, [], ◌∷◌, length, map, select}
use ketapod_website.Base.Int.{pos, ◌+ℤ◌, ◌-ℤ◌}
use ketapod_website.Commerce.Model.{SubscriptionPlan, Subscription, active, expired}
use ketapod_website.Store.{Result, World, query, reads, lift, raise_if, in_tx, caught}
use ketapod_website.Commerce.Wallet.{
  balance, with_entry, insert_entry, create_wallet_ledger_entry, debit_locked,
}
use ketapod_website.Commerce.Subscriptions.{
  current_of, plan_by_id, plan_by_code, with_plan, get_active, get_subscription,
  insert_subscription, update_extended, charge_plan, subscribe_with, subscribe, is_current,
}
use ketapod_website.Commerce.Subscriptions.Renewal.{
  due, update_reactivated, renew_with, renew_found, renew_one, update_attempted, renew_all,
  expire_due, reconcile, ReconcileResult, nothing_done, default_renewal_window,
}
use ketapod_website.Commerce.Subscriptions.Sweep.{reconcile_leaves_none_due}
use ketapod_website.Commerce.Subscriptions.Terms.{Subscribed, Paid}
use ketapod_website.Commerce.Subscriptions.Subscribe.{subscribe_serves, subscribe_again_keeps_plan}
use ketapod_website.Commerce.Tests.{shop, value}

abbrev basic : SubscriptionPlan
basic = record {
  id = 1;
  code = 1;
  price = pos 100;
  period_days = 30;
  monthly_hour_cap = 15;
  is_active = true;
}

abbrev premium : SubscriptionPlan
premium = record {
  id = 2;
  code = 2;
  price = pos 400;
  period_days = 30;
  monthly_hour_cap = 45;
  is_active = true;
}

-- A subscription to the basic plan that ran out a second ago and renews itself.
abbrev lapsed : Subscription
lapsed = record {
  id = 3;
  user_id = 7;
  plan_id = 1;
  status = expired;
  auto_renew = true;
  expires_at = 49;
  hours_consumed = 0;
  last_attempt = none;
  failures = 0;
}

abbrev running : Subscription
running = record lapsed { status = active; expires_at = 100 }

abbrev with_rows : List Subscription → World
with_rows ss = record {
  db = record shop { plans = premium ∷ basic ∷ []; subscriptions = ss };
  faults = [];
}

abbrev joined : Result Subscription × World
joined = subscribe 50 7 1 true (with_rows [])

subscribe_serves_example :
    Subscribed 50 7 1 true (with_rows []).db joined.1.db (value lapsed joined.0)
unfolding subscribe plan_by_code get_active current_of with_plan subscribe_with insert_subscription
    charge_plan debit_locked create_wallet_ledger_entry insert_entry with_entry balance in_tx query
    reads lift raise_if ◌+ℤ◌
subscribe_serves_example =
    subscribe_serves 50 7 1 true (with_rows []) joined.1 (value lapsed joined.0) refl

-- The basic plan runs, and the premium one is bought.
abbrev upgraded : Result Subscription × World
upgraded = subscribe 50 7 2 true (with_rows (running ∷ []))

subscribe_again_keeps_plan_example :
    (plan : SubscriptionPlan) × (plan_by_code 2 (with_rows (running ∷ [])).db ≡ some plan)
    × Paid 7 plan.price (with_rows (running ∷ [])).db.ledger upgraded.1.db.ledger
    × (map (λ (x : Subscription). x.plan_id) upgraded.1.db.subscriptions
        ≡ map (λ (x : Subscription). x.plan_id) (with_rows (running ∷ [])).db.subscriptions)
unfolding subscribe plan_by_code plan_by_id get_active current_of with_plan subscribe_with
    update_extended charge_plan debit_locked caught create_wallet_ledger_entry insert_entry
    with_entry balance in_tx query reads lift raise_if ◌+ℤ◌
subscribe_again_keeps_plan_example =
    subscribe_again_keeps_plan 50 7 2 true (with_rows (running ∷ [])) upgraded.1
      (value lapsed upgraded.0) running refl refl

abbrev swept : World → Result ReconcileResult × World
swept w = reconcile default_renewal_window w

reconcile_leaves_none_due_example :
    due default_renewal_window (swept (with_rows (lapsed ∷ []))).1.db ≡ []
unfolding reconcile due renew_all renew_one get_subscription with_plan plan_by_id renew_found
    renew_with update_extended update_reactivated update_attempted expire_due charge_plan
    debit_locked caught create_wallet_ledger_entry insert_entry with_entry balance in_tx query reads
    lift raise_if ◌+ℤ◌
reconcile_leaves_none_due_example =
    reconcile_leaves_none_due default_renewal_window (with_rows (lapsed ∷ []))
      (swept (with_rows (lapsed ∷ []))).1 (value nothing_done (swept (with_rows (lapsed ∷ []))).0)
      refl

abbrev rejoined : World
rejoined = (subscribe 50 7 1 true (with_rows (lapsed ∷ []))).1

-- Who subscribes again after a lapse is charged a second time by the next sweep, and has two
-- current subscriptions.
sweep_after_subscribe :
    (length (select (is_current 7 50) (swept rejoined).1.db.subscriptions) ≡ 2)
    × (balance 7 rejoined.db.ledger ≡ pos 900)
    × (balance 7 (swept rejoined).1.db.ledger ≡ pos 800)
unfolding subscribe plan_by_code get_active current_of subscribe_with insert_subscription reconcile
    due renew_all renew_one get_subscription with_plan plan_by_id renew_found renew_with
    update_extended update_reactivated update_attempted expire_due charge_plan debit_locked caught
    create_wallet_ledger_entry insert_entry with_entry balance in_tx query reads lift raise_if ◌+ℤ◌
    ◌-ℤ◌
sweep_after_subscribe = (refl, refl, refl)
