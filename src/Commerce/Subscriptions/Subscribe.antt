-- ===== src/Commerce/Subscriptions/Subscribe.antt =====
-- What `Subscribe` charges and what it gives.
use ketapod_website.Base.{
  ℕ, ◌+◌, ◌≡◌, ◌⊎◌, refl, sym, ap, ◌∙◌, inl, inr, Bool, Option, none, some, List, [], ◌∷◌, map,
  arith, update_where,
}
use mathlib.Core.Path.{subst}
use ketapod_website.Commerce.Model.{SubscriptionPlan, Subscription}
use ketapod_website.Schema.{Error, Db}
use ketapod_website.Store.{ok, World, or_fail}
use ketapod_website.Store.Rules.{
  Ensures, Ensures-ok, Ensures-query, Ensures-then, Ensures-pure, Ensures-map, Ensures-reads,
  Ensures-lift, in_tx-Ensures,
}
use ketapod_website.Store.Reads.{Ensures-Reads, or_fail-ok}
use ketapod_website.Commerce.Subscriptions.{
  plan_by_code, current_of, days, has_id, extend, insert_subscription, update_extended,
  subscribe_with, subscribe,
}
use ketapod_website.Commerce.Subscriptions.Terms.{
  Paid, AreExtended, extend-AreExtended, Extended, Opened, Subscribed, Charges, charge_plan-Ensures,
  IsFound, get_active-Reads, found_some, extended_rows,
}

module _ (clock user : ℕ) (plan : SubscriptionPlan) (auto_renew : Bool) where
  abbrev Outcome : Db → Subscription → Db → Type 0
  Outcome db r d =
      Paid user plan.price db.ledger d.ledger
      × (Extended user plan db d r ⊎ Opened clock user plan auto_renew db d r)

  Extended-join :
      (c : Subscription) (db d1 d2 : Db) (r : Subscription)
      → current_of user db ≡ some c
      → Charges user plan.price db d1
      → d2 ≡ record d1 {
        subscriptions = update_where (has_id c.id) (extend plan.period_days) d1.subscriptions;
      }
      → current_of user d2 ≡ some r
      → Outcome db r d2
  Extended-join c db d1 d2 r was h e now =
      let table : d2.subscriptions
          ≡ update_where (has_id c.id) (extend plan.period_days) db.subscriptions =
        ap (λ (q : Db). q.subscriptions) e
        ∙ ap (update_where (has_id c.id) (extend plan.period_days)) h.1 in
      (
        subst (Paid user plan.price db.ledger) (sym (ap (λ (q : Db). q.ledger) e)) h.0,
        inl (record {
          existing = c;
          was_current = was;
          rows = table;
          extended =
              subst (AreExtended c.id plan.period_days db.subscriptions) (sym table)
                (extend-AreExtended c.id plan.period_days db.subscriptions);
          now_current = now;
        }),
      )

  Opened-join :
      (db d1 d2 : Db) (r : Subscription)
      → current_of user db ≡ none
      → insert_subscription user plan.id (clock + days plan.period_days) auto_renew db ≡ (ok r, d1)
      → Charges user plan.price d1 d2
      → Outcome db r d2
  unfolding insert_subscription
  Opened-join db d1 d2 r was e h = (
    subst (λ l. Paid user plan.price l d2.ledger) (ground (arith, e)) h.0,
    inr (record {
      was_none = was;
      rows = h.1 ∙ ground (arith, e);
      terms = (
        ground (arith, e),
        ground (arith, e),
        ground (arith, e),
        ground (arith, e),
        ground (arith, e),
        ground (arith, e),
      );
    }),
  )

  subscribe_with-Ensures :
      (o : Option (Subscription × Option SubscriptionPlan)) (w : World)
      → IsFound (current_of user w.db) o
      → Ensures (Outcome w.db) (subscribe_with clock user plan auto_renew o w)
  unfolding subscribe_with
  subscribe_with-Ensures none w was =
      Ensures-then _ _ _ _
        (Ensures-query
          (λ r d.
            insert_subscription user plan.id (clock + days plan.period_days) auto_renew w.db
            ≡ (ok r, d))
          _ w (λ r d e. e))
        λ r w1 e.
          Ensures-then _ _ _ _ (charge_plan-Ensures user r.id plan.price w1)
            λ u w2 h. Ensures-pure _ _ w2 (Opened-join w.db w1.db w2.db r was e h)
  subscribe_with-Ensures (some (c, p)) w was =
      Ensures-then _ _ _ _ (charge_plan-Ensures user c.id plan.price w) λ u w1 h.
        Ensures-then _ _ _ _
          (Ensures-query _ (update_extended c.id plan.period_days) w1
            (λ u0 d q. extended_rows c.id plan.period_days w1.db d u0 q))
          λ u' w2 e. Ensures-Reads _ _ w2.db _ _ (get_active-Reads user w2) λ again fs found.
            Ensures-lift _ (or_fail Error.not_found again) _ _ λ f e'. Ensures-pure _ _ _ (
              Extended-join c w.db w1.db w2.db f.0 was h e
                (found_some (current_of user w2.db) again found e'))

subscribe-Ensures :
    (clock user code : ℕ) (auto_renew : Bool) (w : World)
    → Ensures
        (λ r d. Subscribed clock user code auto_renew w.db d r)
        (subscribe clock user code auto_renew w)
unfolding subscribe
subscribe-Ensures clock user code auto_renew w = Ensures-reads _ _ _ w λ fs.
    Ensures-lift _ (or_fail Error.not_found (plan_by_code code w.db)) _ _ λ plan e.
      in_tx-Ensures _ _ _ (
        Ensures-Reads _ _ w.db _ _ (get_active-Reads user _) λ o fs' was.
          Ensures-map _ _ _ (subscribe_with-Ensures clock user plan auto_renew o _ was) λ r d h.
            record {
              plan = plan;
              offered = or_fail-ok Error.not_found (plan_by_code code w.db) e;
              paid = h.0;
              served = h.1;
            })

-- A subscription that succeeds is to a plan on offer; its price, unless it is free, is taken from
-- a wallet that covers it, and from no other. Either the current subscription lasts longer by the days
-- of the plan's period, none of its hours are used, and nothing else of the table changes, or there was
-- none and one of this plan begins.
pub subscribe_serves :
    (clock user code : ℕ) (auto_renew : Bool) (w w' : World) (r : Subscription)
    → subscribe clock user code auto_renew w ≡ (ok r, w')
    → Subscribed clock user code auto_renew w.db w'.db r
subscribe_serves clock user code auto_renew w w' r h =
    Ensures-ok (λ r d. Subscribed clock user code auto_renew w.db d r) _
      (subscribe-Ensures clock user code auto_renew w) h

plans_kept :
    (i n : ℕ) (ss : List Subscription)
    → map (λ (s : Subscription). s.plan_id) (update_where (has_id i) (extend n) ss)
      ≡ map (λ (s : Subscription). s.plan_id) ss
plans_kept i n [] = refl
plans_kept i n (s ∷ ss) = ground (arith, plans_kept i n ss)

-- Who subscribes to a plan while another subscription is current pays for the plan on offer, and no
-- subscription changes its plan.
pub subscribe_again_keeps_plan :
    (clock user code : ℕ) (auto_renew : Bool) (w w' : World) (r s : Subscription)
    → subscribe clock user code auto_renew w ≡ (ok r, w')
    → current_of user w.db ≡ some s
    → (plan : SubscriptionPlan) × (plan_by_code code w.db ≡ some plan)
      × Paid user plan.price w.db.ledger w'.db.ledger
      × (map (λ (x : Subscription). x.plan_id) w'.db.subscriptions
          ≡ map (λ (x : Subscription). x.plan_id) w.db.subscriptions)
subscribe_again_keeps_plan clock user code auto_renew w w' r s h e =
    let p = subscribe_serves clock user code auto_renew w w' r h in
    (
      p.plan,
      p.offered,
      p.paid,
      elim p.served [
        | inl x ↦
            ap (map (λ (y : Subscription). y.plan_id)) x.rows
            ∙ plans_kept x.existing.id p.plan.period_days w.db.subscriptions
        | inr x ↦ absurd (cc (e, x.was_none))
      ],
    )
