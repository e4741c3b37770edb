-- ===== src/Commerce/Subscriptions/Sweep.antt =====
-- What the sweep of `ReconcileSubscriptions` leaves behind.
use ketapod_website.Base.{
  ℕ, ◌≡◌, refl, sym, ap, inl, inr, Bool, true, false, not, ◌&&◌, ◌||◌, Option, none, some, List, [],
  ◌∷◌, arith, ◌==◌, any, select, update_where, any-update_false, Bool-cases,
}
use mathlib.Core.Path.{subst}
use ketapod_website.Base.Int.{ℤ, pos, ltb_ℤ}
use ketapod_website.Commerce.Model.{Reason, ReferenceType, SubscriptionPlan, Subscription}
use ketapod_website.Schema.{Db}
use ketapod_website.Store.{Result, ok, World}
use ketapod_website.Store.Rules.{
  Ensures, Keeps, Ensures-ok, Ensures-query, Ensures-then, Ensures-pure, Ensures-caught,
  Ensures-reads, Ensures-map, Ensures-IsAtomic, Keeps-query, Keeps-then, Keeps-same, in_tx-Keeps,
}
use ketapod_website.Store.Reads.{Keeps-Reads}
use ketapod_website.Commerce.Wallet.{with_entry}
use ketapod_website.Commerce.Wallet.Laws.{debit_locked-Ensures, debit_locked-IsAtomic}
use ketapod_website.Commerce.Subscriptions.{has_id, extend, update_extended, charge_plan}
use ketapod_website.Commerce.Subscriptions.Renewal.{
  is_due, sort_due, due, RenewalWindow, attempted, lapse, is_over, update_attempted,
  update_reactivated, is_lapsed, reactivate, renew_with, renew_found, renew_one, renew_all,
  expire_due, ReconcileResult, reconcile, nothing_done, tally, succeeded,
}
use ketapod_website.Commerce.Subscriptions.Backlog.{
  pending, Backlog, due-Backlog, IsRow, get_subscription-Reads,
}

module _ (v : RenewalWindow) (now : ℕ) where
  -- The row that is being renewed may change: it is in the list.
  own_pending :
      (s : Subscription) (ss : List Subscription) (i : ℕ) (x : Subscription)
      → i ≡ s.id
      → x.id ≡ i
      → pending v now (s ∷ ss) x ≡ false
  own_pending s ss i x e e' =
      let same : (s.id == x.id) ≡ true = ground (arith, e, e') in rw same (ground arith)

  update_own :
      (c : Subscription → Bool) (f : Subscription → Subscription) (s : Subscription)
      (ss : List Subscription)
      → ((x : Subscription) → c x ≡ true → (f x).id ≡ s.id)
      → (xs : List Subscription) → any (pending v now (s ∷ ss)) xs ≡ false
      → any (pending v now (s ∷ ss)) (update_where c f xs) ≡ false
  update_own c f s ss h xs e =
      any-update_false (pending v now (s ∷ ss)) (pending v now (s ∷ ss)) c f
        (λ x hit was. own_pending s ss s.id (f x) refl (h x hit)) (λ x miss was. was) xs e

  charge_plan-Keeps :
      (list : List Subscription) (user i : ℕ) (price : ℤ) (w : World)
      → Backlog v now list w.db
      → Keeps (Backlog v now list) (charge_plan user price i w)
  unfolding charge_plan with_entry
  charge_plan-Keeps list user i price w b = elim (Bool-cases (ltb_ℤ (pos 0) price)) [
    | inl dear ↦ rw dear (
        Keeps-then _ _ _
          (Ensures-IsAtomic (Backlog v now list) w.db _
            (Ensures-map _ _ _
              (debit_locked-Ensures user price Reason.subscription ReferenceType.subscription
                (some i) w)
              λ e d h. subst (Backlog v now list) (sym h.1.2) b)
            (debit_locked-IsAtomic user price Reason.subscription ReferenceType.subscription
              (some i) w)
            b)
          λ e w' h. Keeps-same _ _ w' h)
    | inr free ↦ rw free (Keeps-same _ _ w b)
  ]

  update_extended-Keeps :
      (s : Subscription) (ss : List Subscription) (i n : ℕ) (db : Db)
      → i ≡ s.id
      → Backlog v now (s ∷ ss) db
      → Backlog v now (s ∷ ss) (update_extended i n db).1
  unfolding update_extended
  update_extended-Keeps s ss i n db e b = elim (Bool-cases (any (has_id i) db.subscriptions)) [
    | inl there ↦
        rw there (
          b.0,
          update_own (has_id i) (extend n) s ss (λ x h. ground (arith, e)) db.subscriptions b.1,
        )
    | inr gone ↦ rw gone b
  ]

  update_reactivated-Keeps :
      (s : Subscription) (ss : List Subscription) (i : ℕ) (db : Db)
      → i ≡ s.id
      → Backlog v now (s ∷ ss) db
      → Backlog v now (s ∷ ss) (update_reactivated i db)
  unfolding update_reactivated
  update_reactivated-Keeps s ss i db e b = (
    b.0,
    update_own (is_lapsed i) reactivate s ss (λ x h. ground (arith, e)) db.subscriptions b.1,
  )

  renew_found-Keeps :
      (s : Subscription) (ss : List Subscription)
      (o : Option (Subscription × Option SubscriptionPlan)) (w : World)
      → IsRow s.id o
      → Backlog v now (s ∷ ss) w.db
      → Keeps (Backlog v now (s ∷ ss)) (renew_found o w)
  unfolding renew_found renew_with
  renew_found-Keeps s ss none w e b = Keeps-same _ _ w b
  renew_found-Keeps s ss (some (c, none)) w e b = Keeps-same _ _ w b
  renew_found-Keeps s ss (some (c, some p)) w e b =
      Keeps-then _ _ _ (charge_plan-Keeps (s ∷ ss) c.user_id c.id p.price w b) λ u w1 b1.
        Keeps-then _ _ _
          (Keeps-query _ (update_extended c.id p.period_days) w1 b1
            (update_extended-Keeps s ss c.id p.period_days w1.db e b1))
          λ u' w2 b2.
            Keeps-query _ (λ db. (ok tt, update_reactivated c.id db)) w2 b2
              (update_reactivated-Keeps s ss c.id w2.db e b2)

  renew_one-Keeps :
      (s : Subscription) (ss : List Subscription) (w : World)
      → Backlog v now (s ∷ ss) w.db
      → Keeps (Backlog v now (s ∷ ss)) (renew_one s.id w)
  unfolding renew_one
  renew_one-Keeps s ss w b = in_tx-Keeps _ _ w b (
      Keeps-Reads _ _ w.db _ renew_found b (get_subscription-Reads s.id w)
        λ o fs e. renew_found-Keeps s ss o _ e b)

  attempted-pending :
      (s : Subscription) (ss : List Subscription) (b : Bool) (x : Subscription)
      → pending v now ss (attempted now b x) ≡ false
  attempted-pending s ss b x = ground arith

  other-pending :
      (s : Subscription) (ss : List Subscription) (x : Subscription)
      → has_id s.id x ≡ false
      → pending v now (s ∷ ss) x ≡ false
      → pending v now ss x ≡ false
  other-pending s ss x miss h =
      let other : (s.id == x.id) ≡ false = ground (arith, miss) in
      let h' : is_due v now x && not (false || any (has_id x.id) ss) ≡ false = rw other at h in h'

  update_attempted-Backlog :
      (s : Subscription) (ss : List Subscription) (b : Bool) (db : Db)
      → Backlog v now (s ∷ ss) db
      → Backlog v now ss (update_attempted s.id b db)
  unfolding update_attempted
  update_attempted-Backlog s ss b db (e, h) = (
    e,
    rw e (
        any-update_false (pending v now (s ∷ ss)) (pending v now ss) (has_id s.id) (attempted now b)
          (λ x hit was. attempted-pending s ss b x) (λ x miss was. other-pending s ss x miss was)
          db.subscriptions h),
  )

  renew_all-Ensures :
      (list : List Subscription) (r : ReconcileResult) (w : World)
      → Backlog v now list w.db
      → Ensures (λ _ d. Backlog v now [] d) (renew_all list r w)
  unfolding renew_all
  renew_all-Ensures [] r w b = Ensures-pure _ _ w b
  renew_all-Ensures (s ∷ ss) r w b =
      Ensures-then _ _ _ _
        (Ensures-caught (Backlog v now (s ∷ ss)) (renew_one s.id) w (renew_one-Keeps s ss w b))
        λ o w1 b1.
          Ensures-then _ _ _ _
            (Ensures-query (λ _ d. Backlog v now ss d)
              (λ db. (ok tt, update_attempted s.id (succeeded o) db)) w1
              λ a d e.
                subst (Backlog v now ss) (ap (λ (q : Result (Unit {0}) × Db). q.1) e)
                  (update_attempted-Backlog s ss (succeeded o) w1.db b1))
            λ u w2 b2. renew_all-Ensures ss (tally o r) w2 b2

  expire_due-Ensures :
      (w : World) → Backlog v now [] w.db → Ensures (λ _ d. Backlog v now [] d) (expire_due w)
  unfolding expire_due
  expire_due-Ensures w b =
      Ensures-query (λ _ d. Backlog v now [] d) _ w
        λ n d e. subst (Backlog v now []) (ap (λ (q : Result ℕ × Db). q.1) e) (
          b.0,
          any-update_false (pending v now []) (pending v now []) (is_over w.db.now) lapse
              (λ x hit was. ground arith) (λ x miss was. was) w.db.subscriptions b.1,
        )

reconcile-Ensures :
    (v : RenewalWindow) (w : World) → Ensures (λ r d. Backlog v w.db.now [] d) (reconcile v w)
unfolding reconcile
reconcile-Ensures v w = Ensures-reads _ _ _ w λ fs.
    Ensures-then _ _ _ _
      (renew_all-Ensures v w.db.now (due v w.db) nothing_done _ (due-Backlog v w.db))
      λ r w1 b1.
        Ensures-then _ _ _ _ (expire_due-Ensures v w.db.now w1 b1) λ n w2 b2. Ensures-pure _ _ w2 b2

select_none :
    (p : Subscription → Bool) (ss : List Subscription)
    → any (λ s. p s && true) ss ≡ false
    → select p ss ≡ []
select_none p [] e = refl
select_none p (s ∷ ss) e = ground (arith, select_none p ss)

-- After a sweep that succeeds nothing is due for renewal at that instant, whatever the window and
-- whether the renewals went through or not.
pub reconcile_leaves_none_due :
    (v : RenewalWindow) (w w' : World) (r : ReconcileResult)
    → reconcile v w ≡ (ok r, w')
    → due v w'.db ≡ []
unfolding due
reconcile_leaves_none_due v w w' r h =
    let (e, none_due) = Ensures-ok (λ r d. Backlog v w.db.now [] d) _ (reconcile-Ensures v w) h in
    ap sort_due (select_none (is_due v w'.db.now) w'.db.subscriptions (rw e none_due))
