-- ===== src/Commerce/Subscriptions/Terms.antt =====
-- What a subscription charges and gives, and what its statements do.
use ketapod_website.Base.{
  ℕ, ◌+◌, ◌*◌, ==_iff, ◌≡◌, ◌≢◌, ◌⊎◌, refl, sym, ◌∙◌, inl, inr, Bool, Option, none, some, List, [],
  ◌∷◌, arith, update_where, Bool-cases,
}
use mathlib.Core.Path.{subst}
use ketapod_website.Base.Int.{ℤ, pos, ◌+ℤ◌, ◌≤ℤ◌, ◌<ℤ◌, ltb_ℤ}
use ketapod_website.Commerce.Model.{
  debit, Reason, ReferenceType, LedgerEntry, SubscriptionPlan, active, Subscription,
}
use ketapod_website.Schema.{Error, Db}
use ketapod_website.Store.{ok, World, or_fail}
use ketapod_website.Store.Rules.{Ensures, Ensures-then, Ensures-pure}
use ketapod_website.Store.Reads.{Reads, Reads-pure, Reads-reads, Reads-caught, reads-Keeps}
use ketapod_website.Commerce.Wallet.{balance, with_entry}
use ketapod_website.Commerce.Wallet.Laws.{with_entry-Charged, debit_locked-Ensures}
use ketapod_website.Commerce.Subscriptions.{
  plan_by_id, plan_by_code, current_of, with_plan, get_active, days, has_id, extend,
  update_extended, charge_plan,
}

-- The wallet of the user, and no other, has paid a price that it covered.
pub record Taken (u : ℕ) (a : ℤ) (before after : List LedgerEntry) : Type 0 where
  pub positive : pos 0 <ℤ a
  pub covered : a ≤ℤ balance u before
  pub charged : balance u after +ℤ a ≡ balance u before
  pub others : (v : ℕ) → v ≢ u → balance v after ≡ balance v before

abbrev pub Paid : ℕ → ℤ → List LedgerEntry → List LedgerEntry → Type 0
Paid u a before after = ((a ≤ℤ pos 0) × (after ≡ before)) ⊎ Taken u a before after

-- The same subscription with this many days more, and with none of its hours used.
abbrev pub IsLonger : ℕ → Subscription → Subscription → Type 0
IsLonger n s t =
    (t.expires_at ≡ s.expires_at + n * 86_400)
    × (t.hours_consumed ≡ 0)
    × (t.id ≡ s.id)
    × (t.user_id ≡ s.user_id)
    × (t.plan_id ≡ s.plan_id)
    × (t.status ≡ s.status)
    × (t.auto_renew ≡ s.auto_renew)
    × (t.last_attempt ≡ s.last_attempt)
    × (t.failures ≡ s.failures)

-- Row by row: the one with this id is longer, and every other one is as it was.
abbrev pub AreExtended : ℕ → ℕ → List Subscription → List Subscription → Type 0
AreExtended i n [] [] = Unit {0}
AreExtended i n [] (t ∷ ts) = ⊥
AreExtended i n (s ∷ ss) [] = ⊥
AreExtended i n (s ∷ ss) (t ∷ ts) =
    (s.id ≡ i → IsLonger n s t) × (s.id ≢ i → t ≡ s) × AreExtended i n ss ts

pub extend-AreExtended :
    (i n : ℕ) (ss : List Subscription) → AreExtended i n ss (update_where (has_id i) (extend n) ss)
extend-AreExtended i n [] = tt
extend-AreExtended i n (s ∷ ss) = elim (Bool-cases (has_id i s)) [
  | inl hit ↦ rw hit (
    λ same. (refl, refl, refl, refl, refl, refl, refl, refl, refl),
    λ other. absurd (other ((==_iff s.id i).0 hit)),
    extend-AreExtended i n ss,
  )
  | inr miss ↦
      rw miss (
        λ same. absurd (cc (miss, (==_iff s.id i).1 same)),
        λ other. refl,
        extend-AreExtended i n ss,
      )
]

-- A current subscription is extended by the plan's period, its hours start again at 0, and nothing
-- else of the table changes.
pub record Extended (user : ℕ) (plan : SubscriptionPlan) (db d : Db) (r : Subscription)
    : Type 0 where
  pub existing : Subscription
  pub was_current : current_of user db ≡ some existing
  pub rows :
      d.subscriptions ≡ update_where (has_id existing.id) (extend plan.period_days) db.subscriptions
  pub extended : AreExtended existing.id plan.period_days db.subscriptions d.subscriptions
  pub now_current : current_of user d ≡ some r

-- There was no current subscription, and there is a new one of this plan.
pub record Opened (clock user : ℕ) (plan : SubscriptionPlan) (auto_renew : Bool) (db d : Db)
    (r : Subscription) : Type 0 where
  pub was_none : current_of user db ≡ none
  pub rows : d.subscriptions ≡ r ∷ db.subscriptions
  pub terms :
      (r.user_id ≡ user)
      × (r.plan_id ≡ plan.id)
      × (r.status ≡ active)
      × (r.auto_renew ≡ auto_renew)
      × (r.expires_at ≡ clock + days plan.period_days)
      × (r.hours_consumed ≡ 0)

pub record Subscribed (clock user code : ℕ) (auto_renew : Bool) (db d : Db) (r : Subscription)
    : Type 0 where
  pub plan : SubscriptionPlan
  pub offered : plan_by_code code db ≡ some plan
  pub paid : Paid user plan.price db.ledger d.ledger
  pub served : Extended user plan db d r ⊎ Opened clock user plan auto_renew db d r

-- The charge of a plan changes the ledger, and neither the subscriptions nor the clock.
abbrev pub Charges : ℕ → ℤ → Db → Db → Type 0
Charges user price db d =
    Paid user price db.ledger d.ledger × (d.subscriptions ≡ db.subscriptions) × (d.now ≡ db.now)

entry-Charges :
    (user i : ℕ) (price : ℤ) (db : Db)
    → pos 0 <ℤ price
    → price ≤ℤ balance user db.ledger
    → Charges user price db
        (with_entry user debit price Reason.subscription ReferenceType.subscription (some i) db).1
unfolding with_entry
entry-Charges user i price db p c =
    let h =
      with_entry-Charged user price Reason.subscription ReferenceType.subscription (some i) db p
        c in
    (inr (record { positive = p; covered = c; charged = h.charged; others = h.others }), refl, refl)

pub charge_plan-Ensures :
    (user i : ℕ) (price : ℤ) (w : World)
    → Ensures (λ _ d. Charges user price w.db d) (charge_plan user price i w)
unfolding charge_plan
charge_plan-Ensures user i price w = elim (Bool-cases (ltb_ℤ (pos 0) price)) [
  | inl dear ↦ rw dear (
      Ensures-then _ _ _ _
        (debit_locked-Ensures user price Reason.subscription ReferenceType.subscription (some i) w)
        λ e w' h.
          Ensures-pure _ _ w' (
            subst (Charges user price w.db) (sym h.1.2)
              (entry-Charges user i price w.db h.1.0 h.0)))
  | inr free ↦ rw free (Ensures-pure _ _ w (inl (ground arith, refl), refl, refl))
]

-- What was found is this row.
abbrev pub IsFound : Option Subscription → Option (Subscription × Option SubscriptionPlan) → Type 0
IsFound o none = o ≡ none
IsFound o (some (c, p)) = o ≡ some c

with_plan-Found : (o : Option Subscription) (w : World) → Reads (IsFound o) w.db (with_plan o w)
unfolding with_plan
with_plan-Found none w = Reads-pure _ _ _ _ refl
with_plan-Found (some c) w =
    Reads-caught (IsFound (some c)) _ _ w (reads-Keeps (plan_by_id c.plan_id) w)
      λ r fs. Reads-pure _ _ _ _ refl

pub get_active-Reads :
    (user : ℕ) (w : World) → Reads (IsFound (current_of user w.db)) w.db (get_active user w)
unfolding get_active
get_active-Reads user w = Reads-reads _ _ _ w λ fs. with_plan-Found (current_of user w.db) _

pub found_some :
    (o : Option Subscription) (x : Option (Subscription × Option SubscriptionPlan))
    {f : Subscription × Option SubscriptionPlan}
    → IsFound o x
    → or_fail Error.not_found x ≡ ok f
    → o ≡ some f.0
found_some o none h e = cc
found_some o (some (c, p)) {f} h e = h ∙ ground (arith, e)

pub extended_rows :
    (i n : ℕ) (db d : Db) (u : Unit {0})
    → update_extended i n db ≡ (ok u, d)
    → d ≡ record db { subscriptions = update_where (has_id i) (extend n) db.subscriptions }
unfolding update_extended
extended_rows i n db d u h = ground (arith, h)
