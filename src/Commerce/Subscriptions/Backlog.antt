-- ===== src/Commerce/Subscriptions/Backlog.antt =====
-- What is due for renewal and still to come in the list of the sweep.
use ketapod_website.Base.{
  ℕ, ◌≡◌, refl, ap, ◌∙◌, inl, inr, Bool, true, false, not, ◌&&◌, ◌||◌, Option, none, some, List, [],
  ◌∷◌, arith, ==_refl, find, any, select, find_passes, Bool-cases,
}
use ketapod_website.Commerce.Model.{SubscriptionPlan, Subscription}
use ketapod_website.Schema.{Db}
use ketapod_website.Store.{World, reads}
use ketapod_website.Store.Reads.{Reads, Reads-pure, Reads-reads, Reads-caught, reads-Keeps}
use ketapod_website.Commerce.Subscriptions.{has_id, get_subscription, with_plan, plan_by_id}
use ketapod_website.Commerce.Subscriptions.Renewal.{
  is_due, insert_due, sort_due, due, RenewalWindow,
}

-- Due, and not among these.
abbrev pub pending : RenewalWindow → ℕ → List Subscription → Subscription → Bool
pending v now list s = is_due v now s && not (any (has_id s.id) list)

-- Nothing is due but what is still to come in this list.
abbrev pub Backlog : RenewalWindow → ℕ → List Subscription → Db → Type 0
Backlog v now list db = (db.now ≡ now) × (any (pending v now list) db.subscriptions ≡ false)

any-insert_due :
    (p : Subscription → Bool) (s : Subscription) (ts : List Subscription)
    → any p (insert_due s ts) ≡ p s || any p ts
any-insert_due p s [] = refl
any-insert_due p s (t ∷ ts) = ground (arith, any-insert_due p s ts)

any-sort_due : (p : Subscription → Bool) (ss : List Subscription) → any p (sort_due ss) ≡ any p ss
any-sort_due p [] = refl
any-sort_due p (s ∷ ss) = any-insert_due p s (sort_due ss) ∙ ap (λ b. p s || b) (any-sort_due p ss)

none_missed :
    (p : Subscription → Bool) (list ss : List Subscription)
    → ((i : ℕ) → any (has_id i) (select p ss) ≡ true → any (has_id i) list ≡ true)
    → any (λ s. p s && not (any (has_id s.id) list)) ss ≡ false
none_missed p list [] h = refl
none_missed p list (s ∷ ss) h = elim (Bool-cases (p s)) [
  | inl hit ↦
      let here : any (has_id s.id) list ≡ true = h s.id (rw (hit, ==_refl s.id) refl) in
      rw (hit, here) (none_missed p list ss (λ i e. h i (rw hit (rw e (ground arith)))))
  | inr miss ↦ rw miss (none_missed p list ss (λ i e. h i (rw miss e)))
]

pub due-Backlog : (v : RenewalWindow) (db : Db) → Backlog v db.now (due v db) db
unfolding due
due-Backlog v db = (
  refl,
  none_missed (is_due v db.now) _ db.subscriptions
      λ i e. any-sort_due (has_id i) (select (is_due v db.now) db.subscriptions) ∙ e,
)

-- What was found has this id.
abbrev pub IsRow : ℕ → Option (Subscription × Option SubscriptionPlan) → Type 0
IsRow i none = Unit {0}
IsRow i (some (c, p)) = c.id ≡ i

with_plan-Reads :
    (i : ℕ) (o : Option Subscription) (w : World)
    → ((c : Subscription) → o ≡ some c → c.id ≡ i)
    → Reads (IsRow i) w.db (with_plan o w)
unfolding with_plan
with_plan-Reads i none w h = Reads-pure _ _ _ _ tt
with_plan-Reads i (some c) w h =
    Reads-caught (IsRow i) (reads (plan_by_id c.plan_id)) _ w (reads-Keeps (plan_by_id c.plan_id) w)
      λ r fs. Reads-pure _ _ _ _ (h c refl)

pub get_subscription-Reads : (i : ℕ) (w : World) → Reads (IsRow i) w.db (get_subscription i w)
unfolding get_subscription
get_subscription-Reads i w = Reads-reads _ _ _ w λ fs.
    with_plan-Reads i (find (has_id i) w.db.subscriptions) _
      λ c e. ground (arith, find_passes (has_id i) w.db.subscriptions e)
