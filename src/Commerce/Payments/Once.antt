-- ===== src/Commerce/Payments/Once.antt =====
-- How often `SettleTopUp` credits a payment.
use ketapod_website.Base.{
  ℕ, suc, ◌≤◌, ◌≡◌, ◌≢◌, refl, sym, All, ==_iff, find_passes, inl, inr, not, ◌||◌, Option, some,
  List, [], ◌∷◌, arith, ◌==◌, find, update_where, ==_refl, Bool-cases, Option-cases,
}
use mathlib.Core.Path.{subst}
use native.Mathlib.Decide.{ℕ_discrete}
use ketapod_website.Commerce.Model.{credit, Reason, ReferenceType, Payment}
use ketapod_website.Schema.{Db}
use ketapod_website.Store.{ok, World, in_tx}
use ketapod_website.Store.Rules.{
  Ensures, Keeps, Ensures-query, Ensures-then, Ensures-reads, Ensures-lift, Keeps-query, Keeps-then,
  Keeps-reads, Keeps-lift, Ensures-IsAtomic, in_tx-IsAtomic, in_tx-Ensures, Ensures-pure,
  Keeps-same, Keeps-db,
}
use ketapod_website.Store.Reads.{or_fail-ok}
use ketapod_website.Commerce.Wallet.{with_entry}
use ketapod_website.Commerce.Wallet.Laws.{create_entry-Appended}
use ketapod_website.Commerce.Payments.{
  Provider, is_succeeded, is_pending_row, payment_by_authority, payment_by_id, succeed, fail,
  update_succeeded, update_pending, mark_payment_succeeded, mark_payment_failed, credit_payment,
  settle_locked, settle_unsettled, settle_top_up,
}
use ketapod_website.Commerce.Payments.Entries.{
  entries_for, rows, succeeded_rows, Credits, exact-update, others_apart, exact-entry,
}

-- Payments have their own ids; the ledger has one entry for each payment that has succeeded and none
-- for the others; and an entry for a payment is a credit of its amount to its user.
pub record IsCreditedOnce (db : Db) : Type 0 where
  pub unique : (i : ℕ) → rows i db.payments ≤ 1
  pub once : (i : ℕ) → entries_for i db.ledger ≡ succeeded_rows i db.payments
  pub exact : All (λ p. All (Credits p) db.ledger) db.payments

module _ (i : ℕ) (code : Option ℕ) (entry now : ℕ) where
  rows-succeed :
      (j : ℕ) (ps : List Payment)
      → rows j (update_where (is_pending_row i) (succeed code entry now) ps) ≡ rows j ps
  rows-succeed j [] = refl
  rows-succeed j (p ∷ ps) = ground (arith, rows-succeed j ps)

  succeeded_other :
      (j : ℕ) (ps : List Payment)
      → i ≢ j
      → succeeded_rows j (update_where (is_pending_row i) (succeed code entry now) ps)
        ≡ succeeded_rows j ps
  succeeded_other j [] ne = refl
  succeeded_other j (p ∷ ps) ne = ground (arith, succeeded_other j ps ne)

  succeeded_absent :
      (ps : List Payment)
      → rows i ps ≡ 0
      → succeeded_rows i (update_where (is_pending_row i) (succeed code entry now) ps)
        ≡ succeeded_rows i ps
  succeeded_absent [] h = refl
  succeeded_absent (p ∷ ps) h = ground (arith, succeeded_absent ps)

  succeeded_self :
      (ps : List Payment) {p : Payment}
      → rows i ps ≤ 1
      → find (is_pending_row i) ps ≡ some p
      → succeeded_rows i (update_where (is_pending_row i) (succeed code entry now) ps)
        ≡ suc (succeeded_rows i ps)
  succeeded_self [] h e = cc
  succeeded_self (q ∷ ps) {p} h e = ground (arith, succeeded_absent ps, succeeded_self ps {p = p})

module _ (i : ℕ) (reason : Option ℕ) (now : ℕ) where
  rows-fail :
      (j : ℕ) (ps : List Payment)
      → rows j (update_where (is_pending_row i) (fail reason now) ps) ≡ rows j ps
  rows-fail j [] = refl
  rows-fail j (p ∷ ps) = ground (arith, rows-fail j ps)

  succeeded-fail :
      (j : ℕ) (ps : List Payment)
      → succeeded_rows j (update_where (is_pending_row i) (fail reason now) ps)
        ≡ succeeded_rows j ps
  succeeded-fail j [] = refl
  succeeded-fail j (p ∷ ps) = ground (arith, succeeded-fail j ps)

fail-IsCreditedOnce :
    (i : ℕ) (reason : Option ℕ) (db : Db)
    → IsCreditedOnce db
    → IsCreditedOnce (update_pending i (fail reason db.now) db)
fail-IsCreditedOnce i reason db v = record {
  unique = λ j. rw (rows-fail i reason db.now j db.payments) (v.unique j);
  once = λ j. rw (succeeded-fail i reason db.now j db.payments) (v.once j);
  exact =
      exact-update (is_pending_row i) (fail reason db.now) db.ledger (λ p. (refl, refl, refl))
        db.payments v.exact;
}

module _ (p : Payment) (code : Option ℕ) (entry : ℕ) (db : Db) where
  abbrev credited : Db
  credited =
      (with_entry p.user_id credit p.amount Reason.top_up ReferenceType.payment (some p.id) db).1

  abbrev marked : Db → Db
  marked = update_pending p.id (succeed code entry db.now)

  once_self :
      {q : Payment}
      → IsCreditedOnce db
      → find (is_pending_row p.id) db.payments ≡ some q
      → entries_for p.id (marked credited).ledger ≡ succeeded_rows p.id (marked credited).payments
  unfolding with_entry
  once_self v e =
      rw (==_refl p.id, v.once p.id)
        (sym (succeeded_self p.id code entry db.now db.payments (v.unique p.id) e))

  once_other :
      (j : ℕ)
      → IsCreditedOnce db
      → p.id ≢ j
      → entries_for j (marked credited).ledger ≡ succeeded_rows j (marked credited).payments
  unfolding with_entry
  once_other j v ne =
      ground (arith, succeeded_other p.id code entry db.now j db.payments ne, v.once j)

  -- The entry and the mark together keep the count; each alone would not.
  succeed-IsCreditedOnce :
      {q : Payment}
      → IsCreditedOnce db
      → payment_by_id p.id db ≡ some p
      → find (is_pending_row p.id) db.payments ≡ some q
      → IsCreditedOnce (marked credited)
  unfolding with_entry payment_by_id
  succeed-IsCreditedOnce v own e = record {
    unique = λ j. rw (rows-succeed p.id code entry db.now j db.payments) (v.unique j);
    once = λ j. elim (ℕ_discrete p.id j) [
      | yes same ↦
          subst
            (λ k.
              entries_for k (marked credited).ledger ≡ succeeded_rows k (marked credited).payments)
            same (once_self v e)
      | no other ↦ once_other j v other
    ];
    exact =
        exact-update (is_pending_row p.id) (succeed code entry db.now) credited.ledger
          (λ q. (refl, refl, refl)) db.payments
          (exact-entry p
            (with_entry p.user_id credit p.amount Reason.top_up ReferenceType.payment (some p.id)
              db).0
            db.ledger (refl, refl, refl, refl, refl) db.payments
            (others_apart p.id p db.payments (v.unique p.id) own) v.exact);
  }

update_succeeded-ok :
    (i : ℕ) (code : Option ℕ) (entry : ℕ) (db d : Db) (q : Payment)
    → update_succeeded i code entry db ≡ (ok q, d)
    → (p : Payment) × (find (is_pending_row i) db.payments ≡ some p)
      × (d ≡ update_pending i (succeed code entry db.now) db)
unfolding update_succeeded
update_succeeded-ok i code entry db d q e =
    elim (Option-cases (find (is_pending_row i) db.payments)) [
      | inl missing ↦ absurd (ground arith)
      | inr (p, hit) ↦ (p, hit, ground arith)
    ]

mark-IsCreditedOnce :
    (p : Payment) (code : Option ℕ) (entry : ℕ) (db d : Db) (q : Payment)
    → IsCreditedOnce db
    → payment_by_id p.id db ≡ some p
    → update_succeeded p.id code entry (credited p code entry db) ≡ (ok q, d)
    → IsCreditedOnce d
unfolding with_entry
mark-IsCreditedOnce p code entry db d q v own e =
    let (x, hit, after) = update_succeeded-ok p.id code entry (credited p code entry db) d q e in
    subst IsCreditedOnce (sym after) (succeed-IsCreditedOnce p code entry db v own hit)

credit_payment-Ensures :
    (p : Payment) (code : Option ℕ) (w : World)
    → IsCreditedOnce w.db
    → payment_by_id p.id w.db ≡ some p
    → Ensures (λ q d. IsCreditedOnce d) (credit_payment p code w)
unfolding credit_payment mark_payment_succeeded
credit_payment-Ensures p code w v own = elim (Bool-cases (is_succeeded p.status)) [
  | inl done ↦ rw done (Ensures-pure _ p w v)
  | inr due ↦ rw due (
      Ensures-then _ _ _ _
        (create_entry-Appended p.user_id p.amount Reason.top_up ReferenceType.payment (some p.id)
          credit w)
        λ entry w' made. Ensures-query _ _ w' λ q d e.
          mark-IsCreditedOnce p code entry.id w.db d q v own
            (subst (λ x. update_succeeded p.id code entry.id x ≡ (ok q, d)) made.2 e))
]

-- A row that is found by an id is found by its own id.
own_row :
    (i : ℕ) (p : Payment) (db : Db) → payment_by_id i db ≡ some p → payment_by_id p.id db ≡ some p
unfolding payment_by_id
own_row i p db e =
    let same : p.id ≡ i =
      (==_iff p.id i).0 (find_passes (λ (q : Payment). q.id == i) db.payments e) in
    subst (λ j. find (λ (q : Payment). q.id == j) db.payments ≡ some p) (sym same) e

settle_locked-Keeps :
    (i : ℕ) (code : Option ℕ) (w : World)
    → IsCreditedOnce w.db
    → Keeps IsCreditedOnce (in_tx (settle_locked i code) w)
unfolding settle_locked
settle_locked-Keeps i code w v =
    Ensures-IsAtomic IsCreditedOnce w.db _
      (in_tx-Ensures _ (settle_locked i code) w (
        Ensures-reads _ _ _ w λ fs.
          Ensures-lift _ _ _ _
            λ p e. credit_payment-Ensures p code _ v (own_row i p w.db (or_fail-ok _ _ e))))
      (in_tx-IsAtomic (settle_locked i code) w) v

settle_unsettled-Keeps :
    (g : Provider) (authority : Option ℕ) (p : Payment) (w : World)
    → IsCreditedOnce w.db
    → Keeps IsCreditedOnce (settle_unsettled g authority p w)
unfolding settle_unsettled mark_payment_failed
settle_unsettled-Keeps g authority p w v =
    let answer = g.verify authority p.amount in
    elim (Bool-cases (answer.failed || not answer.succeeded)) [
      | inl bad ↦ rw bad (
          Keeps-then IsCreditedOnce _ _
            (Keeps-query IsCreditedOnce _ w v (fail-IsCreditedOnce p.id _ w.db v))
            (λ _ w' k. Keeps-same IsCreditedOnce _ w' k))
      | inr good ↦ rw good (settle_locked-Keeps p.id answer.reference_code w v)
    ]

settle_top_up-Keeps :
    (g : Provider) (provider : ℕ) (authority : Option ℕ) (w : World)
    → IsCreditedOnce w.db
    → Keeps IsCreditedOnce (settle_top_up g provider authority w)
unfolding settle_top_up
settle_top_up-Keeps g provider authority w v =
    Keeps-reads IsCreditedOnce (payment_by_authority provider authority) _ w v λ fs.
      Keeps-lift IsCreditedOnce _ _ _ v λ p e. elim (Bool-cases (is_succeeded p.status)) [
        | inl done ↦ rw done (Keeps-same IsCreditedOnce _ _ v)
        | inr due ↦ rw due (settle_unsettled-Keeps g authority p _ v)
      ]

-- However a callback ends, and whatever the gateway answers, every payment that has succeeded has
-- one entry in the ledger, a credit of its amount to its user, and the others have none, if that was
-- so before. The ids of payments are unique before, and so they are after.
pub settle_top_up-IsCreditedOnce :
    (g : Provider) (provider : ℕ) (authority : Option ℕ) (w : World)
    → IsCreditedOnce w.db
    → IsCreditedOnce (settle_top_up g provider authority w).1.db
settle_top_up-IsCreditedOnce g provider authority w v =
    Keeps-db IsCreditedOnce _ (settle_top_up-Keeps g provider authority w v)
