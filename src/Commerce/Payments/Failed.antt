-- ===== src/Commerce/Payments/Failed.antt =====
-- What `SettleTopUp` does with a payment that was marked as failed.
use ketapod_website.Base.{
  ℕ, ◌≡◌, ◌≢◌, refl, sym, ap, inl, inr, true, false, not, ◌||◌, Option, none, some, arith, find,
  Bool-cases,
}
use mathlib.Core.Path.{subst}
use ketapod_website.Base.Int.{ℤ}
use ketapod_website.Commerce.Model.{credit, Reason, ReferenceType, PaymentStatus, Payment}
use ketapod_website.Schema.{Error, Db}
use ketapod_website.Store.{ok, World, or_fail, raise}
use ketapod_website.Store.Rules.{
  Ensures, Ensures-query, Ensures-then, Ensures-reads, Ensures-lift, Ensures-any, Ensures-err,
  Ensures-ok, in_tx-Ensures,
}
use ketapod_website.Store.Reads.{or_fail-ok}
use ketapod_website.Commerce.Wallet.{with_entry}
use ketapod_website.Commerce.Wallet.Laws.{create_entry-Appended}
use ketapod_website.Commerce.Payments.{
  Provider, is_succeeded, is_pending_row, payment_by_authority, payment_by_id, update_succeeded,
  mark_payment_succeeded, mark_payment_failed, reason_of, verification_failed, credit_payment,
  settle_locked, settle_unsettled, settle_top_up,
}

-- The payment of this id is failed, and no row of that id is pending.
pub record IsFailed (p : Payment) (db : Db) : Type 0 where
  pub known : payment_by_id p.id db ≡ some p
  pub failed : p.status ≡ PaymentStatus.failed
  pub none_pending : find (is_pending_row p.id) db.payments ≡ none

-- Nothing succeeds.
abbrev Never : Payment → Db → Type 0
Never p d = true ≡ false

mark-Never :
    (i entry : ℕ) (code : Option ℕ) (w : World)
    → find (is_pending_row i) w.db.payments ≡ none
    → Ensures Never (mark_payment_succeeded i code entry w)
unfolding mark_payment_succeeded update_succeeded
mark-Never i entry code w h =
    Ensures-query Never (update_succeeded i code entry) w λ p d e. absurd (ground (arith, h, e))

entry_keeps_payments :
    (u : ℕ) (a : ℤ) (i : ℕ) (db : Db)
    → (with_entry u credit a Reason.top_up ReferenceType.payment (some i) db).1.payments
      ≡ db.payments
unfolding with_entry
entry_keeps_payments u a i db = refl

credit_payment-Never :
    (p : Payment) (code : Option ℕ) (w : World)
    → IsFailed p w.db
    → Ensures Never (credit_payment p code w)
unfolding credit_payment
credit_payment-Never p code w h =
    let fresh : is_succeeded p.status ≡ false = ap is_succeeded h.failed in
    rw fresh (
      Ensures-then _ _ _ _
        (create_entry-Appended p.user_id p.amount Reason.top_up ReferenceType.payment (some p.id)
          credit w)
        λ e w' q. mark-Never p.id e.id code w' (
          subst (λ (d : Db). find (is_pending_row p.id) d.payments ≡ none) (sym q.2)
            (rw (entry_keeps_payments p.user_id p.amount p.id w.db) h.none_pending)))

settle_unsettled-Never :
    (g : Provider) (authority : Option ℕ) (p : Payment) (w : World)
    → IsFailed p w.db
    → Ensures Never (settle_unsettled g authority p w)
unfolding settle_unsettled settle_locked
settle_unsettled-Never g authority p w h =
    let v = g.verify authority p.amount in
    elim (Bool-cases (v.failed || not v.succeeded)) [
      | inl bad ↦ rw bad (
          Ensures-then (λ _ _. Unit {0}) Never
            (mark_payment_failed p.id (reason_of verification_failed v) w)
            (λ u. raise Error.payment_verification_failed) (Ensures-any _)
            λ u w' q. Ensures-err Never _ w')
      | inr good ↦ rw good (
          in_tx-Ensures Never _ w (
            Ensures-reads _ _ _ w λ fs.
              Ensures-lift _ (or_fail Error.not_found (payment_by_id p.id w.db)) _ _ λ q e.
                let same : p ≡ q =
                  ground (arith, h.known, or_fail-ok Error.not_found (payment_by_id p.id w.db) e) in
                subst
                  (λ x.
                    Ensures Never
                      (credit_payment x v.reference_code (record { db = w.db; faults = fs })))
                  same (credit_payment-Never p v.reference_code _ h)))
    ]

-- Where the authority leads to a payment whose row is failed, and no row of its id is pending, no
-- callback succeeds, whatever the gateway answers.
pub failed_payment_stays :
    (g : Provider) (provider : ℕ) (authority : Option ℕ) (p r : Payment) (w w' : World)
    → payment_by_authority provider authority w.db ≡ some p
    → IsFailed p w.db
    → settle_top_up g provider authority w ≢ (ok r, w')
unfolding settle_top_up
failed_payment_stays g provider authority p r w w' found h e = absurd (
    cc (
      Ensures-ok Never _
        (Ensures-reads _ _ _ w λ fs.
          Ensures-lift _ (or_fail Error.not_found (payment_by_authority provider authority w.db)) _
            _
            λ q e'.
              let same : p ≡ q = ground (
                arith,
                found,
                or_fail-ok Error.not_found (payment_by_authority provider authority w.db) e',
              ) in
              let fresh : is_succeeded q.status ≡ false =
                subst (λ (x : Payment). is_succeeded x.status ≡ false) same
                  (ap is_succeeded h.failed) in
              rw fresh
                (settle_unsettled-Never g authority q _ (subst (λ x. IsFailed x w.db) same h)))
        e))
