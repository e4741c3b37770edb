-- ===== src/Commerce/Refunds/Laws.antt =====
-- What resolving a refund does: `ApproveRefund` and `RejectRefund`.
use ketapod_website.Base.{
  ℕ, ◌≡◌, ◌≢◌, ◌⊎◌, refl, sym, ap, ◌∙◌, inl, inr, Bool, true, false, not, ◌&&◌, Option, none, some,
  List, [], ◌∷◌, arith, ◌==◌, holds, find, any, update_where, Bool-cases, Option-cases,
}
use mathlib.Core.Path.{subst}
use ketapod_website.Base.Int.{ℤ, pos, ◌+ℤ◌, ◌≤ℤ◌, ◌<ℤ◌, ltb_ℤ, int_laws}
use ketapod_website.Commerce.Model.{
  credit, Reason, ReferenceType, LedgerEntry, OrderStatus, Order, Entitlement, RefundStatus, Refund,
}
use ketapod_website.Schema.{Error, Db}
use ketapod_website.Store.{ok, err, World, or_fail, query}
use ketapod_website.Store.Rules.{
  Ensures, Ensures-query, Ensures-then, Ensures-reads, Ensures-lift, Ensures-pure, Ensures-ok,
  IsAtomic-err, in_tx-IsAtomic, in_tx-Ensures,
}
use ketapod_website.Store.Reads.{or_fail-ok}
use ketapod_website.Commerce.Wallet.{balance, with_entry}
use ketapod_website.Commerce.Wallet.Laws.{create_entry-Appended, with_entry-balance}
use ketapod_website.Commerce.Entitlements.{is_none, revoke_for_order}
use ketapod_website.Commerce.Refunds.{
  is_requested, refund_by_id, resolve, update_resolved, resolve_refund, refund_order,
  update_refunded, credit_refund, settle_refund, approve_refund, reject_refund,
}

module _ {A : Type 0} (p : A → Bool) where
  any_found : (xs : List A) {x : A} → find p xs ≡ some x → any p xs ≡ true
  any_found [] h = cc
  any_found (y ∷ ys) {x} h = ground (arith, any_found ys {x = x})

  none_found : (xs : List A) → any p xs ≡ false → find p xs ≡ none
  none_found [] h = refl
  none_found (y ∷ ys) h = ground (arith, none_found ys)

-- An unrevoked entitlement that this order gave.
abbrev pub still_given : ℕ → Entitlement → Bool
still_given order e = holds e.source_id order && is_none e.revoked_at

abbrev is_refunded : OrderStatus → Bool
is_refunded OrderStatus.refunded = true
is_refunded _ = false

abbrev pub is_open_order : ℕ → Order → Bool
is_open_order i o = o.id == i && not (is_refunded o.status)

-- The user of a refund has its amount more, if that is positive, and nobody else anything.
pub record Raised (u : ℕ) (a : ℤ) (before after : List LedgerEntry) : Type 0 where
  pub positive : pos 0 <ℤ a
  pub raised : balance u after ≡ a +ℤ balance u before
  pub others : (v : ℕ) → v ≢ u → balance v after ≡ balance v before

abbrev pub Credited : Refund → List LedgerEntry → List LedgerEntry → Type 0
Credited r before after =
    ((r.amount ≤ℤ pos 0) × (after ≡ before)) ⊎ Raised r.user_id r.amount before after

-- What approving a refund has done: it was still requested and is no longer; its user is
-- credited with its amount, and nobody else with anything; nothing that the order gave is still given, and no row of
-- the order is other than refunded.
pub record Refunded (i : ℕ) (refund : Refund) (db d : Db) : Type 0 where
  pub known : refund_by_id i db ≡ some refund
  pub was_requested : any (is_requested i) db.refunds ≡ true
  pub resolved : any (is_requested i) d.refunds ≡ false
  pub credited : Credited refund db.ledger d.ledger
  pub revoked : any (still_given refund.order_id) d.entitlements ≡ false
  pub closed : any (is_open_order refund.order_id) d.orders ≡ false

-- What resolving it has done to the tables.
update_resolved-Ensures :
    (i admin : ℕ) (s : RefundStatus) (db d : Db) (r : Refund)
    → update_resolved i s admin db ≡ (ok r, d)
    → (any (is_requested i) db.refunds ≡ true)
      × (d ≡ record db { refunds = update_where (is_requested i) (resolve s admin) db.refunds })
unfolding update_resolved
update_resolved-Ensures i admin s db d r h =
    elim (Option-cases (find (is_requested i) db.refunds)) [
      | inl none_left ↦ absurd (ground (arith, h))
      | inr (q, hit) ↦ (any_found (is_requested i) db.refunds hit, ground arith)
    ]

closed_update :
    (i : ℕ) (os : List Order)
    → any (is_open_order i) (update_where (λ o. o.id == i) refund_order os) ≡ false
closed_update i [] = refl
closed_update i (o ∷ os) = ground (arith, closed_update i os)

revoked_update :
    (order now : ℕ) (es : List Entitlement)
    → any
        (still_given order)
        (update_where (still_given order) (λ e. record e { revoked_at = some now }) es)
      ≡ false
revoked_update order now [] = refl
revoked_update order now (e ∷ es) = ground (arith, revoked_update order now es)

requested_update :
    (i admin : ℕ) (rs : List Refund)
    → any (is_requested i) (update_where (is_requested i) (resolve RefundStatus.approved admin) rs)
      ≡ false
requested_update i admin [] = refl
requested_update i admin (r ∷ rs) = ground (arith, requested_update i admin rs)

with_entry-Raised :
    (u : ℕ) (a : ℤ) (r : Reason) (t : ReferenceType) (i : Option ℕ) (db : Db)
    → pos 0 <ℤ a
    → Raised u a db.ledger (with_entry u credit a r t i db).1.ledger
with_entry-Raised u a r t i db p = record {
  positive = p;
  raised = grind (int_laws, with_entry-balance u credit a r t i db u);
  others = λ v ne. ground (arith, with_entry-balance u credit a r t i db v);
}

-- What the credit leaves of the other tables.
pub record SameRest (db d : Db) : Type 0 where
  pub refunds : d.refunds ≡ db.refunds
  pub orders : d.orders ≡ db.orders

after_entry-SameRest :
    (u : ℕ) (a : ℤ) (r : Reason) (t : ReferenceType) (i : Option ℕ) (db : Db)
    → SameRest db (with_entry u credit a r t i db).1
unfolding with_entry
after_entry-SameRest u a r t i db = record { refunds = refl; orders = refl }

credit_refund-Ensures :
    (r : Refund) (w : World)
    → Ensures (λ _ d. Credited r w.db.ledger d.ledger × SameRest w.db d) (credit_refund r w)
unfolding credit_refund
credit_refund-Ensures r w = elim (Bool-cases (ltb_ℤ (pos 0) r.amount)) [
  | inl due ↦ rw due (
      Ensures-then _ _ _ _
        (create_entry-Appended r.user_id r.amount Reason.refund ReferenceType.refund (some r.id)
          credit w)
        λ e w' h. Ensures-pure _ _ w' (
          subst (λ d. Credited r w.db.ledger d.ledger × SameRest w.db d) (sym h.2)
            (
              inr (
                  with_entry-Raised r.user_id r.amount Reason.refund ReferenceType.refund
                    (some r.id) w.db h.0),
              after_entry-SameRest r.user_id r.amount Reason.refund ReferenceType.refund (some r.id)
                  w.db,
            )))
  | inr worthless ↦
      rw worthless
        (Ensures-pure _ _ w (inl (ground arith, refl), record { refunds = refl; orders = refl }))
]

-- The statements of the transaction, one after the other.
Refunded-join :
    (i admin : ℕ) (r : Refund) (db d1 d2 d3 d4 : Db)
    → refund_by_id i db ≡ some r
    → (any (is_requested i) db.refunds ≡ true)
      × (d1 ≡ record db {
        refunds = update_where (is_requested i) (resolve RefundStatus.approved admin) db.refunds;
      })
    → Credited r d1.ledger d2.ledger × SameRest d1 d2
    → d3 ≡ revoke_for_order r.order_id d2
    → d4 ≡ update_refunded r.order_id d3
    → Refunded i r db d4
unfolding revoke_for_order update_refunded
Refunded-join i admin r db d1 d2 d3 d4 found h1 h2 h3 h4 =
    let rows : d4.refunds
        ≡ update_where (is_requested i) (resolve RefundStatus.approved admin) db.refunds =
      ap (λ (q : Db). q.refunds) h4
      ∙ ap (λ (q : Db). q.refunds) h3
      ∙ h2.1.refunds
      ∙ ap (λ (q : Db). q.refunds) h1.1 in
    let money : d4.ledger ≡ d2.ledger =
      ap (λ (q : Db). q.ledger) h4 ∙ ap (λ (q : Db). q.ledger) h3 in
    let grants : d4.entitlements ≡ (revoke_for_order r.order_id d2).entitlements =
      ap (λ (q : Db). q.entitlements) h4 ∙ ap (λ (q : Db). q.entitlements) h3 in
    record {
      known = found;
      was_requested = h1.0;
      resolved =
          subst (λ rs. any (is_requested i) rs ≡ false) (sym rows)
            (requested_update i admin db.refunds);
      credited =
          subst (λ l. Credited r l d4.ledger) (ap (λ (q : Db). q.ledger) h1.1)
            (subst (Credited r d1.ledger) (sym money) h2.0);
      revoked =
          subst (λ es. any (still_given r.order_id) es ≡ false) (sym grants)
            (revoked_update r.order_id d2.now d2.entitlements);
      closed =
          subst (λ (q : Db). any (is_open_order r.order_id) q.orders ≡ false) (sym h4)
            (closed_update r.order_id d3.orders);
    }

-- A statement that only changes the tables.
ran_lem :
    (f : Db → Db) (w : World)
    → Ensures (λ (_ : Unit {0}) d. d ≡ f w.db) (query (λ db. (ok tt, f db)) w)
ran_lem f w = Ensures-query (λ _ d. d ≡ f w.db) (λ db. (ok tt, f db)) w λ a d e. ground arith

settle_refund-Ensures :
    (admin i : ℕ) (w : World)
    → Ensures (λ r d. (refund : Refund) × Refunded i refund w.db d) (settle_refund admin i w)
unfolding settle_refund resolve_refund
settle_refund-Ensures admin i w = Ensures-reads _ _ _ w λ fs.
    Ensures-lift _ (or_fail Error.not_found (refund_by_id i w.db)) _ _ λ refund found.
      Ensures-then _ _ _ _
        (Ensures-query _ (update_resolved i RefundStatus.approved admin) _
          (λ r d e. update_resolved-Ensures i admin RefundStatus.approved w.db d r e))
        λ r w1 h1. Ensures-then _ _ _ _ (credit_refund-Ensures refund w1) λ u w2 h2.
          Ensures-then _ _ _ _ (ran_lem _ w2) λ u' w3 h3.
            Ensures-then _ _ _ _ (ran_lem _ w3) λ u'' w4 h4. Ensures-pure _ _ w4 (
              refund,
              Refunded-join i admin refund w.db w1.db w2.db w3.db w4.db
                  (or_fail-ok Error.not_found (refund_by_id i w.db) found) h1 h2 h3 h4,
            )

-- An approval that succeeds resolves a refund that was still requested, credits its user with its
-- amount, if that is positive, and nobody else, leaves no entitlement that the order gave
-- unrevoked, and no row of the order that is not refunded.
pub approve_refund_settles :
    (admin i : ℕ) (w w' : World) (r : Refund)
    → approve_refund admin i w ≡ (ok r, w')
    → (refund : Refund) × Refunded i refund w.db w'.db
unfolding approve_refund
approve_refund_settles admin i w w' r h =
    Ensures-ok _ _ (in_tx-Ensures _ (settle_refund admin i) w (settle_refund-Ensures admin i w)) h

reject_refund-Ensures :
    (admin i : ℕ) (w : World)
    → Ensures (λ r d. any (is_requested i) w.db.refunds ≡ true) (reject_refund admin i w)
unfolding reject_refund resolve_refund
reject_refund-Ensures admin i w =
    Ensures-query _ (update_resolved i RefundStatus.rejected admin) w
      λ r d e. (update_resolved-Ensures i admin RefundStatus.rejected w.db d r e).0

-- At the tables that an approval of a refund left, neither a second approval of it nor a
-- rejection succeeds.
pub refund_resolved_once :
    (admin admin' i : ℕ) (w w' w2 w3 : World) (r r' : Refund)
    → approve_refund admin i w ≡ (ok r, w')
    → w2.db ≡ w'.db
    → (approve_refund admin' i w2 ≢ (ok r', w3)) × (reject_refund admin' i w2 ≢ (ok r', w3))
refund_resolved_once admin admin' i w w' w2 w3 r r' h e =
    let gone : any (is_requested i) w2.db.refunds ≡ false =
      subst (λ (d : Db). any (is_requested i) d.refunds ≡ false) (sym e)
        (approve_refund_settles admin i w w' r h).1.resolved in
    (
      λ again.
          let (refund, p) = approve_refund_settles admin' i w2 w3 r' again in
          absurd (cc (gone, p.was_requested)),
      λ no. absurd (cc (gone, Ensures-ok _ _ (reject_refund-Ensures admin' i w2) no)),
    )

-- An approval that fails has changed nothing.
pub approve_refund_is_atomic :
    (admin i : ℕ) (w w' : World) (e : Error) → approve_refund admin i w ≡ (err e, w') → w'.db ≡ w.db
unfolding approve_refund
approve_refund_is_atomic admin i w w' e h =
    IsAtomic-err w.db _ (in_tx-IsAtomic (settle_refund admin i) w) h
