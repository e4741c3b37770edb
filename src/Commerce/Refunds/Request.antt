-- ===== src/Commerce/Refunds/Request.antt =====
-- Which refunds `RequestRefund` accepts.
use ketapod_website.Base.{
  ℕ, suc, ◌+◌, ◌≤◌, ◌≡◌, refl, false, Option, none, some, List, [], ◌∷◌, arith, All,
}
use mathlib.Core.Path.{subst}
use ketapod_website.Base.Int.{ℤ, pos, ◌<ℤ◌}
use ketapod_website.Commerce.Model.{OrderStatus, Order, OrderItem, RefundStatus, Refund, Edition}
use ketapod_website.Schema.{Error, Db}
use ketapod_website.Store.{ok, World, or_fail}
use ketapod_website.Store.Rules.{Ensures, Ensures-ok, Ensures-query, Ensures-raise_if}
use ketapod_website.Store.Reads.{
  or_fail-ok, Reads, Reads-pure, Reads-reads, Reads-lift, Reads-raise_if, Reads-map, Ensures-Reads,
}
use ketapod_website.Commerce.Purchase.{order_by_id, items_of, get_order}
use ketapod_website.Commerce.Refunds.{
  refund_window, heard_too_much, insert_refund, check_listened, check_listening, request_refund,
}

order_items-Reads :
    (i : ℕ) (w : World)
    → Reads
        (λ r. (order_by_id i w.db ≡ some r.0) × (r.1 ≡ items_of r.0.id w.db))
        w.db
        (get_order i w)
unfolding get_order
order_items-Reads i w = Reads-reads _ _ _ w λ fs.
    Reads-lift _ (or_fail Error.not_found (order_by_id i w.db)) _ _ λ o found.
      Reads-reads _ _ _ _
        λ fs'. Reads-pure _ _ _ _ (or_fail-ok Error.not_found (order_by_id i w.db) found, refl)

module _ (editions : ℕ → Option Edition) where
  -- The item's listening time and length are known, and not too much of it was heard.
  pub record IsUnheard (heard : ℕ → ℕ → Option ℤ) (user : ℕ) (i : OrderItem) : Type 0 where
    pub seconds : ℤ
    pub edition : Edition
    pub heard_for : heard user i.edition_id ≡ some seconds
    pub priced : editions i.edition_id ≡ some edition
    pub little : heard_too_much seconds edition.duration ≡ false

  abbrev pub AllUnheard : Option (ℕ → ℕ → Option ℤ) → ℕ → List OrderItem → Type 0
  AllUnheard none user items = Unit {0}
  AllUnheard (some heard) user items = All (IsUnheard heard user) items

  check_listened-Reads :
      (heard : ℕ → ℕ → Option ℤ) (user : ℕ) (items : List OrderItem) (w : World)
      → Reads
          (λ _. All (IsUnheard heard user) items)
          w.db
          (check_listened editions heard user items w)
  unfolding check_listened
  check_listened-Reads heard user [] w = Reads-pure _ _ _ _ tt
  check_listened-Reads heard user (i ∷ is) w =
      Reads-lift _ (or_fail Error.upstream (heard user i.edition_id)) _ _ λ seconds known.
        Reads-lift _ (or_fail Error.upstream (editions i.edition_id)) _ _ λ e found.
          Reads-raise_if _ _ _ _ _ λ little.
            Reads-map _ _ _ _ (check_listened-Reads heard user is w) λ _ rest. (
              record {
                seconds = seconds;
                edition = e;
                heard_for = or_fail-ok Error.upstream (heard user i.edition_id) known;
                priced = or_fail-ok Error.upstream (editions i.edition_id) found;
                little = little;
              },
              rest,
            )

  -- Why a refund was accepted: the order is the buyer's own, paid and recent, and little of it was
  -- heard.
  pub record Eligible (listening : Option (ℕ → ℕ → Option ℤ)) (now user order_id : ℕ) (db : Db)
      (order : Order) : Type 0 where
    pub known : order_by_id order_id db ≡ some order
    pub own : order.user_id ≡ user
    pub paid : order.status ≡ OrderStatus.paid
    pub recent : now ≤ order.created_at + refund_window
    pub unheard : AllUnheard listening user (items_of order.id db)

  check_listening-Reads :
      (listening : Option (ℕ → ℕ → Option ℤ)) (user : ℕ) (items : List OrderItem) (w : World)
      → Reads
          (λ _. AllUnheard listening user items)
          w.db
          (check_listening editions listening user items w)
  unfolding check_listening
  check_listening-Reads none user items w = Reads-pure _ _ _ _ tt
  check_listening-Reads (some heard) user items w = check_listened-Reads heard user items w

  -- What an accepted request has done: one row more in the table of refunds, for the order's total,
  -- which is positive, and nothing else.
  pub record Requested (listening : Option (ℕ → ℕ → Option ℤ)) (now user order_id : ℕ) (db : Db)
      (r : Refund) (d : Db) : Type 0 where
    pub order : Order
    pub eligible : Eligible listening now user order_id db order
    pub positive : pos 0 <ℤ order.total
    pub amount : r.amount ≡ order.total
    pub for_order :
        (r.order_id ≡ order.id) × (r.user_id ≡ user) × (r.status ≡ RefundStatus.requested)
    pub filed : d ≡ record db { next_id = suc db.next_id; refunds = r ∷ db.refunds }

  insert_refund-Requested :
      (listening : Option (ℕ → ℕ → Option ℤ)) (now user order_id : ℕ) (reason : Option ℕ)
      (order : Order) (db d : Db) (r : Refund)
      → Eligible listening now user order_id db order
      → insert_refund order.id user order.total reason db ≡ (ok r, d)
      → Requested listening now user order_id db r d
  unfolding insert_refund
  insert_refund-Requested listening now user order_id reason order db d r e h = record {
    order = order;
    eligible = e;
    positive = ground (arith, h);
    amount = ground (arith, h);
    for_order = (ground (arith, h), ground (arith, h), ground (arith, h));
    filed = ground (arith, h);
  }

  request_refund-Ensures :
      (listening : Option (ℕ → ℕ → Option ℤ)) (now user order_id : ℕ) (reason : Option ℕ)
      (w : World)
      → Ensures
          (λ r d. Requested listening now user order_id w.db r d)
          (request_refund editions listening now user order_id reason w)
  unfolding request_refund
  request_refund-Ensures listening now user order_id reason w =
      Ensures-Reads _ _ w.db _ _ (order_items-Reads order_id w) λ found fs p.
        Ensures-raise_if _ _ _ _ _ λ mine. Ensures-raise_if _ _ _ _ _ λ paid.
          Ensures-raise_if _ _ _ _ _ λ recent.
            Ensures-Reads _ _ w.db _ _ (check_listening-Reads listening user found.1 _)
              λ u fs' heard.
                Ensures-query _ (insert_refund found.0.id user found.0.total reason) _ λ r d h.
                  insert_refund-Requested listening now user order_id reason found.0 w.db d r
                    (record {
                      known = p.0;
                      own = ground arith;
                      paid = ground arith;
                      recent = ground arith;
                      unheard = subst (AllUnheard listening user) p.1 heard;
                    })
                    h

-- A request that succeeds was for an order of this user that is paid, no older than the window
-- and, where listening times are read, heard little of in every item; it files one refund of the
-- order's total, which is positive, and changes nothing else.
pub request_refund_eligible :
    (editions : ℕ → Option Edition) (listening : Option (ℕ → ℕ → Option ℤ)) (now user order_id : ℕ)
    (reason : Option ℕ) (w w' : World) (r : Refund)
    → request_refund editions listening now user order_id reason w ≡ (ok r, w')
    → Requested editions listening now user order_id w.db r w'.db
request_refund_eligible editions listening now user order_id reason w w' r h =
    Ensures-ok _ _ (request_refund-Ensures editions listening now user order_id reason w) h
