-- ===== src/Jobs/Relay/Follows.antt =====
-- How a row of the outbox may change in a batch of backend/internal/platform/outbox/relay.go.
use ketapod_website.Base.{
  ℕ, suc, ◌≤◌, ◌≡◌, ◌∙◌, inl, inr, refl, sym, Bool, true, List, [], ◌∷◌, any, ◌==◌, arith,
  Bool-cases, update_where, leb, ==_iff,
}
use mathlib.Core.Path.{subst}
use ketapod_website.Jobs.{to_dispatched, to_failed_attempt}
use ketapod_website.Jobs.Model.{OutboxRow, pending, dispatched, failed}

abbrev pub is_sent : List OutboxRow → ℕ → Bool
is_sent sent i = any (λ r. r.id == i) sent

-- How a row came to its status.
pub data Cause (max : ℕ) (sent : List OutboxRow) (x y : OutboxRow) : Type 0 where
  waits : y.status ≡ pending → Cause max sent x y
  as_before : y.status ≡ x.status → Cause max sent x y
  was_sent : y.status ≡ dispatched → is_sent sent x.id ≡ true → Cause max sent x y
  gave_up : y.status ≡ failed → max ≤ y.attempts → Cause max sent x y

-- The row `y` after a batch stands for the job of the row `x` before it.
pub record Follows (max : ℕ) (sent : List OutboxRow) (x y : OutboxRow) : Type 0 where
  pub same_id : y.id ≡ x.id
  pub same_type : y.task_type ≡ x.task_type
  pub same_payload : y.payload ≡ x.payload
  pub more_attempts : x.attempts ≤ y.attempts
  pub reason : Cause max sent x y

-- Row for row.
pub data Zip (R : OutboxRow → OutboxRow → Type 0) : List OutboxRow → List OutboxRow → Type 0 where
  nil : Zip R [] []
  cons : {x y : OutboxRow} {xs ys : List OutboxRow} → R x y → Zip R xs ys → Zip R (x ∷ xs) (y ∷ ys)

module _ (max : ℕ) (sent : List OutboxRow) where
  Follows-refl : (x : OutboxRow) → Follows max sent x x
  Follows-refl x = record {
    same_id = refl;
    same_type = refl;
    same_payload = refl;
    more_attempts = omega arith;
    reason = as_before refl;
  }

  Cause-trans :
      (x y z : OutboxRow)
      → y.id ≡ x.id
      → y.attempts ≤ z.attempts
      → Cause max sent x y
      → Cause max sent y z
      → Cause max sent x z
  Cause-trans x y z i a r (waits e) = waits e
  Cause-trans x y z i a r (was_sent e s) = was_sent e (subst (λ k. is_sent sent k ≡ true) i s)
  Cause-trans x y z i a r (gave_up e m) = gave_up e m
  Cause-trans x y z i a (waits d) (as_before e) = waits (e ∙ d)
  Cause-trans x y z i a (as_before d) (as_before e) = as_before (e ∙ d)
  Cause-trans x y z i a (was_sent d s) (as_before e) = was_sent (e ∙ d) s
  Cause-trans x y z i a (gave_up d m) (as_before e) = gave_up (e ∙ d) (omega arith)

  Follows-trans :
      (x y z : OutboxRow) → Follows max sent x y → Follows max sent y z → Follows max sent x z
  Follows-trans x y z f g = record {
    same_id = g.same_id ∙ f.same_id;
    same_type = g.same_type ∙ f.same_type;
    same_payload = g.same_payload ∙ f.same_payload;
    more_attempts = omega (arith, f.more_attempts, g.more_attempts);
    reason = Cause-trans x y z f.same_id g.more_attempts f.reason g.reason;
  }

  pub Zip-refl : (xs : List OutboxRow) → Zip (Follows max sent) xs xs
  Zip-refl [] = nil
  Zip-refl (x ∷ xs) = cons (Follows-refl x) (Zip-refl xs)

  pub Zip-trans :
      {xs ys zs : List OutboxRow}
      → Zip (Follows max sent) xs ys
      → Zip (Follows max sent) ys zs
      → Zip (Follows max sent) xs zs
  Zip-trans nil nil = nil
  Zip-trans (cons f fs) (cons g gs) = cons (Follows-trans _ _ _ f g) (Zip-trans fs gs)

  pub Zip-update_where :
      (i : ℕ) (f : OutboxRow → OutboxRow)
      → ((x : OutboxRow) → x.id ≡ i → Follows max sent x (f x))
      → (xs : List OutboxRow) → Zip (Follows max sent) xs (update_where (λ r. r.id == i) f xs)
  Zip-update_where i f h [] = nil
  Zip-update_where i f h (x ∷ xs) = elim (Bool-cases (x.id == i)) [
    | inl e ↦ rw e (cons (h x ((==_iff x.id i).0 e)) (Zip-update_where i f h xs))
    | inr e ↦ rw e (cons (Follows-refl x) (Zip-update_where i f h xs))
  ]

  pub to_dispatched-Follows :
      (now i : ℕ) (x : OutboxRow)
      → is_sent sent i ≡ true
      → x.id ≡ i
      → Follows max sent x (to_dispatched now x)
  to_dispatched-Follows now i x s e = record {
    same_id = refl;
    same_type = refl;
    same_payload = refl;
    more_attempts = omega arith;
    reason = was_sent refl (subst (λ k. is_sent sent k ≡ true) (sym e) s);
  }

  pub to_failed_attempt-Follows :
      (now cause : ℕ) (x : OutboxRow) → Follows max sent x (to_failed_attempt now max cause x)
  to_failed_attempt-Follows now cause x = record {
    same_id = refl;
    same_type = refl;
    same_payload = refl;
    more_attempts = omega arith;
    reason = elim (Bool-cases (leb max (suc x.attempts))) [
      | inl e ↦ gave_up (rw e) (ground arith)
      | inr e ↦ waits (rw e)
    ];
  }
