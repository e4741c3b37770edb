-- ===== src/Commerce/Wallet/Lock.antt =====
-- Concurrent debits of one wallet: the statements of `debitLocked` in
-- backend/internal/commerce/service.go, interleaved over any number of transactions under the
-- advisory lock of `LockWallet`, which a transaction holds until it ends. A transaction reads what
-- is committed; credits come without the lock.
use ketapod_website.Base.{
  ℕ, ◌≡◌, ◌≢◌, sym, ap, ◌∙◌, inl, inr, Option, some, none, arith, Bool-cases, ◌==◌, if◌then◌else◌,
}
use mathlib.Core.Path.{subst}
use ketapod_website.Base.Int.{ℤ, pos, ◌+ℤ◌, ◌-ℤ◌, ◌≤ℤ◌, ◌<ℤ◌, int_laws}

-- How far the debit of one transaction has come.
pub data Phase : Type 0 where
  waiting : ℤ → Phase
  locked : ℤ → Phase
  -- the amount, and the balance that was read
  checked : ℤ → ℤ → Phase
  committed refused : Phase

pub record Wallet : Type 0 where
  pub funds : ℤ
  pub holder : Option ℕ
  pub phase : ℕ → Phase

abbrev pub at_phase : (ℕ → Phase) → ℕ → Phase → ℕ → Phase
at_phase f t p s = if t == s then p else f s

-- One statement of one transaction, or a credit from outside.
pub data Step (w : Wallet) (w' : Wallet) : Type 0 where
  take_lock :
      (t : ℕ) (a : ℤ)
      → w.phase t ≡ waiting a
      → pos 0 <ℤ a
      → w.holder ≡ none
      → w' ≡ record w { holder = some t; phase = at_phase w.phase t (locked a) }
      → Step w w'
  read_balance :
      (t : ℕ) (a : ℤ)
      → w.phase t ≡ locked a
      → w' ≡ record w { phase = at_phase w.phase t (checked a w.funds) }
      → Step w w'
  refuse :
      (t : ℕ) (a b : ℤ)
      → w.phase t ≡ checked a b
      → b <ℤ a
      → w' ≡ record w { holder = none; phase = at_phase w.phase t refused }
      → Step w w'
  commit :
      (t : ℕ) (a b : ℤ)
      → w.phase t ≡ checked a b
      → a ≤ℤ b
      → w' ≡ record w { funds = w.funds -ℤ a; holder = none; phase = at_phase w.phase t committed }
      → Step w w'
  -- a statement or the connection fails while the lock is held: the transaction rolls back
  abort :
      (t : ℕ)
      → w.holder ≡ some t
      → w' ≡ record w { holder = none; phase = at_phase w.phase t refused }
      → Step w w'
  receive : (a : ℤ) → pos 0 <ℤ a → w' ≡ record w { funds = w.funds +ℤ a } → Step w w'

pub data Reach (w : Wallet) : Wallet → Type 0 where
  here : Reach w w
  next : {u v : Wallet} → Reach w u → Step u v → Reach w v

-- What a transaction in this phase relies on.
abbrev Holds : Option ℕ → ℤ → ℕ → Phase → Type 0
Holds holder funds t (waiting a) = Unit {0}
Holds holder funds t (locked a) = holder ≡ some t
Holds holder funds t (checked a b) = (holder ≡ some t) × (b ≤ℤ funds)
Holds holder funds t committed = Unit {0}
Holds holder funds t refused = Unit {0}

record Inv (w : Wallet) : Type 0 where
  covered : pos 0 ≤ℤ w.funds
  owned : (t : ℕ) → Holds w.holder w.funds t (w.phase t)

free_Holds : (h : Option ℕ) (f g : ℤ) (s : ℕ) (p : Phase) → Holds none f s p → Holds h g s p
free_Holds h f g s (waiting a) k = tt
free_Holds h f g s (locked a) k = cc
free_Holds h f g s (checked a b) k = absurd (cc (k.0))
free_Holds h f g s committed k = tt
free_Holds h f g s refused k = tt

-- A transaction that does not hold the lock relies on nothing.
other_Holds :
    (h : Option ℕ) (f g : ℤ) (t s : ℕ) (p : Phase) → t ≢ s → Holds (some t) f s p → Holds h g s p
other_Holds h f g t s (waiting a) ne k = tt
other_Holds h f g t s (locked a) ne k = ground arith
other_Holds h f g t s (checked a b) ne k = ground arith
other_Holds h f g t s committed ne k = tt
other_Holds h f g t s refused ne k = tt

more_Holds : (h : Option ℕ) (f g : ℤ) (s : ℕ) (p : Phase) → f ≤ℤ g → Holds h f s p → Holds h g s p
more_Holds h f g s (waiting a) le k = tt
more_Holds h f g s (locked a) le k = k
more_Holds h f g s (checked a b) le k = (k.0, omega arith)
more_Holds h f g s committed le k = tt
more_Holds h f g s refused le k = tt

at_Holds :
    (h : Option ℕ) (f : ℤ) (g : ℕ → Phase) (t : ℕ) (p : Phase) (s : ℕ)
    → (t ≡ s → Holds h f s p)
    → (t ≢ s → Holds h f s (g s))
    → Holds h f s (at_phase g t p s)
at_Holds h f g t p s now before = elim (Bool-cases (t == s)) [
  | inl e ↦ rw e (now (ground arith))
  | inr ne ↦ rw ne (before (ground arith))
]

owned_at : (w : Wallet) (t : ℕ) {p : Phase} → Inv w → w.phase t ≡ p → Holds w.holder w.funds t p
owned_at w t v e = subst (Holds w.holder w.funds t) e (v.owned t)

-- While t holds the lock, the others keep what they rely on through any step of t.
others_keep :
    (w : Wallet) (t s : ℕ) (h : Option ℕ) (g : ℤ)
    → Inv w
    → w.holder ≡ some t
    → t ≢ s
    → Holds h g s (w.phase s)
others_keep w t s h g v e ne =
    other_Holds h w.funds g t s (w.phase s) ne
      (subst (λ o. Holds o w.funds s (w.phase s)) e (v.owned s))

Step-Inv : {w w' : Wallet} → Step w w' → Inv w → Inv w'
Step-Inv {w} {w'} (take_lock t a e p free e') v = subst Inv (sym e') (record {
  covered = v.covered;
  owned = λ s.
      at_Holds _ _ w.phase t (locked a) s (λ same. ap some same)
        λ ne.
          free_Holds _ _ _ s (w.phase s)
            (subst (λ o. Holds o w.funds s (w.phase s)) free (v.owned s));
})
Step-Inv {w} {w'} (read_balance t a e e') v =
    let mine : w.holder ≡ some t = owned_at w t v e in
    subst Inv (sym e') (record {
      covered = v.covered;
      owned = λ s.
          at_Holds _ _ w.phase t (checked a w.funds) s (λ same. (mine ∙ ap some same, omega arith))
            (λ ne. v.owned s);
    })
Step-Inv {w} {w'} (refuse t a b e short e') v = subst Inv (sym e') (record {
  covered = v.covered;
  owned = λ s.
      at_Holds _ _ w.phase t refused s (λ same. tt)
        (λ ne. others_keep w t s none w.funds v (owned_at w t v e).0 ne);
})
Step-Inv {w} {w'} (commit t a b e enough e') v =
    let mine : (w.holder ≡ some t) × (b ≤ℤ w.funds) = owned_at w t v e in
    subst Inv (sym e') (record {
      covered = omega (int_laws, mine.1);
      owned = λ s.
          at_Holds _ _ w.phase t committed s (λ same. tt)
            (λ ne. others_keep w t s none _ v mine.0 ne);
    })
Step-Inv {w} {w'} (abort t mine e') v = subst Inv (sym e') (record {
  covered = v.covered;
  owned = λ s.
      at_Holds _ _ w.phase t refused s (λ same. tt)
        (λ ne. others_keep w t s none w.funds v mine ne);
})
Step-Inv {w} {w'} (receive a p e') v = subst Inv (sym e') (record {
  covered = grind (int_laws, v.covered);
  owned = λ s. more_Holds w.holder w.funds _ s (w.phase s) (omega int_laws) (v.owned s);
})

Reach-Inv : {w w' : Wallet} → Inv w → Reach w w' → Inv w'
Reach-Inv v here = v
Reach-Inv v (next r st) = Step-Inv st (Reach-Inv v r)

-- A wallet that nobody has locked, with transactions that have not begun.
pub record IsFresh (w : Wallet) : Type 0 where
  pub covered : pos 0 ≤ℤ w.funds
  pub unlocked : w.holder ≡ none
  pub starting : (t : ℕ) → (a : ℤ) × (w.phase t ≡ waiting a)

fresh-Inv : {w : Wallet} → IsFresh w → Inv w
fresh-Inv {w} v = record {
  covered = v.covered;
  owned = λ t. subst (Holds w.holder w.funds t) (sym (v.starting t).1) tt;
}

-- From a wallet that is covered and not locked, with no debit begun, however the statements of
-- the debits and the credits interleave, the wallet stays covered.
pub interleaved_debits_covered : {w w' : Wallet} → IsFresh w → Reach w w' → pos 0 ≤ℤ w'.funds
interleaved_debits_covered v r = (Reach-Inv (fresh-Inv v) r).covered

-- From a wallet that is covered and not locked, with no debit begun, at most one transaction at a
-- time is between reading the balance and its end.
pub one_checked :
    {w w' : Wallet} (s t : ℕ) (a b c d : ℤ)
    → IsFresh w
    → Reach w w'
    → w'.phase s ≡ checked a b
    → w'.phase t ≡ checked c d
    → s ≡ t
one_checked {w} {w'} s t a b c d v r e e' =
    let inv : Inv w' = Reach-Inv (fresh-Inv v) r in
    ground (arith, (owned_at w' s inv e).0, (owned_at w' t inv e').0)
