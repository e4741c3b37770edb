-- ===== src/Commerce/Payments/Entries.antt =====
-- The entries of the ledger for payments, and what an update or a new entry does to them.
use ketapod_website.Base.{
  ℕ, ◌≤◌, ◌≡◌, sym, ap, ◌∙◌, All, ==_iff, inl, inr, Bool, true, false, ◌&&◌, some, List, [], ◌∷◌,
  arith, ◌==◌, holds, count, find, update_where, Bool-cases,
}
use ketapod_website.Commerce.Model.{credit, ReferenceType, LedgerEntry, Payment}
use ketapod_website.Commerce.Payments.{is_succeeded}

abbrev is_payment : ReferenceType → Bool
is_payment ReferenceType.payment = true
is_payment _ = false

abbrev pub is_for : ℕ → LedgerEntry → Bool
is_for i e = is_payment e.reference_type && holds e.reference_id i

-- How many entries of the ledger are for this payment.
abbrev pub entries_for : ℕ → List LedgerEntry → ℕ
entries_for i = count (is_for i)

-- An entry for this payment is a credit of its amount to its user.
abbrev pub Credits : Payment → LedgerEntry → Type 0
Credits p e =
    is_for p.id e ≡ true → (e.entry_type ≡ credit) × (e.amount ≡ p.amount) × (e.user_id ≡ p.user_id)

abbrev pub rows : ℕ → List Payment → ℕ
rows i = count λ p. p.id == i

abbrev pub succeeded_rows : ℕ → List Payment → ℕ
succeeded_rows i = count λ p. p.id == i && is_succeeded p.status

-- A change of a payment that keeps its id, its amount and its user.
abbrev SameTerms : Payment → Payment → Type 0
SameTerms p q = (p.id ≡ q.id) × (p.amount ≡ q.amount) × (p.user_id ≡ q.user_id)

Credits-same :
    (p q : Payment) (es : List LedgerEntry)
    → SameTerms p q
    → All (Credits p) es
    → All (Credits q) es
Credits-same p q [] same h = tt
Credits-same p q (e ∷ es) same h = (
  λ mine. let (k, a, u) = h.0 (ap (λ i. is_for i e) same.0 ∙ mine) in (k, a ∙ same.1, u ∙ same.2),
  Credits-same p q es same h.1,
)

-- An update of the payments that keeps their terms keeps what their entries are.
pub exact-update :
    (c : Payment → Bool) (f : Payment → Payment) (es : List LedgerEntry)
    → ((p : Payment) → SameTerms p (f p))
    → (ps : List Payment) → All (λ p. All (Credits p) es) ps
    → All (λ p. All (Credits p) es) (update_where c f ps)
exact-update c f es same [] h = tt
exact-update c f es same (p ∷ ps) h = elim (Bool-cases (c p)) [
  | inl hit ↦ rw hit (Credits-same p (f p) es (same p) h.0, exact-update c f es same ps h.1)
  | inr miss ↦ rw miss (h.0, exact-update c f es same ps h.1)
]

-- No other payment has the id of this one.
absent_row :
    (i : ℕ) (p : Payment) (ps : List Payment) → rows i ps ≡ 0 → All (λ q. q.id ≡ i → q ≡ p) ps
absent_row i p [] h = tt
absent_row i p (q ∷ qs) h = elim (Bool-cases (q.id == i)) [
  | inl hit ↦ absurd (ground (arith, hit))
  | inr miss ↦ (λ e. absurd (cc (miss, (==_iff q.id i).1 e)), absent_row i p qs (rw miss at h))
]

pub others_apart :
    (i : ℕ) (p : Payment) (ps : List Payment)
    → rows i ps ≤ 1
    → find (λ q. q.id == i) ps ≡ some p
    → All (λ q. q.id ≡ i → q ≡ p) ps
others_apart i p [] h e = tt
others_apart i p (q ∷ qs) h e = elim (Bool-cases (q.id == i)) [
  | inl hit ↦
      let none_left : rows i qs ≡ 0 = ground (arith, hit) in
      (λ same. ground (arith, hit), absent_row i p qs none_left)
  | inr miss ↦ (
    λ same. absurd (cc (miss, (==_iff q.id i).1 same)),
    others_apart i p qs (rw miss at h) (rw miss at e),
  )
]

entry_id :
    (j i : ℕ) (e : LedgerEntry)
    → e.reference_type ≡ ReferenceType.payment
    → e.reference_id ≡ some i
    → is_for j e ≡ true
    → j ≡ i
entry_id j i e kind ref mine =
    let held : holds (some i) j ≡ true = rw (kind, ref) at mine in ground (arith, held)

-- A new entry that credits this payment is not for another one.
pub exact-entry :
    (p : Payment) (e : LedgerEntry) (es : List LedgerEntry)
    → (e.reference_type ≡ ReferenceType.payment)
      × (e.reference_id ≡ some p.id)
      × (e.entry_type ≡ credit)
      × (e.amount ≡ p.amount)
      × (e.user_id ≡ p.user_id)
    → (ps : List Payment) → All (λ q. q.id ≡ p.id → q ≡ p) ps
    → All (λ q. All (Credits q) es) ps
    → All (λ q. All (Credits q) (e ∷ es)) ps
exact-entry p e es made [] apart h = tt
exact-entry p e es made (q ∷ qs) apart h = (
  (
    λ mine.
        let same : q ≡ p = apart.0 (entry_id q.id p.id e made.0 made.1 mine) in
        (
          made.2,
          made.3 ∙ ap (λ (x : Payment). x.amount) (sym same),
          made.4 ∙ ap (λ (x : Payment). x.user_id) (sym same),
        ),
    h.0,
  ),
  exact-entry p e es made qs apart.1 h.1,
)
