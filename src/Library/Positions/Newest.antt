-- ===== src/Library/Positions/Newest.antt =====
-- The newest of several reports by the time of the device, as the upsert of positions.sql of
-- backend/internal/library compares them.
use ketapod_website.Base.{
  ℕ, ◌≤◌, ◌≡◌, ◌↔◌, ◌⊎◌, refl, sym, ap, ◌∙◌, inl, inr, Option, none, some, List, [], ◌∷◌, leb,
  arith, Bool-cases,
}
use mathlib.Core.Path.{subst}
use ketapod_website.Library.Positions.Reports.{Progress, newer, newer_of}

abbrev pub folded : Option Progress → List Progress → Option Progress
folded o [] = o
folded o (x ∷ xs) = folded (some (newer_of o x)) xs

-- A list that holds this report.
abbrev pub In : Progress → List Progress → Type 0
In p [] = ⊥
In p (x ∷ xs) = (p ≡ x) ⊎ In p xs

-- The newest of the reports.
newest : Progress → List Progress → Progress
newest a [] = a
newest a (x ∷ xs) = newest (newer a x) xs

folded-newest : (a : Progress) (xs : List Progress) → folded (some a) xs ≡ some (newest a xs)
unfolding newest
folded-newest a [] = refl
folded-newest a (x ∷ xs) = folded-newest (newer a x) xs

newest-In : (a : Progress) (xs : List Progress) → In (newest a xs) (a ∷ xs)
unfolding newest
newest-In a [] = inl refl
newest-In a (x ∷ xs) = elim (Bool-cases (leb a.time x.time)) [
  | inl later ↦
      let step : newer a x ≡ x = rw later in
      subst (λ b. In (newest b xs) (a ∷ x ∷ xs)) (sym step) (inr (newest-In x xs))
  | inr earlier ↦
      let step : newer a x ≡ a = rw earlier in
      subst (λ b. In (newest b xs) (a ∷ x ∷ xs)) (sym step) (skip (newest-In a xs))
]
  where
    skip : {p : Progress} → In p (a ∷ xs) → In p (a ∷ x ∷ xs)
    skip (inl e) = inl e
    skip (inr h) = inr (inr h)

newest-ge_first : (a : Progress) (xs : List Progress) → a.time ≤ (newest a xs).time
unfolding newest
newest-ge_first a [] = omega arith
newest-ge_first a (x ∷ xs) = ground (arith, newest-ge_first (newer a x) xs)

newest-ge_rest :
    (a : Progress) (xs : List Progress) (p : Progress) → In p xs → p.time ≤ (newest a xs).time
unfolding newest
newest-ge_rest a [] p h = elim h [ ]
newest-ge_rest a (x ∷ xs) p (inl e) =
    subst (λ (q : Progress). q.time ≤ (newest (newer a x) xs).time) (sym e)
      (ground (arith, newest-ge_first (newer a x) xs))
newest-ge_rest a (x ∷ xs) p (inr h) = newest-ge_rest (newer a x) xs p h

newest-ge :
    (a : Progress) (xs : List Progress) (p : Progress) → In p (a ∷ xs) → p.time ≤ (newest a xs).time
newest-ge a xs p (inl e) =
    subst (λ (q : Progress). q.time ≤ (newest a xs).time) (sym e) (newest-ge_first a xs)
newest-ge a xs p (inr h) = newest-ge_rest a xs p h

-- Reports made at different times of the device.
abbrev pub AreTimed : List Progress → Type 0
AreTimed xs = (p q : Progress) → In p xs → In q xs → p.time ≡ q.time → p ≡ q

pub folded-same :
    (xs ys : List Progress)
    → AreTimed xs
    → ((p : Progress) → In p xs ↔ In p ys)
    → folded none xs ≡ folded none ys
folded-same [] [] timed same = refl
folded-same [] (y ∷ ys) timed same = absurd ((same y).1 (inl refl))
folded-same (x ∷ xs) [] timed same = absurd ((same x).0 (inl refl))
folded-same (x ∷ xs) (y ∷ ys) timed same =
    folded-newest x xs
    ∙ ap some (
        timed (newest x xs) (newest y ys) (newest-In x xs) ((same (newest y ys)).1 (newest-In y ys))
          (le_antisymm (newest-ge y ys (newest x xs) ((same (newest x xs)).0 (newest-In x xs)))
            (newest-ge x xs (newest y ys) ((same (newest y ys)).1 (newest-In y ys)))))
    ∙ sym (folded-newest y ys)
  where
    le_antisymm : {a b : ℕ} → a ≤ b → b ≤ a → a ≡ b
    le_antisymm p q = omega (arith, p, q)
