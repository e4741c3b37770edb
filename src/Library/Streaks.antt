-- ===== src/Library/Streaks.antt =====
-- What the two numbers of a streak mean.
mod Tests
use ketapod_website.Base.{
  ℕ, suc, ◌+◌, ◌≤◌, ◌<◌, ◌≡◌, ◌⊎◌, refl, sym, ap, ◌∙◌, inl, inr, Bool, true, false, ◌||◌, List, [],
  ◌∷◌, arith, ltb, leb, ◌==◌, if◌then◌else◌, length, any, Bool-cases,
}
use mathlib.Core.Path.{subst}
use ketapod_website.Library.{
  distinct, insert_day, sort_days, max_ℕ, longest_run, current_run, streaks_of, streaks,
}

longest_run-grows : (p r l : ℕ) (ds : List ℕ) → l ≤ longest_run p r l ds
longest_run-grows p r l [] = omega arith
longest_run-grows p r l (d ∷ ds) =
    ground (arith, longest_run-grows d (suc r) (max_ℕ l (suc r)) ds, longest_run-grows d 1 l ds)

current_run-le : (p r l : ℕ) (ds : List ℕ) → r ≤ l → current_run p r ds ≤ longest_run p r l ds
current_run-le p r l [] h = h
current_run-le p r l (d ∷ ds) h = elim (Bool-cases (suc d == p)) [
  | inl on ↦ rw on (current_run-le d (suc r) (max_ℕ l (suc r)) ds (ground arith))
  | inr gap ↦ rw gap (ground (arith, longest_run-grows d 1 l ds))
]

-- Every day of the run behind p is in the list.
current_run-days :
    (p r : ℕ) (ds : List ℕ) (d : ℕ)
    → d < p
    → p + r ≤ d + current_run p r ds
    → any (λ x. x == d) ds ≡ true
current_run-days p r [] d h k = absurd (omega arith)
current_run-days p r (e ∷ es) d h k = elim (Bool-cases (suc e == p)) [
  | inl on ↦
      let k' : p + r ≤ d + current_run e (suc r) es = rw on at k in
      ground (arith, current_run-days e (suc r) es d)
  | inr gap ↦ let k' : p + r ≤ d + r = rw gap at k in absurd (omega arith)
]

any-insert_day : (p : ℕ → Bool) (d : ℕ) (es : List ℕ) → any p (insert_day d es) ≡ p d || any p es
any-insert_day p d [] = refl
any-insert_day p d (e ∷ es) = ground (arith, any-insert_day p d es)

any-sort_days : (p : ℕ → Bool) (ds : List ℕ) → any p (sort_days ds) ≡ any p ds
any-sort_days p [] = refl
any-sort_days p (d ∷ ds) =
    any-insert_day p d (sort_days ds) ∙ ap (λ b. p d || b) (any-sort_days p ds)

any-distinct : (p : ℕ → Bool) (seen ds : List ℕ) → any p (distinct seen ds) ≡ true → any p ds ≡ true
any-distinct p seen [] h = h
any-distinct p seen (d ∷ ds) h =
    ground (arith, any-distinct p seen ds, any-distinct p (d ∷ seen) ds)

of-le : (today : ℕ) (ds : List ℕ) → (streaks_of today ds).0 ≤ (streaks_of today ds).1
of-le today [] = omega arith
of-le today (d ∷ ds) = ground (arith, current_run-le d 1 1 ds)

-- The current streak is never longer than the longest.
pub streaks_ordered : (days : List ℕ) (today : ℕ) → (streaks days today).0 ≤ (streaks days today).1
unfolding streaks
streaks_ordered days today = of-le today (sort_days (distinct [] days))

-- A streak of this length that ends at `last`: that is today or yesterday, and each day of the
-- streak passes.
pub record IsStreak (passes : ℕ → Bool) (today len : ℕ) : Type 0 where
  pub last : ℕ
  pub recent : (last ≡ today) ⊎ (suc last ≡ today)
  pub each : (d : ℕ) → d ≤ last → last < d + len → passes d ≡ true

of-IsStreak :
    (today : ℕ) (ds : List ℕ)
    → 0 < (streaks_of today ds).0
    → IsStreak (λ d. any (λ x. x == d) ds) today (streaks_of today ds).0
of-IsStreak today [] h = absurd (omega arith)
of-IsStreak today (n ∷ ds) h = elim (Bool-cases (n == today || suc n == today)) [
  | inl recent ↦ rw recent (record {
    last = n;
    recent = ground (arith, recent);
    each = λ d le near. elim (Bool-cases (n == d)) [
      | inl same ↦ rw same refl
      | inr earlier ↦ rw earlier (current_run-days n 1 ds d (ground arith) (omega arith))
    ];
  })
  | inr stale ↦ let none_left : 0 < 0 = rw stale at h in absurd (omega arith)
]

-- A current streak above 0 ends today or yesterday, and the user has listened on every one of its
-- days.
pub streaks_listened :
    (days : List ℕ) (today : ℕ)
    → 0 < (streaks days today).0
    → IsStreak (λ d. any (λ x. x == d) days) today (streaks days today).0
unfolding streaks
streaks_listened days today h =
    let s = of-IsStreak today (sort_days (distinct [] days)) h in
    record {
      last = s.last;
      recent = s.recent;
      each = λ d le near.
          any-distinct (λ x. x == d) [] days
            (sym (any-sort_days (λ x. x == d) (distinct [] days)) ∙ s.each d le near);
    }
