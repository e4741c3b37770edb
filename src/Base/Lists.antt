-- ===== src/Base/Lists.antt =====
-- Lists measured by native numbers, Boolean selection, and predicates over all the items.
use Prim.Native.Nat.{ℕ, zero, suc, ◌+◌, ◌≤◌, ◌<◌}
use mathlib.Core.Path.{◌≡◌, refl, ap, subst}
use mathlib.Core.Logic.{inl, inr}
use mathlib.Core.Bool.{Bool, true, false, not, ◌&&◌, ◌||◌}
use mathlib.Core.Option.{Option, none, some}
use mathlib.Core.List.{List, [], ◌∷◌, ◌++◌}
use native.Mathlib.Omega.{arith}
use ketapod_website.Base.Tests.{if◌then◌else◌, Bool-cases}

module _ {ℓ} {A : Type ℓ} where
  abbrev pub length : List A → ℕ
  length [] = 0
  length (x ∷ xs) = suc (length xs)

  pub length-append : (xs ys : List A) → length (xs ++ ys) ≡ length xs + length ys
  length-append [] ys = omega arith
  length-append (x ∷ xs) ys = omega (arith, length-append xs ys)

  -- The first item that passes.
  abbrev pub find : (A → Bool) → List A → Option A
  find p [] = none
  find p (x ∷ xs) = if p x then some x else find p xs

  abbrev pub any : (A → Bool) → List A → Bool
  any p [] = false
  any p (x ∷ xs) = p x || any p xs

  -- The items that pass, in order.
  abbrev pub select : (A → Bool) → List A → List A
  select p [] = []
  select p (x ∷ xs) = if p x then x ∷ select p xs else select p xs

  -- The first rows, or all when there are fewer.
  abbrev pub take : ℕ → List A → List A
  take zero xs = []
  take (suc n) [] = []
  take (suc n) (x ∷ xs) = x ∷ take n xs

  -- How many pass.
  abbrev pub count : (A → Bool) → List A → ℕ
  count p [] = 0
  count p (x ∷ xs) = if p x then suc (count p xs) else count p xs

  -- `UPDATE … SET f WHERE p`.
  abbrev pub update_where : (A → Bool) → (A → A) → List A → List A
  update_where p f [] = []
  update_where p f (x ∷ xs) = (if p x then f x else x) ∷ update_where p f xs

abbrev pub All {ℓ κ} : {A : Type ℓ} → (A → Type κ) → List A → Type κ
All P [] = Unit
All P (x ∷ xs) = P x × All P xs

absurd_test {ℓ} : {A : Type ℓ} {b : Bool} → b ≡ false → b ≡ true → A
absurd_test h k = cc

module _ {ℓ} {A : Type ℓ} (p : A → Bool) where
  pub length-select : (xs : List A) → length (select p xs) ≡ count p xs
  length-select [] = refl
  length-select (x ∷ xs) = ground (arith, length-select xs)

  pub find_passes : (xs : List A) {a : A} → find p xs ≡ some a → p a ≡ true
  find_passes [] h = cc
  find_passes (x ∷ xs) {a} h = elim (Bool-cases (p x)) [
    | inl hit ↦ let e : x ≡ a = ground arith in subst (λ y. p y ≡ true) e hit
    | inr miss ↦ find_passes xs (rw miss at h)
  ]

module _ {ℓ} {A : Type ℓ} (p c : A → Bool) (f : A → A) where
  -- An update that keeps what passes leaves something that passes.
  pub any-update_where :
      ((x : A) → p x ≡ true → p (f x) ≡ true)
      → (xs : List A) → any p xs ≡ true
      → any p (update_where c f xs) ≡ true
  any-update_where h [] e = e
  any-update_where h (x ∷ xs) e = ground (arith, h x, any-update_where h xs)

  -- An update that makes what it changes pass, and changes something.
  pub any-update_where_hit :
      ((x : A) → c x ≡ true → p (f x) ≡ true)
      → (xs : List A) {a : A} → find c xs ≡ some a
      → any p (update_where c f xs) ≡ true
  any-update_where_hit h [] e = cc
  any-update_where_hit h (x ∷ xs) {a} e = ground (arith, h x, any-update_where_hit h xs {a = a})

module _ {ℓ} {A : Type ℓ} (p c : A → Bool) (f : A → A) where
  -- An update that makes what it changes pass, where there is something to change.
  pub any-update_where_some :
      ((x : A) → c x ≡ true → p (f x) ≡ true)
      → (xs : List A) → any c xs ≡ true
      → any p (update_where c f xs) ≡ true
  any-update_where_some h [] e = cc
  any-update_where_some h (x ∷ xs) e = ground (arith, h x, any-update_where_some h xs)

-- What passes is not among the items that do not.
pub select-select-not {ℓ} :
    {A : Type ℓ} (p : A → Bool) (xs : List A) → select p (select (λ x. not (p x)) xs) ≡ []
select-select-not p [] = refl
select-select-not p (x ∷ xs) = ground (arith, select-select-not p xs)

module _ {ℓ} {A : Type ℓ} (p q c : A → Bool) (f : A → A) where
  -- What nothing passed before an update, when neither what it changes nor what it leaves passes
  -- the new test, nothing passes after it.
  pub any-update_false :
      ((x : A) → c x ≡ true → p x ≡ false → q (f x) ≡ false)
      → ((x : A) → c x ≡ false → p x ≡ false → q x ≡ false)
      → (xs : List A) → any p xs ≡ false
      → any q (update_where c f xs) ≡ false
  any-update_false h k [] e = refl
  any-update_false h k (x ∷ xs) e = ground (arith, h x, k x, any-update_false h k xs)

module _ {ℓ} {A : Type ℓ} (p c : A → Bool) (f : A → A) where
  -- An update that keeps what the search looks at is found where the row was found.
  pub find-update_where :
      ((x : A) → p (f x) ≡ p x)
      → (xs : List A) {a : A} → find p xs ≡ some a
      → find p (update_where c f xs) ≡ some (if c a then f a else a)
  find-update_where h [] e = cc
  find-update_where h (x ∷ xs) {a} e = elim (Bool-cases (p x)) [
    | inl hit ↦ let same : x ≡ a = ground arith in ground (arith, h x)
    | inr miss ↦ ground (arith, h x, find-update_where h xs {a = a} (rw miss at e))
  ]

  -- It does not raise the count of what passes, if what it changes does not come to pass.
  pub count-update_where-le :
      ((x : A) → p (f x) ≡ true → p x ≡ true)
      → (xs : List A) → count p (update_where c f xs) ≤ count p xs
  count-update_where-le h [] = omega arith
  count-update_where-le h (x ∷ xs) = ground (arith, h x, count-update_where-le h xs)

  -- If it changes a row that passed into one that does not, the count goes down.
  pub count-update_where-lt :
      ((x : A) → p (f x) ≡ false)
      → (q : A → Bool) (xs : List A) {a : A} → find q xs ≡ some a
      → p a ≡ true
      → c a ≡ true
      → count p (update_where c f xs) < count p xs
  count-update_where-lt h q [] e pa ca = cc
  count-update_where-lt h q (x ∷ xs) {a} e pa ca = elim (Bool-cases (q x)) [
    | inl hit ↦
        let same : x ≡ a = ground arith in
        ground (arith, h x, count-update_where-le (λ y r. absurd_test (h y) r) xs)
    | inr miss ↦ ground (arith, h x, count-update_where-lt h q xs {a = a} (rw miss at e) pa ca)
  ]

-- A row found means that some row passes.
pub find-any {ℓ} :
    {A : Type ℓ} (p : A → Bool) (xs : List A) {a : A} → find p xs ≡ some a → any p xs ≡ true
find-any p [] e = cc
find-any p (x ∷ xs) {a} e = ground (arith, find-any p xs {a = a})

-- A row found by one test that passes another one is found by that test, or an earlier row is.
pub find-some {ℓ} :
    {A : Type ℓ} (p q : A → Bool) (xs : List A) {a : A}
    → find p xs ≡ some a
    → q a ≡ true
    → (b : A) × (find q xs ≡ some b)
find-some p q [] e h = cc
find-some p q (x ∷ xs) {a} e h = elim (Bool-cases (q x)) [
  | inl hit ↦ (x, rw hit)
  | inr miss ↦ elim (Bool-cases (p x)) [
    | inl here ↦ let same : x ≡ a = ground arith in cc (miss, h, ap q same)
    | inr later ↦ rw miss (find-some p q xs (rw later at e) h)
  ]
]

-- As `count-update_where-lt`, for a row that is known to be there.
pub count-update_where-lt_any {ℓ} :
    {A : Type ℓ} (p c : A → Bool) (f : A → A)
    → ((x : A) → p (f x) ≡ false)
    → (xs : List A) → any (λ x. p x && c x) xs ≡ true
    → count p (update_where c f xs) < count p xs
count-update_where-lt_any p c f h [] e = cc
count-update_where-lt_any p c f h (x ∷ xs) e = elim (Bool-cases (p x && c x)) [
  | inl hit ↦ ground (arith, h x, count-update_where-le p c f (λ y r. absurd_test (h y) r) xs)
  | inr miss ↦ ground (arith, h x, count-update_where-lt_any p c f h xs)
]
