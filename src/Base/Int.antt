-- ===== src/Base/Int.antt =====
-- Signed integers over the native numbers, and Go's int64: arithmetic that wraps at 2^64.
use ketapod_website.Base.Tests.{ltb, leb, if◌then◌else◌}
use Prim.Native.Nat.{ℕ, suc, ◌+◌, ◌-◌, ◌*◌, ◌/◌, ◌%◌, ◌^◌, ◌≤◌, ◌<◌}
use mathlib.Core.Path.{◌≡◌, refl}
use mathlib.Core.Bool.{Bool}
use native.Mathlib.Omega.{arith}

-- `negsuc n` is -(n + 1).
pub data ℤ : Type 0 where
  pos : ℕ → ℤ
  negsuc : ℕ → ℤ

abbrev pub pos_part : ℤ → ℕ
pos_part (pos n) = n
pos_part (negsuc n) = 0

abbrev pub neg_part : ℤ → ℕ
neg_part (pos n) = 0
neg_part (negsuc n) = suc n

-- a - b, as an integer.
abbrev pub sub_ℕ : ℕ → ℕ → ℤ
sub_ℕ a b = if leb b a then pos (a - b) else negsuc (b - a - 1)

infixl 65 ◌+ℤ◌ ◌-ℤ◌
infixl 70 ◌*ℤ◌
infix 50 ◌≤ℤ◌ ◌<ℤ◌
unfoldable pub ◌+ℤ◌ : ℤ → ℤ → ℤ
a +ℤ b = sub_ℕ (pos_part a + pos_part b) (neg_part a + neg_part b)

unfoldable pub ◌-ℤ◌ : ℤ → ℤ → ℤ
a -ℤ b = sub_ℕ (pos_part a + neg_part b) (neg_part a + pos_part b)

unfoldable pub ◌*ℤ◌ : ℤ → ℤ → ℤ
a *ℤ b =
    sub_ℕ (pos_part a * pos_part b + neg_part a * neg_part b)
      (pos_part a * neg_part b + neg_part a * pos_part b)

-- Go's `/` by a positive constant: it truncates towards zero.
unfoldable pub quot : ℤ → ℕ → ℤ
quot a d = sub_ℕ (pos_part a / d) (neg_part a / d)

abbrev pub ◌≤ℤ◌ : ℤ → ℤ → Type 0
a ≤ℤ b = pos_part a + neg_part b ≤ pos_part b + neg_part a

abbrev pub ◌<ℤ◌ : ℤ → ℤ → Type 0
a <ℤ b = pos_part a + neg_part b < pos_part b + neg_part a

abbrev pub ltb_ℤ : ℤ → ℤ → Bool
ltb_ℤ a b = ltb (pos_part a + neg_part b) (pos_part b + neg_part a)

abbrev pub leb_ℤ : ℤ → ℤ → Bool
leb_ℤ a b = leb (pos_part a + neg_part b) (pos_part b + neg_part a)

unfoldable pub min_ℤ : ℤ → ℤ → ℤ
min_ℤ a b = if ltb_ℤ b a then b else a

abbrev pub int64_half : ℕ
int64_half = 2 ^ 63

-- A bit pattern below 2^64 as the int64 that it stands for.
unfoldable pub of_bits64 : ℕ → ℤ
of_bits64 m = if ltb m int64_half then pos m else negsuc (2 ^ 64 - 1 - m)

-- The int64 that an exact result wraps to.
unfoldable pub wrap64 : ℤ → ℤ
unfolding of_bits64
wrap64 a = of_bits64 ((pos_part a + (2 ^ 64 - neg_part a % 2 ^ 64)) % 2 ^ 64)

-- The conversion `int32(…)`.
unfoldable pub to_int32 : ℤ → ℤ
to_int32 a =
    let m = (pos_part a + (2 ^ 32 - neg_part a % 2 ^ 32)) % 2 ^ 32 in
    if ltb m (2 ^ 31) then pos m else negsuc (2 ^ 32 - 1 - m)

-- The values of an int64.
pub record Int64 (a : ℤ) : Type 0 where
  pub above : neg_part a ≤ int64_half
  pub below : pos_part a < int64_half

-- With these the operations stay shut under `omega` and `grind`.
pub +ℤ_parts :
    (a b : ℤ)
    → pos_part (a +ℤ b) + neg_part a + neg_part b ≡ neg_part (a +ℤ b) + pos_part a + pos_part b
unfolding ◌+ℤ◌
+ℤ_parts a b = ground arith

pub -ℤ_parts :
    (a b : ℤ)
    → pos_part (a -ℤ b) + neg_part a + pos_part b ≡ neg_part (a -ℤ b) + pos_part a + neg_part b
unfolding ◌-ℤ◌
-ℤ_parts a b = ground arith

pub eq_of_parts : (a b : ℤ) → pos_part a + neg_part b ≡ pos_part b + neg_part a → a ≡ b
eq_of_parts a b h = ground arith

pub ruleset int_laws = (arith, +ℤ_parts, -ℤ_parts, eq_of_parts)

-- A result that fits does not wrap.
pub wrap64_fits : (a : ℤ) → Int64 a → wrap64 a ≡ a
unfolding wrap64
wrap64_fits (pos n) h = ground arith
wrap64_fits (negsuc n) h = ground arith

pub wrap64-Int64 : (a : ℤ) → Int64 (wrap64 a)
unfolding wrap64
wrap64-Int64 a = ground arith

pub min_ℤ-le_right : (a b : ℤ) → min_ℤ a b ≤ℤ b
unfolding min_ℤ
min_ℤ-le_right a b = ground arith

pub min_ℤ-le_left : (a b : ℤ) → min_ℤ a b ≤ℤ a
unfolding min_ℤ
min_ℤ-le_left a b = ground arith

pub le_min_ℤ : (a b c : ℤ) → c ≤ℤ a → c ≤ℤ b → c ≤ℤ min_ℤ a b
unfolding min_ℤ
le_min_ℤ a b c h k = ground arith

pub mul_pos : (n m : ℕ) → pos n *ℤ pos m ≡ pos (n * m)
unfolding ◌*ℤ◌
mul_pos n m = ground arith

wrap64_over : wrap64 (pos (2 ^ 63)) ≡ negsuc (2 ^ 63 - 1)
unfolding wrap64
wrap64_over = refl

wrap64_minus : wrap64 (negsuc 4) ≡ negsuc 4
unfolding wrap64
wrap64_minus = refl
