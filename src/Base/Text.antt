-- ===== src/Base/Text.antt =====
-- Texts that the code looks into, as their bytes, with what it uses of Go's package strings on
-- ASCII, and on code points where it says so.
use ketapod_website.Base.Tests.{leb, ◌==◌, ==_refl, if◌then◌else◌}
use Prim.Native.Nat.{ℕ, ◌+◌, ◌-◌, ◌*◌}
use mathlib.Core.Path.{◌≡◌, refl}
use mathlib.Core.Bool.{Bool, true, false, ◌&&◌, ◌||◌}
use mathlib.Core.Option.{Option, none, some}
use mathlib.Core.List.{List, [], ◌∷◌}

abbrev pub Bytes : Type 0
Bytes = List ℕ

-- A text as its code points.
abbrev pub Runes : Type 0
Runes = List ℕ

abbrev pub bytes_eq : Bytes → Bytes → Bool
bytes_eq [] [] = true
bytes_eq [] (d ∷ ds) = false
bytes_eq (c ∷ cs) [] = false
bytes_eq (c ∷ cs) (d ∷ ds) = c == d && bytes_eq cs ds

unfoldable pub is_space : ℕ → Bool
is_space c = (leb 9 c && leb c 13) || c == 32

unfoldable pub trim_left : Bytes → Bytes
unfolding is_space
trim_left [] = []
trim_left (c ∷ cs) = if is_space c then trim_left cs else c ∷ cs

unfoldable pub trim_right : Bytes → Bytes
unfolding is_space
trim_right [] = []
trim_right (c ∷ cs) =
    let rest = trim_right cs in
    elim rest [ [] ↦ if is_space c then [] else c ∷ [] | d ∷ ds ↦ c ∷ d ∷ ds ]

unfoldable pub to_upper : ℕ → ℕ
to_upper c = if leb b'a' c && leb c b'z' then c - 32 else c

-- strings.CutPrefix
abbrev pub cut_prefix : Bytes → Bytes → Option Bytes
cut_prefix [] cs = some cs
cut_prefix (p ∷ ps) [] = none
cut_prefix (p ∷ ps) (c ∷ cs) = let rest = cut_prefix ps cs in if p == c then rest else none

abbrev pub contains_byte : ℕ → Bytes → Bool
contains_byte b [] = false
contains_byte b (c ∷ cs) = c == b || contains_byte b cs

abbrev pub put_before : ℕ → Option (Bytes × Bytes) → Option (Bytes × Bytes)
put_before c none = none
put_before c (some (a, b)) = some (c ∷ a, b)

-- strings.Cut at one byte.
abbrev pub cut : ℕ → Bytes → Option (Bytes × Bytes)
cut b [] = none
cut b (c ∷ cs) = let rest = cut b cs in if c == b then some ([], cs) else put_before c rest

-- The value of digits that follow the value so far.
abbrev pub digits_from : ℕ → Bytes → Option ℕ
digits_from n [] = some n
digits_from n (c ∷ cs) =
    let rest = digits_from (10 * n + (c - 48)) cs in if leb 48 c && leb c 57 then rest else none

-- At least one digit.
abbrev pub digits : Bytes → Option ℕ
digits [] = none
digits (c ∷ cs) = digits_from 0 (c ∷ cs)

-- unicode.IsSpace
unfoldable pub is_white : ℕ → Bool
unfolding is_space
is_white c =
    is_space c
    || c == 0x85
    || c == 0xa0
    || c == 0x1680
    || (leb 0x2000 c && leb c 0x200a)
    || c == 0x2028
    || c == 0x2029
    || c == 0x202f
    || c == 0x205f
    || c == 0x3000

abbrev pub drop_white : List ℕ → List ℕ
drop_white [] = []
drop_white (c ∷ cs) = if is_white c then drop_white cs else c ∷ cs

abbrev pub drop_white_end : List ℕ → List ℕ
drop_white_end [] = []
drop_white_end (c ∷ cs) =
    let rest = drop_white_end cs in
    elim rest [ [] ↦ if is_white c then [] else c ∷ [] | d ∷ ds ↦ c ∷ d ∷ ds ]

-- strings.TrimSpace, on code points.
unfoldable pub trim_space : List ℕ → List ℕ
unfolding is_white
trim_space cs = drop_white_end (drop_white cs)

pub bytes_eq_refl : (t : Bytes) → bytes_eq t t ≡ true
bytes_eq_refl [] = refl
bytes_eq_refl (c ∷ cs) = rw (==_refl c, bytes_eq_refl cs)
