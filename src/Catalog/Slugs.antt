-- ===== src/Catalog/Slugs.antt =====
-- `Slugify` of backend/internal/catalog/write.go. What package unicode says of a letter, a digit and a
-- lower case are parameters.
use ketapod_website.Base.{ℕ, Bool, true, false, ◌&&◌, ◌||◌, [], ◌∷◌, ◌++◌, ◌==◌, if◌then◌else◌}
use ketapod_website.Base.Text.{Runes, is_white, trim_space}

pub record Unicode : Type 0 where
  pub is_letter : ℕ → Bool
  pub is_digit : ℕ → Bool
  pub to_lower : ℕ → ℕ

-- The zero width non-joiner.
abbrev pub zwnj : ℕ
zwnj = 0x200c

abbrev pub is_break : ℕ → Bool
is_break r = r == zwnj || is_white r || r == b'-' || r == b'_' || r == b'.' || r == b'/'

abbrev pub drop_dashes : Runes → Runes
drop_dashes [] = []
drop_dashes (c ∷ cs) = if c == b'-' then drop_dashes cs else c ∷ cs

abbrev pub drop_dashes_end : Runes → Runes
drop_dashes_end [] = []
drop_dashes_end (c ∷ cs) =
    let rest = drop_dashes_end cs in
    elim rest [ [] ↦ if c == b'-' then [] else c ∷ [] | d ∷ ds ↦ c ∷ d ∷ ds ]

abbrev pub lower_all : (ℕ → ℕ) → Runes → Runes
lower_all f [] = []
lower_all f (c ∷ cs) = f c ∷ lower_all f cs

module _ (u : Unicode) where
  abbrev pub is_word : ℕ → Bool
  is_word r = u.is_letter r || u.is_digit r

  -- What one rune writes, and `lastDash` after it.
  abbrev pub emit : Bool → ℕ → Runes
  emit last r =
      if is_word r
      then r ∷ []
      else if is_break r && (if last then false else true)
      then b'-' ∷ []
      else []

  abbrev pub dash_after : Bool → ℕ → Bool
  dash_after last r = if is_word r then false else is_break r || last

  -- The loop, with `lastDash`.
  unfoldable pub slug_from : Bool → Runes → Runes
  slug_from last [] = []
  slug_from last (r ∷ rs) = emit last r ++ slug_from (dash_after last r) rs

  -- `Slugify`
  unfoldable pub slugify : Runes → Runes
  slugify s = drop_dashes_end (drop_dashes (slug_from true (lower_all u.to_lower (trim_space s))))
