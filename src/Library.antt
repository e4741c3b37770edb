-- ===== src/Library.antt =====
-- The listening streak: `Streaks` of backend/internal/library/service.go. A time is the number of
-- its calendar day, which is all that the function keeps of it.
pub mod Model
pub mod Streaks
pub mod Positions
use ketapod_website.Base.{
  ℕ, suc, Bool, true, false, ◌||◌, List, [], ◌∷◌, ltb, leb, ◌==◌, if◌then◌else◌, any,
}

-- The days once each, the first of its kind kept; `seen` are those that were met.
abbrev pub distinct : List ℕ → List ℕ → List ℕ
distinct seen [] = []
distinct seen (d ∷ ds) =
    let later = distinct seen ds in
    let rest = distinct (d ∷ seen) ds in if any (λ x. x == d) seen then later else d ∷ rest

abbrev pub insert_day : ℕ → List ℕ → List ℕ
insert_day d [] = d ∷ []
insert_day d (e ∷ es) = let rest = insert_day d es in if leb e d then d ∷ e ∷ es else e ∷ rest

-- Newest first.
abbrev pub sort_days : List ℕ → List ℕ
sort_days [] = []
sort_days (d ∷ ds) = insert_day d (sort_days ds)

abbrev pub max_ℕ : ℕ → ℕ → ℕ
max_ℕ a b = if ltb a b then b else a

-- The first loop: the day before, the run that it stands in, and the longest so far.
abbrev pub longest_run : ℕ → ℕ → ℕ → List ℕ → ℕ
longest_run prev run longest [] = longest
longest_run prev run longest (d ∷ ds) =
    let on = longest_run d (suc run) (max_ℕ longest (suc run)) ds in
    let anew = longest_run d 1 longest ds in if suc d == prev then on else anew

-- The second loop, which ends at the first gap.
abbrev pub current_run : ℕ → ℕ → List ℕ → ℕ
current_run prev run [] = run
current_run prev run (d ∷ ds) =
    let on = current_run d (suc run) ds in if suc d == prev then on else run

abbrev pub streaks_of : ℕ → List ℕ → ℕ × ℕ
streaks_of today [] = (0, 0)
streaks_of today (newest ∷ ds) =
    if newest == today || suc newest == today
    then (current_run newest 1 ds, longest_run newest 1 1 ds)
    else (0, longest_run newest 1 1 ds)

-- `Streaks`: the current and the longest run of days.
unfoldable pub streaks : List ℕ → ℕ → ℕ × ℕ
streaks days today = streaks_of today (sort_days (distinct [] days))
