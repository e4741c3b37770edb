-- ===== src/Library/Streaks/Tests.antt =====
-- Five days of listening, one of them twice.
use ketapod_website.Base.{ℕ, ◌≡◌, refl, List, [], ◌∷◌, ◌==◌, any, arith}
use ketapod_website.Library.{streaks}
use ketapod_website.Library.Streaks.{IsStreak, streaks_listened}

abbrev week : List ℕ
week = 18 ∷ 12 ∷ 19 ∷ 11 ∷ 19 ∷ 10 ∷ []

streaks-week : streaks week 20 ≡ (2, 3)
unfolding streaks
streaks-week = refl

streaks_listened_example : IsStreak (λ d. any (λ x. x == d) week) 20 (streaks week 20).0
unfolding streaks
streaks_listened_example = streaks_listened week 20 (omega arith)
