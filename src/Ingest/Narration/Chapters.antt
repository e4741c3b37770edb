-- ===== src/Ingest/Narration/Chapters.antt =====
-- The chapters of a narration, `chaptersFrom` and `materialise` of backend/internal/ingest/audio.go.
use ketapod_website.Base.{
  ℕ, suc, ◌+◌, ◌≡◌, ◌≢◌, ◌⊎◌, refl, sym, inl, inr, List, [], ◌∷◌, ◌==◌, arith, Bool-cases, true,
  false,
}
use mathlib.Core.Path.{subst}
use ketapod_website.Base.Text.{Runes}
use ketapod_website.Catalog.Model.{ChapterRange}
use ketapod_website.Ingest.Model.{AudioPart}
use ketapod_website.Ingest.Narration.{
  Studio, title_or, lay_out, is_untitled, chapters_from, total_duration, Joined, join_all,
  materialise,
}
use ketapod_website.Store.{Result, ok, err}

-- These chapters are the parts one after the other, from one time to another: each begins where the one
-- before it ends, lasts as long as its part, and has the title of its part if that has one.
abbrev pub IsTiling : ℕ → List AudioPart → List ChapterRange → ℕ → Type 0
IsTiling from [] [] to = from ≡ to
IsTiling from [] (c ∷ cs) to = ⊥
IsTiling from (p ∷ ps) [] to = ⊥
IsTiling from (p ∷ ps) (c ∷ cs) to =
    (c.start_seconds ≡ from)
    × (c.end_seconds ≡ from + p.duration)
    × (p.chapter_title ≢ [] → c.title ≡ p.chapter_title)
    × IsTiling c.end_seconds ps cs to

title_kept : (other t : Runes) → t ≢ [] → title_or other t ≡ t
title_kept other [] h = absurd (h refl)
title_kept other (c ∷ cs) h = refl

lay_out-IsTiling :
    (title : ℕ → Runes) (i cursor : ℕ) (ps : List AudioPart)
    → IsTiling cursor ps (lay_out title i cursor ps) (cursor + total_duration ps)
unfolding lay_out total_duration
lay_out-IsTiling title i cursor [] = omega arith
lay_out-IsTiling title i cursor (p ∷ ps) = (
  refl,
  refl,
  title_kept (title (suc i)) p.chapter_title,
  subst (IsTiling (cursor + p.duration) ps (lay_out title (suc i) (cursor + p.duration) ps))
      (omega arith) (lay_out-IsTiling title (suc i) (cursor + p.duration) ps),
)

laid_out :
    (title : ℕ → Runes) (ps : List AudioPart)
    → IsTiling 0 ps (lay_out title 0 0 ps) (total_duration ps)
laid_out title ps =
    subst (IsTiling 0 ps (lay_out title 0 0 ps)) (omega arith) (lay_out-IsTiling title 0 0 ps)

-- Nothing to divide: no part, or a single one without a title.
abbrev pub IsWhole : List AudioPart → Type 0
IsWhole [] = Unit {0}
IsWhole (p ∷ []) = p.chapter_title ≡ []
IsWhole (p ∷ q ∷ ps) = ⊥

-- There are no chapters because there is nothing to divide, or they are the parts and fill this time.
abbrev pub IsDivided : List AudioPart → ℕ → List ChapterRange → Type 0
IsDivided ps total cs = (IsWhole ps × (cs ≡ [])) ⊎ (¬ (IsWhole ps) × IsTiling 0 ps cs total)

untitled : (t : Runes) → is_untitled t ≡ true → t ≡ []
untitled [] h = refl
untitled (c ∷ cs) h = cc

titled : (t : Runes) → is_untitled t ≡ false → t ≢ []
titled [] h = cc
titled (c ∷ cs) h = cc

chapters-IsDivided :
    (title : ℕ → Runes) (ps : List AudioPart)
    → IsDivided ps (total_duration ps) (chapters_from title ps)
unfolding chapters_from
chapters-IsDivided title [] = inl (tt, refl)
chapters-IsDivided title (p ∷ []) = elim (Bool-cases (is_untitled p.chapter_title)) [
  | inl bare ↦ inl (untitled p.chapter_title bare, rw bare)
  | inr named ↦ rw named (inr (titled p.chapter_title named, laid_out title (p ∷ [])))
]
chapters-IsDivided title (p ∷ q ∷ ps) = inr (λ whole. whole, laid_out title (p ∷ q ∷ ps))

only : (p : AudioPart) → total_duration (p ∷ []) ≡ p.duration
unfolding total_duration
only p = omega arith

abbrev Fits : Studio → List AudioPart → Result Joined → Type 0
Fits s ps (err e) = Unit {0}
Fits s ps (ok j) = (j.duration ≡ total_duration ps) × IsDivided ps j.duration j.chapters

join-Fits :
    (s : Studio) (book : ℕ) (ps : List AudioPart) (r : Result (Unit {0}))
    → Fits s ps (join_all s book ps r)
unfolding join_all
join-Fits s book ps (err e) = tt
join-Fits s book ps (ok u) = (refl, chapters-IsDivided s.part_title ps)

materialise-Fits : (s : Studio) (book : ℕ) (ps : List AudioPart) → Fits s ps (materialise s book ps)
unfolding materialise
materialise-Fits s book [] = join-Fits s book [] (s.join [])
materialise-Fits s book (p ∷ []) = elim (Bool-cases (p.duration == 0)) [
  | inl nothing ↦ rw nothing tt
  | inr some_time ↦
      let long : total_duration (p ∷ []) ≡ p.duration = only p in
      rw some_time (
        sym long,
        subst (λ t. IsDivided (p ∷ []) t (chapters_from s.part_title (p ∷ []))) long
            (chapters-IsDivided s.part_title (p ∷ [])),
      )
]
materialise-Fits s book (p ∷ q ∷ ps) = join-Fits s book (p ∷ q ∷ ps) (s.join (p ∷ q ∷ ps))

-- The file that an edition plays lasts as long as all its parts. It has no chapters exactly where there
-- is nothing to divide, a single part without a title or no part at all; else its chapters are the parts:
-- one for each, in order, from 0 to that time, each beginning where the one before it ends, as long as its
-- part, and with the title of its part if that has one.
pub materialise-IsDivided :
    (s : Studio) (book : ℕ) (ps : List AudioPart) {j : Joined}
    → materialise s book ps ≡ ok j
    → (j.duration ≡ total_duration ps)
      × ((IsWhole ps × (j.chapters ≡ [])) ⊎ (¬ (IsWhole ps) × IsTiling 0 ps j.chapters j.duration))
materialise-IsDivided s book ps e = subst (Fits s ps) e (materialise-Fits s book ps)
