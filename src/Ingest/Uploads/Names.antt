-- ===== src/Ingest/Uploads/Names.antt =====
-- The names of stored files, `safeFileName` of backend/internal/ingest/service.go.
use ketapod_website.Base.{
  ℕ, ◌-◌, ◌≤◌, ◌≡◌, ◌≢◌, ap, inl, inr, true, false, [], ◌∷◌, ◌++◌, ltb, if◌then◌else◌, length,
  arith, All, Bool-cases,
}
use ketapod_website.Base.Text.{Bytes, Runes, is_white}
use ketapod_website.Catalog.Slugs.{Unicode}
use ketapod_website.Ingest.Uploads.{
  encode, encode_all, is_dot_or_dash, trim_dots, trim_dots_end, drop, last_120, is_kept, clean,
  named, path_base, safe_file_name,
}

abbrev pub NotSlash : ℕ → Type 0
NotSlash c = c ≢ b'/'

-- One part of a key, that names no directory.
pub record IsPart (t : Bytes) : Type 0 where
  pub no_slash : All NotSlash t
  pub not_empty : t ≢ []
  pub not_dot : t ≢ b'.' ∷ []
  pub not_parent : t ≢ b'.' ∷ b'.' ∷ []
  pub short : length t ≤ 120

encode-NotSlash : (r : ℕ) → NotSlash r → All NotSlash (encode r)
unfolding encode
encode-NotSlash r h = ground arith

All-++ : (xs ys : Bytes) → All NotSlash xs → All NotSlash ys → All NotSlash (xs ++ ys)
All-++ [] ys h k = k
All-++ (x ∷ xs) ys h k = (h.0, All-++ xs ys h.1 k)

encode_all-NotSlash : (rs : Runes) → All NotSlash rs → All NotSlash (encode_all rs)
encode_all-NotSlash [] h = tt
encode_all-NotSlash (r ∷ rs) h =
    All-++ (encode r) (encode_all rs) (encode-NotSlash r h.0) (encode_all-NotSlash rs h.1)

trim_dots-NotSlash : (rs : Runes) → All NotSlash rs → All NotSlash (trim_dots rs)
trim_dots-NotSlash [] h = tt
trim_dots-NotSlash (r ∷ rs) h = ground (arith, trim_dots-NotSlash rs)

trim_dots_end-NotSlash : (rs : Runes) → All NotSlash rs → All NotSlash (trim_dots_end rs)
trim_dots_end-NotSlash [] h = tt
trim_dots_end-NotSlash (r ∷ rs) h = put (trim_dots_end rs) (trim_dots_end-NotSlash rs h.1)
  where
    put :
        (rest : Runes)
        → All NotSlash rest
        → All NotSlash
            (elim rest [ [] ↦ if is_dot_or_dash r then [] else r ∷ [] | d ∷ ds ↦ r ∷ d ∷ ds ])
    put [] k = ground arith
    put (d ∷ ds) k = (h.0, k)

drop-NotSlash : (n : ℕ) (t : Bytes) → All NotSlash t → All NotSlash (drop n t)
drop-NotSlash n [] h = tt
drop-NotSlash n (c ∷ cs) h = ground (arith, drop-NotSlash (n - 1) cs)

length-drop : (n : ℕ) (t : Bytes) → length (drop n t) ≡ length t - n
length-drop n [] = omega arith
length-drop n (c ∷ cs) = ground (arith, length-drop (n - 1) cs)

last_120-NotSlash : (t : Bytes) → All NotSlash t → All NotSlash (last_120 t)
unfolding last_120
last_120-NotSlash t h = elim (Bool-cases (ltb 120 (length t))) [
  | inl long ↦ rw long (drop-NotSlash (length t - 120) t h)
  | inr short ↦ rw short h
]

-- A text that does not begin with a dot.
abbrev NoDotFirst : Bytes → Type 0
NoDotFirst [] = ⊥
NoDotFirst (c ∷ cs) = c ≢ b'.'

abbrev NoDotAhead : Runes → Type 0
NoDotAhead [] = Unit
NoDotAhead (c ∷ cs) = is_dot_or_dash c ≡ false

trim_dots-NoDotAhead : (rs : Runes) → NoDotAhead (trim_dots rs)
trim_dots-NoDotAhead [] = tt
trim_dots-NoDotAhead (r ∷ rs) = elim (Bool-cases (is_dot_or_dash r)) [
  | inl dot ↦ rw dot (trim_dots-NoDotAhead rs)
  | inr other ↦ rw other other
]

trim_dots_end-NoDotAhead : (rs : Runes) → NoDotAhead rs → NoDotAhead (trim_dots_end rs)
trim_dots_end-NoDotAhead [] h = tt
trim_dots_end-NoDotAhead (r ∷ rs) h = put (trim_dots_end rs)
  where
    put :
        (rest : Runes)
        → NoDotAhead
            (elim rest [ [] ↦ if is_dot_or_dash r then [] else r ∷ [] | d ∷ ds ↦ r ∷ d ∷ ds ])
    put [] = rw h h
    put (d ∷ ds) = h

encode-NoDotFirst :
    (r : ℕ) (rest : Bytes) → is_dot_or_dash r ≡ false → NoDotFirst (encode r ++ rest)
unfolding encode
encode-NoDotFirst r rest h = ground arith

not_dots : (t : Bytes) → NoDotFirst t → (t ≢ []) × (t ≢ b'.' ∷ []) × (t ≢ b'.' ∷ b'.' ∷ [])
not_dots [] h = absurd h
not_dots (c ∷ cs) h = (λ e. cc, λ e. ground (arith, h, e), λ e. ground (arith, h, e))

long_enough : (t : Bytes) → length t ≡ 120 → (t ≢ []) × (t ≢ b'.' ∷ []) × (t ≢ b'.' ∷ b'.' ∷ [])
long_enough t h = (
  λ e. absurd (omega (arith, h, ap length e)),
  λ e. absurd (omega (arith, h, ap length e)),
  λ e. absurd (omega (arith, h, ap length e)),
)

last_120-IsPart : (t : Bytes) → All NotSlash t → NoDotFirst t → IsPart (last_120 t)
unfolding last_120
last_120-IsPart t h first = elim (Bool-cases (ltb 120 (length t))) [
  | inl long ↦
      let exact : length (drop (length t - 120) t) ≡ 120 =
        ground (arith, length-drop (length t - 120) t) in
      let (a, b, c) = long_enough (drop (length t - 120) t) exact in
      rw long (record {
        no_slash = drop-NotSlash (length t - 120) t h;
        not_empty = a;
        not_dot = b;
        not_parent = c;
        short = omega (arith, exact);
      })
  | inr fits ↦
      let (a, b, c) = not_dots t first in
      rw fits (record {
        no_slash = h;
        not_empty = a;
        not_dot = b;
        not_parent = c;
        short = ground (arith, fits);
      })
]

module _ (u : Unicode) where
  kept-NotSlash :
      (r : ℕ) → u.is_letter b'/' ≡ false → u.is_digit b'/' ≡ false → is_kept u r ≡ true → NotSlash r
  kept-NotSlash r h k e s = ground (arith, h, k, e, s, ap u.is_letter s, ap u.is_digit s)

  clean-NotSlash :
      u.is_letter b'/' ≡ false → u.is_digit b'/' ≡ false → (rs : Runes) → All NotSlash (clean u rs)
  clean-NotSlash h k [] = tt
  clean-NotSlash h k (r ∷ rs) = elim (Bool-cases (is_kept u r)) [
    | inl kept ↦ rw kept (kept-NotSlash r h k kept, clean-NotSlash h k rs)
    | inr other ↦ elim (Bool-cases (is_white r)) [
      | inl white ↦ rw (other, white) ((λ e. absurd (omega (arith, e))), clean-NotSlash h k rs)
      | inr gone ↦ rw (other, gone) (clean-NotSlash h k rs)
    ]
  ]

  named-IsPart :
      (fallback : Bytes) (rs : Runes)
      → IsPart fallback
      → All NotSlash rs
      → NoDotAhead rs
      → IsPart (named u fallback rs)
  named-IsPart fallback [] part h first = part
  named-IsPart fallback (c ∷ cs) part h first =
      last_120-IsPart (encode_all (c ∷ cs)) (encode_all-NotSlash (c ∷ cs) h)
        (encode-NoDotFirst c (encode_all cs) first)

  -- Whatever name an upload comes with, it is stored under one part of a key: no slash, not empty,
  -- not "." nor "..", and at most 120 bytes; where the name of last resort is such a part, and a slash
  -- is no letter and no digit.
  pub safe_file_name-IsPart :
      u.is_letter b'/' ≡ false
      → u.is_digit b'/' ≡ false
      → (name : Runes) (fallback : Bytes) → IsPart fallback
      → IsPart (safe_file_name u name fallback)
  unfolding safe_file_name
  safe_file_name-IsPart h k name fallback part =
      let cleaned = clean u (path_base name) in
      named-IsPart fallback (trim_dots_end (trim_dots cleaned)) part
        (trim_dots_end-NotSlash (trim_dots cleaned)
          (trim_dots-NotSlash cleaned (clean-NotSlash h k (path_base name))))
        (trim_dots_end-NoDotAhead (trim_dots cleaned) (trim_dots-NoDotAhead cleaned))
