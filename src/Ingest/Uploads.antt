-- ===== src/Ingest/Uploads.antt =====
-- What an upload must be, and the name that it is stored under: `validate`, `looksLikePDF`,
-- `safeFileName` and `contentTypeOr` of backend/internal/ingest/service.go.
pub mod Names
use ketapod_website.Base.{
  ℕ, ◌+◌, ◌-◌, ◌*◌, ◌/◌, ◌%◌, Bool, true, false, not, ◌&&◌, ◌||◌, Option, none, some, List, [], ◌∷◌,
  ◌++◌, ltb, leb, ◌==◌, if◌then◌else◌, length,
}
use ketapod_website.Base.Text.{Bytes, Runes, is_white, trim_space, cut_prefix}
use ketapod_website.Catalog.Slugs.{Unicode}
use ketapod_website.Ingest.Model.{Upload, SubmitInput}

-- A code point in UTF-8.
unfoldable pub encode : ℕ → Bytes
encode r =
    if ltb r 0x80
    then r ∷ []
    else if ltb r 0x800
    then (192 + r / 64) ∷ (128 + r % 64) ∷ []
    else if ltb r 0x10000
    then (224 + r / 4_096) ∷ (128 + r / 64 % 64) ∷ (128 + r % 64) ∷ []
    else (240 + r / 262_144) ∷ (128 + r / 4_096 % 64) ∷ (128 + r / 64 % 64) ∷ (128 + r % 64) ∷ []

abbrev pub encode_all : Runes → Bytes
encode_all [] = []
encode_all (r ∷ rs) = encode r ++ encode_all rs

abbrev pub max_pdf_bytes : ℕ
max_pdf_bytes = 200 * 1_048_576

abbrev pub max_cover_bytes : ℕ
max_cover_bytes = 10 * 1_048_576

-- The messages, by what they say.
pub data Complaint : Type 0 where
  title_missing pdf_missing pdf_too_large pdf_invalid cover_too_large cover_not_image : Complaint

abbrev pub has_prefix : Bytes → Bytes → Bool
has_prefix p t = elim (cut_prefix p t) [ none ↦ false | some rest ↦ true ]

-- `looksLikePDF`: it begins with %PDF-.
unfoldable pub looks_like_pdf : Bytes → Bool
looks_like_pdf t = leb 5 (length t) && has_prefix (37 ∷ 80 ∷ 68 ∷ 70 ∷ 45 ∷ []) t

unfoldable pub pdf_complaints : Bytes → List Complaint
pdf_complaints t =
    if length t == 0
    then pdf_missing ∷ []
    else if ltb max_pdf_bytes (length t)
    then pdf_too_large ∷ []
    else if not (looks_like_pdf t)
    then pdf_invalid ∷ []
    else []

-- image/
abbrev pub image_prefix : Bytes
image_prefix = b'i' ∷ b'm' ∷ b'a' ∷ b'g' ∷ b'e' ∷ b'/' ∷ []

unfoldable pub cover_complaints : Option Upload → List Complaint
cover_complaints none = []
cover_complaints (some c) =
    (if ltb max_cover_bytes (length c.bytes) then cover_too_large ∷ [] else [])
    ++ (if not (has_prefix image_prefix c.content_type) then cover_not_image ∷ [] else [])

-- `validate`: the length of the title is in bytes.
unfoldable pub validate : SubmitInput → List Complaint
validate i =
    (if ltb (length (encode_all (trim_space i.title))) 2 then title_missing ∷ [] else [])
    ++ pdf_complaints i.pdf.bytes
    ++ cover_complaints i.cover

abbrev pub or_text : Runes → Runes → Runes → Runes
or_text fallback t [] = fallback
or_text fallback t (c ∷ cs) = t

-- `contentTypeOr`
unfoldable pub content_type_or : Runes → Runes → Runes
content_type_or t fallback = or_text fallback t (trim_space t)

-- The last part of a path whose backslashes are slashes, before `path.Base` names an empty one.
abbrev pub is_slash : ℕ → Bool
is_slash r = r == b'/' || r == 92

abbrev pub drop_slashes_end : Runes → Runes
drop_slashes_end [] = []
drop_slashes_end (c ∷ cs) =
    let rest = drop_slashes_end cs in
    elim rest [ [] ↦ if is_slash c then [] else c ∷ [] | d ∷ ds ↦ c ∷ d ∷ ds ]

-- What follows the last slash, with what was read since one.
abbrev pub after_slash : Runes → Runes → Runes
after_slash since [] = since
after_slash since (c ∷ cs) = after_slash (if is_slash c then [] else since ++ (c ∷ [])) cs

-- `path.Base`; that it answers "." or "/" for an empty part does not show below.
abbrev pub path_base : Runes → Runes
path_base t = after_slash [] (drop_slashes_end t)

abbrev pub is_dot_or_dash : ℕ → Bool
is_dot_or_dash c = c == b'.' || c == b'-'

abbrev pub trim_dots : Runes → Runes
trim_dots [] = []
trim_dots (c ∷ cs) = if is_dot_or_dash c then trim_dots cs else c ∷ cs

abbrev pub trim_dots_end : Runes → Runes
trim_dots_end [] = []
trim_dots_end (c ∷ cs) =
    let rest = trim_dots_end cs in
    elim rest [ [] ↦ if is_dot_or_dash c then [] else c ∷ [] | d ∷ ds ↦ c ∷ d ∷ ds ]

-- t[from:]
abbrev pub drop : ℕ → Bytes → Bytes
drop n [] = []
drop n (c ∷ cs) = if n == 0 then c ∷ cs else drop (n - 1) cs

-- The last 120 bytes of a longer text.
unfoldable pub last_120 : Bytes → Bytes
last_120 t = if ltb 120 (length t) then drop (length t - 120) t else t

module _ (u : Unicode) where
  abbrev pub is_kept : ℕ → Bool
  is_kept r = u.is_letter r || u.is_digit r || r == b'.' || r == b'-' || r == b'_'

  -- The loop over the runes of the name.
  abbrev pub clean : Runes → Runes
  clean [] = []
  clean (r ∷ rs) = (if is_kept r then r ∷ [] else if is_white r then b'-' ∷ [] else []) ++ clean rs

  abbrev pub named : Bytes → Runes → Bytes
  named fallback [] = fallback
  named fallback (c ∷ cs) = last_120 (encode_all (c ∷ cs))

  -- `safeFileName`. What is left of "." and ".." is empty.
  unfoldable pub safe_file_name : Runes → Bytes → Bytes
  safe_file_name name fallback = named fallback (trim_dots_end (trim_dots (clean (path_base name))))
