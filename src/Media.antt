-- ===== src/Media.antt =====
-- The bytes that a listener without access may read: backend/internal/media/rangeclamp.go and
-- `PreviewByteLimit` of access.go. A range is its two ends; the text "bytes=%d-%d" that the code
-- makes of them is left out.
pub mod Preview
pub mod Access
pub mod Tokens
pub mod Playback
mod Tests
use ketapod_website.Base.{
  ℕ, suc, ◌+◌, ◌-◌, ◌*◌, ◌/◌, ◌≤◌, Bool, true, false, not, ◌&&◌, ◌||◌, Option, none, some, List, [],
  ◌∷◌, ltb, leb, ◌==◌, if◌then◌else◌,
}
use ketapod_website.Base.Int.{
  ℤ, pos, negsuc, ◌+ℤ◌, ◌-ℤ◌, ◌*ℤ◌, ltb_ℤ, leb_ℤ, min_ℤ, quot, wrap64, int64_half,
}
use ketapod_website.Base.Text.{Bytes, trim_left, trim_right, cut_prefix, contains_byte, cut, digits}

-- A value of this sign, if it fits an int64.
abbrev pub signed_value : Bool → Option ℕ → Option ℤ
signed_value b none = none
signed_value true (some n) = if leb n int64_half then some (pos 0 -ℤ pos n) else none
signed_value false (some n) = if ltb n int64_half then some (pos n) else none

-- strconv.ParseInt(s, 10, 64); `none` is an error.
abbrev pub parse_int : Bytes → Option ℤ
parse_int [] = none
parse_int (c ∷ cs) =
    if c == b'-'
    then signed_value true (digits cs)
    else if c == b'+'
    then signed_value false (digits cs)
    else signed_value false (digits (c ∷ cs))

-- The end of the range, from what stands behind the dash.
abbrev pub parsed_end : ℤ → ℤ → Option ℤ → Option (ℤ × ℤ)
parsed_end limit start none = none
parsed_end limit start (some e) =
    if ltb_ℤ e start then none else some (start, min_ℤ e (wrap64 (limit -ℤ pos 1)))

unfoldable pub clamp_end : ℤ → ℤ → Bytes → Option (ℤ × ℤ)
clamp_end limit start [] = some (start, wrap64 (limit -ℤ pos 1))
clamp_end limit start (c ∷ cs) = parsed_end limit start (parse_int (c ∷ cs))

unfoldable pub clamp_start : ℤ → Option ℤ → Bytes → Option (ℤ × ℤ)
clamp_start limit none rest = none
clamp_start limit (some start) rest =
    if ltb_ℤ start (pos 0) || leb_ℤ limit start then none else clamp_end limit start rest

abbrev pub clamp_parts : ℤ → Option (Bytes × Bytes) → Option (ℤ × ℤ)
clamp_parts limit none = none
clamp_parts limit (some ([], rest)) = none
clamp_parts limit (some (c ∷ cs, rest)) = clamp_start limit (parse_int (c ∷ cs)) rest

abbrev pub clamp_spec : ℤ → Option Bytes → Option (ℤ × ℤ)
clamp_spec limit none = none
clamp_spec limit (some s) = if contains_byte b',' s then none else clamp_parts limit (cut b'-' s)

abbrev pub bytes_unit : Bytes
bytes_unit = b'b' ∷ b'y' ∷ b't' ∷ b'e' ∷ b's' ∷ b'=' ∷ []

abbrev pub clamp_header : ℤ → Bytes → Option (ℤ × ℤ)
clamp_header limit [] = some (pos 0, wrap64 (limit -ℤ pos 1))
clamp_header limit (c ∷ cs) =
    clamp_spec limit (cut_prefix bytes_unit (trim_right (trim_left (c ∷ cs))))

-- `clampRange`; `none` is ErrRangeOutsidePreview.
unfoldable pub clamp_range : Bytes → ℤ → Option (ℤ × ℤ)
clamp_range header limit = if leb_ℤ limit (pos 0) then none else clamp_header limit header

-- `PreviewByteLimit`
unfoldable pub preview_byte_limit : ℤ → ℤ → ℤ
preview_byte_limit seconds kbps =
    if leb_ℤ seconds (pos 0)
    then pos 0
    else let rate = if leb_ℤ kbps (pos 0) then pos 48 else kbps in
      wrap64 (quot (wrap64 (wrap64 (seconds *ℤ rate) *ℤ pos 1_000)) 8 +ℤ pos 65_536)
