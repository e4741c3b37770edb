-- ===== src/Media/Tests.antt =====
-- Range headers of a preview.
use ketapod_website.Base.{◌≡◌, refl, ◌∷◌, [], none}
use ketapod_website.Base.Int.{pos}
use ketapod_website.Base.Text.{Bytes, is_space, trim_left, trim_right}
use ketapod_website.Media.{clamp_range}

-- " bytes=10-50"
abbrev header : Bytes
header = b' ' ∷ b'b' ∷ b'y' ∷ b't' ∷ b'e' ∷ b's' ∷ b'=' ∷ b'1' ∷ b'0' ∷ b'-' ∷ b'5' ∷ b'0' ∷ []

-- The last bytes of the file are refused.
suffix : clamp_range (b'b' ∷ b'y' ∷ b't' ∷ b'e' ∷ b's' ∷ b'=' ∷ b'-' ∷ b'5' ∷ []) (pos 40) ≡ none
unfolding clamp_range trim_left trim_right is_space
suffix = refl
