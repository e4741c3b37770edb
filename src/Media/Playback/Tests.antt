-- ===== src/Media/Playback/Tests.antt =====
-- A paid title with a preview of a minute, and a stand-in for base64 that writes no dot.
use ketapod_website.Base.{
  ℕ, ◌+◌, ◌-◌, ◌*◌, ◌≡◌, refl, ap, true, false, some, Option, [], ◌∷◌, map, ltb, if◌then◌else◌,
  arith,
}
use ketapod_website.Base.Int.{ℤ, pos, ◌-ℤ◌, ◌+ℤ◌, ◌*ℤ◌, min_ℤ, quot, wrap64}
use ketapod_website.Base.Text.{Bytes, contains_byte, is_space, trim_left, trim_right}
use ketapod_website.Media.{clamp_end, clamp_start, clamp_range, preview_byte_limit}
use ketapod_website.Media.Access.{
  AccessDecision, preview, preview_only, AudioEdition, published, Answers, after_kids, fall_back,
  playable, resolve_access,
}
use ketapod_website.Media.Playback.{AudioAsset, clamped, playback_url, open_asset}
use ketapod_website.Media.Playback.Contained.{playback_url-IsInside}
use ketapod_website.Media.Playback.Decision.{
  is_full, is_playable, may_hear_all, may_hear_some, resolve_access_complete,
}
use ketapod_website.Media.Preview.{IsInside}
use ketapod_website.Media.Tokens.{Signer, second, sign, verify, print, print_ℤ, payload, split}
use ketapod_website.Media.Tokens.RoundTrip.{verify-sign}
use ketapod_website.Store.{ok}

abbrev raise_byte : ℕ → ℕ
raise_byte c = if ltb c 46 then c else c + 1

abbrev lower_byte : ℕ → ℕ
lower_byte c = if ltb c 46 then c else c - 1

abbrev signer : Signer
signer = record {
  mac = λ s. b'k' ∷ [];
  encode = map raise_byte;
  decode = λ s. some (map lower_byte s);
  ttl = 900 * second;
}

lower_raise : (s : Bytes) → map lower_byte (map raise_byte s) ≡ s
lower_raise [] = refl
lower_raise (c ∷ cs) = ground (arith, lower_raise cs)

raised-contains_byte : (s : Bytes) → contains_byte b'.' (map raise_byte s) ≡ false
raised-contains_byte [] = refl
raised-contains_byte (c ∷ cs) = ground (arith, raised-contains_byte cs)

abbrev asset : AudioAsset
asset = record {
  id = b'a' ∷ b'7' ∷ [];
  storage_key = 3;
  bitrate_kbps = pos 48;
  duration_seconds = pos 3_600;
}

abbrev paid : Answers
paid = record {
  edition = some (record { price_irr = pos 500; preview_seconds = pos 60; status = published });
  kids = some (ok (true, 0));
  entitled = some (ok false);
}

abbrev minute : AccessDecision
minute = record { level = preview; max_seconds = pos 60; reason = preview_only }

abbrev token : Bytes
token = sign signer (5 * second) asset.id (pos 60)

abbrev assets : Bytes → Option AudioAsset
assets i = some asset

-- "bytes=10-999999999"
abbrev header : Bytes
header =
    b'b' ∷ b'y' ∷ b't' ∷ b'e' ∷ b's' ∷ b'=' ∷ b'1' ∷ b'0' ∷ b'-' ∷ b'9' ∷ b'9' ∷ b'9' ∷ b'9' ∷ b'9'
    ∷ b'9' ∷ b'9' ∷ []

minted : playback_url signer (5 * second) paid (some asset) ≡ ok (token, minute)
unfolding playback_url resolve_access after_kids fall_back playable
minted = refl

opened :
    open_asset signer (8 * second) assets token header ≡ ok (asset, clamped (pos 10, pos 425_535))
unfolding open_asset verify sign payload print print_ℤ split clamp_range clamp_start clamp_end
    trim_left trim_right is_space preview_byte_limit wrap64 ◌-ℤ◌ ◌+ℤ◌ ◌*ℤ◌ min_ℤ quot
opened = refl

playback_url-IsInside_example :
    (asset ≡ asset)
    × ((r : ℤ × ℤ) × (clamped (pos 10, pos 425_535) ≡ clamped r)
        × IsInside (preview_byte_limit (pos 60) (pos 48)) r)
playback_url-IsInside_example =
    playback_url-IsInside signer (5 * second) (8 * second) paid assets asset asset token header
      minute (clamped (pos 10, pos 425_535)) (λ s. ap some (lower_raise s)) raised-contains_byte
      refl refl (omega arith) (omega arith) (omega arith) minted refl opened

verify-sign_example :
    verify signer (8 * second) token
    ≡ some (record { asset_id = b'a' ∷ b'7' ∷ []; expires_at = pos 905; max_seconds = pos 60 })
verify-sign_example =
    verify-sign signer (5 * second) (8 * second) 60 (b'a' ∷ b'7' ∷ [])
      (λ s. ap some (lower_raise s)) raised-contains_byte refl (omega arith) (omega arith)
      (omega arith)

abbrev title : AudioEdition
title = record { price_irr = pos 500; preview_seconds = pos 60; status = published }

resolve_access_complete_example :
    (is_full (resolve_access paid) ≡ may_hear_all title paid)
    × (is_playable (resolve_access paid) ≡ may_hear_some title paid)
resolve_access_complete_example = resolve_access_complete title paid refl
