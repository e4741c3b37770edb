-- ===== src/Media/Playback.antt =====
-- `PlaybackURL` and `OpenAsset` of backend/internal/media/service.go. The lookups of assets are
-- parameters; of the URL the model keeps the token, and of the request to the object store the key
-- and the range.
pub mod Contained
mod Tests
pub mod Decision
use ketapod_website.Base.{ℕ, Bool, true, false, Option, none, some, if◌then◌else◌}
use ketapod_website.Base.Int.{ℤ, pos, ltb_ℤ}
use ketapod_website.Base.Text.{Bytes}
use ketapod_website.Media.{clamp_range, preview_byte_limit}
use ketapod_website.Media.Access.{
  AccessLevel, full, preview, denied, AccessDecision, playable, Answers, resolve_access,
}
use ketapod_website.Media.Tokens.{Signer, StreamToken, sign, verify}
use ketapod_website.Schema.{Error}
use ketapod_website.Store.{Result, ok, err}

pub record AudioAsset : Type 0 where
  pub id : Bytes
  pub storage_key : ℕ
  pub bitrate_kbps : ℤ
  pub duration_seconds : ℤ

-- The header as the client sent it, or the range that `clampRange` makes of it.
pub data EffectiveRange : Type 0 where
  as_asked : Bytes → EffectiveRange
  clamped : ℤ × ℤ → EffectiveRange

abbrev pub granted_seconds : AccessLevel → ℤ → ℤ
granted_seconds preview s = s
granted_seconds _ s = pos 0

abbrev pub sign_for :
    Signer → ℕ → AccessDecision → Option AudioAsset → Result (Bytes × AccessDecision)
sign_for signer clock d none = err Error.not_found
sign_for signer clock d (some asset) =
    ok (sign signer clock asset.id (granted_seconds d.level d.max_seconds), d)

abbrev pub url_for :
    Signer → ℕ → Result AccessDecision → Option AudioAsset → Result (Bytes × AccessDecision)
url_for signer clock (err e) primary = err e
url_for signer clock (ok d) primary =
    if playable d then sign_for signer clock d primary else err Error.forbidden

-- `PlaybackURL`: the token and the decision.
unfoldable pub playback_url :
    Signer → ℕ → Answers → Option AudioAsset → Result (Bytes × AccessDecision)
playback_url signer clock answers primary = url_for signer clock (resolve_access answers) primary

abbrev pub add_duration : Option AudioAsset → Result (Bytes × AccessDecision) → Result (Bytes × ℤ)
add_duration primary (err e) = err e
add_duration none (ok (url, d)) = err Error.not_found
add_duration (some asset) (ok (url, d)) = ok (url, asset.duration_seconds)

-- `StreamURL`: a visitor, for whom neither the kids module nor commerce is asked.
unfoldable pub stream_url : Signer → ℕ → Answers → Option AudioAsset → Result (Bytes × ℤ)
stream_url signer clock answers primary =
    add_duration primary
      (playback_url signer clock (record answers { kids = none; entitled = none }) primary)

abbrev pub clamped_or : AudioAsset → Option (ℤ × ℤ) → Result (AudioAsset × EffectiveRange)
clamped_or asset none = err Error.range_outside_preview
clamped_or asset (some r) = ok (asset, clamped r)

abbrev pub open_found : ℤ → Bytes → Option AudioAsset → Result (AudioAsset × EffectiveRange)
open_found max header none = err Error.not_found
open_found max header (some asset) =
    if ltb_ℤ (pos 0) max
    then clamped_or asset (clamp_range header (preview_byte_limit max asset.bitrate_kbps))
    else ok (asset, as_asked header)

abbrev pub open_verified :
    (Bytes → Option AudioAsset) → Bytes → Option StreamToken → Result (AudioAsset × EffectiveRange)
open_verified assets header none = err Error.invalid_stream_token
open_verified assets header (some t) = open_found t.max_seconds header (assets t.asset_id)

-- `OpenAsset`
unfoldable pub open_asset :
    Signer → ℕ → (Bytes → Option AudioAsset) → Bytes → Bytes → Result (AudioAsset × EffectiveRange)
open_asset signer now assets token header = open_verified assets header (verify signer now token)
