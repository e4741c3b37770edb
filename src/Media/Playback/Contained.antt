-- ===== src/Media/Playback/Contained.antt =====
-- From the decision to the bytes: `PlaybackURL` followed by `OpenAsset` of
-- backend/internal/media/service.go.
use ketapod_website.Base.{
  ℕ, ◌+◌, ◌*◌, ◌/◌, ◌≤◌, ◌<◌, ◌≡◌, refl, ap, ◌∙◌, inl, inr, true, false, Option, none, some, arith,
  Bool-cases,
}
use ketapod_website.Base.Int.{ℤ, pos, pos_part, Int64, int64_half, ltb_ℤ, leb_ℤ, wrap64-Int64}
use ketapod_website.Base.Text.{Bytes, contains_byte}
use ketapod_website.Media.{clamp_range, preview_byte_limit}
use ketapod_website.Media.Access.{preview, AccessDecision, playable, Answers, resolve_access}
use ketapod_website.Media.Playback.{
  AudioAsset, EffectiveRange, clamped, granted_seconds, url_for, clamped_or, playback_url,
  open_found, open_asset,
}
use ketapod_website.Media.Preview.{IsInside, clamp_range-IsInside}
use ketapod_website.Media.Tokens.{Signer, second, sign, verify}
use ketapod_website.Media.Tokens.RoundTrip.{verify-sign}
use ketapod_website.Store.{Result, ok, err}

url_for_inv :
    (signer : Signer) (clock : ℕ) (x : Result AccessDecision) (asset : AudioAsset) {token : Bytes}
    {d : AccessDecision}
    → url_for signer clock x (some asset) ≡ ok (token, d)
    → (playable d ≡ true)
      × (token ≡ sign signer clock asset.id (granted_seconds d.level d.max_seconds))
url_for_inv signer clock (err e) asset h = cc
url_for_inv signer clock (ok x) asset {token} {d} h = ground arith

preview_byte_limit-Int64 : (s k : ℤ) → Int64 (preview_byte_limit s k)
unfolding preview_byte_limit
preview_byte_limit-Int64 s k = elim (Bool-cases (leb_ℤ s (pos 0))) [
  | inl none_at_all ↦ rw none_at_all (record { above = omega arith; below = omega arith })
  | inr some_at_all ↦ rw some_at_all (wrap64-Int64 _)
]

clamped_or_inv :
    (asset : AudioAsset) (o : Option (ℤ × ℤ)) {a : AudioAsset} {range : EffectiveRange}
    → clamped_or asset o ≡ ok (a, range)
    → (a ≡ asset) × ((r : ℤ × ℤ) × (range ≡ clamped r) × (o ≡ some r))
clamped_or_inv asset none h = cc
clamped_or_inv asset (some r) {a} {range} h = (ground arith, (r, ground arith, refl))

module _ (signer : Signer) (clock : ℕ) where
  -- A preview is of some seconds, and the token says how many.
  preview_token :
      (d : AccessDecision) (x : Result AccessDecision) (asset : AudioAsset) {token : Bytes}
      → d.level ≡ preview
      → url_for signer clock x (some asset) ≡ ok (token, d)
      → (0 < pos_part d.max_seconds)
        × (d.max_seconds ≡ pos (pos_part d.max_seconds))
        × (token ≡ sign signer clock asset.id (pos (pos_part d.max_seconds)))
  unfolding playable
  preview_token d x asset {token} short made =
      let (on, text) = url_for_inv signer clock x asset made in
      let some_seconds : ltb_ℤ (pos 0) d.max_seconds ≡ true = rw short at on in
      let same : d.max_seconds ≡ pos (pos_part d.max_seconds) =
        positive d.max_seconds some_seconds in
      (ground arith, same, text ∙ ap (sign signer clock asset.id) (rw short same))
    where
      positive : (s : ℤ) → ltb_ℤ (pos 0) s ≡ true → s ≡ pos (pos_part s)
      positive s h = ground arith

  opened_clamped :
      (n : ℕ) (header : Bytes) (asset a : AudioAsset) (range : EffectiveRange)
      → 0 < n
      → open_found (pos n) header (some asset) ≡ ok (a, range)
      → (a ≡ asset)
        × ((r : ℤ × ℤ) × (range ≡ clamped r)
            × (clamp_range header (preview_byte_limit (pos n) asset.bitrate_kbps) ≡ some r))
  opened_clamped n header asset a range some_seconds h =
      let on : ltb_ℤ (pos 0) (pos n) ≡ true = ground arith in clamped_or_inv asset _ (rw on at h)

  -- A listener who is given a preview gets a token that opens only the preview: whatever Range header
  -- it is presented with before it expires, the bytes asked of the object store are those of the
  -- asset, in a range that is not empty and ends before the limit for the seconds of the preview.
  -- (Base64 decodes what it encodes and writes no dot; the id of the asset has no bar in it and finds
  -- the asset; the seconds and the expiry fit an int64.)
  pub playback_url-IsInside :
      (now : ℕ) (answers : Answers) (assets : Bytes → Option AudioAsset) (asset a : AudioAsset)
      (token header : Bytes) (d : AccessDecision) (range : EffectiveRange)
      → ((s : Bytes) → signer.decode (signer.encode s) ≡ some s)
      → ((s : Bytes) → contains_byte b'.' (signer.encode s) ≡ false)
      → contains_byte b'|' asset.id ≡ false
      → assets asset.id ≡ some asset
      → pos_part d.max_seconds < int64_half
      → (clock + signer.ttl) / second < int64_half
      → now ≤ (clock + signer.ttl) / second * second
      → playback_url signer clock answers (some asset) ≡ ok (token, d)
      → d.level ≡ preview
      → open_asset signer now assets token header ≡ ok (a, range)
      → (a ≡ asset)
        × ((r : ℤ × ℤ) × (range ≡ clamped r)
            × IsInside (preview_byte_limit d.max_seconds asset.bitrate_kbps) r)
  unfolding playback_url open_asset
  playback_url-IsInside now answers assets asset a token header d range decodes undotted plain known
        small early live made short opened =
      let (some_seconds, same, text) = preview_token d (resolve_access answers) asset short made in
      let read =
        ap (verify signer now) text
        ∙ verify-sign signer clock now (pos_part d.max_seconds) asset.id decodes undotted plain
            small early live in
      let (same_asset, (r, is_clamped, granted)) =
        opened_clamped (pos_part d.max_seconds) header asset a range some_seconds
          (rw (read, known) at opened) in
      (
        same_asset,
        (
          r,
          is_clamped,
          rw same (clamp_range-IsInside header _ r (preview_byte_limit-Int64 _ _) granted).1,
        ),
      )
