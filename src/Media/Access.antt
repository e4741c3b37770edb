-- ===== src/Media/Access.antt =====
-- The decision of backend/internal/media/access.go and `ResolveAccess` of service.go. The answers of
-- the catalog, of the kids module and of commerce are parameters.
use ketapod_website.Base.{ℕ, Bool, true, false, ◌&&◌, Option, none, some, if◌then◌else◌}
use ketapod_website.Base.Int.{ℤ, pos, ltb_ℤ, leb_ℤ}
use ketapod_website.Schema.{Error}
use ketapod_website.Store.{Result, ok, err}

pub data AccessLevel : Type 0 where
  full preview denied : AccessLevel

-- The reason codes; `kids` carries the code that the kids module gives, `silent` is the empty text.
pub data AccessReason : Type 0 where
  free entitled preview_only no_preview unpublished silent : AccessReason
  kids : ℕ → AccessReason

pub record AccessDecision : Type 0 where
  pub level : AccessLevel
  pub max_seconds : ℤ
  pub reason : AccessReason

abbrev pub plays : AccessLevel → ℤ → Bool
plays full s = true
plays preview s = ltb_ℤ (pos 0) s
plays denied s = false

-- `Playable`
unfoldable pub playable : AccessDecision → Bool
playable d = plays d.level d.max_seconds

pub data EditionStatus : Type 0 where
  blank published other : EditionStatus

-- The part of catalog.Edition that access looks at.
pub record AudioEdition : Type 0 where
  pub price_irr : ℤ
  pub preview_seconds : ℤ
  pub status : EditionStatus

-- `IsFree`
abbrev pub is_free : AudioEdition → Bool
is_free e = leb_ℤ e.price_irr (pos 0) && leb_ℤ (pos 0) e.price_irr

abbrev pub is_withheld : EditionStatus → Bool
is_withheld other = true
is_withheld _ = false

-- What the other modules answer: the kids module is asked only for a child profile, commerce only
-- for a user.
pub record Answers : Type 0 where
  pub edition : Option AudioEdition
  pub kids : Option (Result (Bool × ℕ))
  pub entitled : Option (Result Bool)

abbrev pub refuse : AccessReason → AccessDecision
refuse r = record { level = denied; max_seconds = pos 0; reason = r }

abbrev pub grant_full : AccessReason → AccessDecision
grant_full r = record { level = full; max_seconds = pos 0; reason = r }

unfoldable pub fall_back : AudioEdition → AccessDecision
fall_back e =
    if leb_ℤ e.preview_seconds (pos 0)
    then refuse no_preview
    else record { level = preview; max_seconds = e.preview_seconds; reason = preview_only }

abbrev pub after_entitlement : AudioEdition → Option (Result Bool) → Result AccessDecision
after_entitlement e none = ok (fall_back e)
after_entitlement e (some (err x)) = err x
after_entitlement e (some (ok has)) = ok (if has then grant_full entitled else fall_back e)

unfoldable pub after_kids : AudioEdition → Option (Result Bool) → Result AccessDecision
after_kids e has = if is_free e then ok (grant_full free) else after_entitlement e has

abbrev pub after_edition :
    AudioEdition → Option (Result (Bool × ℕ)) → Option (Result Bool) → Result AccessDecision
after_edition e none has = after_kids e has
after_edition e (some (err x)) has = err x
after_edition e (some (ok (true, r))) has = after_kids e has
after_edition e (some (ok (false, r))) has = ok (refuse (kids r))

abbrev pub resolve_found :
    Option AudioEdition → Option (Result (Bool × ℕ)) → Option (Result Bool) → Result AccessDecision
resolve_found none child has = err Error.not_found
resolve_found (some e) child has =
    if is_withheld e.status then ok (refuse unpublished) else after_edition e child has

-- `ResolveAccess`
unfoldable pub resolve_access : Answers → Result AccessDecision
resolve_access a = resolve_found a.edition a.kids a.entitled
