-- ===== src/Commerce/Entitlements.antt =====
-- Who may listen to what: the statements of backend/internal/commerce/queries/entitlements.sql and
-- the methods of repo.go that run them.
pub mod Laws
use ketapod_website.Base.{
  ℕ, suc, Bool, true, false, ◌&&◌, ◌||◌, Option, none, some, ◌∷◌, ◌==◌, holds, any, find,
  update_where,
}
use ketapod_website.Commerce.Model.{Origin, purchase, gift, subscription, org, Entitlement}
use ketapod_website.Schema.{Db}
use ketapod_website.Store.{Result, ok, M, query}
use ketapod_website.Commerce.Coupons.{is_open}

abbrev pub is_none : Option ℕ → Bool
is_none none = true
is_none (some a) = false

-- Both are set, and to the same.
abbrev pub same : Option ℕ → Option ℕ → Bool
same none b = false
same (some a) b = holds b a

abbrev pub origin_code : Origin → ℕ
origin_code purchase = 0
origin_code gift = 1
origin_code subscription = 2
origin_code org = 3

-- Not revoked and not run out.
abbrev pub is_live : ℕ → ℕ → Entitlement → Bool
is_live now user e = e.user_id == user && (is_none e.revoked_at && is_open e.expires_at now)

abbrev pub covers_edition : ℕ → ℕ → ℕ → ℕ → Entitlement → Bool
covers_edition now user edition book e =
    is_live now user e
    && (holds e.edition_id edition || (is_none e.edition_id && holds e.book_id book))

-- `IsUserEntitledToEdition`
unfoldable pub entitled_to_edition : ℕ → ℕ → ℕ → Db → Bool
entitled_to_edition user edition book db =
    any (covers_edition db.now user edition book) db.entitlements

-- `IsUserEntitledToBook`
unfoldable pub entitled_to_book : ℕ → ℕ → Db → Bool
entitled_to_book user book db =
    any (λ e. is_live db.now user e && holds e.book_id book) db.entitlements

-- The rows that meet the partial unique index on (user_id, audio_edition_id, origin).
abbrev pub conflicts : ℕ → Option ℕ → Origin → Entitlement → Bool
conflicts user edition origin e =
    e.user_id == user
    && (same e.edition_id edition
        && (origin_code e.origin == origin_code origin && is_none e.revoked_at))

abbrev pub set_expiry : Option ℕ → Entitlement → Entitlement
set_expiry expires e = record e { expires_at = expires }

unfoldable pub new_entitlement :
    ℕ → Option ℕ → Option ℕ → Origin → Option ℕ → Option ℕ → Db → Entitlement
new_entitlement user book edition origin source expires db = record {
  id = db.next_id;
  user_id = user;
  book_id = book;
  edition_id = edition;
  origin = origin;
  source_id = source;
  expires_at = expires;
  revoked_at = none;
}

-- `GrantEntitlementIdempotent`
unfoldable pub upsert_entitlement :
    ℕ → Option ℕ → Option ℕ → Origin → Option ℕ → Option ℕ → Db → Result Entitlement × Db
unfolding new_entitlement
upsert_entitlement user book edition origin source expires db =
    let row = new_entitlement user book edition origin source expires db in
    elim (find (conflicts user edition origin) db.entitlements) [
      | none ↦
          (ok row, record db { next_id = suc db.next_id; entitlements = row ∷ db.entitlements })
      | some old ↦ (
        ok (set_expiry expires old),
        record db {
          entitlements =
              update_where (conflicts user edition origin) (set_expiry expires) db.entitlements;
        },
      )
    ]

unfoldable pub grant_entitlement :
    ℕ → Option ℕ → Option ℕ → Origin → Option ℕ → Option ℕ → M Entitlement
grant_entitlement user book edition origin source expires =
    query (upsert_entitlement user book edition origin source expires)

-- `RevokeEntitlementsForOrder`
unfoldable pub revoke_for_order : ℕ → Db → Db
revoke_for_order order db = record db {
  entitlements =
      update_where (λ e. holds e.source_id order && is_none e.revoked_at)
        (λ e. record e { revoked_at = some db.now }) db.entitlements;
}
