-- ===== src/Commerce/Entitlements/Laws.antt =====
-- What a grant without expiry does to who may listen to what.
use ketapod_website.Base.{
  ℕ, suc, ◌≡◌, refl, sym, inl, inr, true, Option, none, some, ◌∷◌, arith, find, update_where,
  Option-cases, any-update_where, any-update_where_hit,
}
use mathlib.Core.Path.{subst}
use ketapod_website.Commerce.Model.{Origin, Entitlement}
use ketapod_website.Schema.{Db}
use ketapod_website.Store.{ok}
use ketapod_website.Commerce.Entitlements.{
  conflicts, covers_edition, set_expiry, entitled_to_edition, new_entitlement, upsert_entitlement,
}

module _ (user edition : ℕ) (origin : Origin) where
  -- Lifting an expiry takes no access away.
  covers-set_expiry :
      (now u e b : ℕ) (r : Entitlement)
      → covers_edition now u e b r ≡ true
      → covers_edition now u e b (set_expiry none r) ≡ true
  covers-set_expiry now u e b r h = ground arith

  covers_conflict :
      (now b : ℕ) (r : Entitlement)
      → conflicts user (some edition) origin r ≡ true
      → covers_edition now user edition b (set_expiry none r) ≡ true
  covers_conflict now b r h = ground arith

  -- What a grant of an edition, with no expiry, has done.
  pub record Grants (book : ℕ) (db d : Db) : Type 0 where
    pub given : entitled_to_edition user edition book d ≡ true
    pub kept :
        (u e b : ℕ) → entitled_to_edition u e b db ≡ true → entitled_to_edition u e b d ≡ true
    pub ledger : d.ledger ≡ db.ledger
    pub orders : d.orders ≡ db.orders
    pub items : d.items ≡ db.items

  abbrev inserted : ℕ → Option ℕ → Db → Db
  inserted book source db = record db {
    next_id = suc db.next_id;
    entitlements =
        new_entitlement user (some book) (some edition) origin source none db ∷ db.entitlements;
  }

  abbrev updated : Db → Db
  updated db = record db {
    entitlements =
        update_where (conflicts user (some edition) origin) (set_expiry none) db.entitlements;
  }

  inserted-Grants :
      (book : ℕ) (source : Option ℕ) (db : Db) → Grants book db (inserted book source db)
  unfolding entitled_to_edition new_entitlement
  inserted-Grants book source db = record {
    given = ground arith;
    kept = λ u e b h. ground arith;
    ledger = refl;
    orders = refl;
    items = refl;
  }

  updated-Grants :
      (book : ℕ) (db : Db) {old : Entitlement}
      → find (conflicts user (some edition) origin) db.entitlements ≡ some old
      → Grants book db (updated db)
  unfolding entitled_to_edition
  updated-Grants book db hit = record {
    given =
        any-update_where_hit (covers_edition db.now user edition book)
          (conflicts user (some edition) origin) (set_expiry none) (covers_conflict db.now book)
          db.entitlements hit;
    kept = λ u e b h.
        any-update_where (covers_edition db.now u e b) (conflicts user (some edition) origin)
          (set_expiry none) (covers-set_expiry db.now u e b) db.entitlements h;
    ledger = refl;
    orders = refl;
    items = refl;
  }

  pub upsert_entitlement-Grants :
      (book : ℕ) (source : Option ℕ) (db d : Db) (e : Entitlement)
      → upsert_entitlement user (some book) (some edition) origin source none db ≡ (ok e, d)
      → Grants book db d
  unfolding upsert_entitlement
  upsert_entitlement-Grants book source db d e h =
      elim (Option-cases (find (conflicts user (some edition) origin) db.entitlements)) [
        | inl new ↦
            let after : d ≡ inserted book source db = ground arith in
            subst (Grants book db) (sym after) (inserted-Grants book source db)
        | inr (old, hit) ↦
            let after : d ≡ updated db = ground arith in
            subst (Grants book db) (sym after) (updated-Grants book db hit)
      ]
