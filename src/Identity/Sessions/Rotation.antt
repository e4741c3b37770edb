-- ===== src/Identity/Sessions/Rotation.antt =====
-- What one successful `RefreshToken` of backend/internal/identity/service.go does to the table of
-- tokens.
use ketapod_website.Base.{
  ℕ, suc, ◌+◌, ◌≡◌, ap, refl, sym, ◌∙◌, true, false, some, ◌∷◌, ltb, ◌==◌, arith, any, update_where,
  inl, inr, Bool-cases, ==_iff, find_passes,
}
use ketapod_website.Identity.Model.{User, RefreshToken, TokenPair, is_active}
use ketapod_website.Identity.{
  user_by_id, roles_of, hydrate_roles, revoke_tokens_of_user, get_user_by_id,
}
use ketapod_website.Identity.Sessions.{
  Keys, token_by_hash, new_token, insert_token, use_token, mark_token_used, is_unspent,
  issue_token_pair, rotate, revoke_family, refresh_user, refresh_found, refresh,
}
use ketapod_website.Schema.{Error, Db}
use ketapod_website.Store.{ok, World, query, or_fail}
use ketapod_website.Store.Rules.{
  Ensures, Ensures-query, Ensures-then, Ensures-map, Ensures-then_raise, Ensures-lift,
  Ensures-recast-reads,
}
use ketapod_website.Store.Reads.{
  Reads, Reads-reads, Reads-lift, Reads-pure, Ensures-Reads, or_fail-ok,
}

-- The user that `GetUserByID` returns is the row with its roles.
unfoldable pub Loaded : ℕ → Db → User → Type 0
Loaded i db u =
    (u0 : User) × (user_by_id i db ≡ some u0) × (u ≡ record u0 { roles = roles_of u0.id db })

pub get_user_by_id-Reads : (i : ℕ) (w : World) → Reads (Loaded i w.db) w.db (get_user_by_id i w)
unfolding get_user_by_id hydrate_roles Loaded
get_user_by_id-Reads i w = Reads-reads _ _ _ w λ fs. Reads-lift _ _ _ _ λ u e.
    Reads-reads _ _ _ _ λ fs'.
      Reads-pure _ w.db (record u { roles = roles_of u.id w.db }) fs'
        (u, or_fail-ok Error.storage (user_by_id i w.db) e, refl)

module _ (keys : Keys) (clock : ℕ) where
  -- The row that replaces a token.
  abbrev pub successor : ℕ → RefreshToken → Db → RefreshToken
  successor secret old db =
      new_token old.user_id old.device_id (some old.family_id) (keys.hash secret)
        (clock + keys.refresh_ttl) db

  -- The tables after the rotation of a token.
  unfoldable pub rotated : ℕ → RefreshToken → Db → Db
  rotated secret old db = record db {
    next_id = suc (suc db.next_id);
    refresh_tokens =
        update_where (λ t. t.id == old.id) (use_token db.now db.next_id)
          (successor secret old db ∷ db.refresh_tokens);
  }

  -- What a successful refresh of this row means.
  unfoldable pub Rotates : ℕ → RefreshToken → Db → TokenPair → Db → Type 0
  Rotates secret old db pair d =
      (is_unspent old ≡ true)
      × (ltb old.expires_at clock ≡ false)
      × ((u : User) × Loaded old.user_id db u × (is_active u ≡ true) × (pair.user ≡ u))
      × (pair.refresh_token ≡ secret)
      × (any (λ t. t.token_hash == keys.hash secret) db.refresh_tokens ≡ false)
      × (d ≡ rotated secret old db)

  -- The tables with the new token only.
  abbrev inserted : ℕ → RefreshToken → Db → Db
  inserted secret old db = record db {
    next_id = suc (suc db.next_id);
    refresh_tokens = successor secret old db ∷ db.refresh_tokens;
  }

  insert_token_lem :
      (secret : ℕ) (old : RefreshToken) (u : User) (db d : Db) (row : RefreshToken)
      → u.id ≡ old.user_id
      → insert_token u.id old.device_id
          (some old.family_id)
          (keys.hash secret)
          (clock + keys.refresh_ttl)
          db
        ≡ (ok row, d)
      → (any (λ t. t.token_hash == keys.hash secret) db.refresh_tokens ≡ false)
        × (row.id ≡ db.next_id)
        × (d ≡ inserted secret old db)
  unfolding insert_token new_token
  insert_token_lem secret old u db d row same e = ground arith

  abbrev Issued : ℕ → RefreshToken → User → Db → TokenPair × ℕ → Db → Type 0
  Issued secret old u db made d =
      (made.0.user ≡ u)
      × (made.0.refresh_token ≡ secret)
      × (made.1 ≡ db.next_id)
      × (any (λ t. t.token_hash == keys.hash secret) db.refresh_tokens ≡ false)
      × (d ≡ inserted secret old db)

  issue_token_pair-Issued :
      (secret : ℕ) (old : RefreshToken) (u : User) (w : World)
      → u.id ≡ old.user_id
      → Ensures
          (Issued secret old u w.db)
          (issue_token_pair keys clock secret u old.device_id (some old.family_id) w)
  unfolding issue_token_pair Ensures
  issue_token_pair-Issued secret old u w same =
      Ensures-then
        (λ row d.
          (any (λ t. t.token_hash == keys.hash secret) w.db.refresh_tokens ≡ false)
          × (row.id ≡ w.db.next_id)
          × (d ≡ inserted secret old w.db))
        _ _ _ (Ensures-query _ _ w λ row d e. insert_token_lem secret old u w.db d row same e)
        λ row w' h. (refl, refl, h.1, h.0, h.2)

  abbrev RotatedBy : ℕ → RefreshToken → User → Db → TokenPair → Db → Type 0
  RotatedBy secret old u db pair d =
      (pair.user ≡ u)
      × (pair.refresh_token ≡ secret)
      × (any (λ t. t.token_hash == keys.hash secret) db.refresh_tokens ≡ false)
      × (d ≡ rotated secret old db)

  mark_token_used_lem :
      (secret i : ℕ) (old : RefreshToken) (db d : Db)
      → d ≡ inserted secret old db
      → i ≡ db.next_id
      → mark_token_used old.id i d ≡ rotated secret old db
  unfolding mark_token_used rotated
  mark_token_used_lem secret i old db d e f = λ k. mark_token_used old.id (f k) (e k)

  rotate-RotatedBy :
      (secret : ℕ) (old : RefreshToken) (u : User) (w : World)
      → u.id ≡ old.user_id
      → Ensures (RotatedBy secret old u w.db) (rotate keys clock secret old u w)
  unfolding rotate Ensures
  rotate-RotatedBy secret old u w same =
      Ensures-then (Issued secret old u w.db) _ _ _ (issue_token_pair-Issued secret old u w same)
        λ made w' h.
          Ensures-then (λ x d. d ≡ rotated secret old w.db) _ _ _
            (Ensures-query _ _ w' λ x d e.
              let m : mark_token_used old.id made.1 w'.db ≡ rotated secret old w.db =
                mark_token_used_lem secret made.1 old w.db w'.db h.4 h.2 in
              let same_db : mark_token_used old.id made.1 w'.db ≡ d = cc in sym same_db ∙ m)
            λ x w'' k. (h.0, h.1, h.3, k)

  refresh_user-Rotates :
      (secret : ℕ) (old : RefreshToken) (u : User) (w : World)
      → is_unspent old ≡ true
      → ltb old.expires_at clock ≡ false
      → Loaded old.user_id w.db u
      → Ensures (Rotates secret old w.db) (refresh_user keys clock secret old u w)
  unfolding refresh_user Ensures Rotates Loaded user_by_id
  refresh_user-Rotates secret old u w fresh young (u0, e, same) = elim (Bool-cases (is_active u)) [
    | inl on ↦ rw on (
        Ensures-map (RotatedBy secret old u w.db) (Rotates secret old w.db) _
          (rotate-RotatedBy secret old u w (
            (ap (λ (v : User). v.id) same)
            ∙ (==_iff u0.id old.user_id).0
                (find_passes (λ (v : User). v.id == old.user_id) w.db.users e)))
          λ pair d h. (fresh, young, (u, (u0, e, same), on, h.0), h.1, h.2, h.3))
    | inr off ↦ rw off (
        Ensures-then_raise _ (query (λ db. (ok tt, revoke_tokens_of_user u.id db)) w)
          Error.suspended)
  ]

  refresh_found-Rotates :
      (secret : ℕ) (old : RefreshToken) (w : World)
      → Ensures (Rotates secret old w.db) (refresh_found keys clock secret old w)
  unfolding refresh_found Ensures
  refresh_found-Rotates secret old w = elim (Bool-cases (is_unspent old)) [
    | inr spent ↦ rw spent (
        Ensures-then_raise _ (query (λ db. (ok tt, revoke_family old.family_id db)) w)
          Error.token_replayed)
    | inl fresh ↦ elim (Bool-cases (ltb old.expires_at clock)) [
      | inl late ↦ rw (fresh, late) tt
      | inr young ↦
          rw (fresh, young)
            (Ensures-Reads _ _ w.db _ _ (get_user_by_id-Reads old.user_id w) λ u fs l.
              refresh_user-Rotates secret old u (record { db = w.db; faults = fs }) fresh young l)
    ]
  ]

  -- A refresh that succeeds has read a row by the hash of the token, and rotates it.
  pub refresh-Rotates :
      (secret plaintext : ℕ) (w : World)
      → Ensures
          (λ pair d.
            (old : RefreshToken) × (token_by_hash (keys.hash plaintext) w.db ≡ some old)
            × Rotates secret old w.db pair d)
          (refresh keys clock secret plaintext w)
  unfolding refresh Ensures
  refresh-Rotates secret plaintext w = Ensures-recast-reads _ Error.token_invalid _ _ w λ fs.
      Ensures-lift _ (or_fail Error.token_invalid (token_by_hash (keys.hash plaintext) w.db)) _ _
        λ old e.
          Ensures-map (Rotates secret old w.db) _ _
            (refresh_found-Rotates secret old (record { db = w.db; faults = fs }))
            λ pair d h.
              (old, or_fail-ok Error.token_invalid (token_by_hash (keys.hash plaintext) w.db) e, h)
