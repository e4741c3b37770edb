-- ===== src/Identity/Sessions/Family.antt =====
-- The family of a token, and what replaces it, in `RefreshToken` of
-- backend/internal/identity/service.go.
use ketapod_website.Base.{
  ℕ, ◌+◌, ◌≤◌, ◌<◌, ◌≡◌, sym, Bool, true, false, some, List, [], ◌∷◌, ◌==◌, arith, refl, find, All,
  count, inl, inr, Bool-cases, ==_refl, count-update_where-lt, count-update_where-le,
}
use mathlib.Core.Path.{subst}
use ketapod_website.Identity.Model.{RefreshToken, TokenPair, is_active}
use ketapod_website.Identity.Sessions.{
  Keys, token_by_hash, use_token, is_unspent, refresh, new_token,
}
use ketapod_website.Identity.Sessions.Rotation.{
  Loaded, Rotates, rotated, successor, refresh-Rotates,
}
use ketapod_website.Schema.{Db}
use ketapod_website.Store.{ok, World}
use ketapod_website.Store.Rules.{Ensures-ok}
use ketapod_website.Identity.Sessions.Replay.{is_live}

module _ (keys : Keys) where
  rotated-count :
      (clock secret h family : ℕ) (old : RefreshToken) (db : Db)
      → token_by_hash h db ≡ some old
      → is_unspent old ≡ true
      → count (is_live family) (rotated keys clock secret old db).refresh_tokens
        ≤ count (is_live family) db.refresh_tokens
  unfolding rotated token_by_hash new_token
  rotated-count clock secret h family old db e live = elim (Bool-cases (old.family_id == family)) [
    | inl own ↦ ground (
      arith,
      count-update_where-lt (is_live family) (λ (t : RefreshToken). t.id == old.id)
          (use_token db.now db.next_id) (λ t. killed t) (λ (t : RefreshToken). t.token_hash == h)
          db.refresh_tokens e (ground arith) (==_refl old.id),
    )
    | inr other ↦ ground (
      arith,
      count-update_where-le (is_live family) (λ (t : RefreshToken). t.id == old.id)
          (use_token db.now db.next_id) (λ t k. cc (k, killed t)) db.refresh_tokens,
    )
  ]
    where
      killed : (t : RefreshToken) → is_live family (use_token db.now db.next_id t) ≡ false
      killed t = ground arith

  -- A refresh that succeeds does not raise the number of live tokens of any family: a family that
  -- has one at most keeps one at most.
  pub refresh-count :
      (clock secret plaintext family : ℕ) (w : World) {pair : TokenPair} {w' : World}
      → refresh keys clock secret plaintext w ≡ (ok pair, w')
      → count (is_live family) w'.db.refresh_tokens ≤ count (is_live family) w.db.refresh_tokens
  unfolding Rotates
  refresh-count clock secret plaintext family w run =
      let (old, e, r) = Ensures-ok _ _ (refresh-Rotates keys clock secret plaintext w) run in
      subst
        (λ d. count (is_live family) d.refresh_tokens ≤ count (is_live family) w.db.refresh_tokens)
        (sym r.5) (rotated-count clock secret (keys.hash plaintext) family old w.db e r.0)

  -- What a caller gets from a refresh of the row `old`: an active user's access token, and a text
  -- whose row is live and takes over user, device and family.
  unfoldable pub Replaces : ℕ → RefreshToken → Db → TokenPair → Db → Type 0
  Replaces clock old db pair d =
      (is_unspent old ≡ true)
      × (is_active pair.user ≡ true)
      × ((t : RefreshToken) × (token_by_hash (keys.hash pair.refresh_token) d ≡ some t)
          × (is_live old.family_id t ≡ true)
          × (t.user_id ≡ old.user_id)
          × (t.device_id ≡ old.device_id)
          × (t.expires_at ≡ clock + keys.refresh_ttl))

  -- Ids of tokens are below the next one.
  abbrev pub HasFreshIds : Db → Type 0
  HasFreshIds db = All (λ (t : RefreshToken). t.id < db.next_id) db.refresh_tokens

  find-All :
      (q : RefreshToken → Bool) (n : ℕ) (ts : List RefreshToken) {a : RefreshToken}
      → All (λ t. t.id < n) ts
      → find q ts ≡ some a
      → a.id < n
  find-All q n [] h e = cc
  find-All q n (t ∷ ts) {a} h e = ground (arith, find-All q n ts {a = a} h.1)

  rotated-find :
      (clock secret h : ℕ) (old : RefreshToken) (db : Db)
      → HasFreshIds db
      → token_by_hash h db ≡ some old
      → token_by_hash (keys.hash secret) (rotated keys clock secret old db)
        ≡ some (successor keys clock secret old db)
  unfolding rotated token_by_hash new_token
  rotated-find clock secret h old db ids e = ground (
    arith,
    find-All (λ t. t.token_hash == h) db.next_id db.refresh_tokens ids e,
    ==_refl (keys.hash secret),
  )

  -- Where ids are fresh, a refresh that succeeds has found a live row for its text, and what it
  -- returns replaces that row.
  pub refresh-Replaces :
      (clock secret plaintext : ℕ) (w : World) {pair : TokenPair} {w' : World}
      → HasFreshIds w.db
      → refresh keys clock secret plaintext w ≡ (ok pair, w')
      → (old : RefreshToken) × (token_by_hash (keys.hash plaintext) w.db ≡ some old)
        × Replaces clock old w.db pair w'.db
  unfolding Rotates Replaces Loaded new_token
  refresh-Replaces clock secret plaintext w {pair} {w'} ids run =
      let (old, e, r) = Ensures-ok _ _ (refresh-Rotates keys clock secret plaintext w) run in
      (
        old,
        e,
        (
          r.0,
          rw (r.2.3) (r.2.2),
          (
            successor keys clock secret old w.db,
            rw (r.3, r.5) (rotated-find clock secret (keys.hash plaintext) old w.db ids e),
            rw (==_refl old.family_id),
            refl,
            refl,
            refl,
          ),
        ),
      )
