-- ===== src/Identity/Sessions/Replay.antt =====
-- Tokens that are used or revoked, in `RefreshToken` of backend/internal/identity/service.go.
use ketapod_website.Base.{
  ℕ, ◌≡◌, ◌≢◌, ◌∙◌, sym, Bool, false, ◌&&◌, some, List, [], ◌∷◌, ◌==◌, arith, ap, refl, any, count,
  update_where, inl, inr, Bool-cases, ==_iff, ==_refl, find-update_where, find-any,
}
use mathlib.Core.Path.{subst}
use ketapod_website.Identity.Model.{RefreshToken, TokenPair}
use ketapod_website.Identity.{is_unrevoked, revoke_token}
use ketapod_website.Identity.Sessions.{
  Keys, token_by_hash, use_token, is_unspent, revoke_family, refresh_found, refresh, new_token,
}
use ketapod_website.Identity.Sessions.Rotation.{Rotates, rotated, successor, refresh-Rotates}
use ketapod_website.Schema.{Error, Db}
use ketapod_website.Store.{ok, err, World, query, reads, lift, recast}
use ketapod_website.Store.Rules.{Ensures, Ensures-ok, Ensures-map}

-- A row with this hash is there, and is used or revoked.
unfoldable pub Spent : ℕ → Db → Type 0
Spent h db = (t : RefreshToken) × (token_by_hash h db ≡ some t) × (is_unspent t ≡ false)

-- A token of the family that a refresh would accept.
abbrev pub is_live : ℕ → RefreshToken → Bool
is_live family t = t.family_id == family && is_unspent t

module _ (keys : Keys) where
  rotated-Spent :
      (clock secret h : ℕ) (old : RefreshToken) (db : Db)
      → token_by_hash h db ≡ some old
      → any (λ t. t.token_hash == keys.hash secret) db.refresh_tokens ≡ false
      → Spent h (rotated keys clock secret old db)
  unfolding Spent token_by_hash rotated new_token
  rotated-Spent clock secret h old db e fresh = elim (Bool-cases (keys.hash secret == h)) [
    | inl same ↦ cc (
      fresh,
      ap (λ k. any (λ t. t.token_hash == k) db.refresh_tokens)
          ((==_iff (keys.hash secret) h).0 same),
      find-any (λ t. t.token_hash == h) db.refresh_tokens e,
    )
    | inr other ↦ (
      use_token db.now db.next_id old,
      find-update_where (λ (t : RefreshToken). t.token_hash == h) (λ t. t.id == old.id)
            (use_token db.now db.next_id) (λ t. refl)
            (successor keys clock secret old db ∷ db.refresh_tokens) {a = old} (rw other e)
          ∙ rw (==_refl old.id),
      refl,
    )
  ]

  -- After a refresh that succeeds, the row of the token is spent.
  refresh-Spent :
      (clock secret plaintext : ℕ) (w : World)
      → Ensures (λ pair d. Spent (keys.hash plaintext) d) (refresh keys clock secret plaintext w)
  unfolding Rotates
  refresh-Spent clock secret plaintext w =
      Ensures-map _ _ _ (refresh-Rotates keys clock secret plaintext w)
        λ pair d h. spent pair d h.0 h.1 h.2
    where
      spent :
          (pair : TokenPair) (d : Db) (old : RefreshToken)
          → token_by_hash (keys.hash plaintext) w.db ≡ some old
          → Rotates keys clock secret old w.db pair d
          → Spent (keys.hash plaintext) d
      spent pair d old e r =
          subst (Spent (keys.hash plaintext)) (sym r.5)
            (rotated-Spent clock secret (keys.hash plaintext) old w.db e r.4)

  -- A spent token is never accepted, whatever statements fail.
  pub Spent-fails :
      (clock secret plaintext : ℕ) (w : World) {pair : TokenPair} {w' : World}
      → Spent (keys.hash plaintext) w.db
      → refresh keys clock secret plaintext w ≢ (ok pair, w')
  unfolding Spent Rotates
  Spent-fails clock secret plaintext w (t, e, spent) run =
      let h = Ensures-ok _ _ (refresh-Rotates keys clock secret plaintext w) run in
      cc (h.2.0, ap is_unspent (same h.1))
    where
      same : {u : RefreshToken} → token_by_hash (keys.hash plaintext) w.db ≡ some u → u ≡ t
      same k = cc (k, e)

  -- A refresh that succeeds uses up its token: at the tables that it leaves no refresh with the same
  -- text succeeds, whatever the clock, the new random text and the statements that fail.
  pub refresh_once :
      (clock secret plaintext : ℕ) (w : World) {pair : TokenPair} {w' : World}
      → refresh keys clock secret plaintext w ≡ (ok pair, w')
      → (clock' secret' : ℕ) (fs : List Bool) {pair' : TokenPair} {w'' : World}
      → refresh keys clock' secret' plaintext (record w' { faults = fs }) ≢ (ok pair', w'')
  refresh_once clock secret plaintext w run clock' secret' fs =
      Spent-fails clock' secret' plaintext _
        (Ensures-ok _ _ (refresh-Spent clock secret plaintext w) run)

  -- Revocation leaves no live token in the family.
  revoke_family-count :
      (family now : ℕ) (ts : List RefreshToken)
      → count (is_live family) (
          update_where
            (λ t. t.family_id == family && is_unrevoked t.revoked_at)
            (revoke_token now)
            ts)
        ≡ 0
  revoke_family-count family now [] = refl
  revoke_family-count family now (t ∷ ts) = ground (arith, revoke_family-count family now ts)

  -- A used or revoked token presented again, with no failing statement, is answered token_replayed
  -- and leaves no live token in its family.
  pub replay_revokes :
      (clock secret plaintext : ℕ) (w : World) (t : RefreshToken)
      → w.faults ≡ []
      → token_by_hash (keys.hash plaintext) w.db ≡ some t
      → is_unspent t ≡ false
      → ((refresh keys clock secret plaintext w).0 ≡ err Error.token_replayed)
        × (count (is_live t.family_id) (refresh keys clock secret plaintext w).1.db.refresh_tokens
            ≡ 0)
  unfolding refresh refresh_found reads query recast lift revoke_family
  replay_revokes clock secret plaintext w t calm e spent =
      rw (calm, e, spent) (refl, revoke_family-count t.family_id w.db.now w.db.refresh_tokens)
