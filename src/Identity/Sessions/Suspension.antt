-- ===== src/Identity/Sessions/Suspension.antt =====
-- `SetStatus` followed by `RefreshToken`, of backend/internal/identity/service.go.
use ketapod_website.Base.{
  ℕ, ◌≡◌, ◌≢◌, Bool, true, false, ◌&&◌, some, List, [], ◌∷◌, ◌==◌, if◌then◌else◌, arith, find, All,
  update_where, inl, inr, Bool-cases, ==_refl,
}
use mathlib.Core.Path.{subst}
use ketapod_website.Identity.Model.{User, UserStatus, RefreshToken, TokenPair, is_active_status}
use ketapod_website.Identity.{
  is_unrevoked, revoke_token, revoke_tokens_of_user, update_user, set_status,
}
use ketapod_website.Identity.Sessions.{Keys, token_by_hash, is_unspent, refresh}
use ketapod_website.Identity.Sessions.Replay.{Spent, Spent-fails}
use ketapod_website.Schema.{Db}
use ketapod_website.Store.{ok, World, M, query, pure, ◌>>◌}
use ketapod_website.Store.Rules.{
  Ensures, Ensures-any, Ensures-ok, Ensures-pure, Ensures-query, Ensures-then,
}

-- A token of the user is used or revoked.
abbrev IsEnded : ℕ → RefreshToken → Type 0
IsEnded user t = (t.user_id == user) ≡ true → is_unspent t ≡ false

abbrev HasNoSession : ℕ → Db → Type 0
HasNoSession user db = All (IsEnded user) db.refresh_tokens

revoke_token-IsEnded :
    (user now : ℕ) (ts : List RefreshToken)
    → All
        (IsEnded user)
        (update_where (λ t. t.user_id == user && is_unrevoked t.revoked_at) (revoke_token now) ts)
revoke_token-IsEnded user now [] = tt
revoke_token-IsEnded user now (t ∷ ts) =
    elim (Bool-cases (t.user_id == user && is_unrevoked t.revoked_at)) [
      | inl hit ↦ rw hit ((λ own. ground arith), revoke_token-IsEnded user now ts)
      | inr miss ↦ rw miss ((λ own. ground arith), revoke_token-IsEnded user now ts)
    ]

revoke_tokens_of_user-HasNoSession :
    (user : ℕ) (db : Db) → HasNoSession user (revoke_tokens_of_user user db)
unfolding revoke_tokens_of_user
revoke_tokens_of_user-HasNoSession user db = revoke_token-IsEnded user db.now db.refresh_tokens

set_status-HasNoSession :
    (user : ℕ) (status : UserStatus) (w : World)
    → is_active_status status ≡ false
    → Ensures (λ u db. HasNoSession user db) (set_status user status w)
unfolding set_status
set_status-HasNoSession user status w off =
    Ensures-then (λ (u : User) db. Unit {0}) (λ u db. HasNoSession user db)
      (query (update_user user (λ u. record u { status = status })) w) (λ u. end_sessions >> pure u)
      (Ensures-any _)
      λ u w' h.
        Ensures-then (λ x db. HasNoSession user db) (λ v db. HasNoSession user db) (end_sessions w')
          (λ x. pure u) (ended w') λ x w'' k. Ensures-pure (λ v db. HasNoSession user db) u w'' k
  where
    end_sessions : M (Unit {0})
    end_sessions =
        if is_active_status status
        then pure tt
        else query (λ db. (ok tt, revoke_tokens_of_user user db))

    ended : (v : World) → Ensures (λ x db. HasNoSession user db) (end_sessions v)
    ended v = rw off (
        Ensures-query (λ x db. HasNoSession user db) (λ db. (ok tt, revoke_tokens_of_user user db))
          v
          λ x db e.
            let same : revoke_tokens_of_user user v.db ≡ db = cc e in
            subst (λ d. HasNoSession user d) same (revoke_tokens_of_user-HasNoSession user v.db))

find-IsEnded :
    (user : ℕ) (q : RefreshToken → Bool) (ts : List RefreshToken) {t : RefreshToken}
    → All (IsEnded user) ts
    → find q ts ≡ some t
    → IsEnded user t
find-IsEnded user q [] h e = cc
find-IsEnded user q (x ∷ ts) {t} h e = elim (Bool-cases (q x)) [
  | inl hit ↦ let same : x ≡ t = ground arith in subst (IsEnded user) same h.0
  | inr miss ↦ find-IsEnded user q ts h.1 (rw miss at e)
]

-- Once a user's status is set to one that is not active, no token of that user is accepted at the
-- tables that this leaves, whatever the clock, the random text and the statements that fail.
pub set_status_ends_sessions :
    (keys : Keys) (user : ℕ) (status : UserStatus) (w : World) {u : User} {w' : World}
    → is_active_status status ≡ false
    → set_status user status w ≡ (ok u, w')
    → (clock secret plaintext : ℕ) (fs : List Bool) (t : RefreshToken) {pair : TokenPair}
      {w'' : World}
    → token_by_hash (keys.hash plaintext) w'.db ≡ some t
    → t.user_id ≡ user
    → refresh keys clock secret plaintext (record w' { faults = fs }) ≢ (ok pair, w'')
unfolding Spent token_by_hash
set_status_ends_sessions keys user status w {u} {w'} off run clock secret plaintext fs t e own =
    Spent-fails keys clock secret plaintext (record w' { faults = fs })
      (
        t,
        e,
        find-IsEnded user (λ x. x.token_hash == keys.hash plaintext) w'.db.refresh_tokens
            (Ensures-ok _ _ (set_status-HasNoSession user status w off) run) e
            (rw own (==_refl user)),
      )
