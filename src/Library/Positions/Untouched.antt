-- ===== src/Library/Positions/Untouched.antt =====
-- The statements of `SyncPosition` of backend/internal/library/service.go that follow the upsert of
-- the position.
use ketapod_website.Base.{
  ℕ, ◌≡◌, inl, inr, Bool, false, Option, none, some, List, ◌==◌, arith, Bool-cases,
}
use ketapod_website.Base.Int.{pos, min_ℤ, leb_ℤ}
use ketapod_website.Commerce.Model.{Subscription, SubscriptionPlan}
use ketapod_website.Commerce.Subscriptions.{record_usage, use_hours}
use ketapod_website.Commerce.Subscriptions.Terms.{get_active-Reads}
use ketapod_website.Library.Model.{Position, PositionUpdate}
use ketapod_website.Library.Positions.{
  position_of, max_sync_seconds, record_seconds, record_listening, insert_event, answer,
}
use ketapod_website.Schema.{Db}
use ketapod_website.Store.{Result, ok, err, World, M, lift, run_query, then_run}
use ketapod_website.Store.Rules.{
  Keeps, Keeps-query, Keeps-reads, Keeps-then, Keeps-lift, Keeps-same,
}
use ketapod_website.Store.Reads.{Keeps-Reads}

-- The rest of a call writes no position.
abbrev pub Same : List Position → Db → Type 0
Same ps db = db.positions ≡ ps

use_hours-Same :
    (ps : List Position) (seconds : ℕ) (o : Option (Subscription × Option SubscriptionPlan))
    (w : World)
    → Same ps w.db
    → Keeps (Same ps) (use_hours seconds o w)
unfolding use_hours Keeps
use_hours-Same ps seconds none w h = h
use_hours-Same ps seconds (some (s, p)) w h = Keeps-query (Same ps) _ w h (ground (arith, h))

record_usage-Same :
    (ps : List Position) (user seconds : ℕ) (w : World)
    → Same ps w.db
    → Keeps (Same ps) (record_usage user seconds w)
unfolding record_usage Keeps
record_usage-Same ps user seconds w h = elim (Bool-cases (seconds == 0)) [
  | inl nothing ↦ rw nothing h
  | inr some_time ↦ rw some_time (
      Keeps-Reads _ (Same ps) w.db _ _ h (get_active-Reads user w)
        λ o fs found. use_hours-Same ps seconds o (record { db = w.db; faults = fs }) h)
]

record_seconds-Same :
    (popularity : Result (Unit {0})) (clock user book : ℕ) (u : PositionUpdate) (seconds : ℕ)
    (ps : List Position) (w : World)
    → Same ps w.db
    → Keeps (Same ps) (record_seconds popularity clock user book u seconds w)
unfolding record_seconds insert_event lift
record_seconds-Same popularity clock user book u seconds ps w h =
    Keeps-then (Same ps) _ _ (Keeps-query (Same ps) _ w h h) λ x w' h'.
      Keeps-then (Same ps) _ _ (record_usage-Same ps user seconds w' h')
        λ y w'' h''. Keeps-same (Same ps) popularity w'' h''

pub record_listening-Same :
    (popularity : Result (Unit {0})) (clock user book : ℕ) (u : PositionUpdate) (ps : List Position)
    (w : World)
    → Same ps w.db
    → Keeps (Same ps) (record_listening popularity clock user book u w)
unfolding record_listening Keeps
record_listening-Same popularity clock user book u ps w h =
    elim (Bool-cases (leb_ℤ (min_ℤ u.seconds_listened max_sync_seconds) (pos 0))) [
      | inl nothing ↦ rw nothing h
      | inr some_time ↦ rw some_time (record_seconds-Same popularity clock user book u _ ps w h)
    ]

pub answer-Same :
    (popularity : Result (Unit {0})) (clock user : ℕ) (u : PositionUpdate) (o : Option Position)
    (ps : List Position) (w : World)
    → Same ps w.db
    → Keeps (Same ps) (answer popularity clock user u o w)
unfolding answer
answer-Same popularity clock user u (some p) ps w h = Keeps-same (Same ps) _ w h
answer-Same popularity clock user u none ps w h =
    Keeps-reads (Same ps) (position_of user u.profile_id u.audio_edition_id) _ w h
      λ fs. Keeps-lift (Same ps) _ _ _ h λ p e. Keeps-same (Same ps) _ _ h

pub after_query-Keeps :
    {A B : Type 0} (I : Db → Type 0) (fs : List Bool) (db : Db) (r : Result A × Db) (k : A → M B)
    → I r.1
    → ((a : A) (w : World) → I w.db → Keeps I (k a w))
    → Keeps I (then_run (run_query false fs db r) k)
unfolding Keeps
after_query-Keeps I fs db (ok a, d) k h next = next a (record { db = d; faults = fs }) h
after_query-Keeps I fs db (err e, d) k h next = h
