-- ===== src/Identity/DeviceCap.antt =====
-- The cap on devices, in `registerDevice` of backend/internal/identity/service.go.
use ketapod_website.Base.{
  ℕ, zero, suc, ◌+◌, ◌-◌, ◌≤◌, ◌<◌, ◌≡◌, inl, inr, Bool, true, false, ◌&&◌, some, List, [], ◌∷◌,
  ◌==◌, if◌then◌else◌, ltb, arith, Bool-cases, Option-cases, ap, ◌∙◌, ==_refl, any, update_where,
  count-update_where-lt_any,
}
use mathlib.Core.Path.{subst}
use ketapod_website.Identity.Model.{Device, DeviceInfo}
use ketapod_website.Identity.{
  is_live_device, count_active_devices, oldest, retire_device, update_oldest,
  revoke_tokens_of_device, revoke_oldest_active_device, revoke_excess, upsert_device,
  register_device,
}
use ketapod_website.Schema.{Db}
use ketapod_website.Store.{ok, World, query, reads, pure, ◌>>=◌}
use ketapod_website.Store.Rules.{
  Ensures, Ensures-query, Ensures-then, Ensures-any, Ensures-reads, Ensures-ok,
}

-- The device picked is one of those that pass.
oldest-any :
    (p : Device → Bool) (ds : List Device) {d : Device}
    → oldest p ds ≡ some d
    → any (λ e. p e && e.id == d.id) ds ≡ true
oldest-any p [] e = cc
oldest-any p (x ∷ ds) {d} e = elim (Bool-cases (p x)) [
  | inr miss ↦ ground (arith, oldest-any p ds {d = d})
  | inl hit ↦ elim (Option-cases (oldest p ds)) [
    | inl alone ↦
        let same : x ≡ d = cc (rw (hit, alone) at e) in
        ground (arith, ==_refl d.id, ap (λ (y : Device). y.id) same)
    | inr (d0, rest) ↦ elim (Bool-cases (ltb d0.last_active_at x.last_active_at)) [
      | inl older ↦
          let same : d0 ≡ d = cc (rw (hit, rest, older) at e) in
          let there : any (λ e. p e && e.id == d.id) ds ≡ true =
            oldest-any p ds (rest ∙ ap some same) in
          ground (arith, there)
      | inr newer ↦
          let same : x ≡ d = cc (rw (hit, rest, newer) at e) in
          ground (arith, ==_refl d.id, ap (λ (y : Device). y.id) same)
    ]
  ]
]

update_oldest-count :
    (user n : ℕ) (db db' : Db) (d : Device)
    → count_active_devices user db ≤ suc n
    → update_oldest user db ≡ (ok d, db')
    → count_active_devices user db' ≤ n
unfolding update_oldest count_active_devices
update_oldest-count user n db db' d many e =
    elim (Option-cases (oldest (is_live_device user) db.devices)) [
      | inl nothing ↦ cc (rw (nothing, update_oldest) at e)
      | inr (d0, pick) ↦
          let after : db' ≡ record db {
            devices = update_where (λ x. x.id == d0.id) (retire_device db.now) db.devices;
          } =
            cc (rw (pick, update_oldest) at e) in
          let fewer =
            count-update_where-lt_any (is_live_device user) (λ x. x.id == d0.id)
              (retire_device db.now) (λ x. retired x) db.devices
              (oldest-any (is_live_device user) db.devices pick) in
          rw after (omega (arith, fewer))
    ]
  where
    retired : (x : Device) → is_live_device user (retire_device db.now x) ≡ false
    retired x = ground arith

-- Each round leaves one active device less.
revoke_oldest_active_device-count :
    (user n : ℕ) (w : World)
    → count_active_devices user w.db ≤ suc n
    → Ensures (λ d db. count_active_devices user db ≤ n) (revoke_oldest_active_device user w)
unfolding revoke_oldest_active_device revoke_tokens_of_device count_active_devices Ensures
revoke_oldest_active_device-count user n w many =
    Ensures-then (λ d db. count_active_devices user db ≤ n) _ _ _
      (Ensures-query _ _ w λ d db e. update_oldest-count user n w.db db d many e)
      λ d w' h.
        Ensures-then (λ x db. count_active_devices user db ≤ n) _ _ _
          (Ensures-query _ _ w' λ x db e.
            let same : revoke_tokens_of_device d.id w'.db ≡ db = cc e in
            subst (λ y. count_active_devices user y ≤ n) same h)
          λ x w'' k. k

revoke_excess-count :
    (user k n : ℕ) (w : World)
    → count_active_devices user w.db ≤ n + k
    → Ensures (λ x db. count_active_devices user db ≤ n) (revoke_excess user k w)
unfolding revoke_excess Ensures
revoke_excess-count user zero n w few = omega (arith, few)
revoke_excess-count user (suc k) n w few =
    Ensures-then (λ d db. count_active_devices user db ≤ n + k) _ _ _
      (revoke_oldest_active_device-count user (n + k) w (omega (arith, few)))
      λ d w' h. revoke_excess-count user k n w' h

-- A device that is registered under a cap leaves at most that many active devices of the user,
-- however many there were before.
pub register_device-le :
    (cap user : ℕ) (info : DeviceInfo) (w : World) {d : Device} {w' : World}
    → 0 < cap
    → register_device cap user info w ≡ (ok d, w')
    → count_active_devices user w'.db ≤ cap
unfolding register_device Ensures
register_device-le cap user info w some_cap run = Ensures-ok _ _ bounded run
  where
    capped :
        (w0 : World)
        → Ensures
            (λ x db. count_active_devices user db ≤ cap)
            ((if cap == 0
                then pure tt
                else (reads (count_active_devices user) >>= λ n. revoke_excess user (n - cap)))
              w0)
    capped w0 =
        let on : (cap == 0) ≡ false = ground arith in
        rw on (
          Ensures-reads _ _ _ w0 λ fs.
            revoke_excess-count user (count_active_devices user w0.db - cap) cap
              (record { db = w0.db; faults = fs }) (omega arith))

    bounded : Ensures (λ d db. count_active_devices user db ≤ cap) (register_device cap user info w)
    bounded =
        Ensures-then (λ d db. Unit {0}) _ _ _ (Ensures-any (query (upsert_device user info) w))
          λ d w' h.
            Ensures-then (λ x db. count_active_devices user db ≤ cap) _ _ _ (capped w') λ x w'' k. k
