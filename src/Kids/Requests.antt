-- ===== src/Kids/Requests.antt =====
-- The requests of a parent that write, as one type, each answered by its operation of
-- backend/internal/kids/service.go; and a rule for what all of them keep.
pub mod Cap
pub mod Households
use ketapod_website.Base.{
  ℕ, ◌≡◌, refl, Bool, true, false, ◌&&◌, Option, some, List, leb, ◌==◌, arith, length, Bool-cases,
  inl, inr, find, ◌∷◌, ==_refl,
}
use mathlib.Core.Path.{subst}
use ketapod_website.Base.Int.{ℤ}
use ketapod_website.Base.Text.{Bytes, trim_space}
use ketapod_website.Kids.{Controls, Decision, default_controls}
use ketapod_website.Kids.Model.{ChildProfile}
use ketapod_website.Kids.Profiles.{
  max_child_profiles, is_profile_of, profile_of, active_profiles, insert_profile, upsert_controls,
  create_profile, get_profile, ProfileUpdate, revise_profile, update_profile, deactivate_profile,
  delete_profile, update_controls, new_profile, birth_year_stands, stored_birth_year,
}
use ketapod_website.Kids.Approvals.{
  upsert_approval, set_approval, remove_approval, clear_approval, store_pin, set_exit_pin,
}
use ketapod_website.Schema.{Db}
use ketapod_website.Store.{Result, ok, err, World, M, pure, ◌>>=◌, ◌>>◌, then_run}
use ketapod_website.Store.Rules.{
  Keeps, Keeps-query, Keeps-reads, Keeps-raise_if, Keeps-lift, Keeps-same, Keeps-then, lift-Keeps,
}
use ketapod_website.Store.Reads.{Reads, Reads-reads, Reads-or_fail, Keeps-Reads}
use ketapod_website.Store.Steps.{Keeps-step}

pub data Request : Type 0 where
  create : List ℕ → ℤ → ℤ → Option ℕ → Request
  change : ℕ → ProfileUpdate → Request
  delete : ℕ → Request
  put_controls : ℕ → Controls → Bool → Request
  put_pin_of : Bytes → Bytes → Request
  rule_on : ℕ → ℕ → Decision → Request
  clear : ℕ → ℕ → Request

module _ (parse_uuid : Bytes → Option ℕ) (sha256_hex : Bytes → Bytes) where
  unfoldable pub perform : ℕ → Request → M (Unit {0})
  perform parent (create name age birth avatar) =
      create_profile parent name age birth avatar >> pure tt
  perform parent (change profile u) = update_profile parent profile u >> pure tt
  perform parent (delete profile) = delete_profile parent profile
  perform parent (put_controls profile rules wifi) =
      update_controls parent profile rules wifi >> pure tt
  perform parent (put_pin_of profile pin) = set_exit_pin parse_uuid sha256_hex parent profile pin
  perform parent (rule_on profile book d) = set_approval parent profile book d
  perform parent (clear profile book) = clear_approval parent profile book

-- What each statement of a parent keeps, where it runs.
pub record IsKept (parent : ℕ) (I : Db → Type 0) : Type 0 where
  pub inserted :
      (name : List ℕ) (age birth : ℤ) (avatar : Option ℕ) (db : Db)
      → leb max_child_profiles (length (active_profiles parent db)) ≡ false
      → I db
      → I (insert_profile parent name age birth avatar db).1
  pub controlled :
      (profile : ℕ) (rules : Controls) (wifi : Bool) (db : Db) (c : ChildProfile)
      → profile_of profile parent db ≡ some c
      → I db
      → I (upsert_controls profile rules wifi db).1
  pub revised :
      (profile : ℕ) (u : ProfileUpdate) (db : Db) → I db → I (revise_profile profile parent u db).1
  pub deactivated : (profile : ℕ) (db : Db) → I db → I (deactivate_profile profile parent db).1
  pub ruled :
      (profile book : ℕ) (d : Decision) (db : Db) (c : ChildProfile)
      → profile_of profile parent db ≡ some c
      → I db
      → I (upsert_approval profile book d parent db).1
  pub cleared :
      (profile book : ℕ) (db : Db) (c : ChildProfile)
      → profile_of profile parent db ≡ some c
      → I db
      → I (remove_approval profile book db).1
  pub pinned :
      (profile : ℕ) (hash : Bytes) (db : Db) (c : ChildProfile)
      → profile_of profile parent db ≡ some c
      → I db
      → I (store_pin profile hash db).1

-- The check of ownership reads, and succeeds only on a profile of the parent.
pub get_profile-Reads :
    (parent profile : ℕ) (w : World)
    → Reads (λ c. profile_of profile parent w.db ≡ some c) w.db (get_profile parent profile w)
unfolding get_profile
get_profile-Reads parent profile w =
    Reads-reads _ (profile_of profile parent) _ w
      λ fs. Reads-or_fail _ (profile_of profile parent w.db) (record { db = w.db; faults = fs })

own_row :
    (parent : ℕ) (name : List ℕ) (age birth : ℤ) (avatar : Option ℕ) (db : Db)
    → find
        (is_profile_of (new_profile parent name age birth avatar db).id parent)
        (new_profile parent name age birth avatar db ∷ db.child_profiles)
      ≡ some (new_profile parent name age birth avatar db)
unfolding new_profile
own_row parent name age birth avatar db = rw (==_refl db.next_id, ==_refl parent)

-- A profile that was just inserted is one of the parent.
inserted_is_owned :
    (parent : ℕ) (name : List ℕ) (age birth : ℤ) (avatar : Option ℕ) (db : Db) {c : ChildProfile}
    → (insert_profile parent name age birth avatar db).0 ≡ ok c
    → profile_of c.id parent (insert_profile parent name age birth avatar db).1 ≡ some c
unfolding insert_profile profile_of
inserted_is_owned parent name age birth avatar db {c} h =
    elim (Bool-cases (birth_year_stands (stored_birth_year birth))) [
      | inl stands ↦
          let e : new_profile parent name age birth avatar db ≡ c =
            ground (arith, rw stands at h) in
          rw stands (
            subst
              (λ x.
                find (is_profile_of x.id parent)
                  (new_profile parent name age birth avatar db ∷ db.child_profiles)
                ≡ some x)
              e (own_row parent name age birth avatar db))
      | inr wrong ↦ cc (rw wrong at h)
    ]

module _ {parent : ℕ} (I : Db → Type 0) (kept : IsKept parent I) where
  -- What follows the check of ownership runs on the same tables.
  after_get :
      {B : Type 0} (profile : ℕ) (k : ChildProfile → M B) (w : World)
      → I w.db
      → ((c : ChildProfile) (fs : List Bool)
          → profile_of profile parent w.db ≡ some c
          → Keeps I (k c (record { db = w.db; faults = fs })))
      → Keeps I (then_run (get_profile parent profile w) k)
  after_get profile k w h next =
      Keeps-Reads _ I w.db _ k h (get_profile-Reads parent profile w) next

  create-Keeps :
      (name : List ℕ) (age birth : ℤ) (avatar : Option ℕ) (w : World)
      → I w.db
      → Keeps I (create_profile parent name age birth avatar w)
  unfolding create_profile
  create-Keeps name age birth avatar w h = Keeps-raise_if I _ _ _ w h λ fit.
      Keeps-reads I (active_profiles parent) _ w h λ fs. Keeps-raise_if I _ _ _ _ h λ room.
        Keeps-step I _ _ _ h (kept.inserted _ age birth avatar w.db room h) λ c fs' e.
          let owned = inserted_is_owned parent _ age birth avatar w.db e in
          let h' = kept.inserted (trim_space name) age birth avatar w.db room h in
          Keeps-then I _ _ (Keeps-query I _ _ h' (kept.controlled c.id _ true _ c owned h'))
            (λ x w' h''. Keeps-same I _ w' h'')

  update-Keeps :
      (profile : ℕ) (u : ProfileUpdate) (w : World)
      → I w.db
      → Keeps I (update_profile parent profile u w)
  unfolding update_profile
  update-Keeps profile u w h = Keeps-raise_if I _ _ _ w h λ fit.
      Keeps-step I _ _ _ h (kept.revised profile u w.db h)
        λ o fs e. lift-Keeps I _ _ (kept.revised profile u w.db h)

  controls-Keeps :
      (profile : ℕ) (rules : Controls) (wifi : Bool) (w : World)
      → I w.db
      → Keeps I (update_controls parent profile rules wifi w)
  unfolding update_controls
  controls-Keeps profile rules wifi w h = after_get profile _ w h λ c fs own.
      Keeps-raise_if I _ _ _ _ h
        λ fit. Keeps-query I _ _ h (kept.controlled profile rules wifi w.db c own h)

  approval-Keeps :
      (profile book : ℕ) (d : Decision) (w : World)
      → I w.db
      → Keeps I (set_approval parent profile book d w)
  unfolding set_approval
  approval-Keeps profile book d w h = Keeps-raise_if I _ _ _ w h λ fit.
      after_get profile _ w h
        λ c fs own. Keeps-query I _ _ h (kept.ruled profile book d w.db c own h)

  clear-Keeps :
      (profile book : ℕ) (w : World) → I w.db → Keeps I (clear_approval parent profile book w)
  unfolding clear_approval
  clear-Keeps profile book w h =
      after_get profile _ w h
        λ c fs own. Keeps-query I _ _ h (kept.cleared profile book w.db c own h)

  module _ (parse_uuid : Bytes → Option ℕ) (sha256_hex : Bytes → Bytes) where
    pin-Keeps :
        (spelled pin : Bytes) (w : World)
        → I w.db
        → Keeps I (set_exit_pin parse_uuid sha256_hex parent spelled pin w)
    unfolding set_exit_pin
    pin-Keeps spelled pin w h = Keeps-lift I _ _ w h λ profile parsed.
        after_get profile _ w h λ c fs own.
          Keeps-raise_if I _ _ _ _ h λ fit. Keeps-query I _ _ h (kept.pinned profile _ w.db c own h)

    done-Keeps :
        {A : Type 0} (x : Result A × World) → Keeps I x → Keeps I (then_run x (λ a. pure tt))
    done-Keeps x h = Keeps-then I x _ h (λ a w' h'. Keeps-same I _ w' h')

    pub perform-Keeps :
        (r : Request) (w : World) → I w.db → Keeps I (perform parse_uuid sha256_hex parent r w)
    unfolding perform delete_profile
    perform-Keeps (create name age birth avatar) w h =
        done-Keeps _ (create-Keeps name age birth avatar w h)
    perform-Keeps (change profile u) w h = done-Keeps _ (update-Keeps profile u w h)
    perform-Keeps (delete profile) w h = Keeps-query I _ w h (kept.deactivated profile w.db h)
    perform-Keeps (put_controls profile rules wifi) w h =
        done-Keeps _ (controls-Keeps profile rules wifi w h)
    perform-Keeps (put_pin_of spelled pin) w h = pin-Keeps spelled pin w h
    perform-Keeps (rule_on profile book d) w h = approval-Keeps profile book d w h
    perform-Keeps (clear profile book) w h = clear-Keeps profile book w h
