-- ===== src/Kids/Requests/Households.antt =====
-- What a request of one parent does to the child of another, in the operations of
-- backend/internal/kids/service.go.
use ketapod_website.Base.{
  ℕ, ◌<◌, ◌≡◌, ◌≢◌, refl, ◌∙◌, inl, inr, Bool, true, false, not, List, [], ◌∷◌, Option, some, none,
  ◌==◌, arith, select, find, update_where, Bool-cases,
}
use ketapod_website.Base.Int.{ℤ}
use ketapod_website.Base.Text.{Bytes}
use ketapod_website.Kids.{Controls, Decision}
use ketapod_website.Kids.Model.{ChildProfile, ParentalControls, ContentApproval}
use ketapod_website.Kids.Profiles.{
  insert_profile, new_profile, birth_year_stands, stored_birth_year, has_controls_of,
  upsert_controls, upsert_controls_found, controls_of, new_controls, ProfileUpdate, revise,
  revise_profile, revise_found, profile_of, is_profile_of, deactivate, deactivate_profile,
  overwrite_controls,
}
use ketapod_website.Kids.Approvals.{
  upsert_approval, upsert_approval_found, approval_of, is_approval_of, is_ruled_for,
  overwrite_approval, new_approval, remove_approval, store_pin, put_pin,
}
use ketapod_website.Kids.Requests.{Request, perform, IsKept, perform-Keeps}
use ketapod_website.Schema.{Db}
use ketapod_website.Store.{World}
use ketapod_website.Store.Rules.{Keeps}

abbrev pub has_id : ℕ → ChildProfile → Bool
has_id profile c = c.id == profile

-- The rows of one child are these, and the child is not one of this parent.
pub record IsApart (parent profile : ℕ) (profiles : List ChildProfile)
    (controls : List ParentalControls) (approvals : List ContentApproval) (db : Db) : Type 0 where
  pub made : profile < db.next_id
  pub not_owned : profile_of profile parent db ≡ none
  pub same_profiles : select (has_id profile) db.child_profiles ≡ profiles
  pub same_controls : select (has_controls_of profile) db.parental_controls ≡ controls
  pub same_approvals : select (is_ruled_for profile) db.content_approvals ≡ approvals

-- A row that an update does not take out of the selection, and that it does not put into it.
module _ {A : Type 0} (p c : A → Bool) where
  select-update_where :
      (f : A → A)
      → ((x : A) → c x ≡ true → (p x ≡ false) × (p (f x) ≡ false))
      → (xs : List A) → select p (update_where c f xs) ≡ select p xs
  select-update_where f h [] = refl
  select-update_where f h (x ∷ xs) = ground (arith, h x, select-update_where f h xs)

  select-select :
      ((x : A) → p x ≡ true → c x ≡ true) → (xs : List A) → select p (select c xs) ≡ select p xs
  select-select h [] = refl
  select-select h (x ∷ xs) = ground (arith, h x, select-select h xs)

-- An update of the rows of a parent leaves alone a child that is not the parent's.
module _ (parent profile target : ℕ) (f : ChildProfile → ChildProfile) where
  select-others :
      ((x : ChildProfile) → (f x).id ≡ x.id)
      → (xs : List ChildProfile) → find (is_profile_of profile parent) xs ≡ none
      → select (has_id profile) (update_where (is_profile_of target parent) f xs)
        ≡ select (has_id profile) xs
  select-others h [] e = refl
  select-others h (x ∷ xs) e = ground (arith, h x, select-others h xs)

  find-others :
      ((x : ChildProfile) → ((f x).id ≡ x.id) × ((f x).parent_user_id ≡ x.parent_user_id))
      → (xs : List ChildProfile) → find (is_profile_of profile parent) xs ≡ none
      → find (is_profile_of profile parent) (update_where (is_profile_of target parent) f xs) ≡ none
  find-others h [] e = refl
  find-others h (x ∷ xs) e = ground (arith, h x, find-others h xs)

module _ (parent profile : ℕ) (profiles : List ChildProfile) (controls : List ParentalControls)
    (approvals : List ContentApproval) where
  abbrev Apart : Db → Type 0
  Apart = IsApart parent profile profiles controls approvals

  -- A child of the parent is another one.
  Apart-ne :
      (db : Db) (target : ℕ) {c : ChildProfile}
      → Apart db
      → profile_of target parent db ≡ some c
      → target ≢ profile
  Apart-ne db target apart own e = cc (apart.not_owned, own, e)

  insert-Apart :
      (name : List ℕ) (age birth : ℤ) (avatar : Option ℕ) (db : Db)
      → Apart db
      → Apart (insert_profile parent name age birth avatar db).1
  unfolding insert_profile new_profile profile_of
  insert-Apart name age birth avatar db apart =
      elim (Bool-cases (birth_year_stands (stored_birth_year birth))) [
        | inl stands ↦ rw stands (ground (arith, apart))
        | inr wrong ↦ rw wrong apart
      ]

  controls-Apart :
      (target : ℕ) (rules : Controls) (wifi : Bool) (db : Db) (o : Option ParentalControls)
      → target ≢ profile
      → Apart db
      → Apart (upsert_controls_found target rules wifi db o).1
  unfolding new_controls profile_of
  controls-Apart target rules wifi db none ne apart = ground (arith, apart)
  controls-Apart target rules wifi db (some c) ne apart = record {
    made = apart.made;
    not_owned = apart.not_owned;
    same_profiles = apart.same_profiles;
    same_controls =
        select-update_where (has_controls_of profile) (has_controls_of target)
          (overwrite_controls db.now rules wifi) (λ x e. ground (arith, ne, e)) db.parental_controls
        ∙ apart.same_controls;
    same_approvals = apart.same_approvals;
  }

  pin-Apart :
      (target : ℕ) (hash : Bytes) (db : Db)
      → target ≢ profile
      → Apart db
      → Apart (store_pin target hash db).1
  unfolding store_pin profile_of
  pin-Apart target hash db ne apart = record {
    made = apart.made;
    not_owned = apart.not_owned;
    same_profiles = apart.same_profiles;
    same_controls =
        select-update_where (has_controls_of profile) (has_controls_of target) (put_pin hash)
          (λ x e. ground (arith, ne, e)) db.parental_controls
        ∙ apart.same_controls;
    same_approvals = apart.same_approvals;
  }

  approval-Apart :
      (target book : ℕ) (d : Decision) (by : ℕ) (db : Db) (o : Option ContentApproval)
      → target ≢ profile
      → Apart db
      → Apart (upsert_approval_found target book d by db o).1
  unfolding new_approval profile_of
  approval-Apart target book d by db none ne apart = ground (arith, apart)
  approval-Apart target book d by db (some a) ne apart = record {
    made = apart.made;
    not_owned = apart.not_owned;
    same_profiles = apart.same_profiles;
    same_controls = apart.same_controls;
    same_approvals =
        select-update_where (is_ruled_for profile) (is_approval_of target book)
          (overwrite_approval db.now d by) (λ x e. ground (arith, ne, e)) db.content_approvals
        ∙ apart.same_approvals;
  }

  clear-Apart :
      (target book : ℕ) (db : Db)
      → target ≢ profile
      → Apart db
      → Apart (remove_approval target book db).1
  unfolding remove_approval profile_of
  clear-Apart target book db ne apart = record {
    made = apart.made;
    not_owned = apart.not_owned;
    same_profiles = apart.same_profiles;
    same_controls = apart.same_controls;
    same_approvals =
        select-select (is_ruled_for profile) (λ a. not (is_approval_of target book a))
          (λ x e. ground (arith, ne, e)) db.content_approvals
        ∙ apart.same_approvals;
  }

  -- An update of profile rows that keeps their ids and parents.
  rows-Apart :
      (target : ℕ) (f : ChildProfile → ChildProfile) (db : Db)
      → ((x : ChildProfile) → ((f x).id ≡ x.id) × ((f x).parent_user_id ≡ x.parent_user_id))
      → Apart db
      → Apart (record db {
        child_profiles = update_where (is_profile_of target parent) f db.child_profiles;
      })
  unfolding profile_of
  rows-Apart target f db h apart = record {
    made = apart.made;
    not_owned = find-others parent profile target f h db.child_profiles apart.not_owned;
    same_profiles =
        select-others parent profile target f (λ x. (h x).0) db.child_profiles apart.not_owned
        ∙ apart.same_profiles;
    same_controls = apart.same_controls;
    same_approvals = apart.same_approvals;
  }

  revise-Apart :
      (target : ℕ) (u : ProfileUpdate) (db : Db) (o : Option ChildProfile)
      → Apart db
      → Apart (revise_found target parent u db o).1
  revise-Apart target u db none apart = apart
  revise-Apart target u db (some c) apart =
      elim (Bool-cases (birth_year_stands (revise u c).birth_year)) [
        | inl stands ↦ rw stands (rows-Apart target (revise u) db (λ x. (refl, refl)) apart)
        | inr wrong ↦ rw wrong apart
      ]

  Apart-IsKept : IsKept parent Apart
  unfolding upsert_controls revise_profile upsert_approval deactivate_profile
  Apart-IsKept = record {
    inserted = λ name age birth avatar db room apart. insert-Apart name age birth avatar db apart;
    controlled = λ target rules wifi db c own apart.
        controls-Apart target rules wifi db (controls_of target db) (Apart-ne db target apart own)
          apart;
    revised = λ target u db apart. revise-Apart target u db (profile_of target parent db) apart;
    deactivated = λ target db apart. rows-Apart target deactivate db (λ x. (refl, refl)) apart;
    ruled = λ target book d db c own apart.
        approval-Apart target book d parent db (approval_of target book db)
          (Apart-ne db target apart own) apart;
    cleared = λ target book db c own apart.
        clear-Apart target book db (Apart-ne db target apart own) apart;
    pinned =
        λ target hash db c own apart. pin-Apart target hash db (Apart-ne db target apart own) apart;
  }

  -- A request of a parent, of whatever kind and however it ends, leaves every row of a child that is
  -- not the parent's as it was: the profile, the controls with the PIN, and the approvals. The child
  -- has been made, and is still not the parent's.
  pub perform-Apart :
      (parse_uuid : Bytes → Option ℕ) (sha256_hex : Bytes → Bytes) (r : Request) (w : World)
      → IsApart parent profile profiles controls approvals w.db
      → Keeps
          (IsApart parent profile profiles controls approvals)
          (perform parse_uuid sha256_hex parent r w)
  perform-Apart parse_uuid sha256_hex r w apart =
      perform-Keeps Apart Apart-IsKept parse_uuid sha256_hex r w apart
