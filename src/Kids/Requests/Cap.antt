-- ===== src/Kids/Requests/Cap.antt =====
-- How many active profiles a parent has, under the operations of backend/internal/kids/service.go.
use ketapod_website.Base.{
  ℕ, ◌≤◌, ◌≡◌, refl, ◌∙◌, inl, inr, Bool, false, List, [], ◌∷◌, Option, some, none, leb, arith,
  length, length-append, length-select, select, count, count-update_where-le, Bool-cases,
}
use ketapod_website.Base.Int.{ℤ}
use ketapod_website.Base.Text.{Bytes}
use ketapod_website.Kids.{Controls, Decision}
use ketapod_website.Kids.Model.{ChildProfile, ParentalControls, ContentApproval}
use ketapod_website.Kids.Profiles.{
  max_child_profiles, is_active_of, oldest_first, active_profiles, insert_profile, new_profile,
  birth_year_stands, stored_birth_year, upsert_controls, upsert_controls_found, controls_of,
  ProfileUpdate, revise, revise_profile, revise_found, profile_of, is_profile_of, deactivate,
  deactivate_profile,
}
use ketapod_website.Kids.Approvals.{
  upsert_approval, upsert_approval_found, approval_of, remove_approval, store_pin,
}
use ketapod_website.Kids.Requests.{Request, perform, IsKept, perform-Keeps}
use ketapod_website.Schema.{Db}
use ketapod_website.Store.{World}
use ketapod_website.Store.Rules.{Keeps}

-- No parent has more than six active profiles.
abbrev pub IsCapped : Db → Type 0
IsCapped db = (parent : ℕ) → count (is_active_of parent) db.child_profiles ≤ max_child_profiles

length-oldest_first : {A : Type 0} (xs : List A) → length (oldest_first xs) ≡ length xs
length-oldest_first [] = refl
length-oldest_first (x ∷ xs) =
    omega (arith, length-append (oldest_first xs) (x ∷ []), length-oldest_first xs)

length-active_profiles :
    (parent : ℕ) (db : Db)
    → length (active_profiles parent db) ≡ count (is_active_of parent) db.child_profiles
unfolding active_profiles
length-active_profiles parent db =
    length-oldest_first (select (is_active_of parent) db.child_profiles)
    ∙ length-select (is_active_of parent) db.child_profiles

insert-IsCapped :
    (parent : ℕ) (name : List ℕ) (age birth : ℤ) (avatar : Option ℕ) (db : Db)
    → leb max_child_profiles (length (active_profiles parent db)) ≡ false
    → IsCapped db
    → IsCapped (insert_profile parent name age birth avatar db).1
unfolding insert_profile new_profile
insert-IsCapped parent name age birth avatar db room h other =
    elim (Bool-cases (birth_year_stands (stored_birth_year birth))) [
      | inl stands ↦ rw stands (ground (arith, h other, length-active_profiles parent db))
      | inr wrong ↦ rw wrong (h other)
    ]

controls-IsCapped :
    (profile : ℕ) (rules : Controls) (wifi : Bool) (db : Db) (o : Option ParentalControls)
    → IsCapped db
    → IsCapped (upsert_controls_found profile rules wifi db o).1
controls-IsCapped profile rules wifi db none h = h
controls-IsCapped profile rules wifi db (some c) h = h

revise-IsCapped :
    (profile parent : ℕ) (u : ProfileUpdate) (db : Db) (o : Option ChildProfile)
    → IsCapped db
    → IsCapped (revise_found profile parent u db o).1
revise-IsCapped profile parent u db none h other = h other
revise-IsCapped profile parent u db (some c) h other =
    elim (Bool-cases (birth_year_stands (revise u c).birth_year)) [
      | inl stands ↦ rw stands (
          omega (
            arith,
            h other,
            count-update_where-le (is_active_of other) (is_profile_of profile parent) (revise u)
                (λ x e. e) db.child_profiles,
          ))
      | inr wrong ↦ rw wrong (h other)
    ]

deactivate-IsCapped :
    (profile parent : ℕ) (db : Db) → IsCapped db → IsCapped (deactivate_profile profile parent db).1
unfolding deactivate_profile
deactivate-IsCapped profile parent db h other = omega (
  arith,
  h other,
  count-update_where-le (is_active_of other) (is_profile_of profile parent) deactivate
      (λ x e. ground (arith, e)) db.child_profiles,
)

approval-IsCapped :
    (profile book : ℕ) (db : Db) (d : Decision) (by : ℕ) (o : Option ContentApproval)
    → IsCapped db
    → IsCapped (upsert_approval_found profile book d by db o).1
approval-IsCapped profile book db d by none h = h
approval-IsCapped profile book db d by (some a) h = h

IsCapped-IsKept : (parent : ℕ) → IsKept parent IsCapped
unfolding upsert_controls revise_profile upsert_approval remove_approval store_pin
IsCapped-IsKept parent = record {
  inserted =
      λ name age birth avatar db room h. insert-IsCapped parent name age birth avatar db room h;
  controlled = λ profile rules wifi db c own h.
      controls-IsCapped profile rules wifi db (controls_of profile db) h;
  revised = λ profile u db h. revise-IsCapped profile parent u db (profile_of profile parent db) h;
  deactivated = λ profile db h. deactivate-IsCapped profile parent db h;
  ruled = λ profile book d db c own h.
      approval-IsCapped profile book db d parent (approval_of profile book db) h;
  cleared = λ profile book db c own h. h;
  pinned = λ profile hash db c own h. h;
}

-- Where no parent has more than six active profiles, none has after any request of any parent,
-- however the request ends.
pub perform-IsCapped :
    (parse_uuid : Bytes → Option ℕ) (sha256_hex : Bytes → Bytes) (parent : ℕ) (r : Request)
    (w : World)
    → IsCapped w.db
    → Keeps IsCapped (perform parse_uuid sha256_hex parent r w)
perform-IsCapped parse_uuid sha256_hex parent r w h =
    perform-Keeps IsCapped (IsCapped-IsKept parent) parse_uuid sha256_hex r w h
