-- ===== src/Kids/Guard/Birthday.antt =====
-- A child that has grown under the controls that its profile was created with, in
-- backend/internal/kids/service.go and model.go.
use ketapod_website.Base.{
  ℕ, ◌≡◌, refl, sym, ap, ◌∙◌, inl, inr, Bool, true, false, Option, none, some, List, arith, ==_refl,
  find_passes, find-update_where, Bool-cases,
}
use mathlib.Core.Path.{subst}
use ketapod_website.Base.Int.{ℤ, pos, ◌<ℤ◌, to_int32}
use ketapod_website.Kids.{Controls, default_controls}
use ketapod_website.Kids.Laws.{evaluate_playback_allows, default_controls_lock_out}
use ketapod_website.Kids.Model.{ChildProfile, ParentalControls}
use ketapod_website.Kids.Profiles.{
  profile_of, controls_of, has_controls_of, overwrite_controls, new_controls, upsert_controls,
  upsert_controls_found, create_profile, ProfileUpdate, outside, age_refused, revise, revise_found,
  birth_year_stands, revise_profile, update_profile,
}
use ketapod_website.Kids.Approvals.{approval_decision}
use ketapod_website.Kids.Guard.{rules_or_default, input_for, check_playback}
use ketapod_website.Kids.Guard.LetIn.{IsLetIn, input_for-IsPermitted, check_playback-Tells}
use ketapod_website.Schema.{Error, Db}
use ketapod_website.Store.{Result, ok, err, World, lift, or_fail}
use ketapod_website.Store.Rules.{
  Ensures, Ensures-ok, Ensures-pure, Ensures-err, Ensures-reads, Ensures-raise_if,
}
use ketapod_website.Store.Steps.{Ensures-step}
use ketapod_website.Store.Reads.{Reads, Reads-map}

-- The stored controls of a child have these rules.
abbrev pub HasRules : ℕ → Controls → Db → Type 0
HasRules profile rules db =
    (k : ParentalControls) × (controls_of profile db ≡ some k) × (k.rules ≡ rules)

upserted_rules :
    (profile : ℕ) (rules : Controls) (wifi : Bool) (db : Db) (o : Option ParentalControls)
    → controls_of profile db ≡ o
    → HasRules profile rules (upsert_controls_found profile rules wifi db o).1
unfolding controls_of new_controls
upserted_rules profile rules wifi db none found =
    (new_controls profile rules wifi db, rw (==_refl profile) refl, refl)
upserted_rules profile rules wifi db (some c) found = (
  overwrite_controls db.now rules wifi c,
  find-update_where (has_controls_of profile) (has_controls_of profile)
        (overwrite_controls db.now rules wifi) (λ x. refl) db.parental_controls found
      ∙ rw (find_passes (has_controls_of profile) db.parental_controls found) refl,
  refl,
)

create_profile-HasRules :
    (parent : ℕ) (text : List ℕ) (age birth : ℤ) (avatar : Option ℕ) (w : World)
    → Ensures
        (λ c db. HasRules c.id (default_controls age) db)
        (create_profile parent text age birth avatar w)
unfolding create_profile upsert_controls
create_profile-HasRules parent text age birth avatar w = Ensures-raise_if _ _ _ _ w λ fit.
    Ensures-reads _ _ _ w λ fs. Ensures-raise_if _ _ _ _ _ λ room.
      Ensures-step (λ c db. HasRules c.id (default_controls age) db) _ _ _
        λ c fs' e.
          Ensures-step (λ c db. HasRules c.id (default_controls age) db) _ _ _
            λ k fs'' e'.
              Ensures-pure (λ c db. HasRules c.id (default_controls age) db) c _
                (upserted_rules c.id (default_controls age) true _ _ refl)

-- An age that is accepted fits the column.
age_fits : (a : ℤ) → outside (pos 0) (pos 18) a ≡ false → to_int32 a ≡ a
unfolding to_int32
age_fits a h = ground arith

-- What an update of the age leaves: the age, and the controls.
abbrev HasGrown : ℕ → ℤ → Db → ChildProfile → Db → Type 0
HasGrown profile older before c db =
    (c.age_years ≡ older) × (controls_of profile db ≡ controls_of profile before)

revised_controls :
    (profile parent : ℕ) (u : ProfileUpdate) (db : Db) (o : Option ChildProfile)
    → controls_of profile (revise_found profile parent u db o).1 ≡ controls_of profile db
unfolding controls_of
revised_controls profile parent u db none = refl
revised_controls profile parent u db (some old) =
    elim (Bool-cases (birth_year_stands (revise u old).birth_year)) [
      | inl stands ↦ rw stands refl
      | inr refused ↦ rw refused refl
    ]

revised_row :
    (profile parent : ℕ) (u : ProfileUpdate) (db : Db) (old c : ChildProfile)
    → (revise_found profile parent u db (some old)).0 ≡ ok (some c)
    → c ≡ revise u old
revised_row profile parent u db old c e =
    elim (Bool-cases (birth_year_stands (revise u old).birth_year)) [
      | inl stands ↦ row_of (revise u old) c (rw stands at e)
      | inr refused ↦ no_row c (rw refused at e)
    ]
  where
    row_of :
        (x y : ChildProfile)
        → ◌≡◌ {A = Result (Option ChildProfile)} (ok (some x)) (ok (some y))
        → y ≡ x
    row_of x y h = cc h

    no_row :
        {x : ChildProfile} (y : ChildProfile)
        → ◌≡◌ {A = Result (Option ChildProfile)} (err Error.storage) (ok (some y))
        → y ≡ x
    no_row y h = cc h

-- The age that an update enters, where it fits the column.
revised_age :
    (u : ProfileUpdate) (older : ℤ) (old : ChildProfile)
    → u.age_years ≡ some older
    → to_int32 older ≡ older
    → (revise u old).age_years ≡ older
revised_age u older old aged fits = rw aged fits

revised-Grown :
    (profile parent : ℕ) (u : ProfileUpdate) (older : ℤ) (db : Db) (o : Option ChildProfile)
    (written : Option ChildProfile) (fs : List Bool)
    → u.age_years ≡ some older
    → to_int32 older ≡ older
    → (revise_found profile parent u db o).0 ≡ ok written
    → Ensures (HasGrown profile older db) (
        lift
          (or_fail Error.not_found written)
          (record { db = (revise_found profile parent u db o).1; faults = fs }))
unfolding lift
revised-Grown profile parent u older db o none fs aged fits e =
    Ensures-err (HasGrown profile older db) Error.not_found _
revised-Grown profile parent u older db none (some c) fs aged fits e = absurd (ground (arith, e))
revised-Grown profile parent u older db (some old) (some c) fs aged fits e =
    Ensures-pure (HasGrown profile older db) c _ (
      ap (λ (x : ChildProfile). x.age_years) (revised_row profile parent u db old c e)
          ∙ revised_age u older old aged fits,
      revised_controls profile parent u db (some old),
    )

update_profile-Grown :
    (parent profile : ℕ) (u : ProfileUpdate) (older : ℤ) (w : World)
    → u.age_years ≡ some older
    → Ensures (HasGrown profile older w.db) (update_profile parent profile u w)
unfolding update_profile revise_profile
update_profile-Grown parent profile u older w aged = Ensures-raise_if _ _ _ _ w λ fit.
    Ensures-step _ _ _ w λ written fs e.
      revised-Grown profile parent u older w.db _ written fs aged
        (age_fits older (ap age_refused (sym aged) ∙ fit)) e

module _ (friendly : Result Bool) (seconds : Result ℤ) (minute : ℕ) where
  grown_not_let_in :
      (parent profile book : ℕ) (age older : ℤ) (c : ChildProfile) (d : Db)
      → HasRules profile (default_controls age) d
      → profile_of profile parent d ≡ some c
      → c.age_years ≡ older
      → pos 3 <ℤ older
      → age <ℤ older
      → IsLetIn friendly seconds minute parent profile book d
      → ⊥
  unfolding input_for
  grown_not_let_in parent profile book age older c d (k, stored, same) own grown three more l =
      let e : l.child ≡ c = ground (arith, l.own, own) in
      let years : l.child.age_years ≡ older = ap (λ (x : ChildProfile). x.age_years) e ∙ grown in
      let i =
        input_for l.child (rules_or_default l.child.age_years (controls_of profile d)) l.kids_book
          (approval_decision profile book d) l.today minute in
      let ruled : i.controls ≡ default_controls age =
        ap (rules_or_default l.child.age_years) stored ∙ same in
      let out =
        default_controls_lock_out i age ruled (subst (λ y. pos 3 <ℤ y) (sym years) three)
          (subst (λ y. age <ℤ y) (sym years) more) in
      cc (
        out,
        (evaluate_playback_allows i).1
            (input_for-IsPermitted friendly seconds minute parent profile book d l),
      )

  -- Once a child has grown older than it was when its profile was created, and older than 3, and the
  -- parent has entered the new age, no check of playback lets it listen to anything: whatever else the
  -- update changed, whatever the parent has allowed, and at any later tables in which the profile is the
  -- one that the update answered and its controls are those that the update left. A check that fails
  -- does not let it in either.
  pub check_playback-update_profile :
      (parent : ℕ) (text : List ℕ) (age birth : ℤ) (avatar : Option ℕ) (w : World)
      {c : ChildProfile} {w1 : World}
      → create_profile parent text age birth avatar w ≡ (ok c, w1)
      → (u : ProfileUpdate) (older : ℤ) (faults : List Bool) {grown : ChildProfile} {w2 : World}
      → u.age_years ≡ some older
      → pos 3 <ℤ older
      → age <ℤ older
      → update_profile parent c.id u (record { db = w1.db; faults = faults }) ≡ (ok grown, w2)
      → (w3 : World) → profile_of c.id parent w3.db ≡ some grown
      → controls_of c.id w3.db ≡ controls_of c.id w2.db
      → (book : ℕ)
      → Reads (λ r. r.0 ≡ false) w3.db (check_playback friendly seconds minute parent c.id book w3)
  check_playback-update_profile parent text age birth avatar w {c} {w1} made u older faults {grown}
        {w2} aged three more updated w3 own same book =
      let (k, stored, rules) =
        Ensures-ok _ _ (create_profile-HasRules parent text age birth avatar w) made in
      let (years, kept) =
        Ensures-ok _ _
          (update_profile-Grown parent c.id u older (record { db = w1.db; faults = faults }) aged)
          updated in
      let ruled : HasRules c.id (default_controls age) w3.db = (k, same ∙ kept ∙ stored, rules) in
      Reads-map _ _ w3.db _ (check_playback-Tells friendly seconds minute parent c.id book w3)
        λ r told. elim (Bool-cases r.0) [
          | inl plays ↦ absurd (
              grown_not_let_in parent c.id book age older grown w3.db ruled own years three more
                (told.0 plays))
          | inr refused ↦ refused
        ]
