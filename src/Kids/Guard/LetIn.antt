-- ===== src/Kids/Guard/LetIn.antt =====
-- What `CheckPlayback` and `SetApproval` of backend/internal/kids/service.go do together, and what
-- `ResolveAccess` of backend/internal/media/service.go makes of the answer.
use ketapod_website.Base.{
  ℕ, ◌≡◌, ◌≢◌, ◌↔◌, refl, inl, inr, Bool, true, false, List, Option, some, none, arith,
  find-update_where, find_passes, ==_refl,
}
use mathlib.Core.Path.{subst}
use ketapod_website.Base.Int.{ℤ}
use ketapod_website.Kids.{
  Controls, default_controls, Verdict, Decision, block, PlaybackInput, evaluate_playback,
}
use ketapod_website.Kids.Laws.{IsPermitted, IsApproved, evaluate_playback_allows}
use ketapod_website.Kids.Model.{ChildProfile, ParentalControls, ContentApproval}
use ketapod_website.Kids.Profiles.{profile_of, controls_of}
use ketapod_website.Kids.Approvals.{
  approval_of, approval_decision, is_approval_of, overwrite_approval, new_approval, upsert_approval,
  upsert_approval_found, set_approval,
}
use ketapod_website.Kids.Guard.{rules_or_default, input_for, check_found, check_playback}
use ketapod_website.Kids.Requests.{get_profile-Reads}
use ketapod_website.Media.Access.{
  AudioEdition, AccessDecision, playable, resolve_found, resolve_access,
}
use ketapod_website.Schema.{Db}
use ketapod_website.Store.{Result, ok, err, World}
use ketapod_website.Store.Rules.{Ensures, Ensures-ok, Ensures-query, Ensures-raise_if}
use ketapod_website.Store.Reads.{
  Reads, Reads-reads, Reads-lift, Reads-pure, Reads-told, Ensures-Reads,
}

-- The rules that hold for a child of this age: those of its stored row, or the default where it has none.
abbrev pub Enforced : ℤ → Option ParentalControls → Controls → Type 0
Enforced age none rules = rules ≡ default_controls age
Enforced age (some c) rules = rules ≡ c.rules

rules_or_default-Enforced :
    (age : ℤ) (o : Option ParentalControls) → Enforced age o (rules_or_default age o)
rules_or_default-Enforced age none = refl
rules_or_default-Enforced age (some c) = refl

pub Enforced-unique :
    (age : ℤ) (o : Option ParentalControls) {rules : Controls}
    → Enforced age o rules
    → rules ≡ rules_or_default age o
Enforced-unique age none h = h
Enforced-unique age (some c) h = h

module _ (friendly : Result Bool) (seconds : Result ℤ) (minute : ℕ) where
  -- The child is the parent's, the other modules answer, and every rule of the policy is met by the
  -- stored controls and the stored word of the parent.
  pub record IsLetIn (parent profile book : ℕ) (db : Db) : Type 0 where
    pub child : ChildProfile
    pub kids_book : Bool
    pub today : ℤ
    pub own : profile_of profile parent db ≡ some child
    pub known : friendly ≡ ok kids_book
    pub heard : seconds ≡ ok today
    pub rules : Controls
    pub enforced : Enforced child.age_years (controls_of profile db) rules
    pub permitted : IsPermitted (record {
      controls = rules;
      child_age_years = child.age_years;
      profile_active = child.is_active;
      book_is_kids_friendly = kids_book;
      explicit_decision = approval_decision profile book db;
      seconds_today = today;
      minute_now = minute;
    })

  -- What is asked of the policy for that, in the words of the code.
  pub input_for-IsPermitted :
      (parent profile book : ℕ) (db : Db) (l : IsLetIn parent profile book db)
      → IsPermitted (
          input_for l.child
            (rules_or_default l.child.age_years (controls_of profile db))
            l.kids_book
            (approval_decision profile book db)
            l.today
            minute)
  unfolding input_for
  input_for-IsPermitted parent profile book db l =
      subst
        (λ (rules : Controls).
          IsPermitted (
            input_for l.child rules l.kids_book (approval_decision profile book db) l.today minute))
        (Enforced-unique l.child.age_years (controls_of profile db) l.enforced) l.permitted

  abbrev Tells : ℕ → ℕ → ℕ → Db → Bool × Verdict → Type 0
  Tells parent profile book db r = (r.0 ≡ true) ↔ IsLetIn parent profile book db

  let_in_iff :
      (parent profile book : ℕ) (db : Db) (p : ChildProfile) (b : Bool) (s : ℤ)
      → profile_of profile parent db ≡ some p
      → friendly ≡ ok b
      → seconds ≡ ok s
      → Tells parent profile book db (
          evaluate_playback (
            input_for p
              (rules_or_default p.age_years (controls_of profile db))
              b
              (approval_decision profile book db)
              s
              minute))
  unfolding input_for
  let_in_iff parent profile book db p b s own known heard =
      let rule = evaluate_playback_allows (
        input_for p (rules_or_default p.age_years (controls_of profile db)) b
          (approval_decision profile book db) s minute) in
      let asked = λ (c : ChildProfile) (k : Bool) (t : ℤ).
        input_for c (rules_or_default c.age_years (controls_of profile db)) k
          (approval_decision profile book db) t minute in
      (
        λ told. record {
          child = p;
          kids_book = b;
          today = s;
          own = own;
          known = known;
          heard = heard;
          rules = rules_or_default p.age_years (controls_of profile db);
          enforced = rules_or_default-Enforced p.age_years (controls_of profile db);
          permitted = rule.0 told;
        },
        λ l.
            let child : l.child ≡ p = cc (l.own, own) in
            let kids_book : l.kids_book ≡ b = cc (l.known, known) in
            let today : l.today ≡ s = cc (l.heard, heard) in
            rule.1 (
              subst (λ c. IsPermitted (asked c b s)) child
                (subst (λ k. IsPermitted (asked l.child k s)) kids_book
                  (subst (λ t. IsPermitted (asked l.child l.kids_book t)) today
                    (input_for-IsPermitted parent profile book db l)))),
      )

  check_found-Tells :
      (parent profile book : ℕ) (o : Option ChildProfile) (w : World)
      → profile_of profile parent w.db ≡ o
      → Reads
          (Tells parent profile book w.db)
          w.db
          (check_found friendly seconds minute profile book o w)
  unfolding check_found
  check_found-Tells parent profile book none w found =
      Reads-pure _ w.db _ w.faults ((λ e. cc), λ l. cc (l.own, found))
  check_found-Tells parent profile book (some p) w found =
      Reads-reads _ (controls_of profile) _ w λ fs. Reads-lift _ friendly _ _ λ b known.
        Reads-reads _ (approval_decision profile book) _ _ λ fs'.
          Reads-lift _ seconds _ _ λ s heard.
            Reads-pure _ w.db _ _ (let_in_iff parent profile book w.db p b s found known heard)

  -- A check of playback changes nothing; and when it answers, it lets the child listen exactly when
  -- the child is the parent's and the stored controls, the stored word of the parent on the title,
  -- the catalog and the listening of the day meet every rule of the policy.
  pub check_playback-Tells :
      (parent profile book : ℕ) (w : World)
      → Reads
          (λ r. (r.0 ≡ true) ↔ IsLetIn parent profile book w.db)
          w.db
          (check_playback friendly seconds minute parent profile book w)
  unfolding check_playback
  check_playback-Tells parent profile book w =
      Reads-reads _ (profile_of profile parent) _ w
        λ fs. check_found-Tells parent profile book _ (record { db = w.db; faults = fs }) refl

-- A ruling that has been made is the one that is read.
approval-upsert :
    (profile book : ℕ) (d : Decision) (by : ℕ) (db : Db) (o : Option ContentApproval)
    → approval_of profile book db ≡ o
    → approval_decision profile book (upsert_approval_found profile book d by db o).1 ≡ d
unfolding approval_decision approval_of new_approval
approval-upsert profile book d by db none found = rw (==_refl profile, ==_refl book)
approval-upsert profile book d by db (some a) found =
    let hit = find_passes (is_approval_of profile book) db.content_approvals found in
    rw (
      find-update_where (is_approval_of profile book) (is_approval_of profile book)
          (overwrite_approval db.now d by) (λ x. refl) db.content_approvals found,
      hit,
    )

set_approval-Decides :
    (parent profile book : ℕ) (d : Decision) (w : World)
    → Ensures (λ u db. approval_decision profile book db ≡ d) (set_approval parent profile book d w)
unfolding set_approval upsert_approval
set_approval-Decides parent profile book d w = Ensures-raise_if _ _ _ _ _ λ fit.
    Ensures-Reads _ _ w.db _ _ (get_profile-Reads parent profile w) λ c fs own.
      Ensures-query (λ u db. approval_decision profile book db ≡ d) _ _
        λ u db e.
          subst (λ x. approval_decision profile book x ≡ d) (ground (arith, e))
            (approval-upsert profile book d parent w.db (approval_of profile book w.db) refl)

-- The answer of the kids module as media hears it, with the codes of its reasons.
abbrev pub heard_by_media : (Verdict → ℕ) → Result (Bool × Verdict) → Result (Bool × ℕ)
heard_by_media code (err e) = err e
heard_by_media code (ok (b, v)) = ok (b, code v)

-- Without a child's permission there is nothing to play.
refused_child :
    (a : Option AudioEdition) (r : Result (Bool × ℕ)) (has : Option (Result Bool))
    → ((v : ℕ) → r ≢ ok (true, v))
    → (d : AccessDecision) → resolve_found a (some r) has ≡ ok d
    → playable d ≡ false
unfolding playable
refused_child none r has no_leave d e = cc
refused_child (some a) (err x) has no_leave d e = ground (arith, e)
refused_child (some a) (ok (true, v)) has no_leave d e = absurd (no_leave v refl)
refused_child (some a) (ok (false, v)) has no_leave d e = ground (arith, e)

not_permitted : (i : PlaybackInput) → i.explicit_decision ≡ block → IsApproved i → ⊥
not_permitted i blocked (inl allows) = cc
not_permitted i blocked (inr (ne, mode, friendly)) = ne blocked

leave_heard :
    (code : Verdict → ℕ) (r : Result (Bool × Verdict)) {v : ℕ}
    → heard_by_media code r ≡ ok (true, v)
    → (v' : Verdict) × (r ≡ ok (true, v'))
leave_heard code (err x) e = cc
leave_heard code (ok (b, v')) e = (v', ground (arith, e))

not_let_in :
    (friendly : Result Bool) (seconds : Result ℤ) (minute : ℕ) (parent profile book : ℕ) (w : World)
    → approval_decision profile book w.db ≡ block
    → (v : Verdict)
    → (check_playback friendly seconds minute parent profile book w).0 ≢ ok (true, v)
unfolding input_for
not_let_in friendly seconds minute parent profile book w blocked v e =
    let told =
      Reads-told _ w.db _ (check_playback-Tells friendly seconds minute parent profile book w) e in
    let l = told.0 refl in
    not_permitted
      (input_for l.child (rules_or_default l.child.age_years (controls_of profile w.db)) l.kids_book
        (approval_decision profile book w.db) l.today minute)
      blocked (input_for-IsPermitted friendly seconds minute parent profile book w.db l).approved

-- Once a parent has blocked a title for a child, media finds nothing that the child may play of it,
-- whatever the title is and whatever the user has bought: if access is resolved at all, it is
-- refused. The tables are those that the ruling left, and any statement of the check may fail.
pub resolve_access-set_approval :
    (parent profile book : ℕ) (w : World) {w' : World}
    → set_approval parent profile book block w ≡ (ok tt, w')
    → (friendly : Result Bool) (seconds : Result ℤ) (minute : ℕ) (faults : List Bool)
      (code : Verdict → ℕ) (edition : Option AudioEdition) (has : Option (Result Bool))
      (d : AccessDecision)
    → resolve_access (record {
      edition = edition;
      kids = some (
          heard_by_media code
            (check_playback friendly seconds minute parent profile book
              (record { db = w'.db; faults = faults })).0);
      entitled = has;
    })
      ≡ ok d
    → playable d ≡ false
unfolding resolve_access
resolve_access-set_approval parent profile book w {w'} set friendly seconds minute faults code
      edition has d e =
    let blocked = Ensures-ok _ _ (set_approval-Decides parent profile book block w) set in
    refused_child edition _ has
      (λ v h.
        let (v', asked) = leave_heard code _ h in
        not_let_in friendly seconds minute parent profile book _ blocked v' asked)
      d e
