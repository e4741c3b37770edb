-- ===== src/Media/Playback/Decision.antt =====
-- Who may hear what, against `ResolveAccess` of backend/internal/media/service.go.
use ketapod_website.Base.{ℕ, ◌≡◌, Bool, true, false, not, ◌&&◌, ◌||◌, Option, none, some, arith}
use ketapod_website.Base.Int.{pos, ltb_ℤ}
use ketapod_website.Media.Access.{
  full, AccessDecision, playable, AudioEdition, is_free, is_withheld, Answers, resolve_access,
  resolve_found, after_kids, fall_back,
}
use ketapod_website.Store.{Result, ok, err}

abbrev pub is_full : Result AccessDecision → Bool
is_full (err e) = false
is_full (ok d) = elim d.level [ full ↦ true | _ ↦ false ]

abbrev pub is_playable : Result AccessDecision → Bool
is_playable (err e) = false
is_playable (ok d) = playable d

-- The kids module was not asked, or allows.
abbrev pub kids_allow : Option (Result (Bool × ℕ)) → Bool
kids_allow none = true
kids_allow (some (err e)) = false
kids_allow (some (ok (b, r))) = b

abbrev pub is_entitled : Option (Result Bool) → Bool
is_entitled (some (ok b)) = b
is_entitled _ = false

-- Commerce was not asked, or answers.
abbrev pub answers_known : Option (Result Bool) → Bool
answers_known (some (err e)) = false
answers_known _ = true

-- The rule: a title that is out, that the kids module does not veto, and that is free or owned is
-- heard whole.
unfoldable pub may_hear_all : AudioEdition → Answers → Bool
may_hear_all e a =
    not (is_withheld e.status) && kids_allow a.kids && (is_free e || is_entitled a.entitled)

-- Some of it is heard if all of it is, or if the title has a preview and commerce has answered.
unfoldable pub may_hear_some : AudioEdition → Answers → Bool
may_hear_some e a =
    not (is_withheld e.status)
    && kids_allow a.kids
    && (is_free e
        || is_entitled a.entitled
        || (answers_known a.entitled && ltb_ℤ (pos 0) e.preview_seconds))

-- For an edition that is found, the code gives full access exactly when the rule says that all of it
-- may be heard, and anything playable exactly when some of it may.
pub resolve_access_complete :
    (e : AudioEdition) (a : Answers)
    → a.edition ≡ some e
    → (is_full (resolve_access a) ≡ may_hear_all e a)
      × (is_playable (resolve_access a) ≡ may_hear_some e a)
unfolding resolve_access after_kids fall_back playable may_hear_all may_hear_some
resolve_access_complete e a found = rw found (decided a.kids a.entitled)
  where
    decided :
        (child : Option (Result (Bool × ℕ))) (has : Option (Result Bool))
        → (is_full (resolve_found (some e) child has)
            ≡ (not (is_withheld e.status) && kids_allow child && (is_free e || is_entitled has)))
          × (is_playable (resolve_found (some e) child has) ≡ (
              not (is_withheld e.status)
              && kids_allow child
              && (is_free e
                  || is_entitled has
                  || (answers_known has && ltb_ℤ (pos 0) e.preview_seconds))))
    decided none none = ground arith
    decided none (some (err x)) = ground arith
    decided none (some (ok true)) = ground arith
    decided none (some (ok false)) = ground arith
    decided (some (err x)) has = ground arith
    decided (some (ok (true, r))) none = ground arith
    decided (some (ok (true, r))) (some (err x)) = ground arith
    decided (some (ok (true, r))) (some (ok true)) = ground arith
    decided (some (ok (true, r))) (some (ok false)) = ground arith
    decided (some (ok (false, r))) has = ground arith
