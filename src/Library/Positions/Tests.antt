-- ===== src/Library/Positions/Tests.antt =====
-- A phone that was offline and a tablet, which report the position of one edition.
use ketapod_website.Base.{
  ℕ, ◌≡◌, ◌↔◌, refl, sym, ap, ◌∙◌, inl, inr, true, false, none, some, Option, List, [], ◌∷◌, map,
  arith,
}
use ketapod_website.Base.Int.{pos, negsuc, min_ℤ}
use ketapod_website.Commerce.Subscriptions.{
  record_usage, get_active, with_plan, current_of, use_hours,
}
use ketapod_website.Library.Positions.{
  adjust, position_of, new_position, upsert_position, insert_event, record_seconds,
  record_listening, sync_adjusted, sync_position,
}
use ketapod_website.Library.Positions.Latest.{Arrival, arrive_all, report, arrive_all-same}
use ketapod_website.Library.Positions.Newest.{In, AreTimed}
use ketapod_website.Library.Positions.Reports.{Progress, held}
use ketapod_website.Samples.{no_rows}
use ketapod_website.Schema.{Error}
use ketapod_website.Store.{ok, err, query, reads, lift}

abbrev books : ℕ → Option ℕ
books i = some 6

abbrev from_phone : Arrival
from_phone = record {
  clock = 60;
  popularity = ok tt;
  faults = true ∷ [];
  update = record {
    audio_edition_id = 5;
    profile_id = none;
    position_seconds = pos 90_000;
    duration_seconds = pos 600_000;
    is_finished = false;
    device_updated_at = some 20;
    seconds_listened = pos 30;
  };
}

abbrev from_tablet : Arrival
from_tablet = record {
  clock = 58;
  popularity = err Error.upstream;
  faults = [];
  update = record {
    audio_edition_id = 5;
    profile_id = none;
    position_seconds = negsuc 4;
    duration_seconds = pos 600_000;
    is_finished = false;
    device_updated_at = some 45;
    seconds_listened = pos 10;
  };
}

two_times : AreTimed (map report (from_phone ∷ from_tablet ∷ []))
unfolding adjust
two_times p q (inl a) (inl b) t = a ∙ sym b
two_times p q (inl a) (inr (inl b)) t =
    absurd (omega (arith, t, ap (λ (x : Progress). x.time) a, ap (λ (x : Progress). x.time) b))
two_times p q (inr (inl a)) (inl b) t =
    absurd (omega (arith, t, ap (λ (x : Progress). x.time) a, ap (λ (x : Progress). x.time) b))
two_times p q (inr (inl a)) (inr (inl b)) t = a ∙ sym b
two_times p q (inl a) (inr (inr h)) t = elim h [ ]
two_times p q (inr (inl a)) (inr (inr h)) t = elim h [ ]
two_times p q (inr (inr h)) k t = elim h [ ]

-- The phone's report comes late, and twice.
abbrev one_order : List Arrival
one_order = from_phone ∷ from_tablet ∷ []

abbrev other_order : List Arrival
other_order = from_tablet ∷ from_phone ∷ from_phone ∷ []

same_reports : (p : Progress) → In p (map report one_order) ↔ In p (map report other_order)
same_reports p = (there, back)
  where
    there : In p (map report one_order) → In p (map report other_order)
    there (inl a) = inr (inl a)
    there (inr (inl a)) = inl a
    there (inr (inr h)) = elim h [ ]

    back : In p (map report other_order) → In p (map report one_order)
    back (inl a) = inr (inl a)
    back (inr (inl a)) = inl a
    back (inr (inr (inl a))) = inl a
    back (inr (inr (inr h))) = elim h [ ]

nowhere : position_of 1 none 5 no_rows ≡ none
unfolding position_of
nowhere = refl

arrive_all-same_example :
    held (position_of 1 none 5 (arrive_all books 1 one_order no_rows))
    ≡ held (position_of 1 none 5 (arrive_all books 1 other_order no_rows))
arrive_all-same_example =
    arrive_all-same books 1 none 5 6 no_rows one_order other_order refl nowhere
      ((refl, refl), ((refl, refl), tt)) ((refl, refl), ((refl, refl), ((refl, refl), tt)))
      two_times same_reports

-- A failure of the popularity counter fails the call, whose position and listening are stored.
popularity_fails :
    ((sync_position
        (err Error.upstream)
        58
        books
        1
        from_tablet.update
        (record { db = no_rows; faults = [] })).0
      ≡ err Error.upstream)
unfolding sync_position sync_adjusted record_listening record_seconds insert_event record_usage
    get_active with_plan current_of use_hours upsert_position position_of new_position adjust min_ℤ
    query reads lift
popularity_fails = refl
