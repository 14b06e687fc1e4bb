-- ===== src/Tracks/Tests.antt =====
-- A run of AFindPV on whole numbers: five frames with one moving object, and a round that finds none.
use airs.Base.{
  ℕ, ◌+◌, ◌*◌, ◌<◌, ◌≡◌, refl, List, [], ◌∷◌, true, false, map, All, Option, none, some,
}
use airs.Base.Int.{ℤ, pos, ◌+ℤ◌, ◌-ℤ◌}
use airs.Base.Text.{codes}
use airs.Badmark.Marks.{Parameter}
use airs.Doubles.Whole.{numbers, no_turns, divide, times, literal}
use airs.Base.Faults.{Returns}
use airs.Tracks.Points.{Point, Exposure}
use airs.Tracks.Finder.{AFindPv, Boost, Outcome, new_finder}
use airs.Tracks.Thread.{Event, run}
use airs.Tracks.Related.{uses, run-related}
use airs.Tracks.Ends.{IsTrackOutcome}
use airs.Tracks.Orbits.{run-IsTrack}

abbrev boost : Boost ℤ
boost = record {
  from_iso_extended_string = λ t. record {
    year = 2019;
    month = 11;
    day = 16;
    hours = 1;
    minutes = 2;
    seconds = 3;
    fractional_seconds = 0;
  };
  to_iso_string = λ t. codes "20191116";
  add_millisec = λ t k. t;
  append = λ p q. q;
  replace_extension = λ p q. p;
  create_directory = λ p. true;
  sort_doubts = λ ds. ds;
  set_mjd = λ d. (pos 0, pos 0, pos 0);
  path_output = codes "out";
}

abbrev parameter : Parameter
parameter = record { path_badmark = []; badcol_set = []; badpix_set = []; dirty = false }

-- The object is at a place that falls by 30 with each frame.
abbrev frame : ℕ → Exposure ℤ
frame k = record {
  filename = codes "a.fit";
  tmmid = codes "2019-11-16T01:02:03";
  gid = codes "g";
  uid = codes "u";
  cid = codes "c";
  wimg = pos 4096;
  himg = pos 4096;
  fno = pos k;
  mjd = pos (58803 + k);
  secofday = pos 0;
  rac = pos 0;
  decc = pos 0;
  nfobjs =
      record {
        id = pos 0;
        x = pos (200 + 30 * k);
        y = pos 300;
        mag = pos 10;
        magerr = pos 0;
        ra_fit = pos (10 + 30 * k);
        dec_fit = pos 5;
        matched = pos 0;
      }
      ∷ [];
}

abbrev blank : ℕ → Point ℤ
blank k = record {
  filename = [];
  tmmid = [];
  fno = pos 0;
  mjd = pos 0;
  id = pos 0;
  related = pos 7;
  matched = pos 0;
  x = pos 0;
  y = pos 0;
  ra = pos 0;
  dc = pos 0;
  mag = pos 0;
  magerr = pos 0;
  snr = pos 0;
  corrected = false;
}

abbrev night : List (Event ℤ)
night =
    Event.arrive (frame 1)
    ∷ Event.wake
    ∷ Event.arrive (frame 2)
    ∷ Event.arrive (frame 3)
    ∷ Event.wake
    ∷ Event.wake
    ∷ Event.arrive (frame 4)
    ∷ Event.arrive (frame 5)
    ∷ Event.wake
    ∷ Event.wake
    ∷ Event.wake
    ∷ []

abbrev finder : AFindPv ℤ
finder = new_finder parameter (codes "g") (codes "u") (codes "c") blank

orbits : Option (AFindPv ℤ) → List (List ℕ)
orbits none = []
orbits (some s) = map (λ (o : Outcome ℤ). outcome o) s.outcomes
  where
    outcome : Outcome ℤ → List ℕ
    outcome (Outcome.noise pts) = 1000 ∷ pts
    outcome (Outcome.hot pts) = 2000 ∷ pts
    outcome (Outcome.orbit o) = o.pts

found : orbits (run numbers boost night finder) ≡ (0 ∷ 1 ∷ 2 ∷ 3 ∷ 4 ∷ []) ∷ []
unfolding orbits run new_finder no_turns divide times ◌+ℤ◌ ◌-ℤ◌ literal
found = refl

run-related_example :
    Returns
      (λ t. (p : ℕ) → p < t.points.next → (t.points.cell p).related ≡ pos (uses numbers boost p t))
      (run numbers boost night finder)
run-related_example =
    run-related numbers boost parameter (codes "g") (codes "u") (codes "c") blank night

run-IsTrack_example :
    Returns (λ t. All (IsTrackOutcome numbers boost) t.outcomes) (run numbers boost night finder)
run-IsTrack_example =
    run-IsTrack numbers boost parameter (codes "g") (codes "u") (codes "c") blank night
