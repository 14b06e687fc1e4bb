-- ===== src/Tracks/Output.antt =====
-- candidate2object of airs/src/AFindPV.cpp, with what upload_orbit, save_gtw_orbit and create_dir do
-- with the names and numbers of the files.
use airs.Base.{
  ℕ, List, [], ◌∷◌, ◌++◌, Bool, true, false, ◌&&◌, Option, none, some, map, length, get_elem?,
  if◌then◌else◌,
}
use airs.Base.Int.{ℤ, pos, ◌+ℤ◌, eqb_ℤ}
use airs.Base.Text.{Text, codes}
use airs.Base.Decimal.{decimal}
use airs.Badmark.Suspects.{Search, test_badcol}
use airs.Badmark.Doubts.{Doubt, is_bad, inc, get, write}
use airs.Doubles.{Doubles}
use airs.Base.Faults.{◌>>=◌}
use airs.Tracks.Points.{Point, Exposure}
use airs.Tracks.Candidate.{last_point}
use airs.Tracks.Finder.{AFindPv, Boost, Orbit, Outcome, pad, utc_convert_1}

abbrev pub head : {A : Type 0} → List A → Option A
head [] = none
head (a ∷ as') = some a

-- push_back of a path.
abbrev pub add_paths : Text → Text → Doubt → Doubt
add_paths txt gtw d = record d { pathtxt = d.pathtxt ++ txt ∷ []; pathgtw = d.pathgtw ++ gtw ∷ [] }

module _ (m : Doubles) where
  abbrev D : Type 0
  D = m.real.Double

  infixl 65 ◌⊕◌ ◌⊖◌
  infixl 66 ◌⊗◌ ◌⊘◌
  infix 50 ◌≺◌
  abbrev ◌⊕◌ : D → D → D
  a ⊕ b = m.real.add a b

  abbrev ◌⊖◌ : D → D → D
  a ⊖ b = m.real.sub a b

  abbrev ◌⊗◌ : D → D → D
  a ⊗ b = m.real.mul a b

  abbrev ◌⊘◌ : D → D → D
  a ⊘ b = m.real.div a b

  abbrev ◌≺◌ : D → D → Bool
  a ≺ b = m.real.less a b

  -- The sums, squares and limits of one coordinate.
  pub record Spread : Type 0 where
    pub sum : D
    pub sq : D
    pub min : D
    pub max : D

  unfoldable pub spread_from : Spread → List D → Spread
  spread_from s [] = s
  spread_from s (x ∷ xs) =
      spread_from
        (record {
          sum = s.sum ⊕ x;
          sq = s.sq ⊕ x ⊗ x;
          min = if x ≺ s.min then x else s.min;
          max = if s.max ≺ x then x else s.max;
        })
        xs

  unfoldable pub spread : List D → Spread
  unfolding spread_from
  spread xs =
      spread_from
        (record {
          sum = m.real.lit "0.0";
          sq = m.real.lit "0.0";
          min = m.real.lit "1E30";
          max = m.real.lit "0.0";
        })
        xs

  unfoldable pub sigma : ℤ → Spread → D
  sigma n s =
      let v = (s.sq ⊖ s.sum ⊗ s.sum ⊘ m.real.of_int n) ⊘ m.real.of_int n in
      if m.le (m.real.lit "0.0") v then m.sqrt v else m.real.lit "0.0"

  unfoldable pub stands : ℤ → Spread → Bool
  unfolding sigma
  stands n s = m.le (s.max ⊖ s.min) (m.real.lit "2.0") && sigma n s ≺ m.real.lit "1.0"

  unfoldable pub middle : D → D → ℤ
  middle a b = m.trunc ((a ⊕ b) ⊗ m.real.lit "0.5" ⊕ m.real.lit "0.5")

  module _ (b : Boost D) where
    -- idpv_, SID_ and the paths of the two files; the doubtful pixel, if there is one, keeps them.
    unfoldable pub put_orbit : List ℕ → List (Point D) → Option ℕ → AFindPv D → Option (AFindPv D)
    unfolding pad utc_convert_1 write
    put_orbit pts values pixel s = do
      first ← head values
      let idpv = s.idpv +ℤ pos 1
      let objname = s.utcdate ++ codes "_" ++ decimal idpv ++ codes ".obj"
      let path = b.replace_extension (b.append s.dirname objname) (codes ".txt")
      let gtwname =
          utc_convert_1 m b first.tmmid ++ codes "_990" ++ pad 3 s.sid ++ codes "_1690.GTW"
      let path_gtw = b.append s.dirgtw gtwname
      let sid = s.sid +ℤ pos 1
      let orbit : Orbit D = record {
        idpv = idpv;
        sid = s.sid;
        path = path;
        path_gtw = path_gtw;
        pts = pts;
        written = values;
      }
      some (record s {
        idpv = idpv;
        sid = if eqb_ℤ sid (pos 1000) then pos 1 else sid;
        outcomes = s.outcomes ++ Outcome.orbit orbit ∷ [];
        doubts = elim pixel [
          | none ↦ s.doubts
          | some at ↦ write (add_paths path path_gtw) at s.doubts
        ];
      })

    unfoldable pub bad_at : ℕ → List Doubt → Bool
    unfolding is_bad
    bad_at at ds = elim (get_elem? ds at) [ none ↦ false | some d ↦ is_bad d ]

    -- doubtPixSet_.get(col, row) and inc, for a candidate that stands.
    unfoldable pub count_pixel : ℤ → ℤ → List (Point D) → List Doubt → Option (List Doubt × ℕ)
    unfolding get write inc last_point
    count_pixel col row values ds = do
      first ← head values
      last ← last_point values
      let found = get col row ds
      some (write (inc first.fno last.fno) found.1 found.0, found.1)

    -- Behind the test for a bad column: a pixel if the candidate stands on one.
    unfoldable pub put_out : List ℕ → List (Point D) → Option ℕ → AFindPv D → Option (AFindPv D)
    unfolding bad_at put_orbit
    put_out pts values none s = put_orbit pts values none s
    put_out pts values (some at) s =
        if bad_at at s.doubts
        then some (record s { outcomes = s.outcomes ++ Outcome.hot pts ∷ [] })
        else put_orbit pts values (some at) s

    -- The bad columns, for a candidate that stands in one.
    unfoldable pub try_column : Bool → ℤ → Search → Bool × Search
    unfolding test_badcol
    try_column stands col st = if stands then test_badcol col st else (false, st)

    -- Behind the test for a bad column: a candidate on one pixel counts it.
    unfoldable pub put_arc : List ℕ → List (Point D) → Bool → ℤ → ℤ → AFindPv D → Option (AFindPv D)
    unfolding count_pixel put_out
    put_arc pts values true col row s = count_pixel col row values s.doubts >>= λ p.
        put_out pts values (some p.1) (record s { doubts = p.0 })
    put_arc pts values false col row s = put_out pts values none s

    unfoldable pub put_candidate :
        List ℕ → List (Point D) → Bool → Bool → ℤ → ℤ → AFindPv D → Option (AFindPv D)
    unfolding put_arc
    put_candidate pts values true doubtable col row s =
        some (record s { outcomes = s.outcomes ++ Outcome.noise pts ∷ [] })
    put_candidate pts values false doubtable col row s = put_arc pts values doubtable col row s

    unfoldable pub candidate2object : List ℕ → AFindPv D → Option (AFindPv D)
    unfolding spread stands middle try_column put_candidate
    candidate2object pts s =
        let values = map s.points.cell pts in
        let n = pos (length values) in
        let xs = spread (map (λ (v : Point D). v.x) values) in
        let ys = spread (map (λ (v : Point D). v.y) values) in
        let col = middle xs.max xs.min in
        let row = middle ys.min ys.max in
        let (noise, search) = try_column (stands n xs) col s.search in
        put_candidate pts values noise (stands n xs && stands n ys) col row
          (record s { search = search })

    -- A new day has new directories, and its numbers begin again.
    unfoldable pub create_dir : Exposure D → AFindPv D → AFindPv D
    create_dir frame s =
        let day = m.trunc frame.mjd in
        let date = b.to_iso_string frame.tmmid in
        let path = b.append b.path_output date in
        let gtw = b.append (b.append b.path_output (codes "GTW")) date in
        if eqb_ℤ day s.mjdold then s else record s {
          mjdold = day;
          idpv = pos 0;
          sid = pos 1;
          utcdate = date;
          dirname = if b.create_directory path then path else s.dirname;
          dirgtw = if b.create_directory gtw then gtw else s.dirgtw;
          doubts = [];
        }
