-- ===== src/Tracks/Sequence.antt =====
-- The candidates of AFindPV in airs/src/AFindPV.cpp, its sequences of frames, and its thread.
use airs.Base.{
  ℕ, List, [], ◌∷◌, ◌++◌, Bool, ◌&&◌, ◌||◌, not, Option, none, some, if◌then◌else◌, map,
}
use airs.Base.Int.{pos, ltb_ℤ, eqb_ℤ}
use airs.Base.Text.{Text}
use airs.Badmark.Suspects.{remove_badpix}
use airs.Badmark.Doubts.{Doubt, is_bad, forget_paths}
use airs.Doubles.{Doubles}
use airs.Base.Faults.{◌>>=◌}
use airs.Tracks.Points.{Point, ObjectInfo, Exposure, PvFrame, Store}
use airs.Tracks.Candidate.{Candidate, create, xy_expect, add_point, update_candidate, complete}
use airs.Tracks.Finder.{AFindPv, Boost, int_max}
use airs.Tracks.Output.{candidate2object, create_dir}
use airs.Tracks.Matching.{begin_frame, cross_match, is_set}

module _ (m : Doubles) where
  abbrev D : Type 0
  D = m.real.Double

  unfoldable pub in_rect : PvFrame D → D → D → Bool
  in_rect f x y = m.le f.xmin x && m.le x f.xmax && m.le f.ymin y && m.le y f.ymax

  abbrev free : Point D → Bool
  free v = not (is_set v.matched || is_set v.related)

  unfoldable pub close : Point D → Point D → Bool
  close a b =
      let far = m.real.of_int (pos 150) in
      m.le (m.fabs (m.real.sub b.x a.x)) far && m.le (m.fabs (m.real.sub b.y a.y)) far

  -- create_candidates: for one point of the last frame, and for all of them.
  unfoldable pub pairs_with : Store D → ℕ → List ℕ → List (Candidate D)
  unfolding create close
  pairs_with st p [] = []
  pairs_with st p (q ∷ qs) =
      let later = pairs_with st p qs in
      if free (st.cell q) && close (st.cell p) (st.cell q) then create m st p q ∷ later else later

  unfoldable pub pairs : Store D → List ℕ → List ℕ → List (Candidate D)
  unfolding pairs_with
  pairs st [] now = []
  pairs st (p ∷ ps) now =
      let later = pairs st ps now in
      if free (st.cell p) then pairs_with st p now ++ later else later

  unfoldable pub create_from : Option (PvFrame D) → Option (PvFrame D) → AFindPv D → AFindPv D
  unfolding pairs
  create_from none now s = s
  create_from (some prev) none s = s
  create_from (some prev) (some now) s = record s {
    cans = s.cans ++ pairs s.points prev.pts now.pts;
  }

  unfoldable pub create_candidates : AFindPv D → AFindPv D
  unfolding create_from
  create_candidates s = create_from s.frmprev s.frmnow s

  unfoldable pub add_points : Store D → List ℕ → Candidate D → Option (Candidate D)
  unfolding add_point
  add_points st [] c = some c
  add_points st (p ∷ ps) c =
      (if is_set (st.cell p).matched then some c else add_point m st p c) >>= λ d.
      add_points st ps d

  unfoldable pub append_all :
      List ℕ → List (Candidate D) → Store D → Option (List (Candidate D) × Store D)
  unfolding add_points update_candidate
  append_all pts [] st = some ([], st)
  append_all pts (c ∷ cs) st = do
    d ← add_points st pts c
    e ← update_candidate m d st
    later ← append_all pts cs e.1
    some (e.0 ∷ later.0, later.1)

  unfoldable pub append_candidates : List ℕ → AFindPv D → Option (AFindPv D)
  unfolding append_all
  append_candidates pts s = do
    (cans, points) ← append_all pts s.cans s.points
    some (record s { cans = cans; points = points })

  module _ (b : Boost D) where
    -- A candidate at its end: complete, and candidate2object if it is a track.
    unfoldable pub finish_candidate : Candidate D → AFindPv D → Option (AFindPv D)
    unfolding complete candidate2object
    finish_candidate c s =
        let (ok, d, st) = complete m c s.points in
        let t = record s { points = st } in if ok then candidate2object m b d.pts t else some t

    -- The candidates that are expected inside the frame, and the others at their end.
    unfoldable pub recheck :
        PvFrame D → List (Candidate D) → AFindPv D → Option (List (Candidate D) × AFindPv D)
    unfolding finish_candidate in_rect xy_expect
    recheck now [] s = some ([], s)
    recheck now (c ∷ cs) s = xy_expect m s.points now.mjd c >>= λ e.
        if in_rect now e.0 e.1
        then (recheck now cs s >>= λ later. some (c ∷ later.0, later.1))
        else (finish_candidate c s >>= λ t. recheck now cs t)

    unfoldable pub recheck_candidates : PvFrame D → AFindPv D → Option (AFindPv D)
    unfolding recheck
    recheck_candidates now s = do (cans, t) ← recheck now s.cans s; some (record t { cans = cans })

    -- The first loop of complete_candidates: the candidates that are tracks.
    unfoldable pub complete_all : List (Candidate D) → Store D → List (Candidate D) × Store D
    unfolding complete
    complete_all [] st = ([], st)
    complete_all (c ∷ cs) st =
        let (ok, d, left) = complete m c st in
        let later = complete_all cs left in (if ok then d ∷ later.0 else later.0, later.1)

    unfoldable pub all_objects : List (Candidate D) → AFindPv D → Option (AFindPv D)
    unfolding candidate2object
    all_objects [] s = some s
    all_objects (c ∷ cs) s = candidate2object m b c.pts s >>= λ t. all_objects cs t

    unfoldable pub complete_candidates : AFindPv D → Option (AFindPv D)
    unfolding complete_all all_objects
    complete_candidates s =
        let (cans, points) = complete_all s.cans s.points in
        all_objects cans (record s { cans = cans; points = points })

    unfoldable pub end_sequence : AFindPv D → Option (AFindPv D)
    unfolding complete_candidates
    end_sequence s =
        if eqb_ℤ s.last_fno int_max
        then some s
        else (complete_candidates s >>= λ t. some (record t {
          frmprev = none;
          frmnow = none;
          cans = [];
          search = record t.search { uncbadcol = [] };
        }))

    unfoldable pub new_sequence : AFindPv D → AFindPv D
    new_sequence s = record s { last_fno = int_max }

    -- With points in the frame, they join candidates and make new ones.
    unfoldable pub grow : List ℕ → AFindPv D → Option (AFindPv D)
    unfolding append_candidates create_candidates
    grow [] s = some s
    grow (p ∷ ps) s = append_candidates (p ∷ ps) s >>= λ t. some (create_candidates t)

    unfoldable pub end_with : Option (PvFrame D) → AFindPv D → Option (AFindPv D)
    unfolding recheck_candidates grow
    end_with none s = none
    end_with (some now) s = recheck_candidates now s >>= λ t. grow now.pts t

    unfoldable pub end_frame : AFindPv D → Option (AFindPv D)
    unfolding end_with
    end_frame s = end_with s.frmnow s

    abbrev both : List Text → List Text → List Text
    both [] gtw = []
    both (t ∷ ts) [] = t ∷ both ts []
    both (t ∷ ts) (g ∷ gs) = t ∷ g ∷ both ts gs

    -- The files of the pixels that are bad, and the set without paths.
    unfoldable pub removed_files : List Doubt → List Text
    unfolding is_bad
    removed_files [] = []
    removed_files (d ∷ ds) =
        let later = removed_files ds in
        if is_bad d then both d.pathtxt d.pathgtw ++ later else later

    unfoldable pub recheck_doubt : AFindPv D → AFindPv D
    unfolding removed_files forget_paths
    recheck_doubt s =
        let sorted = b.sort_doubts s.doubts in
        record s { doubts = map forget_paths sorted; removed = s.removed ++ removed_files sorted }

    unfoldable pub without_badpix : Exposure D → AFindPv D → Exposure D
    unfolding remove_badpix
    without_badpix frame s =
        let column = λ (o : ObjectInfo D). m.trunc (m.real.add o.x (m.real.lit "0.5")) in
        record frame {
          nfobjs = remove_badpix column frame.gid frame.uid frame.cid s.search.par frame.nfobjs;
        }

    -- A frame that begins a sequence anew has a smaller number than the last one.
    unfoldable pub enter_sequence : Exposure D → AFindPv D → Option (AFindPv D)
    unfolding end_sequence new_sequence create_dir
    enter_sequence frame s =
        if ltb_ℤ frame.fno s.last_fno
        then (end_sequence s >>= λ t. some (create_dir m b frame (new_sequence t)))
        else some s

    unfoldable pub process : Exposure D → AFindPv D → Option (AFindPv D)
    unfolding enter_sequence without_badpix begin_frame cross_match end_frame
    process frame s = do
      t ← enter_sequence frame s
      (go, u) ← cross_match m (begin_frame m b (without_badpix frame t) t)
      if go then end_frame u else some u

    -- A round that finds no frame ends the sequence.
    unfoldable pub idle : AFindPv D → Option (AFindPv D)
    unfolding end_sequence recheck_doubt
    idle s =
        if eqb_ℤ s.last_fno int_max
        then some s
        else (end_sequence s >>= λ t. some (record (recheck_doubt t) { last_fno = int_max }))

    -- One round of thread_newframe, from the queue on.
    unfoldable pub thread_round : AFindPv D → Option (AFindPv D)
    unfolding process idle
    thread_round s = elim s.frmque [
      | [] ↦ idle s
      | frame ∷ rest ↦ process frame (record s { frmque = rest })
    ]
