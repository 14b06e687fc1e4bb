-- ===== src/Tracks/Thread.antt =====
-- The rounds of AFindPV's thread in airs/src/AFindPV.cpp, and frames that arrive, as a run of events.
use airs.Base.{List, [], ◌∷◌, ◌++◌, Option, some}
use airs.Doubles.{Doubles}
use airs.Base.Faults.{◌>>=◌}
use airs.Tracks.Points.{Exposure}
use airs.Tracks.Finder.{AFindPv, Boost}
use airs.Tracks.Sequence.{thread_round}

-- A frame arrives, or the thread makes a round.
pub data Event (D : Type 0) : Type 0 where
  arrive : Exposure D → Event D
  wake : Event D

module _ (m : Doubles) (b : Boost m.real.Double) where
  abbrev D : Type 0
  D = m.real.Double

  unfoldable pub step : Event D → AFindPv D → Option (AFindPv D)
  unfolding thread_round
  step (Event.arrive frame) s = some (record s { frmque = s.frmque ++ frame ∷ [] })
  step Event.wake s = thread_round m b s

  unfoldable pub run : List (Event D) → AFindPv D → Option (AFindPv D)
  unfolding step
  run [] s = some s
  run (e ∷ es) s = step e s >>= λ t. run es t
