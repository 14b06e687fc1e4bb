-- ===== src/Daemon/Finders.antt =====
-- The finders of moving objects, one for each camera: get_finder of airs/src/DoProcess.cpp, and what
-- airs/src/AFindPV.cpp does with the ids and the queue.
use airs.Base.{
  ℕ, zero, suc, List, [], ◌∷◌, ◌++◌, Bool, false, ◌&&◌, not, length, ◌==◌, if◌then◌else◌,
}
use airs.Base.Text.{Text}
use airs.Daemon.Frame.{OneFrame}
use airs.Daemon.Receive.{same_text}

-- AFindPV, with `busy` for a frame that is being worked on (frmprev_ or frmnow_).
pub record Finder (D : Type 0) : Type 0 where
  pub gid : Text
  pub uid : Text
  pub cid : Text
  pub frmque : List (OneFrame D)
  pub busy : Bool

module _ {D : Type 0} where
  -- A new AFindPV, and SetIDs.
  unfoldable pub set_ids : Text → Text → Text → Finder D
  set_ids g u c = record { gid = g; uid = u; cid = c; frmque = []; busy = false }

  unfoldable pub is_matched : Text → Text → Text → Finder D → Bool
  unfolding same_text
  is_matched g u c x = same_text x.gid g && (same_text x.uid u && same_text x.cid c)

  unfoldable pub finder_is_over : Finder D → Bool
  finder_is_over x = elim x.frmque [ [] ↦ not x.busy | _ ∷ _ ↦ false ]

  -- The first position with a finder that matches, or the end.
  unfoldable pub find_finder : OneFrame D → List (Finder D) → ℕ
  unfolding is_matched
  find_finder f [] = 0
  find_finder f (x ∷ xs) =
      let later = suc (find_finder f xs) in if is_matched f.gid f.uid f.cid x then 0 else later

  -- The finders, and the position of the one for the frame.
  unfoldable pub get_finder : OneFrame D → List (Finder D) → List (Finder D) × ℕ
  unfolding find_finder set_ids
  get_finder f xs =
      let at = find_finder f xs in
      if at == length xs then (xs ++ set_ids f.gid f.uid f.cid ∷ [], at) else (xs, at)

  -- AFindPV::NewFrame of the finder at a position.
  unfoldable pub new_frame : OneFrame D → ℕ → List (Finder D) → List (Finder D)
  new_frame f at [] = []
  new_frame f zero (x ∷ xs) = record x { frmque = x.frmque ++ f ∷ [] } ∷ xs
  new_frame f (suc at) (x ∷ xs) = x ∷ new_frame f at xs
