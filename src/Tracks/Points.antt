-- ===== src/Tracks/Points.antt =====
-- pv_point and pv_frame of airs/src/AFindPV.h. Points are shared: a pointer is a number, and a store
-- holds the points that have been made. What is read of OneFrame and ObjectInfo of
-- airs/src/airsdata.h is Exposure and ObjectInfo.
use airs.Base.{ℕ, suc, List, Bool, ◌==◌, if◌then◌else◌}
use airs.Base.Int.{ℤ, pos, ◌+ℤ◌, ◌-ℤ◌}
use airs.Base.Text.{Text}

pub record Point (D : Type 0) : Type 0 where
  pub filename : Text
  pub tmmid : Text
  pub fno : ℤ
  pub mjd : D
  pub id : ℤ
  pub related : ℤ
  pub matched : ℤ
  pub x : D
  pub y : D
  pub ra : D
  pub dc : D
  pub mag : D
  pub magerr : D
  pub snr : D
  pub corrected : Bool

pub record ObjectInfo (D : Type 0) : Type 0 where
  pub id : ℤ
  pub x : D
  pub y : D
  pub mag : D
  pub magerr : D
  pub ra_fit : D
  pub dec_fit : D
  pub matched : ℤ

pub record Exposure (D : Type 0) : Type 0 where
  pub filename : Text
  pub tmmid : Text
  pub gid : Text
  pub uid : Text
  pub cid : Text
  pub wimg : ℤ
  pub himg : ℤ
  pub fno : ℤ
  pub mjd : D
  pub secofday : D
  pub rac : D
  pub decc : D
  pub nfobjs : List (ObjectInfo D)

pub record PvFrame (D : Type 0) : Type 0 where
  pub xmin : D
  pub xmax : D
  pub ymin : D
  pub ymax : D
  pub mjd : D
  pub secofday : D
  pub rac : D
  pub decc : D
  pub pts : List ℕ

-- The points from `next` on are not made yet; what their cells hold does not matter.
pub record Store (D : Type 0) : Type 0 where
  pub next : ℕ
  pub cell : ℕ → Point D

module _ {D : Type 0} where
  abbrev pub update : ℕ → (Point D → Point D) → Store D → Store D
  update p f st = record st { cell = λ q. if q == p then f (st.cell q) else st.cell q }

  -- make_shared.
  abbrev pub make : Point D → Store D → Store D
  make v st = record st { next = suc st.next; cell = λ q. if q == st.next then v else st.cell q }

  unfoldable pub inc_rel : ℕ → Store D → Store D
  inc_rel p st = update p (λ v. record v { related = v.related +ℤ pos 1 }) st

  unfoldable pub dec_rel : ℕ → Store D → Store D
  dec_rel p st = update p (λ v. record v { related = v.related -ℤ pos 1 }) st

  unfoldable pub set_matched : ℤ → ℕ → Store D → Store D
  set_matched k p st = update p (λ v. record v { matched = k }) st
